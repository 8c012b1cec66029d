-- ===== src/Domain/Order/Canonical.antt =====
-- The canonical bytes of src/domain/order.rs determine the order.
use rust_matching_engine.Prelude.{
  ℕ, zero, suc, ◌/◌, ◌%◌, ◌^◌, ◌<◌, ◌≡◌, refl, sym, ◌∙◌, [], ◌∷◌, ◌++◌, arith, length, append_assoc,
}
use rust_matching_engine.HashMap.{Bytes}
use rust_matching_engine.Domain.Order.{
  SignedOrder, Side, TimeInForce, gtc, to_be_bytes, prefixed, side_byte, canonical_bytes,
}
use native.Mathlib.Nat.{pow-suc}

-- A word of `w` bytes can be read back, whatever follows.
to_be_bytes-inj :
    (w n m : ℕ) (r s : Bytes)
    → n < 256 ^ w
    → m < 256 ^ w
    → to_be_bytes w n ++ r ≡ to_be_bytes w m ++ s
    → (n ≡ m) × (r ≡ s)
unfolding to_be_bytes
to_be_bytes-inj zero n m r s hn hm e = (omega arith, e)
to_be_bytes-inj (suc w) n m r s hn hm e =
    let h =
      to_be_bytes-inj w (n / 256) (m / 256) (n % 256 ∷ r) (m % 256 ∷ s)
        (omega (arith, pow-suc 256 w)) (omega (arith, pow-suc 256 w))
        (sym (append_assoc (to_be_bytes w (n / 256)) _ _)
          ∙ e
          ∙ append_assoc (to_be_bytes w (m / 256)) _ _) in
    ground arith

split_text : (a b r s : Bytes) → length a ≡ length b → a ++ r ≡ b ++ s → (a ≡ b) × (r ≡ s)
split_text [] [] r s h e = (refl, e)
split_text [] (y ∷ b) r s h e = absurd (omega arith)
split_text (x ∷ a) [] r s h e = absurd (omega arith)
split_text (x ∷ a) (y ∷ b) r s h e = let h' = split_text a b r s (omega arith) (cc) in ground arith

-- So can a text of less than 2 ^ 16 bytes behind its length.
prefixed-inj :
    (a b r s : Bytes)
    → length a < 2 ^ 16
    → length b < 2 ^ 16
    → prefixed a ++ r ≡ prefixed b ++ s
    → (a ≡ b) × (r ≡ s)
unfolding prefixed
prefixed-inj a b r s ha hb e =
    let h =
      to_be_bytes-inj 2 (length a % 2 ^ 16) (length b % 2 ^ 16) (a ++ r) (b ++ s) (omega arith)
        (omega arith)
        (sym (append_assoc (to_be_bytes 2 (length a % 2 ^ 16)) a r)
          ∙ e
          ∙ append_assoc (to_be_bytes 2 (length b % 2 ^ 16)) b s) in
    split_text a b r s (omega arith) h.1

cons-inj : (x y : ℕ) (r s : Bytes) → x ∷ r ≡ y ∷ s → (x ≡ y) × (r ≡ s)
cons-inj x y r s e = (cc, cc)

side_byte-inj : (a b : Side) → side_byte a ≡ side_byte b → a ≡ b
unfolding side_byte
side_byte-inj a b e = ground arith

tif_eq : (a b : TimeInForce) → a ≡ b
tif_eq gtc gtc = refl

-- The ranges that the Rust types give, and texts whose length fits its two-byte prefix.
pub record Fits (s : SignedOrder) : Type 0 where
  pub version : s.schema_version < 2 ^ 16
  pub market : length s.market_id < 2 ^ 16
  pub trader : length s.trader_id < 2 ^ 16
  pub client : length s.client_order_id < 2 ^ 16
  pub price : s.price_ticks < 2 ^ 64
  pub size : s.size_lots < 2 ^ 64
  pub nonce : s.nonce < 2 ^ 64
  pub expiry : s.expiry_ts_ms < 2 ^ 64
  pub created : s.created_at_ms < 2 ^ 64
  pub salt : s.salt < 2 ^ 64

-- Everything but the signature agrees.
pub record SameContent (s t : SignedOrder) : Type 0 where
  pub version : s.schema_version ≡ t.schema_version
  pub market : s.market_id ≡ t.market_id
  pub trader : s.trader_id ≡ t.trader_id
  pub client : s.client_order_id ≡ t.client_order_id
  pub side : s.side ≡ t.side
  pub price : s.price_ticks ≡ t.price_ticks
  pub size : s.size_lots ≡ t.size_lots
  pub tif : s.time_in_force ≡ t.time_in_force
  pub nonce : s.nonce ≡ t.nonce
  pub expiry : s.expiry_ts_ms ≡ t.expiry_ts_ms
  pub created : s.created_at_ms ≡ t.created_at_ms
  pub salt : s.salt ≡ t.salt
  pub pubkey : s.trader_pubkey ≡ t.trader_pubkey

-- Two signed orders whose texts are shorter than 2 ^ 16 bytes and whose numbers fit their words
-- have the same canonical bytes only if they agree on everything but the signature.
pub canonical_bytes-injective :
    (s t : SignedOrder) → Fits s → Fits t → canonical_bytes s ≡ canonical_bytes t → SameContent s t
unfolding canonical_bytes
canonical_bytes-injective s t fs ft e =
    let a = to_be_bytes-inj 2 s.schema_version t.schema_version _ _ fs.version ft.version e in
    let b = prefixed-inj s.market_id t.market_id _ _ fs.market ft.market a.1 in
    let c = prefixed-inj s.trader_id t.trader_id _ _ fs.trader ft.trader b.1 in
    let d = prefixed-inj s.client_order_id t.client_order_id _ _ fs.client ft.client c.1 in
    let f = cons-inj _ _ _ _ d.1 in
    let g = to_be_bytes-inj 8 s.price_ticks t.price_ticks _ _ fs.price ft.price f.1 in
    let h = to_be_bytes-inj 8 s.size_lots t.size_lots _ _ fs.size ft.size g.1 in
    let i = cons-inj _ _ _ _ h.1 in
    let j = to_be_bytes-inj 8 s.nonce t.nonce _ _ fs.nonce ft.nonce i.1 in
    let k = to_be_bytes-inj 8 s.expiry_ts_ms t.expiry_ts_ms _ _ fs.expiry ft.expiry j.1 in
    let l = to_be_bytes-inj 8 s.created_at_ms t.created_at_ms _ _ fs.created ft.created k.1 in
    let m = to_be_bytes-inj 8 s.salt t.salt _ _ fs.salt ft.salt l.1 in
    record {
      version = a.0;
      market = b.0;
      trader = c.0;
      client = d.0;
      side = side_byte-inj s.side t.side f.0;
      price = g.0;
      size = h.0;
      tif = tif_eq s.time_in_force t.time_in_force;
      nonce = j.0;
      expiry = k.0;
      created = l.0;
      salt = m.0;
      pubkey = m.1;
    }
