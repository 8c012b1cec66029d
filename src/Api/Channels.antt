-- ===== src/Api/Channels.antt =====
-- The channels on which an event is published (src/api/mod.rs).
use rust_matching_engine.Prelude.{
  ℕ, ◌≡◌, ◌≢◌, refl, sym, ap, ◌∙◌, ◌⊎◌, inl, inr, some, List, [], ◌∷◌, ite, map, Has, Distinct,
  arith,
}
use rust_matching_engine.HashMap.{bytes_eq}
use rust_matching_engine.Domain.Market.{Str}
use rust_matching_engine.Events.{
  Event, SequencedEvent, order_accepted, order_rejected, fill, order_cancelled, market_paused,
  market_resumed,
}
use rust_matching_engine.Pg.{Json}
use rust_matching_engine.Api.{
  WsEnvelope, envelope, book_channel, trades_channel, orders_channel, market_channel,
  cancels_channel, envelopes_of, from_sequenced,
}

-- The channels that an event concerns.
unfoldable pub Concerns : Event → Str → Type 0
Concerns (order_accepted o) c = (c ≡ book_channel o.market_id) ⊎ (c ≡ orders_channel o.trader_id)
Concerns (fill f) c =
    (c ≡ trades_channel f.market_id)
    ⊎ ((c ≡ orders_channel f.taker_trader_id) ⊎ (c ≡ orders_channel f.maker_trader_id))
Concerns (order_cancelled _ _ _) c = c ≡ cancels_channel
Concerns (order_rejected _ trader_id _) c = c ≡ orders_channel trader_id
Concerns (market_paused market_id _) c = c ≡ market_channel market_id
Concerns (market_resumed market_id _) c = c ≡ market_channel market_id

-- No channel stands twice, and the channels are those that satisfy the predicate.
pub record Fits (P : Str → Type 0) (cs : List Str) : Type 0 where
  pub distinct : Distinct cs
  pub sound : (c : Str) → Has cs c → P c
  pub complete : (c : Str) → P c → Has cs c

one-Fits : (a : Str) → Fits (λ c. c ≡ a) (a ∷ [])
one-Fits a = record {
  distinct = (tt, tt);
  sound = λ c h. elim h [ inl same ↦ sym same | inr none_ ↦ absurd none_ ];
  complete = λ c h. inl (sym h);
}

two-Fits : (a b : Str) → a ≢ b → Fits (λ c. (c ≡ a) ⊎ (c ≡ b)) (a ∷ b ∷ [])
two-Fits a b other = record {
  distinct = ((other, tt), (tt, tt));
  sound =
      λ c h. elim h [ inl same ↦ inl (sym same) | inr later ↦ inr ((one-Fits b).sound c later) ];
  complete = λ c h. elim h [ inl same ↦ inl (sym same) | inr same ↦ inr (inl (sym same)) ];
}

three-Fits :
    (a b k : Str)
    → a ≢ b
    → a ≢ k
    → b ≢ k
    → Fits (λ c. (c ≡ a) ⊎ ((c ≡ b) ⊎ (c ≡ k))) (a ∷ b ∷ k ∷ [])
three-Fits a b k ab ak bk = record {
  distinct = ((ab, (ak, tt)), (two-Fits b k bk).distinct);
  sound = λ c h. elim h [
    | inl same ↦ inl (sym same)
    | inr later ↦ inr ((two-Fits b k bk).sound c later)
  ];
  complete = λ c h. elim h [
    | inl same ↦ inl (sym same)
    | inr later ↦ inr ((two-Fits b k bk).complete c later)
  ];
}

-- A trader who trades with itself has one channel.
self-Fits : (a b k : Str) → a ≢ b → k ≡ b → Fits (λ c. (c ≡ a) ⊎ ((c ≡ b) ⊎ (c ≡ k))) (a ∷ b ∷ [])
self-Fits a b k ab kb = record {
  distinct = (two-Fits a b ab).distinct;
  sound =
      λ c h. elim ((two-Fits a b ab).sound c h) [ inl same ↦ inl same | inr same ↦ inr (inl same) ];
  complete = λ c h. (two-Fits a b ab).complete c (elim h [
    | inl same ↦ inl same
    | inr (inl same) ↦ inr same
    | inr (inr same) ↦ inr (same ∙ kb)
  ]);
}

abbrev first_byte : Str → ℕ
first_byte [] = 0
first_byte (b ∷ _) = b

trades≢orders : (m t : Str) → trades_channel m ≢ orders_channel t
trades≢orders m t h = let bytes : 116 ≡ 111 = ap first_byte h in omega (arith, bytes)

book≢orders : (m t : Str) → book_channel m ≢ orders_channel t
book≢orders m t h = let bytes : 98 ≡ 111 = ap first_byte h in omega (arith, bytes)

orders-injective : (a b : Str) → orders_channel a ≡ orders_channel b → a ≡ b
orders-injective a b h = cc h

module _ (json : Json) where
  abbrev pub channels : List (WsEnvelope json.Value) → List Str
  channels envs = map (λ (env : WsEnvelope json.Value). env.channel) envs

  fill-Fits :
      (a b k : WsEnvelope json.Value) (m t maker : Str) (d : Dec (maker ≡ t))
      → a.channel ≡ trades_channel m
      → b.channel ≡ orders_channel t
      → k.channel ≡ orders_channel maker
      → Fits
          (λ c. (c ≡ trades_channel m) ⊎ ((c ≡ orders_channel t) ⊎ (c ≡ orders_channel maker)))
          (channels (a ∷ b ∷ ite d [] (k ∷ [])))
  fill-Fits a b k m t maker (yes same) h i j =
      rw (h, i) (self-Fits _ _ _ (trades≢orders m t) (ap orders_channel same))
  fill-Fits a b k m t maker (no other) h i j =
      rw (h, i, j)
        (three-Fits _ _ _ (trades≢orders m t) (trades≢orders m maker)
          (λ e. other (sym (orders-injective t maker e))))

  envelopes_of-Fits :
      (se : SequencedEvent) (v : json.Value) (ev : Event)
      → Fits (Concerns ev) (channels (envelopes_of json se v ev))
  unfolding envelopes_of Concerns
  envelopes_of-Fits se v (order_accepted o) = two-Fits _ _ (book≢orders o.market_id o.trader_id)
  envelopes_of-Fits se v (fill f) =
      fill-Fits (envelope json se v "fill" (trades_channel f.market_id))
        (envelope json se v "fill" (orders_channel f.taker_trader_id))
        (envelope json se v "fill" (orders_channel f.maker_trader_id)) f.market_id f.taker_trader_id
        f.maker_trader_id (bytes_eq f.maker_trader_id f.taker_trader_id) refl refl refl
  envelopes_of-Fits se v (order_cancelled _ _ _) = one-Fits _
  envelopes_of-Fits se v (order_rejected _ trader _) = one-Fits _
  envelopes_of-Fits se v (market_paused m _) = one-Fits _
  envelopes_of-Fits se v (market_resumed m _) = one-Fits _

  -- An event whose payload can be written is published once on each channel that it concerns, and on
  -- no other: an accepted order on its book's and its trader's, a fill on its market's and on those of
  -- its traders, a cancel on the cancels', a rejection on its trader's, a change of status on its
  -- market's.
  pub from_sequenced-Fits :
      (se : SequencedEvent) (v : json.Value)
      → json.event_value se.event ≡ some v
      → Fits (Concerns se.event) (channels (from_sequenced json se))
  unfolding from_sequenced
  from_sequenced-Fits se v h = rw (h, from_sequenced) (envelopes_of-Fits se v se.event)
