-- ===== src/Domain/Order.antt =====
-- Orders and fills: the signed order, the live order and stateless validation
-- (src/domain/order.rs).
pub mod Canonical
use rust_matching_engine.Prelude.{
  ℕ, ◌%◌, Bool, true, false, not, ◌==◌, ◌&&◌, leb, if◌then◌else◌, Result, ok, err, guard, ◌>>=◌,
  ◌>>◌, sub64, List, [], ◌∷◌, ◌++◌, zero, suc, ◌/◌, ◌^◌, length,
}
use Prim.Native.String.{String}
use rust_matching_engine.HashMap.{Bytes}
use rust_matching_engine.Domain.Market.{Str, MarketId}

abbrev pub current_schema_version : ℕ
current_schema_version = 1

pub data Side : Type 0 where
  buy sell : Side

pub data TimeInForce : Type 0 where
  gtc : TimeInForce

pub data OrderStatus : Type 0 where
  open_ partially_filled filled cancelled cancelled_stp : OrderStatus

abbrev pub OrderHash : Type 0
OrderHash = Bytes

abbrev pub OrderId : Type 0
OrderId = Str

pub record SignedOrder : Type 0 where
  pub schema_version : ℕ
  pub client_order_id : Str
  pub market_id : MarketId
  pub trader_id : Str
  pub side : Side
  pub price_ticks : ℕ
  pub size_lots : ℕ
  pub time_in_force : TimeInForce
  pub nonce : ℕ
  pub expiry_ts_ms : ℕ
  pub created_at_ms : ℕ
  pub salt : ℕ
  pub trader_pubkey : Bytes
  pub signature : Bytes

pub record Order : Type 0 where
  pub order_id : OrderId
  pub client_order_id : Str
  pub order_hash : OrderHash
  pub market_id : MarketId
  pub trader_id : Str
  pub trader_pubkey : Bytes
  pub side : Side
  pub price_ticks : ℕ
  pub orig_size_lots : ℕ
  pub filled_size_lots : ℕ
  pub time_in_force : TimeInForce
  pub nonce : ℕ
  pub expiry_ts_ms : ℕ
  pub status : OrderStatus
  pub created_sequence : ℕ
  pub last_update_sequence : ℕ
  pub accepted_at_ms : ℕ

unfoldable pub remaining_size_lots : Order → ℕ
remaining_size_lots o = sub64 o.orig_size_lots o.filled_size_lots

unfoldable pub closed_status : OrderStatus → Bool
closed_status filled = true
closed_status cancelled = true
closed_status cancelled_stp = true
closed_status _ = false

unfoldable pub is_closed : Order → Bool
unfolding closed_status
is_closed o = closed_status o.status

pub record Fill : Type 0 where
  pub market_id : MarketId
  pub taker_order_id : OrderId
  pub taker_order_hash : OrderHash
  pub taker_trader_id : Str
  pub maker_order_id : OrderId
  pub maker_order_hash : OrderHash
  pub maker_trader_id : Str
  pub price_ticks : ℕ
  pub size_lots : ℕ
  pub sequence_id : ℕ
  pub executed_at_ms : ℕ

pub data OrderError : Type 0 where
  unsupported_schema_version : ℕ → OrderError
  empty_field : String → OrderError
  zero_price zero_size : OrderError
  expired : (expiry_ts_ms now_ms : ℕ) → OrderError
  invalid_public_key invalid_signature : OrderError
  invalid_tick : (price tick_size : ℕ) → OrderError
  invalid_lot : (size lot_size : ℕ) → OrderError
  nonce_invalid : (nonce last_nonce : ℕ) → OrderError
  duplicate_client_order_id market_not_found market_not_active : Str → OrderError
  trader_id_mismatch : OrderError

abbrev is_empty : Str → Bool
is_empty [] = true
is_empty (_ ∷ _) = false

unfoldable pub validate_fields : SignedOrder → ℕ → Result OrderError (Unit {0})
validate_fields s now_ms = do
  guard (s.schema_version == current_schema_version) (unsupported_schema_version s.schema_version)
  guard (not (is_empty s.market_id)) (empty_field "market_id")
  guard (not (is_empty s.trader_id)) (empty_field "trader_id")
  guard (not (is_empty s.client_order_id)) (empty_field "client_order_id")
  guard (not (s.price_ticks == 0)) zero_price
  guard (not (s.size_lots == 0)) zero_size
  guard (not (not (s.expiry_ts_ms == 0) && leb s.expiry_ts_ms now_ms))
      (expired s.expiry_ts_ms now_ms)
  ok tt

-- The functions of the crates sha2, ed25519-dalek and hex that the code calls.
pub record Crypto : Type 0 where
  -- `Sha256` over the bytes of all updates
  pub sha256 : Bytes → Bytes
  -- `VerifyingKey::from_bytes(..).is_ok()`
  pub key_is_valid : Bytes → Bool
  -- `verify(key, message, signature).is_ok()`
  pub verify : Bytes → Bytes → Bytes → Bool
  -- `hex::encode`
  pub hex_encode : Bytes → Str

-- `to_be_bytes` of a word of `w` bytes.
unfoldable pub to_be_bytes : ℕ → ℕ → Bytes
to_be_bytes zero n = []
to_be_bytes (suc w) n = to_be_bytes w (n / 256) ++ (n % 256) ∷ []

-- `b.len() as u16` and the bytes
unfoldable pub prefixed : Str → Bytes
unfolding to_be_bytes
prefixed b = to_be_bytes 2 (length b % 2 ^ 16) ++ b

unfoldable pub side_byte : Side → ℕ
side_byte buy = 0
side_byte sell = 1

unfoldable pub tif_byte : TimeInForce → ℕ
tif_byte gtc = 0

-- The bytes that `canonical_hash` feeds to the hash.
unfoldable pub canonical_bytes : SignedOrder → Bytes
unfolding to_be_bytes prefixed side_byte tif_byte
canonical_bytes s =
    to_be_bytes 2 s.schema_version
    ++ (prefixed s.market_id
        ++ (prefixed s.trader_id
            ++ (prefixed s.client_order_id
                ++ ((side_byte s.side ∷ [])
                    ++ (to_be_bytes 8 s.price_ticks
                        ++ (to_be_bytes 8 s.size_lots
                            ++ ((tif_byte s.time_in_force ∷ [])
                                ++ (to_be_bytes 8 s.nonce
                                    ++ (to_be_bytes 8 s.expiry_ts_ms
                                        ++ (to_be_bytes 8 s.created_at_ms
                                            ++ (to_be_bytes 8 s.salt ++ s.trader_pubkey)))))))))))

unfoldable pub canonical_hash : Crypto → SignedOrder → OrderHash
unfolding canonical_bytes
canonical_hash x s = x.sha256 (canonical_bytes s)

unfoldable pub verify_signature : Crypto → SignedOrder → Result OrderError (Unit {0})
unfolding canonical_hash
verify_signature x s = do
  guard (x.key_is_valid s.trader_pubkey) invalid_public_key
  guard (x.verify s.trader_pubkey (canonical_hash x s) s.signature) invalid_signature
  ok tt
