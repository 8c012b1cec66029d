-- ===== src/StateStore.antt =====
-- The state store: fills, cancels, nonces and balances (src/db/mod.rs).
pub mod Laws
pub mod Checksum
use rust_matching_engine.Prelude.{
  ℕ, Option, none, some, List, [], ◌∷◌, ◌++◌, add64, sub64, leb, ltb, if◌then◌else◌, Bool, true,
  false, Result, ok, err, unwrap_or,
}
use rust_matching_engine.HashMap.{HashMap, Bytes, bytes_key, pair_key}
use rust_matching_engine.HashMap
use rust_matching_engine.Domain.Market.{Str}
use rust_matching_engine.Domain.Order.{OrderHash}

pub record StateStore : Type 0 where
  pub filled_amounts : HashMap OrderHash ℕ
  pub cancelled : HashMap OrderHash Bool
  pub nonces : HashMap Str ℕ
  pub balances : HashMap (Str × Str) ℕ

pub record NonceError : Type 0 where
  pub last_nonce : ℕ
  pub submitted : ℕ

pub record InsufficientFunds : Type 0 where
  pub available : ℕ
  pub required : ℕ

unfoldable pub new : StateStore
new = record { filled_amounts = []; cancelled = []; nonces = []; balances = [] }

-- `*map.entry(hash).or_insert(0) += qty`
unfoldable pub bump : HashMap OrderHash ℕ → OrderHash → ℕ → HashMap OrderHash ℕ
bump m hash qty = HashMap.insert m hash (add64 (unwrap_or (HashMap.get m hash) 0) qty)

unfoldable pub apply_fill : StateStore → OrderHash → OrderHash → ℕ → StateStore
unfolding bump
apply_fill s taker_hash maker_hash qty = record s {
  filled_amounts = bump (bump s.filled_amounts taker_hash qty) maker_hash qty;
}

unfoldable pub filled_amount : StateStore → OrderHash → ℕ
filled_amount s order_hash = unwrap_or (HashMap.get s.filled_amounts order_hash) 0

unfoldable pub cancel_order : StateStore → OrderHash → StateStore
cancel_order s order_hash = record s { cancelled = HashMap.insert s.cancelled order_hash true }

unfoldable pub is_cancelled : StateStore → OrderHash → Bool
is_cancelled s order_hash = unwrap_or (HashMap.get s.cancelled order_hash) false

unfoldable pub last_nonce : StateStore → Str → ℕ
last_nonce s trader_id = unwrap_or (HashMap.get s.nonces trader_id) 0

unfoldable pub check_and_update_nonce : StateStore → Str → ℕ → Result NonceError StateStore
check_and_update_nonce s trader_id nonce =
    let last = unwrap_or (HashMap.get s.nonces trader_id) 0 in
    if leb nonce last
    then err (record { last_nonce = last; submitted = nonce })
    else ok (record s { nonces = HashMap.insert s.nonces trader_id nonce })

unfoldable pub balance : StateStore → Str → Str → ℕ
balance s trader_id asset = unwrap_or (HashMap.get s.balances (trader_id, asset)) 0

unfoldable pub credit : StateStore → Str → Str → ℕ → StateStore
credit s trader_id asset amount = record s {
  balances =
      HashMap.insert s.balances (trader_id, asset)
        (add64 (unwrap_or (HashMap.get s.balances (trader_id, asset)) 0) amount);
}

-- `entry(..).or_insert(0)` leaves an entry also where the debit fails.
unfoldable pub debit : StateStore → Str → Str → ℕ → Result InsufficientFunds (Unit {0}) × StateStore
debit s trader_id asset amount =
    let b = unwrap_or (HashMap.get s.balances (trader_id, asset)) 0 in
    if ltb b amount
    then (
      err (record { available = b; required = amount }),
      record s { balances = HashMap.insert s.balances (trader_id, asset) b },
    )
    else (
      ok tt,
      record s { balances = HashMap.insert s.balances (trader_id, asset) (sub64 b amount) },
    )
