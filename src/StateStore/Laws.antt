-- ===== src/StateStore/Laws.antt =====
-- What the operations of src/db/mod.rs do to the values that a caller can read.
use rust_matching_engine.Prelude.{
  unwrap_or, ℕ, ◌+◌, ◌-◌, ◌≤◌, ◌<◌, ◌≡◌, ◌⊎◌, inl, inr, if_pos, if_neg, leb, ltb, ltb→lt,
  Bool-cases, if◌then◌else◌, ap, ◌∙◌, ite, arith, add64-eq-add, sub64, sub64-eq-sub, u64_mod, ok,
  err,
}
use rust_matching_engine.HashMap.{
  HashMap, get-insert, bytes_key, pair_key, Bytes, bytes_eq, pair_eq,
}
use rust_matching_engine.HashMap
use rust_matching_engine.Domain.Market.{Str}
use rust_matching_engine.Domain.Order.{OrderHash}
use rust_matching_engine.StateStore.{
  StateStore, apply_fill, filled_amount, last_nonce, check_and_update_nonce, balance, debit, bump,
}

abbrev amount : HashMap OrderHash ℕ → OrderHash → ℕ
amount m h = unwrap_or (HashMap.get m h) 0

amount-bump :
    (m : HashMap OrderHash ℕ) (k h : OrderHash) (qty : ℕ)
    → amount m h + qty < u64_mod
    → amount (bump m k qty) h ≡ amount m h + ite (bytes_eq k h) qty 0
unfolding bump
amount-bump m k h qty fits = elim (bytes_eq k h) [
  | yes e ↦ rw (get-insert, if_pos _ e, if_pos _ e, e) (add64-eq-add (amount m h) qty fits)
  | no e ↦ rw (get-insert, if_neg _ e, if_neg _ e) (omega arith)
]

-- While the amounts do not reach 2 ^ 64, one fill adds its quantity to the amount of the taker and
-- to the amount of the maker (twice, if they are one hash), and leaves every other amount.
pub apply_fill_amounts :
    (s : StateStore) (taker maker h : OrderHash) (qty : ℕ)
    → filled_amount s h + qty + qty < u64_mod
    → filled_amount (apply_fill s taker maker qty) h
      ≡ filled_amount s h + ite (bytes_eq taker h) qty 0 + ite (bytes_eq maker h) qty 0
unfolding filled_amount apply_fill
apply_fill_amounts s taker maker h qty fits =
    let one = amount-bump s.filled_amounts taker h qty (omega arith) in
    amount-bump (bump s.filled_amounts taker qty) maker h qty (ground (arith, one))
    ∙ ap (λ (n : ℕ). n + ite (bytes_eq maker h) qty 0) one

-- A nonce is accepted exactly when it is above the last one of its trader. Then it is the trader's
-- last nonce and the last nonces of the other traders stay, and the refusal tells both numbers.
pub check_and_update_nonce_lem :
    (s : StateStore) (trader : Str) (nonce : ℕ)
    → ((nonce ≤ last_nonce s trader)
        × (check_and_update_nonce s trader nonce
            ≡ err (record { last_nonce = last_nonce s trader; submitted = nonce })))
      ⊎ ((t : StateStore) × (last_nonce s trader < nonce)
          × (check_and_update_nonce s trader nonce ≡ ok t)
          × ((other : Str)
              → last_nonce t other ≡ ite (bytes_eq trader other) nonce (last_nonce s other)))
unfolding check_and_update_nonce last_nonce
check_and_update_nonce_lem s trader nonce =
    elim (Bool-cases (leb nonce (unwrap_or (HashMap.get s.nonces trader) 0))) [
      | inl low ↦ inl (ground arith, ground arith)
      | inr high ↦ inr (
        record s { nonces = HashMap.insert s.nonces trader nonce },
        ground arith,
        ground arith,
        λ other. ground (arith, get-insert s.nonces trader other nonce),
      )
    ]

-- A nonce that was just accepted for a trader is refused when it is submitted again.
pub nonce_once :
    (s t : StateStore) (trader : Str) (nonce : ℕ)
    → check_and_update_nonce s trader nonce ≡ ok t
    → check_and_update_nonce t trader nonce ≡ err (record { last_nonce = nonce; submitted = nonce })
unfolding check_and_update_nonce
nonce_once s t trader nonce e = ground (arith, get-insert s.nonces trader trader nonce)

balance_after :
    (s : StateStore) (k : Str × Str) (v : ℕ) (trader asset : Str)
    → balance (record s { balances = HashMap.insert s.balances k v }) trader asset
      ≡ ite (pair_eq k (trader, asset)) v (balance s trader asset)
unfolding balance
balance_after s k v trader asset = ground (arith, get-insert s.balances k (trader, asset) v)

debit_state :
    (s : StateStore) (trader asset : Str) (amount : ℕ)
    → (debit s trader asset amount).1 ≡ record s {
      balances =
          HashMap.insert s.balances
            (trader, asset)
            (if ltb (balance s trader asset) amount
              then balance s trader asset
              else sub64 (balance s trader asset) amount);
    }
unfolding debit balance
debit_state s trader asset amount = ground arith

-- A debit succeeds exactly when the balance covers the amount: then it takes the amount from that
-- balance and leaves the others. Otherwise it says what there was, and no balance changes.
pub debit_lem :
    (s : StateStore) (trader asset : Str) (amount : ℕ)
    → balance s trader asset < u64_mod
    → ((amount ≤ balance s trader asset)
        × ((debit s trader asset amount).0 ≡ ok tt)
        × ((t a : Str)
            → balance (debit s trader asset amount).1 t a
              ≡ ite
                  (pair_eq (trader, asset) (t, a))
                  (balance s trader asset - amount)
                  (balance s t a)))
      ⊎ ((balance s trader asset < amount)
          × ((debit s trader asset amount).0
              ≡ err (record { available = balance s trader asset; required = amount }))
          × ((t a : Str) → balance (debit s trader asset amount).1 t a ≡ balance s t a))
debit_lem s trader asset amount fits =
    let b : ℕ = balance s trader asset in
    let after = λ (t a : Str).
      balance_after s (trader, asset) (if ltb b amount then b else sub64 b amount) t a in
    elim (Bool-cases (ltb b amount)) [
      | inl short ↦ inr (
        ltb→lt b amount short,
        unfold debit balance in rw short,
        λ t a. rw debit_state (ground (arith, after t a)),
      )
      | inr covered ↦ inl (
        ground arith,
        unfold debit balance in rw covered,
        λ t a. rw debit_state (ground (arith, after t a, sub64-eq-sub b amount)),
      )
    ]
