-- ===== src/Engine/History.antt =====
-- What a submission leaves behind: the idempotency entry, the nonce and the log
-- (src/engine/mod.rs).
use rust_matching_engine.Prelude.{
  ℕ, ◌<◌, ◌≡◌, refl, sym, subst, ap, ◌∙◌, [], Option, some, none, true, false, inl, inr, ◌⊎◌,
  if_pos, Result, ok, err,
}
use rust_matching_engine.HashMap.{bytes_eq, bytes_key, pair_key}
use rust_matching_engine.Domain.Market.{Str}
use rust_matching_engine.Domain.Order.{Order, SignedOrder, Crypto, filled}
use rust_matching_engine.Sequencer.{IdempotencyRecord, peek_next_seq_id, idempotency_check}
use rust_matching_engine.Sequencer.Log.{IsNumbered}
use rust_matching_engine.StateStore.{StateStore, check_and_update_nonce, last_nonce}
use rust_matching_engine.StateStore.Laws.{check_and_update_nonce_lem}
use rust_matching_engine.Engine.{
  Engine, EngineError, OrderResult, Inputs, new_order, validate, find_order, duplicate_result,
  process_order,
}
use rust_matching_engine.Engine.Gates.{
  refused, duplicate, accepted, outcome, LeavesEntry, accept-LeavesEntry, accept-succeeds,
}

-- A submission that is refused leaves the engine as it was: no event, no nonce, no entry.
pub refused_unchanged :
    (x : Crypto) (i : Inputs) (s : SignedOrder) (e e' : Engine) (r : EngineError)
    → process_order x i s e ≡ some (err r, e')
    → e' ≡ e
refused_unchanged x i s e e' r h = elim (outcome x i s e) [
  | refused r' same ↦ cc
  | duplicate rec found same ↦ cc
  | accepted state fresh same ↦ absurd (
      accept-succeeds i (new_order x i (peek_next_seq_id e.sequencer) s)
        (record e { state = state }) e' r (sym same ∙ h))
]

nonce_taken :
    (s t : StateStore) (trader : Str) (nonce : ℕ)
    → check_and_update_nonce s trader nonce ≡ ok t
    → (last_nonce s trader < nonce) × (last_nonce t trader ≡ nonce)
nonce_taken s t trader nonce h = elim (check_and_update_nonce_lem s trader nonce) [
  | inl (_, stale) ↦ cc (stale, h)
  | inr (t', above, taken, nonces) ↦
      let same : t' ≡ t = cc (taken, h) in
      (
        above,
        ap (λ (z : StateStore). last_nonce z trader) (sym same)
            ∙ nonces trader
            ∙ if_pos (bytes_eq trader trader) refl _ _,
      )
]

same_nonces :
    (s t : StateStore) (trader : Str)
    → t.nonces ≡ s.nonces
    → last_nonce t trader ≡ last_nonce s trader
unfolding last_nonce
same_nonces s t trader h = rw h refl

-- A submission that is answered with a result is either a duplicate, whose answer repeats the
-- recorded sequence number, id and hash and leaves the engine as it was, or it is new: then its nonce
-- is above the last one of its trader and becomes the last one, and the idempotency table answers its
-- key with this sequence number, id and hash.
pub process_order_gates :
    (x : Crypto) (i : Inputs) (s : SignedOrder) (e e' : Engine) (r : OrderResult)
    → process_order x i s e ≡ some (ok r, e')
    → (rec : IdempotencyRecord) × (idempotency_check e'.sequencer s.trader_id s.client_order_id
        ≡ some rec)
      × (rec.original_seq_id ≡ r.seq_id)
      × (rec.order_id ≡ r.order_id)
      × (rec.order_hash ≡ r.order_hash)
      × (((r.is_duplicate ≡ true) × (e' ≡ e))
          ⊎ ((r.is_duplicate ≡ false)
              × (last_nonce e.state s.trader_id < s.nonce)
              × (last_nonce e'.state s.trader_id ≡ s.nonce)))
unfolding duplicate_result
process_order_gates x i s e e' r h = elim (outcome x i s e) [
  | refused r' same ↦ cc
  | duplicate rec found same ↦
      let both : ◌≡◌ {A = Result EngineError OrderResult × Engine} (ok (duplicate_result e rec), e)
          (ok r, e') =
        cc (same, h) in
      let here : e ≡ e' = ap (λ (z : Result EngineError OrderResult × Engine). z.1) both in
      let told : duplicate_result e rec ≡ r = cc both in
      (
        rec,
        ap (λ (z : Engine). idempotency_check z.sequencer s.trader_id s.client_order_id) (sym here)
            ∙ found,
        ap (λ (z : OrderResult). z.seq_id) told,
        ap (λ (z : OrderResult). z.order_id) told,
        ap (λ (z : OrderResult). z.order_hash) told,
        inl (ap (λ (z : OrderResult). z.is_duplicate) (sym told), sym here),
      )
  | accepted state fresh same ↦
      let o : Order = new_order x i (peek_next_seq_id e.sequencer) s in
      let (res, good, l) =
        accept-LeavesEntry i o (record e { state = state }) e' (ok r) (sym same ∙ h) in
      let told : r ≡ res = cc good in
      let (above, now) = nonce_taken e.state state s.trader_id s.nonce fresh in
      (
        record {
          original_seq_id = o.created_sequence;
          order_id = o.order_id;
          order_hash = o.order_hash;
          accepted_at_ms = i.now_ms;
        },
        entry l,
        sym (ap (λ (z : OrderResult). z.seq_id) told ∙ l.seq_id),
        sym (ap (λ (z : OrderResult). z.order_id) told ∙ l.order_id),
        sym (ap (λ (z : OrderResult). z.order_hash) told ∙ l.order_hash),
        inr (
          ap (λ (z : OrderResult). z.is_duplicate) told ∙ l.is_new,
          above,
          same_nonces state e'.state s.trader_id l.nonces ∙ now,
        ),
      )
]
  where
    entry :
        {e₀ : Engine} {res : OrderResult}
        → LeavesEntry i (new_order x i (peek_next_seq_id e.sequencer) s) e₀ e' res
        → idempotency_check e'.sequencer s.trader_id s.client_order_id
          ≡ some (record {
            original_seq_id = (new_order x i (peek_next_seq_id e.sequencer) s).created_sequence;
            order_id = (new_order x i (peek_next_seq_id e.sequencer) s).order_id;
            order_hash = (new_order x i (peek_next_seq_id e.sequencer) s).order_hash;
            accepted_at_ms = i.now_ms;
          })
    entry l = unfold new_order in l.entry

-- The status in the reply to a duplicate.
status-duplicate_result :
    (e : Engine) (rec : IdempotencyRecord)
    → ((o : Order)
        → find_order e rec.order_id ≡ some o
        → (duplicate_result e rec).final_status ≡ o.status)
      × (find_order e rec.order_id ≡ none → (duplicate_result e rec).final_status ≡ filled)
unfolding duplicate_result
status-duplicate_result e rec =
    ((λ o here. rw (here, duplicate_result) refl), (λ gone. rw (gone, duplicate_result) refl))

-- A submission that is sent again, on its answer, as long as it is still valid on its own: the
-- second answer is a duplicate with the same sequence number, id and hash, with no fills, whatever
-- the first answer had, and with the status that the order has by then in the book, or filled if it
-- is not there. The engine is left as it was.
pub resubmission :
    (x : Crypto) (i j : Inputs) (s : SignedOrder) (e e' : Engine) (r : OrderResult)
    → process_order x i s e ≡ some (ok r, e')
    → validate x j.now_ms e' s ≡ ok tt
    → (again : OrderResult) × (process_order x j s e' ≡ some (ok again, e'))
      × (again.is_duplicate ≡ true)
      × (again.seq_id ≡ r.seq_id)
      × (again.order_id ≡ r.order_id)
      × (again.order_hash ≡ r.order_hash)
      × (again.fills ≡ [])
      × ((o : Order) → find_order e' r.order_id ≡ some o → again.final_status ≡ o.status)
      × (find_order e' r.order_id ≡ none → again.final_status ≡ filled)
unfolding process_order duplicate_result
resubmission x i j s e e' r h good =
    let (rec, found, seq, id, hash, _) = process_order_gates x i s e e' r h in
    (
      duplicate_result e' rec,
      rw (good, found, process_order) refl,
      refl,
      seq,
      id,
      hash,
      refl,
      (λ o here. (status-duplicate_result e' rec).0 o (ap (find_order e') id ∙ here)),
      (λ gone. (status-duplicate_result e' rec).1 (ap (find_order e') id ∙ gone)),
    )

-- The events of the log are numbered one after another from 1 (as `u64`) after every submission that
-- returns, if they were before it.
pub process_order-IsNumbered :
    (x : Crypto) (i : Inputs) (s : SignedOrder) (e e' : Engine) (r : Result EngineError OrderResult)
    → process_order x i s e ≡ some (r, e')
    → IsNumbered e.sequencer
    → IsNumbered e'.sequencer
process_order-IsNumbered x i s e e' r h n = elim (outcome x i s e) [
  | refused r' same ↦ same_engine (sym same ∙ h)
  | duplicate rec found same ↦ same_engine (sym same ∙ h)
  | accepted state fresh same ↦
      let (res, good, l) =
        accept-LeavesEntry i (new_order x i (peek_next_seq_id e.sequencer) s)
          (record e { state = state }) e' r (sym same ∙ h) in
      l.numbering n
]
  where
    same_engine :
        {q : Result EngineError OrderResult}
        → ◌≡◌ {A = Option (Result EngineError OrderResult × Engine)} (some (q, e)) (some (r, e'))
        → IsNumbered e'.sequencer
    same_engine k = subst (λ (z : Engine). IsNumbered z.sequencer) same n
      where
        same : e ≡ e'
        same = cc k
