-- ===== src/Engine/Gates.antt =====
-- The three ways a submission goes, and what an accepted one leaves in the idempotency table, the
-- nonces and the log (src/engine/mod.rs).
use rust_matching_engine.Prelude.{
  ◌≡◌, ◌≢◌, refl, sym, subst, ap, ◌∙◌, List, [], ◌∷◌, some, false, inl, inr, Bool-cases,
  Option-cases, Result, Result-cases, ok, err,
}
use rust_matching_engine.HashMap.{HashMap, bytes_eq, bytes_key, pair_key}
use rust_matching_engine.HashMap
use rust_matching_engine.Domain.Order.{Order, SignedOrder, Crypto, Fill}
use rust_matching_engine.Events.{order_accepted, fill, order_cancelled, self_trade_prevention}
use rust_matching_engine.Sequencer.{
  IdempotencyRecord, peek_next_seq_id, idempotency_check, append_event, register_accepted,
}
use rust_matching_engine.Sequencer.Log.{
  IsNumbered, append_event-IsNumbered, register_accepted-IsNumbered,
}
use rust_matching_engine.StateStore.{StateStore, check_and_update_nonce, apply_fill, cancel_order}
use rust_matching_engine.Engine.Orderbook.{OrderBook}
use rust_matching_engine.Engine.Matching.{MatchState, match_order}
use rust_matching_engine.Engine.{
  Engine, EngineError, OrderResult, Inputs, append, record_fills, record_stp, is_stp, admit, settle,
  accept, new_order, validate, duplicate_result, process_order,
}

-- What the fills and the cancel of an order do not touch, and that they keep the log numbered.
pub record KeepsGates (e e' : Engine) : Type 0 where
  pub idempotency : e'.sequencer.idempotency ≡ e.sequencer.idempotency
  pub nonces : e'.state.nonces ≡ e.state.nonces
  pub numbering : IsNumbered e.sequencer → IsNumbered e'.sequencer

record_fills-KeepsGates :
    (i : Inputs) (fs : List Fill) (e : Engine) → KeepsGates e (record_fills i fs e)
unfolding record_fills
record_fills-KeepsGates i [] e = record { idempotency = refl; nonces = refl; numbering = λ n. n }
record_fills-KeepsGates i (f ∷ fs) e =
    let e₁ : Engine = record e {
      sequencer = append i e.sequencer (fill f);
      state = apply_fill e.state f.taker_order_hash f.maker_order_hash f.size_lots;
    } in
    let rest = record_fills-KeepsGates i fs e₁ in
    record {
      idempotency = rest.idempotency ∙ unfold append append_event in refl;
      nonces = rest.nonces ∙ unfold apply_fill in refl;
      numbering =
          λ n. rest.numbering (unfold append in append_event-IsNumbered e.sequencer _ (fill f) n);
    }

record_stp-KeepsGates : (i : Inputs) (o : Order) (e : Engine) → KeepsGates e (record_stp i o e)
unfolding record_stp
record_stp-KeepsGates i o e = elim (Bool-cases (is_stp o.status)) [
  | inr no_stp ↦ rw no_stp (record { idempotency = refl; nonces = refl; numbering = λ n. n })
  | inl stp ↦ rw stp (record {
    idempotency = unfold append append_event in refl;
    nonces = unfold cancel_order in refl;
    numbering = λ n.
        unfold append in
        append_event-IsNumbered e.sequencer _
          (order_cancelled o.order_id o.order_hash self_trade_prevention) n;
  })
]

settle-KeepsGates :
    (i : Inputs) (o : Order) (b : OrderBook) (e : Engine) → KeepsGates e (settle i o b e).1
unfolding settle
settle-KeepsGates i o b e =
    let m : MatchState = match_order b o o.created_sequence i.now_ms in
    let fills = record_fills-KeepsGates i m.fills e in
    let stp = record_stp-KeepsGates i m.taker (record_fills i m.fills e) in
    record {
      idempotency = stp.idempotency ∙ fills.idempotency;
      nonces = stp.nonces ∙ fills.nonces;
      numbering = λ n. stp.numbering (fills.numbering n);
    }

-- The three ways a submission goes.
pub data Outcome (x : Crypto) (i : Inputs) (s : SignedOrder) (e : Engine) : Type 0 where
  refused : (r : EngineError) → process_order x i s e ≡ some (err r, e) → Outcome x i s e
  duplicate :
      (r : IdempotencyRecord)
      → idempotency_check e.sequencer s.trader_id s.client_order_id ≡ some r
      → process_order x i s e ≡ some (ok (duplicate_result e r), e)
      → Outcome x i s e
  accepted :
      (state : StateStore)
      → check_and_update_nonce e.state s.trader_id s.nonce ≡ ok state
      → process_order x i s e
        ≡ accept i (new_order x i (peek_next_seq_id e.sequencer) s) (record e { state = state })
      → Outcome x i s e

pub outcome : (x : Crypto) (i : Inputs) (s : SignedOrder) (e : Engine) → Outcome x i s e
outcome x i s e = elim (Result-cases (validate x i.now_ms e s)) [
  | inr (r, bad) ↦ refused r (unfold process_order in rw (bad, process_order) refl)
  | inl (_, good) ↦
      elim (Option-cases (idempotency_check e.sequencer s.trader_id s.client_order_id)) [
        | inr (r, dup) ↦
            duplicate r dup (unfold process_order in rw (good, dup, process_order) refl)
        | inl new_ ↦ elim (Result-cases (check_and_update_nonce e.state s.trader_id s.nonce)) [
          | inr (n, stale) ↦
              refused (EngineError.nonce n)
                (unfold process_order in rw (good, new_, stale, process_order) refl)
          | inl (state, fresh) ↦
              accepted state fresh
                (unfold process_order in rw (good, new_, fresh, process_order) refl)
        ]
      ]
]

-- What an accepted order leaves at the gates.
pub record LeavesEntry (i : Inputs) (o : Order) (e e' : Engine) (r : OrderResult) : Type 0 where
  pub entry :
      idempotency_check e'.sequencer o.trader_id o.client_order_id
      ≡ some (record {
        original_seq_id = o.created_sequence;
        order_id = o.order_id;
        order_hash = o.order_hash;
        accepted_at_ms = i.now_ms;
      })
  pub nonces : e'.state.nonces ≡ e.state.nonces
  pub numbering : IsNumbered e.sequencer → IsNumbered e'.sequencer
  pub order_id : r.order_id ≡ o.order_id
  pub order_hash : r.order_hash ≡ o.order_hash
  pub seq_id : r.seq_id ≡ o.created_sequence
  pub is_new : r.is_duplicate ≡ false

settle-LeavesEntry :
    (i : Inputs) (o : Order) (b : OrderBook) (e : Engine)
    → LeavesEntry i o e (settle i o b (admit i e o)).1 (settle i o b (admit i e o)).0
settle-LeavesEntry i o b e =
    let gates = settle-KeepsGates i o b (admit i e o) in
    record {
      entry =
          unfold idempotency_check in
          rw gates.idempotency (
            unfold admit register_accepted in
            HashMap.get-insert_self _ (o.trader_id, o.client_order_id) _);
      nonces = gates.nonces ∙ unfold admit in refl;
      numbering = λ n. gates.numbering (
          unfold admit append in
          register_accepted-IsNumbered _ o.trader_id o.client_order_id o.created_sequence o.order_id
            o.order_hash i.now_ms (append_event-IsNumbered e.sequencer _ (order_accepted o) n));
      order_id = unfold settle in refl;
      order_hash = unfold settle in refl;
      seq_id = unfold settle in refl;
      is_new = unfold settle in refl;
    }

pub accept-LeavesEntry :
    (i : Inputs) (o : Order) (e e' : Engine) (r : Result EngineError OrderResult)
    → accept i o e ≡ some (r, e')
    → (res : OrderResult) × (r ≡ ok res) × LeavesEntry i o e e' res
accept-LeavesEntry i o e e' r = elim (Option-cases (HashMap.get (admit i e o).books o.market_id)) [
  | inl missing ↦ unfold accept in rw (missing, accept) (λ h. cc)
  | inr (b, found) ↦
      unfold accept in
      rw (found, accept)
        (λ h.
          let out = settle i o b (admit i e o) in
          let same : ◌≡◌ {A = Result EngineError OrderResult × Engine} (ok out.0, out.1) (r, e') =
            cc h in
          (
            out.0,
            ap (λ (z : Result EngineError OrderResult × Engine). z.0) (sym same),
            subst (λ (z : Result EngineError OrderResult × Engine). LeavesEntry i o e z.1 out.0)
                same (settle-LeavesEntry i o b e),
          ))
]

pub accept-succeeds :
    (i : Inputs) (o : Order) (e e' : Engine) (r : EngineError) → accept i o e ≢ some (err r, e')
accept-succeeds i o e e' r h = let (res, good, _) = accept-LeavesEntry i o e e' (err r) h in cc good
