-- ===== src/Replay/Tracks.antt =====
-- The state store of a replay follows the live one, event by event (src/replay/mod.rs and
-- src/engine/mod.rs).
use rust_matching_engine.Prelude.{
  ℕ, ◌&&◌, ◌==◌, ◌≡◌, ◌≢◌, refl, ap, ◌∙◌, ◌⊎◌, inl, inr, none, Option-cases, List, [], ◌∷◌, ◌++◌,
  false, not, add64, arith, Result, Result-cases, ok, err,
}
use rust_matching_engine.HashMap.{HashMap, bytes_key}
use rust_matching_engine.HashMap
use rust_matching_engine.Domain.Market.{Str}
use rust_matching_engine.Domain.Order.{Order, OrderId, OrderHash, Fill}
use rust_matching_engine.Events.{
  Event, SequencedEvent, CancelReason, order_accepted, order_cancelled, fill,
}
use rust_matching_engine.Sequencer.{Sequencer, append_event}
use rust_matching_engine.StateStore.{StateStore, apply_fill, cancel_order, check_and_update_nonce}
use rust_matching_engine.Replay.{
  Working, ReplayError, start, fill_side, fill_order, cancelled_status, raise_nonce, apply_event,
  replay_event, replay_events,
}

-- The replay of the log ends in a working set with the live state store, which knows every order of
-- the index, and the next number follows its last one.
pub record IsTracked (q : Sequencer) (state : StateStore) (index : HashMap OrderId Str)
    : Type 0 where
  pub working : Working
  pub replays : replay_events q.log start ≡ ok working
  pub same_state : working.state ≡ state
  pub follows : (working.last_seq_id ≡ 0) ⊎ (q.next_seq_id ≡ add64 working.last_seq_id 1)
  pub knows : (id : OrderId) → HashMap.get index id ≢ none → HashMap.get working.orders id ≢ none

replay_events-append :
    (log : List SequencedEvent) (se : SequencedEvent) (w w' : Working)
    → replay_events log w ≡ ok w'
    → replay_events (log ++ se ∷ []) w ≡ replay_event se w'
unfolding replay_events
replay_events-append [] se w w' h = elim (Result-cases (replay_event se w')) [
  | inl (v, e) ↦ let same : w ≡ w' = cc h in rw (same, e) refl
  | inr (r, e) ↦ let same : w ≡ w' = cc h in rw (same, e) refl
]
replay_events-append (x ∷ log) se w w' h = elim (Result-cases (replay_event x w)) [
  | inl (v, e) ↦ rw e (replay_events-append log se v w' (rw e at h))
  | inr (r, e) ↦ absurd (err_not_ok (rw e at h))
]
  where
    err_not_ok :
        {r : ReplayError} {v : Working} → ◌≢◌ {A = Result ReplayError Working} (err r) (ok v)
    err_not_ok k = cc k

-- One more event, of which the replay makes the live state and index.
pub append-IsTracked :
    (q : Sequencer) (state state' : StateStore) (index index' : HashMap OrderId Str) (stamp : ℕ)
    (ev : Event) (t : IsTracked q state index) (w : Working)
    → apply_event q.next_seq_id ev (record t.working { last_seq_id = q.next_seq_id }) ≡ ok w
    → w.last_seq_id ≡ q.next_seq_id
    → w.state ≡ state'
    → ((id : OrderId) → HashMap.get index' id ≢ none → HashMap.get w.orders id ≢ none)
    → IsTracked (append_event q stamp ev) state' index'
unfolding append_event
append-IsTracked q state state' index index' stamp ev t w applied last same known = record {
  working = w;
  replays = replay_events-append q.log _ start t.working t.replays ∙ turn t.follows;
  same_state = same;
  follows = inr (rw last refl);
  knows = known;
}
  where
    turn :
        (t.working.last_seq_id ≡ 0) ⊎ (q.next_seq_id ≡ add64 t.working.last_seq_id 1)
        → replay_event
            (record { seq_id = q.next_seq_id; timestamp_ms = stamp; event = ev })
            t.working
          ≡ ok w
    turn f = unfold replay_event in rw (no_gap f) applied
      where
        no_gap :
            (t.working.last_seq_id ≡ 0) ⊎ (q.next_seq_id ≡ add64 t.working.last_seq_id 1)
            → (not (t.working.last_seq_id == 0)
                && not (q.next_seq_id == add64 t.working.last_seq_id 1))
              ≡ false
        no_gap f = ground arith

insert_known :
    (m : HashMap OrderId Order) (id j : OrderId) (o : Order)
    → HashMap.get m j ≢ none
    → HashMap.get (HashMap.insert m id o) j ≢ none
insert_known m id j o h k = h (HashMap.missing_before m id j o k)

-- An order that is accepted with a nonce above the last one.
pub accepted-IsTracked :
    (q : Sequencer) (s s' : StateStore) (index : HashMap OrderId Str) (stamp : ℕ) (o : Order)
    → IsTracked q s index
    → check_and_update_nonce s o.trader_id o.nonce ≡ ok s'
    → IsTracked
        (append_event q stamp (order_accepted o))
        s'
        (HashMap.insert index o.order_id o.market_id)
accepted-IsTracked q s s' index stamp o t fresh =
    append-IsTracked q s s' index _ stamp (order_accepted o) t
      (record {
        orders = HashMap.insert t.working.orders o.order_id o;
        state = raise_nonce t.working.state o;
        last_seq_id = q.next_seq_id;
      })
      (unfold apply_event in refl) refl
      (ap (λ (z : StateStore). raise_nonce z o) t.same_state ∙ raised)
      (λ id h. elim (bytes_key.key_eq o.order_id id) [
        | yes same ↦ λ k. cc (k, same, HashMap.get-insert_self t.working.orders o.order_id o)
        | no other ↦
            insert_known t.working.orders o.order_id id o
              (t.knows id (rw (HashMap.get-insert_ne index o.order_id id o.market_id other) at h))
      ])
  where
    raised : raise_nonce s o ≡ s'
    raised = unfold raise_nonce check_and_update_nonce in ground arith

fill_side_known :
    (n k : ℕ) (id : OrderId) (orders : HashMap OrderId Order)
    → HashMap.get orders id ≢ none
    → (after : HashMap OrderId Order) × (fill_side n k id orders ≡ ok after)
      × ((j : OrderId) → HashMap.get orders j ≢ none → HashMap.get after j ≢ none)
fill_side_known n k id orders h = elim (Option-cases (HashMap.get orders id)) [
  | inl missing ↦ absurd (h missing)
  | inr (o, found) ↦ (
    HashMap.insert orders id (fill_order n k o),
    unfold fill_side in rw found refl,
    λ j there. insert_known orders id j (fill_order n k o) there,
  )
]

-- A fill between two orders of the index.
pub fill-IsTracked :
    (q : Sequencer) (s : StateStore) (index : HashMap OrderId Str) (stamp : ℕ) (f : Fill)
    → IsTracked q s index
    → HashMap.get index f.taker_order_id ≢ none
    → HashMap.get index f.maker_order_id ≢ none
    → IsTracked
        (append_event q stamp (fill f))
        (apply_fill s f.taker_order_hash f.maker_order_hash f.size_lots)
        index
fill-IsTracked q s index stamp f t taker maker =
    let (one, took, keeps) =
      fill_side_known q.next_seq_id f.size_lots f.taker_order_id t.working.orders
        (t.knows _ taker) in
    let (two, made, keeps') =
      fill_side_known q.next_seq_id f.size_lots f.maker_order_id one (keeps _ (t.knows _ maker)) in
    append-IsTracked q s _ index index stamp (fill f) t
      (record {
        orders = two;
        state = apply_fill t.working.state f.taker_order_hash f.maker_order_hash f.size_lots;
        last_seq_id = q.next_seq_id;
      })
      (unfold apply_event in rw (took, made) refl) refl
      (ap (λ (z : StateStore). apply_fill z f.taker_order_hash f.maker_order_hash f.size_lots)
        t.same_state)
      (λ id h. keeps' id (keeps id (t.knows id h)))

-- The cancel of an order of the index.
pub cancelled-IsTracked :
    (q : Sequencer) (s : StateStore) (index : HashMap OrderId Str) (stamp : ℕ) (id : OrderId)
    (hash : OrderHash) (reason : CancelReason)
    → IsTracked q s index
    → HashMap.get index id ≢ none
    → IsTracked (append_event q stamp (order_cancelled id hash reason)) (cancel_order s hash) index
cancelled-IsTracked q s index stamp id hash reason t known =
    elim (Option-cases (HashMap.get t.working.orders id)) [
      | inl missing ↦ absurd (t.knows id known missing)
      | inr (o, found) ↦
          append-IsTracked q s _ index index stamp (order_cancelled id hash reason) t
            (record {
              orders = HashMap.insert t.working.orders id (record o {
                status = cancelled_status reason;
                last_update_sequence = q.next_seq_id;
              });
              state = cancel_order t.working.state hash;
              last_seq_id = q.next_seq_id;
            })
            (unfold apply_event in rw found refl) refl
            (ap (λ (z : StateStore). cancel_order z hash) t.same_state)
            (λ j h. insert_known t.working.orders id j _ (t.knows j h))
    ]
