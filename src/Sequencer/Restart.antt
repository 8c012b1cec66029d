-- ===== src/Sequencer/Restart.antt =====
-- The idempotency table that `resume` rebuilds from the log (src/sequencer/mod.rs).
use rust_matching_engine.Prelude.{
  ℕ, ◌≡◌, refl, sym, ap, List, [], ◌∷◌, ◌++◌, Option, none, some, ite,
}
use rust_matching_engine.HashMap.{HashMap, pair_eq, pair_key}
use rust_matching_engine.HashMap
use rust_matching_engine.Domain.Order.{Order, OrderId, OrderHash}
use rust_matching_engine.Events.{Event, SequencedEvent, order_accepted}
use rust_matching_engine.Sequencer.{
  Sequencer, IdempotencyKey, IdempotencyRecord, append_event, register_accepted, restore_entry,
  restore_table, new,
}

-- What a duplicate is answered with: the sequence number, the id and the hash of a record.
abbrev pub answer : Option IdempotencyRecord → Option (ℕ × OrderId × OrderHash)
answer none = none
answer (some r) = some (r.original_seq_id, r.order_id, r.order_hash)

-- The table rebuilt from the log answers every key as the live one does.
pub record IsRestorable (s : Sequencer) : Type 0 where
  pub same :
      (k : IdempotencyKey)
      → answer (HashMap.get (restore_table [] s.log) k) ≡ answer (HashMap.get s.idempotency k)

restore_table-append :
    (m : HashMap IdempotencyKey IdempotencyRecord) (log : List SequencedEvent) (ev : SequencedEvent)
    → restore_table m (log ++ ev ∷ []) ≡ restore_entry (restore_table m log) ev ev.event
unfolding restore_table
restore_table-append m [] ev = refl
restore_table-append m (x ∷ log) ev = restore_table-append (restore_entry m x x.event) log ev

-- An event that accepts no order.
pub append_event-IsRestorable :
    (s : Sequencer) (stamp : ℕ) (event : Event)
    → ((m : HashMap IdempotencyKey IdempotencyRecord) (ev : SequencedEvent)
        → restore_entry m ev event ≡ m)
    → IsRestorable s
    → IsRestorable (append_event s stamp event)
unfolding append_event
append_event-IsRestorable s stamp event quiet r = record {
  same = λ k.
      rw
        (
          restore_table-append [] s.log
              (record { seq_id = s.next_seq_id; timestamp_ms = stamp; event = event }),
          quiet,
        )
        (r.same k);
}

answer-ite :
    {P : Type 0} (d : Dec P) (a b x y : Option IdempotencyRecord)
    → answer a ≡ answer b
    → answer x ≡ answer y
    → answer (ite d a x) ≡ answer (ite d b y)
answer-ite (yes _) a b x y h k = h
answer-ite (no _) a b x y h k = k

-- An accepted order and its entry.
pub register-IsRestorable :
    (s : Sequencer) (stamp : ℕ) (o : Order) (at : ℕ)
    → o.created_sequence ≡ s.next_seq_id
    → IsRestorable s
    → IsRestorable (
        register_accepted
          (append_event s stamp (order_accepted o))
          o.trader_id
          o.client_order_id
          o.created_sequence
          o.order_id
          o.order_hash
          at)
unfolding append_event register_accepted
register-IsRestorable s stamp o at numbered r = record {
  same = λ k.
      let ev : SequencedEvent = record {
        seq_id = s.next_seq_id;
        timestamp_ms = stamp;
        event = order_accepted o;
      } in
      rw (restore_table-append [] s.log ev) (
        unfold restore_entry in
        rw
          (
            HashMap.get-insert (restore_table [] s.log) (o.trader_id, o.client_order_id) k _,
            HashMap.get-insert s.idempotency (o.trader_id, o.client_order_id) k _,
          )
          (answer-ite (pair_key.key_eq (o.trader_id, o.client_order_id) k) _ _ _ _
            (ap (λ (n : ℕ). some (n, o.order_id, o.order_hash)) (sym numbered)) (r.same k)));
}

pub new-IsRestorable : IsRestorable new
unfolding new restore_table
new-IsRestorable = record { same = λ k. refl }
