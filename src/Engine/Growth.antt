-- ===== src/Engine/Growth.antt =====
-- Every call only appends to the log, and keeps it numbered (src/engine/mod.rs).
use rust_matching_engine.Prelude.{
  ℕ, ◌<◌, ◌≡◌, sym, ap, ◌∙◌, inl, inr, some, Option-cases, List, [], ◌∷◌, ◌++◌, append_assoc,
  append-nil, Bool-cases, u64_mod, Result, err,
}
use rust_matching_engine.HashMap.{HashMap, bytes_eq, bytes_key}
use rust_matching_engine.HashMap
use rust_matching_engine.Domain.Market.{Str}
use rust_matching_engine.Domain.Order.{OrderId, SignedOrder, Crypto, is_closed}
use rust_matching_engine.Events.{Event, SequencedEvent, order_accepted, fill, order_cancelled}
use rust_matching_engine.Sequencer.{Sequencer, append_event, register_accepted}
use rust_matching_engine.Sequencer.Log.{
  IsNumbered, append_event-IsNumbered, register_accepted-IsNumbered,
}
use rust_matching_engine.Engine.Orderbook
use rust_matching_engine.Engine.{
  Engine, EngineError, OrderResult, CancelError, CancelResult, Inputs, process_order,
  process_cancel,
}
use rust_matching_engine.Engine.Validity.{IsValid}
use rust_matching_engine.Engine.Cancel.{refused_reply, closed_reply, live_reply}
use rust_matching_engine.Engine.Trace.{FollowsLog, process_order-At, process_cancel-At}

-- The log of the second sequencer is that of the first one and some more events, and is numbered.
pub record Grows (q q' : Sequencer) : Type 0 where
  pub new : List SequencedEvent
  pub log : q'.log ≡ q.log ++ new
  pub numbered : IsNumbered q'

pub same-Grows : (q : Sequencer) → IsNumbered q → Grows q q
same-Grows q n = record { new = []; log = sym (append-nil q.log); numbered = n }

-- One more event.
pub append_event-Grows :
    (q₀ q : Sequencer) (stamp : ℕ) (ev : Event) → Grows q₀ q → Grows q₀ (append_event q stamp ev)
append_event-Grows q₀ q stamp ev g =
    let se : SequencedEvent = record { seq_id = q.next_seq_id; timestamp_ms = stamp; event = ev } in
    record {
      new = g.new ++ se ∷ [];
      log =
          unfold append_event in
          ap (λ (l : List SequencedEvent). l ++ se ∷ []) g.log
          ∙ append_assoc q₀.log g.new (se ∷ []);
      numbered = append_event-IsNumbered q stamp ev g.numbered;
    }

register_accepted-Grows :
    (q₀ q : Sequencer) (trader client : Str) (seq : ℕ) (id hash : List ℕ) (at : ℕ)
    → Grows q₀ q
    → Grows q₀ (register_accepted q trader client seq id hash at)
register_accepted-Grows q₀ q trader client seq id hash at g = record {
  new = g.new;
  log = unfold register_accepted in g.log;
  numbered = register_accepted-IsNumbered q trader client seq id hash at g.numbered;
}

pub Grows-FollowsLog : (q₀ : Sequencer) → FollowsLog (λ q _ _. Grows q₀ q)
Grows-FollowsLog q₀ = record {
  accept = λ q s s' index stamp now o _ _ g.
      register_accepted-Grows q₀ (append_event q stamp (order_accepted o)) o.trader_id
        o.client_order_id o.created_sequence o.order_id o.order_hash now
        (append_event-Grows q₀ q stamp (order_accepted o) g);
  fill = λ q s index stamp f _ _ g. append_event-Grows q₀ q stamp (fill f) g;
  cancel = λ q s index stamp id hash reason _ g.
      append_event-Grows q₀ q stamp (order_cancelled id hash reason) g;
  status = λ q s index stamp ev _ g. append_event-Grows q₀ q stamp ev g;
}

pub process_order-Grows :
    (x : Crypto) (i : Inputs) (s : SignedOrder) (e e' : Engine) (r : Result EngineError OrderResult)
    → IsValid e
    → IsNumbered e.sequencer
    → s.size_lots < u64_mod
    → process_order x i s e ≡ some (r, e')
    → Grows e.sequencer e'.sequencer
process_order-Grows x i s e e' r v n in_range h =
    process_order-At (λ q _ _. Grows e.sequencer q) (Grows-FollowsLog e.sequencer) x i s e e' r v
      (same-Grows e.sequencer n) in_range h

pub process_cancel-Grows :
    (i : Inputs) (order_id : OrderId) (trader_id : Str) (e e' : Engine)
    (r : Result CancelError CancelResult)
    → IsNumbered e.sequencer
    → process_cancel i order_id trader_id e ≡ some (r, e')
    → Grows e.sequencer e'.sequencer
process_cancel-Grows i order_id trader_id e e' r n h =
    process_cancel-At (λ q _ _. Grows e.sequencer q) (Grows-FollowsLog e.sequencer) i order_id
      trader_id e e' r (same-Grows e.sequencer n) h

-- A cancel that is refused leaves the engine as it was.
pub cancel-refused_unchanged :
    (i : Inputs) (order_id : OrderId) (trader_id : Str) (e e' : Engine) (c : CancelError)
    → process_cancel i order_id trader_id e ≡ some (err c, e')
    → e' ≡ e
cancel-refused_unchanged i order_id trader_id e e' c =
    elim (Option-cases (HashMap.get e.order_market_index order_id)) [
      | inl missing ↦ unfold process_cancel in rw (missing, process_cancel) (λ h. sym (cc h))
      | inr (m, known) ↦ elim (Option-cases (HashMap.get e.books m)) [
        | inl no_book ↦ unfold process_cancel in rw (known, no_book, process_cancel) (λ h. cc h)
        | inr (b, here) ↦ elim (Option-cases (Orderbook.get b order_id)) [
          | inl gone ↦
              unfold process_cancel in rw (known, here, gone, process_cancel) (λ h. sym (cc h))
          | inr (o, found) ↦
              unfold process_cancel in
              rw (known, here, found, process_cancel)
                (elim (bytes_eq o.trader_id trader_id) [
                  | no other ↦
                      rw (refused_reply i order_id trader_id m e b o other) (λ h. sym (cc h))
                  | yes own ↦ elim (Bool-cases (is_closed o)) [
                    | inl closed ↦
                        rw (closed_reply i order_id trader_id m e b o own closed) (λ h. cc h)
                    | inr live ↦ rw (live_reply i order_id trader_id m e b o own live) (λ h. cc h)
                  ]
                ])
        ]
      ]
    ]
