-- ===== src/Restore/Follows.antt =====
-- The log, the index and the next number of an engine go together (src/engine/mod.rs).
use rust_matching_engine.Prelude.{ℕ, ◌≡◌, refl, sym, ap, ◌∙◌, List, [], ◌∷◌, ◌++◌, add64}
use rust_matching_engine.HashMap.{HashMap, bytes_key}
use rust_matching_engine.Domain.Market.{Str}
use rust_matching_engine.Domain.Order.{OrderId}
use rust_matching_engine.Events.{
  Event, SequencedEvent, order_accepted, order_rejected, fill, order_cancelled, market_paused,
  market_resumed,
}
use rust_matching_engine.Sequencer.{Sequencer, append_event, register_accepted}
use rust_matching_engine.Sequencer.Restart.{
  IsRestorable, append_event-IsRestorable, register-IsRestorable,
}
use rust_matching_engine.Sequencer.{restore_entry}
use rust_matching_engine.Engine.Trace.{FollowsLog, IsStatus}
use rust_matching_engine.Restore.{index_entry, restore_index, next_after}

-- The next number after the events of a log.
abbrev pub next_of : List SequencedEvent → ℕ → ℕ
next_of [] first = first
next_of (se ∷ log) first = next_after se log

-- What `restore_from_events` rebuilds from the log is what the engine has.
pub record IsResumable (q : Sequencer) (index : HashMap OrderId Str) : Type 0 where
  pub index_same : restore_index [] q.log ≡ index
  pub next : q.next_seq_id ≡ next_of q.log 1
  pub answers : IsRestorable q

restore_index-append :
    (index : HashMap OrderId Str) (log : List SequencedEvent) (se : SequencedEvent)
    → restore_index index (log ++ se ∷ []) ≡ index_entry (restore_index index log) se.event
unfolding restore_index
restore_index-append index [] se = refl
restore_index-append index (x ∷ log) se = restore_index-append (index_entry index x.event) log se

next_after-append :
    (x : SequencedEvent) (log : List SequencedEvent) (se : SequencedEvent)
    → next_after x (log ++ se ∷ []) ≡ add64 se.seq_id 1
unfolding next_after
next_after-append x [] se = refl
next_after-append x (y ∷ log) se = next_after-append y log se

next_of-append :
    (log : List SequencedEvent) (se : SequencedEvent) (first : ℕ)
    → next_of (log ++ se ∷ []) first ≡ add64 se.seq_id 1
next_of-append [] se first = unfold next_after in refl
next_of-append (x ∷ log) se first = next_after-append x log se

-- An event that accepts no order.
quiet-IsResumable :
    (q : Sequencer) (index : HashMap OrderId Str) (stamp : ℕ) (ev : Event)
    → ((m : HashMap OrderId Str) → index_entry m ev ≡ m)
    → IsRestorable (append_event q stamp ev)
    → IsResumable q index
    → IsResumable (append_event q stamp ev) index
quiet-IsResumable q index stamp ev quiet answers r =
    let se : SequencedEvent = record { seq_id = q.next_seq_id; timestamp_ms = stamp; event = ev } in
    record {
      index_same =
          unfold append_event in
          restore_index-append [] q.log se ∙ quiet (restore_index [] q.log) ∙ r.index_same;
      next = unfold append_event in sym (next_of-append q.log se 1);
      answers = answers;
    }

status-IsResumable :
    (q : Sequencer) (index : HashMap OrderId Str) (stamp : ℕ) (ev : Event)
    → IsStatus ev
    → IsResumable q index
    → IsResumable (append_event q stamp ev) index
unfolding IsStatus
status-IsResumable q index stamp (market_paused k by) _ r =
    quiet-IsResumable q index stamp (market_paused k by) (λ m. unfold index_entry in refl)
      (append_event-IsRestorable q stamp (market_paused k by) (λ m ev. unfold restore_entry in refl)
        r.answers)
      r
status-IsResumable q index stamp (market_resumed k by) _ r =
    quiet-IsResumable q index stamp (market_resumed k by) (λ m. unfold index_entry in refl)
      (append_event-IsRestorable q stamp (market_resumed k by)
        (λ m ev. unfold restore_entry in refl) r.answers)
      r
status-IsResumable q index stamp (order_accepted _) k r = absurd k
status-IsResumable q index stamp (order_rejected _ _ _) k r = absurd k
status-IsResumable q index stamp (fill _) k r = absurd k
status-IsResumable q index stamp (order_cancelled _ _ _) k r = absurd k

pub IsResumable-FollowsLog : FollowsLog (λ q _ index. IsResumable q index)
IsResumable-FollowsLog = record {
  accept = λ q s s' index stamp now o numbered fresh r.
      let se : SequencedEvent = record {
        seq_id = q.next_seq_id;
        timestamp_ms = stamp;
        event = order_accepted o;
      } in
      record {
        index_same =
            unfold append_event register_accepted index_entry in
            restore_index-append [] q.log se
            ∙ ap (λ (m : HashMap OrderId Str). index_entry m (order_accepted o)) r.index_same;
        next = unfold append_event register_accepted in sym (next_of-append q.log se 1);
        answers = register-IsRestorable q stamp o now numbered r.answers;
      };
  fill = λ q s index stamp f taker maker r.
      quiet-IsResumable q index stamp (fill f) (λ m. unfold index_entry in refl)
        (append_event-IsRestorable q stamp (fill f) (λ m ev. unfold restore_entry in refl)
          r.answers)
        r;
  cancel = λ q s index stamp id hash reason known r.
      quiet-IsResumable q index stamp (order_cancelled id hash reason)
        (λ m. unfold index_entry in refl)
        (append_event-IsRestorable q stamp (order_cancelled id hash reason)
          (λ m ev. unfold restore_entry in refl) r.answers)
        r;
  status = λ q s index stamp ev kind r. status-IsResumable q index stamp ev kind r;
}
