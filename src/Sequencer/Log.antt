-- ===== src/Sequencer/Log.antt =====
-- The numbering of the log (src/sequencer/mod.rs).
use rust_matching_engine.Prelude.{
  ℕ, ◌+◌, ◌%◌, ◌≡◌, refl, ap, ◌∙◌, List, [], ◌∷◌, ◌++◌, length, arith, add64, u64_mod,
}
use rust_matching_engine.HashMap.{bytes_key}
use rust_matching_engine.Domain.Market.{Str}
use rust_matching_engine.Events.{Event, SequencedEvent}
use rust_matching_engine.Sequencer.{Sequencer, append_event, register_accepted, new}

-- The events of a log are numbered one after another, from `first`.
unfoldable pub Numbered : ℕ → List SequencedEvent → Type 0
Numbered first [] = Unit {0}
Numbered first (se ∷ log) = (se.seq_id ≡ first % u64_mod) × Numbered (first + 1) log

-- The log is numbered from 1 and the next number follows it, as `u64`.
pub record IsNumbered (s : Sequencer) : Type 0 where
  pub numbered : Numbered 1 s.log
  pub next : s.next_seq_id ≡ (1 + length s.log) % u64_mod

length-append_one :
    (q : List SequencedEvent) (x : SequencedEvent) → length (q ++ x ∷ []) ≡ length q + 1
length-append_one [] x = refl
length-append_one (y ∷ q) x = let rest = length-append_one q x in ground arith

Numbered-append :
    (first : ℕ) (log : List SequencedEvent) (x : SequencedEvent)
    → Numbered first log
    → x.seq_id ≡ (first + length log) % u64_mod
    → Numbered first (log ++ x ∷ [])
unfolding Numbered
Numbered-append first [] x n h = ground arith
Numbered-append first (y ∷ log) x (a, n) h =
    (a, Numbered-append (first + 1) log x n (h ∙ ap (λ (k : ℕ). k % u64_mod) (ground arith)))

pub new-IsNumbered : IsNumbered new
unfolding new Numbered
new-IsNumbered = record { numbered = tt; next = omega arith }

-- Appending an event keeps the log numbered without gaps.
pub append_event-IsNumbered :
    (s : Sequencer) (stamp : ℕ) (event : Event)
    → IsNumbered s
    → IsNumbered (append_event s stamp event)
unfolding append_event add64
append_event-IsNumbered s stamp event n = record {
  numbered =
      Numbered-append 1 s.log
        (record { seq_id = s.next_seq_id; timestamp_ms = stamp; event = event }) n.numbered n.next;
  next = rw (n.next, length-append_one) (omega arith);
}

pub register_accepted-IsNumbered :
    (s : Sequencer) (trader client : Str) (seq : ℕ) (id hash : List ℕ) (at : ℕ)
    → IsNumbered s
    → IsNumbered (register_accepted s trader client seq id hash at)
unfolding register_accepted
register_accepted-IsNumbered s trader client seq id hash at n = record {
  numbered = n.numbered;
  next = n.next;
}
