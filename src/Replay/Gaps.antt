-- ===== src/Replay/Gaps.antt =====
-- Gaps in a log (src/replay/mod.rs).
use rust_matching_engine.Prelude.{
  ℕ, ◌+◌, ◌%◌, ◌<◌, ◌&&◌, ◌==◌, ◌≡◌, ◌≢◌, refl, sym, subst, ap, ◌∙◌, ◌⊎◌, inl, inr, List, [], ◌∷◌,
  All, true, false, not, length, add64, u64_mod, arith, Result, Result-cases, ok, err,
}
use rust_matching_engine.Events.{Event, SequencedEvent}
use rust_matching_engine.Sequencer.{Sequencer}
use rust_matching_engine.Sequencer.Log.{Numbered, IsNumbered}
use rust_matching_engine.Replay.{
  Working, ReplayError, ReplayResult, seq_id_gap, start, apply_event, replay_event, replay_events,
  replay, fill_side,
}

-- What the check of the code lets through: each number follows the one before, unless that is 0, by
-- which the code means that none was seen. An event that is itself numbered 0 has the same effect.
unfoldable pub Contiguous : ℕ → List SequencedEvent → Type 0
Contiguous last [] = Unit {0}
Contiguous last (se ∷ log) = ((last ≡ 0) ⊎ (se.seq_id ≡ add64 last 1)) × Contiguous se.seq_id log

-- The number of the last event.
unfoldable pub last_number : ℕ → List SequencedEvent → ℕ
last_number last [] = last
last_number last (se ∷ log) = last_number se.seq_id log

apply_event-last :
    (n : ℕ) (ev : Event) (w w' : Working)
    → apply_event n ev w ≡ ok w'
    → w'.last_seq_id ≡ w.last_seq_id
unfolding apply_event fill_side
apply_event-last n ev w w' h = ground arith

apply_event-no_gap :
    (n : ℕ) (ev : Event) (w : Working) (a b : ℕ) → apply_event n ev w ≢ err (seq_id_gap a b)
unfolding apply_event fill_side
apply_event-no_gap n ev w a b h = ground arith

-- The numbering check of one turn.
Follows : ℕ → ℕ → Type 0
Follows last n = (last ≡ 0) ⊎ (n ≡ add64 last 1)

check_cases :
    (last n : ℕ)
    → (Follows last n × ((not (last == 0) && not (n == add64 last 1)) ≡ false))
      ⊎ ((last ≢ 0) × (n ≢ add64 last 1) × ((not (last == 0) && not (n == add64 last 1)) ≡ true))
unfolding Follows
check_cases last n = ground arith

pub replay_events-Contiguous :
    (log : List SequencedEvent) (w w' : Working)
    → replay_events log w ≡ ok w'
    → Contiguous w.last_seq_id log × (w'.last_seq_id ≡ last_number w.last_seq_id log)
unfolding replay_events replay_event Contiguous last_number Follows
replay_events-Contiguous [] w w' h = (tt, cc h)
replay_events-Contiguous (se ∷ log) w w' h = elim (check_cases w.last_seq_id se.seq_id) [
  | inr (_, _, gap) ↦ absurd (err_not_ok (rw gap at h))
  | inl (follows, no_gap) ↦
      elim (Result-cases (apply_event se.seq_id se.event (record w { last_seq_id = se.seq_id }))) [
        | inr (r, failed) ↦ absurd (err_not_ok (rw (no_gap, failed) at h))
        | inl (w₁, done) ↦
            let (rest, last) = replay_events-Contiguous log w₁ w' (rw (no_gap, done) at h) in
            let same = apply_event-last se.seq_id se.event _ w₁ done in
            (
              (follows, subst (λ (n : ℕ). Contiguous n log) same rest),
              last ∙ ap (λ (n : ℕ). last_number n log) same,
            )
      ]
]
  where
    err_not_ok :
        {r : ReplayError} {v : Working} → ◌≢◌ {A = Result ReplayError Working} (err r) (ok v)
    err_not_ok k = cc k

replay_events-no_gap :
    (log : List SequencedEvent) (w : Working) (a b : ℕ)
    → Contiguous w.last_seq_id log
    → replay_events log w ≢ err (seq_id_gap a b)
unfolding replay_events replay_event Contiguous Follows
replay_events-no_gap [] w a b _ h = cc h
replay_events-no_gap (se ∷ log) w a b (follows, rest) h =
    elim (check_cases w.last_seq_id se.seq_id) [
      | inr (started, jumps, _) ↦ elim follows [ inl z ↦ started z | inr f ↦ jumps f ]
      | inl (_, no_gap) ↦
          elim (Result-cases
            (apply_event se.seq_id se.event (record w { last_seq_id = se.seq_id }))) [
              | inr (r, failed) ↦
                  let stop : ◌≡◌ {A = Result ReplayError Working} (err r) (err (seq_id_gap a b)) =
                    rw (no_gap, failed) at h in
                  apply_event-no_gap se.seq_id se.event _ a b (failed ∙ stop)
              | inl (w₁, done) ↦
                  replay_events-no_gap log w₁ a b
                    (subst (λ (n : ℕ). Contiguous n log)
                      (sym (apply_event-last se.seq_id se.event _ w₁ done)) rest)
                    (rw (no_gap, done) at h)
            ]
    ]

replay-Contiguous :
    (log : List SequencedEvent) (r : ReplayResult)
    → replay log ≡ ok r
    → Contiguous 0 log × (r.last_seq_id ≡ last_number 0 log) × (r.event_count ≡ length log)
unfolding replay start
replay-Contiguous log r = elim (Result-cases (replay_events log start)) [
  | inr (e, failed) ↦ rw (failed, replay) (λ h. cc)
  | inl (w, done) ↦
      let (ok_, last) = replay_events-Contiguous log start w done in
      rw (done, replay) (λ h. (ok_, sym (last_of h) ∙ last, sym (count_of h)))
]
  where
    last_of :
        {a b : ReplayResult}
        → ◌≡◌ {A = Result ReplayError ReplayResult} (ok a) (ok b)
        → a.last_seq_id ≡ b.last_seq_id
    last_of k = cc k

    count_of :
        {a b : ReplayResult}
        → ◌≡◌ {A = Result ReplayError ReplayResult} (ok a) (ok b)
        → a.event_count ≡ b.event_count
    count_of k = cc k

-- The events are numbered from the first number on, one after the other.
unfoldable pub Consecutive : ℕ → List SequencedEvent → Type 0
Consecutive first [] = Unit {0}
Consecutive first (se ∷ log) = (se.seq_id ≡ first) × Consecutive (first + 1) log

-- A number that a sequencer can give: a `u64` but 0.
abbrev pub IsPositive : SequencedEvent → Type 0
IsPositive se = (0 < se.seq_id) × (se.seq_id < u64_mod)

Contiguous-Consecutive :
    (last : ℕ) (log : List SequencedEvent)
    → (0 < last) × (last < u64_mod)
    → All IsPositive log
    → Contiguous last log
    → Consecutive (last + 1) log × (last_number last log ≡ last + length log)
unfolding Contiguous Consecutive last_number add64
Contiguous-Consecutive last [] h p c = (tt, omega arith)
Contiguous-Consecutive last (se ∷ log) h (here, later) (follows, c) =
    let next : se.seq_id ≡ last + 1 = ground arith in
    let (rest, ends) = Contiguous-Consecutive se.seq_id log here later c in
    ((next, subst (λ (n : ℕ). Consecutive (n + 1) log) next rest), ends ∙ ground arith)

-- If no event of a log is numbered 0 and its replay succeeds, then no number is missing in the log
-- after the first one: the events are numbered one after the other from there on. The replay counts
-- them all and ends at the number of the last.
pub replay-Consecutive :
    (first : SequencedEvent) (log : List SequencedEvent) (r : ReplayResult)
    → All IsPositive (first ∷ log)
    → replay (first ∷ log) ≡ ok r
    → Consecutive first.seq_id (first ∷ log)
      × (r.last_seq_id ≡ first.seq_id + length log)
      × (r.event_count ≡ length log + 1)
unfolding Contiguous Consecutive last_number
replay-Consecutive first log r (here, later) done =
    let (c, ends, counted) = replay-Contiguous (first ∷ log) r done in
    let after : Contiguous first.seq_id log = c.1 in
    let (numbered, last) = Contiguous-Consecutive first.seq_id log here later after in
    ((refl, numbered), ends ∙ last, counted ∙ ground arith)

Numbered-Contiguous :
    (first : ℕ) (log : List SequencedEvent)
    → 0 < first
    → Numbered (first + 1) log
    → Contiguous (first % u64_mod) log
unfolding Numbered Contiguous add64
Numbered-Contiguous first [] h n = tt
Numbered-Contiguous first (se ∷ log) h (here, rest) = (
  inr (omega arith),
  subst (λ (n : ℕ). Contiguous n log) (sym here)
      (Numbered-Contiguous (first + 1) log (omega arith) rest),
)

-- The replay of a log that a sequencer has numbered never reports a gap.
pub replay-no_gap :
    (s : Sequencer) (expected got : ℕ) → IsNumbered s → replay s.log ≢ err (seq_id_gap expected got)
unfolding replay start
replay-no_gap s expected got n = elim (Result-cases (replay_events s.log start)) [
  | inl (w, done) ↦ rw (done, replay) (λ h. cc)
  | inr (e, failed) ↦
      rw (failed, replay)
        (λ h.
          replay_events-no_gap s.log start expected got (from_one s.log n.numbered)
            (failed ∙ same_error h))
]
  where
    same_error :
        {a b : ReplayError}
        → ◌≡◌ {A = Result ReplayError ReplayResult} (err a) (err b)
        → ◌≡◌ {A = Result ReplayError Working} (err a) (err b)
    same_error k = cc k

    from_one : (log : List SequencedEvent) → Numbered 1 log → Contiguous 0 log
    from_one [] _ = unfold Contiguous in tt
    from_one (se ∷ log) m =
        unfold Numbered Contiguous in
        (
          inl refl,
          subst (λ (k : ℕ). Contiguous k log) (sym m.0)
              (Numbered-Contiguous 1 log (omega arith) m.1),
        )
