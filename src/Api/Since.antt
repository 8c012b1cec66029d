-- ===== src/Api/Since.antt =====
-- The events after a sequence number, in a numbered log (src/api/mod.rs).
use rust_matching_engine.Prelude.{
  ℕ, ◌+◌, ◌^◌, ◌<◌, ◌≤◌, ◌≡◌, refl, subst, ap, ◌∙◌, inl, inr, List, [], ◌∷◌, ◌++◌, Bool-cases, ltb,
  length, length-append, All, All-map, All-append, Has, arith, u64_mod,
}
use rust_matching_engine.Events.{SequencedEvent}
use rust_matching_engine.Sequencer.Log.{Numbered}
use rust_matching_engine.Pg.Holds.{Climbs, ids}
use rust_matching_engine.Api.{since}

pub since-append : (n : ℕ) (a b : List SequencedEvent) → since n (a ++ b) ≡ since n a ++ since n b
unfolding since
since-append n [] b = refl
since-append n (se ∷ a) b = elim (Bool-cases (ltb n se.seq_id)) [
  | inl c ↦ rw c (ap (λ (l : List SequencedEvent). se ∷ l) (since-append n a b))
  | inr c ↦ rw c (since-append n a b)
]

-- The events of the log that are looked for are events of the log.
pub since-Has :
    (n : ℕ) (log : List SequencedEvent)
    → All (λ (se : SequencedEvent). Has (ids log) se.seq_id) (since n log)
unfolding since
since-Has n [] = tt
since-Has n (se ∷ log) =
    let rest = All-map (λ k h. inr h) (since n log) (since-Has n log) in
    elim (Bool-cases (ltb n se.seq_id)) [ inl c ↦ rw c (inl refl, rest) | inr c ↦ rw c rest ]

pub Numbered-split :
    (first : ℕ) (a b : List SequencedEvent)
    → Numbered first (a ++ b)
    → Numbered first a × Numbered (first + length a) b
unfolding Numbered
Numbered-split first [] b h = (tt, subst (λ (k : ℕ). Numbered k b) (omega arith) h)
Numbered-split first (se ∷ a) b (here, rest) =
    let (front, back) = Numbered-split (first + 1) a b rest in
    ((here, front), subst (λ (k : ℕ). Numbered k b) (omega arith) back)

pub since-above :
    (n first : ℕ) (log : List SequencedEvent)
    → Numbered first log
    → first + length log ≤ u64_mod
    → n < first
    → since n log ≡ log
unfolding Numbered since
since-above n first [] h k l = refl
since-above n first (se ∷ log) (here, rest) k l =
    let tail = since-above n (first + 1) log rest (omega arith) (omega arith) in ground arith

pub since-below :
    (n first : ℕ) (log : List SequencedEvent)
    → Numbered first log
    → first + length log ≤ u64_mod
    → first + length log ≤ n + 1
    → since n log ≡ []
unfolding Numbered since
since-below n first [] h k l = refl
since-below n first (se ∷ log) (here, rest) k l =
    let tail = since-below n (first + 1) log rest (omega arith) (omega arith) in ground arith

-- The numbers of a log are below the one that follows it.
pub Numbered-ids :
    (first : ℕ) (log : List SequencedEvent)
    → Numbered first log
    → first + length log ≤ u64_mod
    → All (λ (n : ℕ). n < first + length log) (ids log)
unfolding Numbered
Numbered-ids first [] h k = tt
Numbered-ids first (se ∷ log) (here, rest) k = (
  omega arith,
  All-map (λ n lt. omega (arith, lt)) (ids log) (Numbered-ids (first + 1) log rest (omega arith)),
)

pub Numbered-Climbs :
    (first : ℕ) (before : List ℕ) (log : List SequencedEvent)
    → All (λ (n : ℕ). n < first) before
    → Numbered first log
    → first + length log ≤ 2 ^ 63
    → Climbs before log
unfolding Numbered Climbs
Numbered-Climbs first before [] lt h k = tt
Numbered-Climbs first before (se ∷ log) lt (here, rest) k =
    let exact : se.seq_id ≡ first = omega arith in
    (
      All-map (λ n l. omega (arith, l, exact)) before lt,
      omega arith,
      Numbered-Climbs (first + 1) (before ++ se.seq_id ∷ []) log
          (All-append (λ (n : ℕ). n < first + 1) before (se.seq_id ∷ [])
            (All-map (λ n l. omega (arith, l)) before lt) (omega arith, tt))
          rest (omega arith),
    )

-- The events after the number of the last event of a numbered log's front.
pub since-exact :
    (a b : List SequencedEvent)
    → Numbered 1 (a ++ b)
    → length (a ++ b) < u64_mod
    → since (length a) (a ++ b) ≡ b
since-exact a b h k =
    let (front, back) = Numbered-split 1 a b h in
    let size = length-append a b in
    since-append (length a) a b
    ∙ ap2 (since-below (length a) 1 a front (omega (arith, size, k)) (omega arith))
        (since-above (length a) (1 + length a) b back (omega (arith, size, k)) (omega arith))
  where
    ap2 : {p q r : List SequencedEvent} → p ≡ [] → q ≡ r → p ++ q ≡ r
    ap2 e f = cc (e, f)
