-- ===== src/Snapshot/Names/Latest.antt =====
-- The latest snapshot of a directory is found (src/snapshot/mod.rs).
use rust_matching_engine.Prelude.{
  ℕ, ◌<◌, ◌≤◌, ◌≡◌, ◌≢◌, refl, sym, subst, ap, ◌∙◌, ◌⊎◌, inl, inr, Option, none, some, List, [],
  ◌∷◌, ◌++◌, Bool-cases, Option-cases, ltb, arith, u64_mod, All, Has,
}
use rust_matching_engine.Domain.Market.{Str}
use rust_matching_engine.Snapshot.Names.{
  to_decimal, prefix, snapshot_name, json_stem, seq_of_stem, better, search, find_latest_snapshot,
}
use rust_matching_engine.Snapshot.Names.Decimal.{json_stem-snapshot_name, seq_of_stem-prefix}

-- A file that is no JSON file, or a snapshot of a `u64` number.
abbrev pub IsExpected : Str → Type 0
IsExpected name = (json_stem name ≡ none) ⊎ ((n : ℕ) × (n < u64_mod) × (name ≡ snapshot_name n))

-- The best one so far is at least `k`.
abbrev Covers : Option (ℕ × Str) → ℕ → Type 0
Covers r k = (s : ℕ) × (p : Str) × (r ≡ some (s, p)) × (k ≤ s)

search-snapshot :
    (n : ℕ) (names : List Str) (best : Option (ℕ × Str))
    → n < u64_mod
    → search (snapshot_name n ∷ names) best ≡ search names (better n (snapshot_name n) best)
unfolding search
search-snapshot n names best h = rw (json_stem-snapshot_name n, seq_of_stem-prefix n h, search) refl

search-ignored :
    (name : Str) (names : List Str) (best : Option (ℕ × Str))
    → json_stem name ≡ none
    → search (name ∷ names) best ≡ search names best
unfolding search
search-ignored name names best h = rw (h, search) refl

snapshot_name-unignored : (n : ℕ) → json_stem (snapshot_name n) ≢ none
snapshot_name-unignored n h = cc (json_stem-snapshot_name n, h)

snapshot_name-injective :
    (n m : ℕ) → n < u64_mod → m < u64_mod → snapshot_name n ≡ snapshot_name m → n ≡ m
snapshot_name-injective n m h k same =
    let stems : prefix ++ to_decimal n ≡ prefix ++ to_decimal m =
      cc (json_stem-snapshot_name n, json_stem-snapshot_name m, ap json_stem same) in
    cc (seq_of_stem-prefix n h, seq_of_stem-prefix m k, ap seq_of_stem stems)

better-Covers :
    (n : ℕ) (name : Str) (best : Option (ℕ × Str))
    → Covers (better n name best) n × ((k : ℕ) → Covers best k → Covers (better n name best) k)
better-Covers n name none = ((n, name, refl, omega arith), λ k (s, p, h, le). cc h)
better-Covers n name (some (s, p)) = elim (Bool-cases (ltb s n)) [
  | inl above ↦
      rw above ((n, name, refl, omega arith), λ k (t, q, h, le). (n, name, refl, ground arith))
  | inr below ↦ rw below ((s, p, refl, ground arith), λ k c. c)
]

-- What the loop ends with, from the best one so far.
record Found (names : List Str) (best r : Option (ℕ × Str)) : Type 0 where
  pub all : (k : ℕ) → k < u64_mod → Has names (snapshot_name k) → Covers r k
  pub kept : (k : ℕ) → Covers best k → Covers r k
  pub from :
      (r ≡ best)
      ⊎ ((m : ℕ) × (m < u64_mod) × (r ≡ some (m, snapshot_name m)) × Has names (snapshot_name m))

from_better :
    (n : ℕ) (names : List Str) (best r : Option (ℕ × Str))
    → n < u64_mod
    → Found names (better n (snapshot_name n) best) r
    → Found (snapshot_name n ∷ names) best r
from_better n names best r h f = record {
  all = λ k lt here. elim here [
    | inl same ↦
        subst (λ (j : ℕ). Covers r j) (snapshot_name-injective n k h lt same)
          (f.kept n (better-Covers n (snapshot_name n) best).0)
    | inr later ↦ f.all k lt later
  ];
  kept = λ k c. f.kept k ((better-Covers n (snapshot_name n) best).1 k c);
  from = elim f.from [
    | inr (m, lt, same, here) ↦ inr (m, lt, same, inr here)
    | inl same ↦ taken best same
  ];
}
  where
    taken :
        (b : Option (ℕ × Str))
        → r ≡ better n (snapshot_name n) b
        → (r ≡ b)
          ⊎ ((m : ℕ) × (m < u64_mod)
              × (r ≡ some (m, snapshot_name m))
              × Has (snapshot_name n ∷ names) (snapshot_name m))
    taken none same = inr (n, h, same, inl refl)
    taken (some (s, p)) same = elim (Bool-cases (ltb s n)) [
      | inl above ↦ inr (n, h, rw above at same, inl refl)
      | inr below ↦ inl (rw below at same)
    ]

search-Found :
    (names : List Str) (best : Option (ℕ × Str))
    → All IsExpected names
    → (r : Option (ℕ × Str)) × (search names best ≡ some r) × Found names best r
search-Found [] best _ = (
  best,
  unfold search in refl,
  record { all = λ k lt here. absurd here; kept = λ k c. c; from = inl refl },
)
search-Found (name ∷ names) best (inl ignored, rest) =
    let (r, done, f) = search-Found names best rest in
    (
      r,
      search-ignored name names best ignored ∙ done,
      record {
        all = λ k lt here. elim here [
          | inl same ↦ absurd (snapshot_name-unignored k (ap json_stem (sym same) ∙ ignored))
          | inr later ↦ f.all k lt later
        ];
        kept = f.kept;
        from = elim f.from [
          | inl same ↦ inl same
          | inr (m, lt, same, here) ↦ inr (m, lt, same, inr here)
        ];
      },
    )
search-Found (name ∷ names) best (inr (n, h, same), rest) =
    let (r, done, f) = search-Found names (better n (snapshot_name n) best) rest in
    (
      r,
      ap (λ (z : Str). search (z ∷ names) best) same ∙ (search-snapshot n names best h ∙ done),
      subst (λ (z : Str). Found (z ∷ names) best r) (sym same) (from_better n names best r h f),
    )

-- In a directory whose JSON files are all snapshots with `u64` numbers, with a snapshot among them,
-- the search finds the snapshot with the greatest number, whatever the order of the entries.
pub find_latest_greatest :
    (names : List Str) (n : ℕ)
    → All IsExpected names
    → n < u64_mod
    → Has names (snapshot_name n)
    → (m : ℕ) × (find_latest_snapshot (some names) ≡ some (snapshot_name m))
      × Has names (snapshot_name m)
      × ((k : ℕ) → k < u64_mod → Has names (snapshot_name k) → k ≤ m)
find_latest_greatest names n expected h here =
    let (r, done, f) = search-Found names none expected in
    let (s, p, held, _) = f.all n h here in
    elim f.from [
      | inl same ↦ cc (same, held)
      | inr (m, _, same, found) ↦ (
        m,
        unfold find_latest_snapshot in rw (done, same, find_latest_snapshot) refl,
        found,
        λ k lt is_there.
            (let (t, q, told, le) = f.all k lt is_there in
              let number : t ≡ m = number_of (sym told ∙ same) in
              subst (λ (j : ℕ). k ≤ j) number le),
      )
    ]
  where
    number_of :
        {t u : ℕ} {p q : Str} → ◌≡◌ {A = Option (ℕ × Str)} (some (t, p)) (some (u, q)) → t ≡ u
    number_of e = cc e

-- One JSON file whose name is not that of a snapshot hides every snapshot of the directory: the
-- search finds nothing.
pub find_latest_blocked :
    (names : List Str) (name stem : Str)
    → Has names name
    → json_stem name ≡ some stem
    → seq_of_stem stem ≡ none
    → find_latest_snapshot (some names) ≡ none
find_latest_blocked names name stem here is_json odd =
    unfold find_latest_snapshot in rw (blocked names none here, find_latest_snapshot) refl
  where
    stop : (names : List Str) (best : Option (ℕ × Str)) → search (name ∷ names) best ≡ none
    stop names best = unfold search in rw (is_json, odd, search) refl

    goes_on :
        (names : List Str) (k : Str) (best : Option (ℕ × Str))
        → Has names name
        → ((b : Option (ℕ × Str)) → search names b ≡ none)
        → search (k ∷ names) best ≡ none
    goes_on names k best h rest = elim (Option-cases (json_stem k)) [
      | inl ignored ↦ search-ignored k names best ignored ∙ rest best
      | inr (s, json) ↦ elim (Option-cases (seq_of_stem s)) [
        | inl bad ↦ unfold search in rw (json, bad, search) refl
        | inr (n, good) ↦ unfold search in rw (json, good, search) (rest (better n k best))
      ]
    ]

    blocked :
        (names : List Str) (best : Option (ℕ × Str)) → Has names name → search names best ≡ none
    blocked [] best h = absurd h
    blocked (k ∷ names) best (inl same) =
        subst (λ (z : Str). search (z ∷ names) best ≡ none) (sym same) (stop names best)
    blocked (k ∷ names) best (inr h) = goes_on names k best h (λ b. blocked names b h)
