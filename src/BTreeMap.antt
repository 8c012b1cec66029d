-- ===== src/BTreeMap.antt =====
-- std::collections::BTreeMap<u64, V>, as an association list that `insert` keeps in key order.
use rust_matching_engine.Prelude.{
  ℕ, ◌<◌, ◌≤◌, ◌≡◌, ◌≢◌, refl, List, [], ◌∷◌, Option, none, some, arith, ltb, ◌==◌, if◌then◌else◌,
  All, Has,
}

abbrev pub BTreeMap : Type 0 → Type 0
BTreeMap V = List (ℕ × V)

module _ {V : Type 0} where
  unfoldable pub get : BTreeMap V → ℕ → Option V
  get [] k = none
  get ((j, v) ∷ m) k = if j == k then some v else get m k

  unfoldable pub insert : BTreeMap V → ℕ → V → BTreeMap V
  insert [] k v = (k, v) ∷ []
  insert ((j, w) ∷ m) k v =
      if ltb k j then (k, v) ∷ (j, w) ∷ m else if k == j then (k, v) ∷ m else (j, w) ∷ insert m k v

  unfoldable pub remove : BTreeMap V → ℕ → BTreeMap V
  remove [] k = []
  remove ((j, w) ∷ m) k = let rest = remove m k in if j == k then rest else (j, w) ∷ rest

  -- The keys in ascending order.
  unfoldable pub keys : BTreeMap V → List ℕ
  keys [] = []
  keys ((j, w) ∷ m) = j ∷ keys m

  pub get-insert :
      (m : BTreeMap V) (k j : ℕ) (v : V)
      → get (insert m k v) j ≡ (if k == j then some v else get m j)
  unfolding get insert
  get-insert [] k j v = refl
  get-insert ((i, w) ∷ m) k j v = ground (arith, get-insert m k j v)

  pub get-remove :
      (m : BTreeMap V) (k j : ℕ) → get (remove m k) j ≡ (if k == j then none else get m j)
  unfolding get remove
  get-remove [] k j = ground arith
  get-remove ((i, w) ∷ m) k j = ground (arith, get-remove m k j)

  -- Each key is below all that follow.
  abbrev pub IsSorted : BTreeMap V → Type 0
  IsSorted [] = Unit
  IsSorted ((j, w) ∷ m) = All (λ e. j < e.0) m × IsSorted m

  insert-above :
      (m : BTreeMap V) (b k : ℕ) (v : V)
      → b < k
      → All (λ e. b < e.0) m
      → All (λ e. b < e.0) (insert m k v)
  unfolding insert
  insert-above [] b k v lt h = (lt, tt)
  insert-above ((i, w) ∷ m) b k v lt h = ground (arith, insert-above m b k v lt h.1)

  above_trans : (m : BTreeMap V) (b c : ℕ) → b ≤ c → All (λ e. c < e.0) m → All (λ e. b < e.0) m
  above_trans [] b c le h = tt
  above_trans ((i, w) ∷ m) b c le h = (omega arith, above_trans m b c le h.1)

  pub insert-IsSorted : (m : BTreeMap V) (k : ℕ) (v : V) → IsSorted m → IsSorted (insert m k v)
  unfolding insert
  insert-IsSorted [] k v s = (tt, tt)
  insert-IsSorted ((i, w) ∷ m) k v s =
      ground (arith, insert-IsSorted m k v s.1, insert-above m i k v, above_trans m k i)

  remove-above : (m : BTreeMap V) (b k : ℕ) → All (λ e. b < e.0) m → All (λ e. b < e.0) (remove m k)
  unfolding remove
  remove-above [] b k h = tt
  remove-above ((i, w) ∷ m) b k h = ground (arith, remove-above m b k h.1)

  pub remove-IsSorted : (m : BTreeMap V) (k : ℕ) → IsSorted m → IsSorted (remove m k)
  unfolding remove
  remove-IsSorted [] k s = tt
  remove-IsSorted ((i, w) ∷ m) k s = ground (arith, remove-IsSorted m k s.1, remove-above m i k s.0)

  -- A key stands among the keys exactly when `get` finds it.
  pub Has-keys : (m : BTreeMap V) (k : ℕ) → get m k ≢ none → Has (keys m) k
  unfolding get keys
  Has-keys [] k h = absurd (h refl)
  Has-keys ((j, w) ∷ m) k h = ground (arith, Has-keys m k)

  pub get-keys : (m : BTreeMap V) (k : ℕ) → Has (keys m) k → get m k ≢ none
  unfolding get keys
  get-keys [] k h = absurd h
  get-keys ((j, w) ∷ m) k h = ground (arith, get-keys m k)
