-- ===== src/StateStore/Checksum/Sorting.antt =====
-- The sorted entries of a map hold what the map holds, and are ascending (src/db/mod.rs).
use rust_matching_engine.Prelude.{
  ◌≡◌, ◌≢◌, refl, sym, ap, ◌∙◌, List, [], ◌∷◌, true, Bool-cases, inl, inr, Option, none, some, ite,
  if_pos, if_neg, arith, All, All-map,
}
use rust_matching_engine.HashMap.{HashMap, Bytes, bytes_eq, bytes_key}
use rust_matching_engine.HashMap
use rust_matching_engine.StateStore.Checksum.{bytes_le, insert_by_key, sort_by_key}
use rust_matching_engine.StateStore.Checksum.Order.{
  bytes_le_total, bytes_le_antisymm, bytes_le_trans,
}

module _ {V : Type 0} where
  -- One entry for each key.
  unfoldable pub IsMap : HashMap Bytes V → Type 0
  IsMap [] = Unit {0}
  IsMap ((k, v) ∷ m) = (HashMap.get m k ≡ none) × IsMap m

  -- Every key is above `k`.
  abbrev pub Above : Bytes → List (Bytes × V) → Type 0
  Above k m = All (λ (p : Bytes × V). (bytes_le k p.0 ≡ true) × (p.0 ≢ k)) m

  unfoldable pub IsAscending : List (Bytes × V) → Type 0
  IsAscending [] = Unit {0}
  IsAscending ((k, v) ∷ m) = Above k m × IsAscending m

  pub get-cons :
      (k j : Bytes) (v : V) (m : HashMap Bytes V)
      → HashMap.get ((k, v) ∷ m) j ≡ ite (bytes_eq k j) (some v) (HashMap.get m j)
  unfolding HashMap.get bytes_eq
  get-cons k j v m = refl

  pub get-head : (k : Bytes) (v : V) (m : HashMap Bytes V) → HashMap.get ((k, v) ∷ m) k ≡ some v
  get-head k v m = get-cons k k v m ∙ if_pos (bytes_eq k k) refl _ _

  pub get-tail :
      (k j : Bytes) (v : V) (m : HashMap Bytes V)
      → k ≢ j
      → HashMap.get ((k, v) ∷ m) j ≡ HashMap.get m j
  get-tail k j v m h = get-cons k j v m ∙ if_neg (bytes_eq k j) h _ _

  get-insert_by_key :
      (k : Bytes) (v : V) (m : HashMap Bytes V) (j : Bytes)
      → HashMap.get m k ≡ none
      → HashMap.get (insert_by_key k v m) j ≡ ite (bytes_eq k j) (some v) (HashMap.get m j)
  unfolding insert_by_key
  get-insert_by_key k v [] j h = get-cons k j v []
  get-insert_by_key k v ((i, w) ∷ m) j h = elim (bytes_eq i k) [
    | yes same ↦ cc (same, h, get-head i w m)
    | no other ↦
        let rest = get-insert_by_key k v m j (sym (get-tail i k w m other) ∙ h) in
        elim (Bool-cases (bytes_le k i)) [
          | inl c ↦ rw c (get-cons k j v ((i, w) ∷ m))
          | inr c ↦
              rw c (
                ground (arith, rest, get-cons i j w m, get-cons i j w (insert_by_key k v m), other))
        ]
  ]

  Above-insert_by_key :
      (b k : Bytes) (v : V) (m : HashMap Bytes V)
      → bytes_le b k ≡ true
      → k ≢ b
      → Above b m
      → Above b (insert_by_key k v m)
  unfolding insert_by_key
  Above-insert_by_key b k v [] h n a = ((h, n), tt)
  Above-insert_by_key b k v ((i, w) ∷ m) h n (here, rest) =
      let tail = Above-insert_by_key b k v m h n rest in
      elim (Bool-cases (bytes_le k i)) [
        | inl c ↦ rw c ((h, n), (here, rest))
        | inr c ↦ rw c (here, tail)
      ]

  insert_by_key-IsAscending :
      (k : Bytes) (v : V) (m : HashMap Bytes V)
      → HashMap.get m k ≡ none
      → IsAscending m
      → IsAscending (insert_by_key k v m)
  unfolding insert_by_key IsAscending
  insert_by_key-IsAscending k v [] h a = (tt, tt)
  insert_by_key-IsAscending k v ((i, w) ∷ m) h (above, rest) = elim (bytes_eq i k) [
    | yes same ↦ cc (same, h, get-head i w m)
    | no other ↦ elim (Bool-cases (bytes_le k i)) [
      | inl c ↦ rw c (
        (
          (c, other),
          All-map
              (λ p q. (
                bytes_le_trans k i p.0 c q.0,
                (λ same. other (bytes_le_antisymm i k (rw same at q.0) c)),
              ))
              m above,
        ),
        (above, rest),
      )
      | inr c ↦ rw c (
        Above-insert_by_key i k v m (bytes_le_total k i c) (λ same. other (sym same)) above,
        insert_by_key-IsAscending k v m (sym (get-tail i k w m other) ∙ h) rest,
      )
    ]
  ]

  -- Sorting keeps what the map answers.
  pub get-sort_by_key :
      (m : HashMap Bytes V)
      → IsMap m
      → (j : Bytes) → HashMap.get (sort_by_key m) j ≡ HashMap.get m j
  unfolding sort_by_key IsMap
  get-sort_by_key [] _ j = refl
  get-sort_by_key ((k, v) ∷ m) (fresh, rest) j =
      get-insert_by_key k v (sort_by_key m) j (get-sort_by_key m rest k ∙ fresh)
      ∙ (ap (λ (o : Option V). ite (bytes_eq k j) (some v) o) (get-sort_by_key m rest j)
          ∙ sym (get-cons k j v m))

  pub sort_by_key-IsAscending : (m : HashMap Bytes V) → IsMap m → IsAscending (sort_by_key m)
  unfolding sort_by_key IsMap
  sort_by_key-IsAscending [] _ = unfold IsAscending in tt
  sort_by_key-IsAscending ((k, v) ∷ m) (fresh, rest) =
      insert_by_key-IsAscending k v (sort_by_key m) (get-sort_by_key m rest k ∙ fresh)
        (sort_by_key-IsAscending m rest)
