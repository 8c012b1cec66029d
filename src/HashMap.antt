-- ===== src/HashMap.antt =====
-- std::collections::HashMap, as an association list in which `insert` keeps one entry for each key.
use rust_matching_engine.Prelude.{
  ℕ, ◌≡◌, ◌≢◌, refl, sym, ◌∙◌, ◌⊎◌, inl, inr, List, [], ◌∷◌, Option, none, some, ite, arith,
  ℕ_discrete,
}

-- The derived equality of a key type.
pub record Key (K : Type 0) : Type 0 where
  pub key_eq : Discrete K

-- A text is its UTF-8 bytes, and a hash or a key is its bytes.
abbrev pub Bytes : Type 0
Bytes = List ℕ

unfoldable pub bytes_eq : Discrete Bytes
unfolding ℕ_discrete
bytes_eq [] [] = yes refl
bytes_eq [] (y ∷ ys) = no (λ e. cc)
bytes_eq (x ∷ xs) [] = no (λ e. cc)
bytes_eq (x ∷ xs) (y ∷ ys) = elim (ℕ_discrete x y) [
  | yes p ↦ elim (bytes_eq xs ys) [ yes q ↦ yes (λ i. p i ∷ q i) | no q ↦ no (λ e. q (cc)) ]
  | no p ↦ no (λ e. p (cc))
]

unfoldable pub pair_eq : Discrete (Bytes × Bytes)
unfolding bytes_eq
pair_eq (a, b) (c, d) = elim (bytes_eq a c) [
  | yes p ↦ elim (bytes_eq b d) [
    | yes q ↦ yes (λ i. (p i, q i))
    | no q ↦ no (λ e. q (λ i. (e i).1))
  ]
  | no p ↦ no (λ e. p (λ i. (e i).0))
]

instance abbrev pub bytes_key : Key Bytes
bytes_key = record { key_eq = bytes_eq }

instance abbrev pub pair_key : Key (Bytes × Bytes)
pair_key = record { key_eq = pair_eq }

abbrev pub HashMap : Type 0 → Type 0 → Type 0
HashMap K V = List (K × V)

module _ {K V : Type 0} ⦃o : Key K⦄ where
  unfoldable pub get : HashMap K V → K → Option V
  get [] k = none
  get ((j, v) ∷ m) k = ite (o.key_eq j k) (some v) (get m k)

  unfoldable pub insert : HashMap K V → K → V → HashMap K V
  insert [] k v = (k, v) ∷ []
  insert ((j, w) ∷ m) k v = ite (o.key_eq j k) ((k, v) ∷ m) ((j, w) ∷ insert m k v)

  pub get-insert :
      (m : HashMap K V) (k j : K) (v : V)
      → get (insert m k v) j ≡ ite (o.key_eq k j) (some v) (get m j)
  unfolding get insert
  get-insert [] k j v = refl
  get-insert ((i, w) ∷ m) k j v = ground (arith, get-insert m k j v)

  pub get-insert_self : (m : HashMap K V) (k : K) (v : V) → get (insert m k v) k ≡ some v
  get-insert_self m k v = ground (arith, get-insert m k k v)

  pub get-insert_ne : (m : HashMap K V) (k j : K) (v : V) → k ≢ j → get (insert m k v) j ≡ get m j
  get-insert_ne m k j v h = ground (arith, get-insert m k j v)

  -- What is found after an insert is the new value, or was there.
  pub found_after :
      (m : HashMap K V) (k j : K) (v w : V)
      → get (insert m k v) j ≡ some w
      → ((j ≡ k) × (w ≡ v)) ⊎ ((j ≢ k) × (get m j ≡ some w))
  found_after m k j v w e = elim (o.key_eq j k) [
    | yes same ↦ inl (same, cc (e, same, get-insert_self m k v))
    | no ne ↦ inr (ne, sym (get-insert_ne m k j v (λ x. ne (sym x))) ∙ e)
  ]

  pub missing_before :
      (m : HashMap K V) (k j : K) (v : V) → get (insert m k v) j ≡ none → get m j ≡ none
  missing_before m k j v e = ground (arith, get-insert m k j v)
