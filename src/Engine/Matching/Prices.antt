-- ===== src/Engine/Matching/Prices.antt =====
-- The order of the prices that the matching loop walks (src/engine/matching.rs).
use mathlib.Core.List.{reverse, reverse-cons}
use rust_matching_engine.Prelude.{
  ℕ, ◌≡◌, ◌<◌, List, [], ◌∷◌, ◌++◌, arith, Bool, true, All, All-append, All-Has, Has,
  Has-append_left, Has-append_right, inl, inr,
}
use rust_matching_engine.BTreeMap
use rust_matching_engine.BTreeMap.{BTreeMap, IsSorted}
use rust_matching_engine.Engine.Matching.{take_while}

-- Every element stands in the relation to all that follow.
abbrev pub Ordered : (ℕ → ℕ → Type 0) → List ℕ → Type 0
Ordered R [] = Unit
Ordered R (x ∷ xs) = All (R x) xs × Ordered R xs

module _ (R : ℕ → ℕ → Type 0) where
  Ordered-append_one :
      (x : ℕ) (xs : List ℕ) → Ordered R xs → All (λ y. R y x) xs → Ordered R (xs ++ x ∷ [])
  Ordered-append_one x [] o h = (tt, tt)
  Ordered-append_one x (y ∷ xs) o h =
      (All-append (R y) xs (x ∷ []) o.0 (h.0, tt), Ordered-append_one x xs o.1 h.1)

  -- `take_while` keeps every element that passes, if the test passes on all before it.
  pub Has-take_while :
      (test : ℕ → Bool)
      → ((x y : ℕ) → R x y → test y ≡ true → test x ≡ true)
      → (p : ℕ) (l : List ℕ) → Ordered R l
      → Has l p
      → test p ≡ true
      → Has (take_while test l) p
  unfolding take_while
  Has-take_while test down p [] o m t = m
  Has-take_while test down p (x ∷ l) o (inl e) t = let tx : test x ≡ true = rw e t in rw tx (inl e)
  Has-take_while test down p (x ∷ l) o (inr m) t =
      let tx : test x ≡ true = down x p (All-Has (R x) p l o.0 m) t in
      rw tx (inr (Has-take_while test down p l o.1 m t))

pub All-take_while : (test : ℕ → Bool) (l : List ℕ) → All (λ p. test p ≡ true) (take_while test l)
unfolding take_while
All-take_while test [] = tt
All-take_while test (x ∷ l) = ground (arith, All-take_while test l)

All-reverse : (P : ℕ → Type 0) (l : List ℕ) → All P l → All P (reverse l)
All-reverse P [] h = tt
All-reverse P (x ∷ l) h =
    rw reverse-cons (All-append P (reverse l) (x ∷ []) (All-reverse P l h.1) (h.0, tt))

pub Has-reverse : (p : ℕ) (l : List ℕ) → Has l p → Has (reverse l) p
Has-reverse p [] m = absurd m
Has-reverse p (x ∷ l) (inl e) = rw reverse-cons (Has-append_right p (reverse l) (x ∷ []) (inl e))
Has-reverse p (x ∷ l) (inr m) =
    rw reverse-cons (Has-append_left p (reverse l) (x ∷ []) (Has-reverse p l m))

pub Ordered-reverse :
    (R : ℕ → ℕ → Type 0) (l : List ℕ) → Ordered R l → Ordered (λ x y. R y x) (reverse l)
Ordered-reverse R [] o = tt
Ordered-reverse R (x ∷ l) o = rw reverse-cons (
    Ordered-append_one (λ a b. R b a) x (reverse l) (Ordered-reverse R l o.1)
      (All-reverse (R x) l o.0))

All-keys :
    {V : Type 0} (P : ℕ → Type 0) (m : BTreeMap V) → All (λ e. P e.0) m → All P (BTreeMap.keys m)
unfolding BTreeMap.keys
All-keys P [] h = tt
All-keys P ((j, v) ∷ m) h = (h.0, All-keys P m h.1)

pub Ordered-keys : {V : Type 0} (m : BTreeMap V) → IsSorted m → Ordered ◌<◌ (BTreeMap.keys m)
unfolding BTreeMap.keys
Ordered-keys [] s = tt
Ordered-keys ((j, v) ∷ m) s = (All-keys (λ p. j < p) m s.0, Ordered-keys m s.1)
