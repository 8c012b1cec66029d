-- ===== src/Prelude/Loops.antt =====
-- `for` loops that may `break`: the body says whether the loop stops or goes on.
use mathlib.Core.List.{List, [], ◌∷◌}

pub data Flow {ℓ} (S : Type ℓ) : Type ℓ where
  stop : S → Flow S
  go : S → Flow S

-- What a round ensures: `P` if the loop goes on, `Q` if it stops.
abbrev pub Ensures {κ μ} : {S : Type κ} → (S → Type μ) → (S → Type μ) → Flow S → Type μ
Ensures P Q (stop s) = Q s
Ensures P Q (go s) = P s

module _ {ℓ κ} {A : Type ℓ} {S : Type κ} where
  unfoldable pub for_each : (A → S → Flow S) → List A → S → S
  for_each body [] s = s
  for_each body (a ∷ rest) s = elim (body a s) [ stop t ↦ t | go t ↦ for_each body rest t ]

  -- The loop rule: `P` speaks of the elements that are left.
  pub for_each_rule {μ} :
      (P : List A → S → Type μ) (Q : S → Type μ) (body : A → S → Flow S)
      → ((s : S) → P [] s → Q s)
      → ((a : A) (rest : List A) (s : S) → P (a ∷ rest) s → Ensures (P rest) Q (body a s))
      → (xs : List A) (s : S) → P xs s
      → Q (for_each body xs s)
  unfolding for_each
  for_each_rule P Q body end step [] s h = end s h
  for_each_rule P Q body end step (a ∷ rest) s h =
      next (for_each_rule P Q body end step rest) (body a s) (step a rest s h)
    where
      next :
          ((t : S) → P rest t → Q (for_each body rest t))
          → (r : Flow S) → Ensures (P rest) Q r
          → Q (elim r [ stop t ↦ t | go t ↦ for_each body rest t ])
      next more (stop t) q = q
      next more (go t) p = more t p
