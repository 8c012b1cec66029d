-- ===== src/Engine/Orderbook/Queue.antt =====
-- The queue of one price level under the `retain` of src/engine/orderbook.rs.
use rust_matching_engine.Prelude.{
  ◌≡◌, ◌≢◌, refl, List, [], ◌∷◌, ◌++◌, All, All-append, Has, Distinct, arith, if_pos, if_neg,
}
use rust_matching_engine.HashMap.{bytes_eq}
use rust_matching_engine.Domain.Order.{OrderId}
use rust_matching_engine.Engine.Orderbook.{retain_ne}

-- What is left differs from the dropped id, and had every property before.
pub All-retain_ne {κ} :
    (P : OrderId → Type κ) (id : OrderId) (q : List OrderId)
    → All P q
    → All (λ j. (j ≢ id) × P j) (retain_ne id q)
unfolding retain_ne
All-retain_ne P id [] h = tt
All-retain_ne P id (j ∷ q) h = elim (bytes_eq j id) [
  | yes e ↦ rw (if_pos _ e) (All-retain_ne P id q h.1)
  | no e ↦ rw (if_neg _ e) ((e, h.0), All-retain_ne P id q h.1)
]

pub All-retain_ne_weak {κ} :
    (P : OrderId → Type κ) (id : OrderId) (q : List OrderId) → All P q → All P (retain_ne id q)
unfolding retain_ne
All-retain_ne_weak P id [] h = tt
All-retain_ne_weak P id (j ∷ q) h = elim (bytes_eq j id) [
  | yes e ↦ rw (if_pos _ e) (All-retain_ne_weak P id q h.1)
  | no e ↦ rw (if_neg _ e) (h.0, All-retain_ne_weak P id q h.1)
]

pub Distinct-retain_ne : (id : OrderId) (q : List OrderId) → Distinct q → Distinct (retain_ne id q)
unfolding retain_ne
Distinct-retain_ne id [] h = tt
Distinct-retain_ne id (j ∷ q) h = elim (bytes_eq j id) [
  | yes e ↦ rw (if_pos _ e) (Distinct-retain_ne id q h.1)
  | no e ↦ rw (if_neg _ e) (All-retain_ne_weak (λ y. j ≢ y) id q h.0, Distinct-retain_ne id q h.1)
]

pub Has-retain_ne : (id k : OrderId) (q : List OrderId) → Has q k → k ≢ id → Has (retain_ne id q) k
unfolding retain_ne
Has-retain_ne id k [] m ne = m
Has-retain_ne id k (j ∷ q) m ne = ground (arith, Has-retain_ne id k q)

pub Has-of_retain_ne : (id k : OrderId) (q : List OrderId) → Has (retain_ne id q) k → Has q k
unfolding retain_ne
Has-of_retain_ne id k [] m = m
Has-of_retain_ne id k (j ∷ q) m = ground (arith, Has-of_retain_ne id k q)

pub retain_ne_absent : (id : OrderId) (q : List OrderId) → All (λ j. id ≢ j) q → retain_ne id q ≡ q
unfolding retain_ne
retain_ne_absent id [] h = refl
retain_ne_absent id (j ∷ q) h = ground (arith, retain_ne_absent id q h.1)

-- Dropping the front of a queue leaves the rest.
pub retain_ne_front :
    (id : OrderId) (q : List OrderId) → Distinct (id ∷ q) → retain_ne id (id ∷ q) ≡ q
retain_ne_front id q d =
    unfold retain_ne in rw (if_pos (bytes_eq id id) refl) (retain_ne_absent id q d.0)

pub Distinct-append_one :
    (id : OrderId) (q : List OrderId) → Distinct q → All (λ j. j ≢ id) q → Distinct (q ++ id ∷ [])
Distinct-append_one id [] d h = (tt, tt)
Distinct-append_one id (j ∷ q) d h =
    (All-append (λ y. j ≢ y) q (id ∷ []) d.0 (h.0, tt), Distinct-append_one id q d.1 h.1)
