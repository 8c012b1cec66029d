-- ===== src/Engine/Orderbook/Levels.antt =====
-- What the writes of src/engine/orderbook.rs do to the queue of each price level.
use rust_matching_engine.Prelude.{
  ℕ, ◌≡◌, ◌≢◌, refl, ◌∙◌, List, [], ◌∷◌, ◌++◌, some, arith, Bool, true, false, if◌then◌else◌, ◌==◌,
  unwrap_or, Option-cases, inl, inr,
}
use rust_matching_engine.HashMap.{bytes_key}
use rust_matching_engine.HashMap
use rust_matching_engine.BTreeMap
use rust_matching_engine.BTreeMap.{BTreeMap, IsSorted}
use rust_matching_engine.Domain.Order.{Order, OrderId, Side, buy, sell}
use rust_matching_engine.Engine.Orderbook.{
  OrderBook, levels, set_levels, get, set_order, remove_from_queue, drop_from_level, put_queue,
  retain_ne, push_back, insert, orders_at_price,
}

abbrev pub same_level : Side → ℕ → Side → ℕ → Bool
same_level buy p buy q = p == q
same_level sell p sell q = p == q
same_level _ _ _ _ = false

pub same_level_refl : (s : Side) (p : ℕ) → same_level s p s p ≡ true
same_level_refl buy p = ground arith
same_level_refl sell p = ground arith

pub same_level-eq : (s t : Side) (p q : ℕ) → same_level s p t q ≡ true → (s ≡ t) × (p ≡ q)
same_level-eq buy buy p q e = (refl, ground arith)
same_level-eq sell sell p q e = (refl, ground arith)
same_level-eq buy sell p q e = cc
same_level-eq sell buy p q e = cc

queue_of : BTreeMap (List OrderId) → ℕ → List OrderId
queue_of m p = unwrap_or (BTreeMap.get m p) []

queue_of-put_queue :
    (m : BTreeMap (List OrderId)) (p r : ℕ) (q : List OrderId)
    → queue_of (put_queue m p q) r ≡ (if p == r then q else queue_of m r)
unfolding queue_of put_queue
queue_of-put_queue m p r [] = ground (arith, BTreeMap.get-remove m p r)
queue_of-put_queue m p r (j ∷ q) = ground (arith, BTreeMap.get-insert m p r (j ∷ q))

queue_of-drop :
    (m : BTreeMap (List OrderId)) (p r : ℕ) (id : OrderId)
    → queue_of (drop_from_level m p id) r
      ≡ (if p == r then retain_ne id (queue_of m r) else queue_of m r)
queue_of-drop m p r id = elim (Option-cases (BTreeMap.get m p)) [
  | inl e ↦ unfold drop_from_level queue_of retain_ne in rw (e, drop_from_level) (ground (arith, e))
  | inr (q, e) ↦
      unfold drop_from_level in
      rw (e, drop_from_level)
        (unfold queue_of in ground (arith, queue_of-put_queue m p r (retain_ne id q)))
]

queue_of-push_back :
    (m : BTreeMap (List OrderId)) (p r : ℕ) (id : OrderId)
    → queue_of (push_back m p id) r ≡ (if p == r then queue_of m r ++ id ∷ [] else queue_of m r)
unfolding queue_of push_back
queue_of-push_back m p r id = ground (arith, BTreeMap.get-insert m p r (queue_of m p ++ id ∷ []))

pub orders_at_price-set_order :
    (b : OrderBook) (id : OrderId) (o : Order) (p : ℕ) (s : Side)
    → orders_at_price (set_order b id o) p s ≡ orders_at_price b p s
unfolding orders_at_price
orders_at_price-set_order b id o p buy = refl
orders_at_price-set_order b id o p sell = refl

drop_at :
    (b : OrderBook) (s t : Side) (p q : ℕ) (id : OrderId)
    → orders_at_price (set_levels b s (drop_from_level (levels b s) p id)) q t
      ≡ (if same_level s p t q then retain_ne id (orders_at_price b q t) else orders_at_price b q t)
unfolding orders_at_price set_levels levels
drop_at b buy buy p q id = unfold queue_of in queue_of-drop b.bids p q id
drop_at b sell sell p q id = unfold queue_of in queue_of-drop b.asks p q id
drop_at b buy sell p q id = refl
drop_at b sell buy p q id = refl

-- Removing an id drops it from the queue of its order's level, and leaves the other queues.
pub orders_at_price-remove :
    (b : OrderBook) (id : OrderId) (o : Order) (q : ℕ) (t : Side)
    → get b id ≡ some o
    → orders_at_price (remove_from_queue b id) q t ≡ (
        if same_level o.side o.price_ticks t q
        then retain_ne id (orders_at_price b q t)
        else orders_at_price b q t)
orders_at_price-remove b id o q t e =
    unfold remove_from_queue in rw (e, remove_from_queue) (drop_at b o.side t o.price_ticks q id)

push_at :
    (b : OrderBook) (s t : Side) (p q : ℕ) (id : OrderId)
    → orders_at_price (set_levels b s (push_back (levels b s) p id)) q t
      ≡ (if same_level s p t q then orders_at_price b q t ++ id ∷ [] else orders_at_price b q t)
unfolding orders_at_price set_levels levels
push_at b buy buy p q id = unfold queue_of in queue_of-push_back b.bids p q id
push_at b sell sell p q id = unfold queue_of in queue_of-push_back b.asks p q id
push_at b buy sell p q id = refl
push_at b sell buy p q id = refl

-- An inserted order goes to the back of the queue of its level, and the other queues stay.
pub orders_at_price-insert :
    (b : OrderBook) (o : Order) (q : ℕ) (t : Side)
    → orders_at_price (insert b o) q t ≡ (
        if same_level o.side o.price_ticks t q
        then orders_at_price b q t ++ o.order_id ∷ []
        else orders_at_price b q t)
unfolding insert orders_at_price
orders_at_price-insert b o q t =
    push_at (set_order b o.order_id o) o.side t o.price_ticks q o.order_id
    ∙ rw (orders_at_price-set_order b o.order_id o q t)

orders-set_levels :
    (b : OrderBook) (s : Side) (m : BTreeMap (List OrderId)) → (set_levels b s m).orders ≡ b.orders
unfolding set_levels
orders-set_levels b buy m = refl
orders-set_levels b sell m = refl

pub orders-remove : (b : OrderBook) (id : OrderId) → (remove_from_queue b id).orders ≡ b.orders
orders-remove b id = elim (Option-cases (get b id)) [
  | inl e ↦ unfold remove_from_queue in rw (e, remove_from_queue)
  | inr (o, e) ↦
      unfold remove_from_queue in rw (e, remove_from_queue) (orders-set_levels b o.side _)
]

pub orders-insert :
    (b : OrderBook) (o : Order) → (insert b o).orders ≡ HashMap.insert b.orders o.order_id o
unfolding insert
orders-insert b o = orders-set_levels (set_order b o.order_id o) o.side _

-- Sorted levels, none of them with an empty queue.
pub record AreTidy (m : BTreeMap (List OrderId)) : Type 0 where
  pub sorted : IsSorted m
  pub nonempty : (p : ℕ) → BTreeMap.get m p ≢ some []

put_queue-AreTidy :
    (m : BTreeMap (List OrderId)) (p : ℕ) (q : List OrderId) → AreTidy m → AreTidy (put_queue m p q)
unfolding put_queue
put_queue-AreTidy m p [] t = record {
  sorted = BTreeMap.remove-IsSorted m p t.sorted;
  nonempty = λ r. ground (arith, BTreeMap.get-remove m p r, t.nonempty r);
}
put_queue-AreTidy m p (j ∷ q) t = record {
  sorted = BTreeMap.insert-IsSorted m p (j ∷ q) t.sorted;
  nonempty = λ r. ground (arith, BTreeMap.get-insert m p r (j ∷ q), t.nonempty r);
}

drop-AreTidy :
    (m : BTreeMap (List OrderId)) (p : ℕ) (id : OrderId)
    → AreTidy m
    → AreTidy (drop_from_level m p id)
drop-AreTidy m p id t = elim (Option-cases (BTreeMap.get m p)) [
  | inl e ↦ unfold drop_from_level in rw (e, drop_from_level) t
  | inr (q, e) ↦
      unfold drop_from_level in rw (e, drop_from_level) (put_queue-AreTidy m p (retain_ne id q) t)
]

append_one_ne : (q : List OrderId) (id : OrderId) → q ++ id ∷ [] ≢ []
append_one_ne [] id e = cc
append_one_ne (x ∷ q) id e = cc

push_back-AreTidy :
    (m : BTreeMap (List OrderId)) (p : ℕ) (id : OrderId) → AreTidy m → AreTidy (push_back m p id)
unfolding push_back
push_back-AreTidy m p id t = record {
  sorted = BTreeMap.insert-IsSorted m p _ t.sorted;
  nonempty = λ r. ground (
    arith,
    BTreeMap.get-insert m p r (unwrap_or (BTreeMap.get m p) [] ++ id ∷ []),
    append_one_ne (unwrap_or (BTreeMap.get m p) []) id,
    t.nonempty r,
  );
}

abbrev pub HasTidyLevels : OrderBook → Type 0
HasTidyLevels b = AreTidy b.bids × AreTidy b.asks

drop_at-HasTidyLevels :
    (b : OrderBook) (s : Side) (p : ℕ) (id : OrderId)
    → HasTidyLevels b
    → HasTidyLevels (set_levels b s (drop_from_level (levels b s) p id))
unfolding levels set_levels
drop_at-HasTidyLevels b buy p id t = (drop-AreTidy b.bids p id t.0, t.1)
drop_at-HasTidyLevels b sell p id t = (t.0, drop-AreTidy b.asks p id t.1)

pub remove-HasTidyLevels :
    (b : OrderBook) (id : OrderId) → HasTidyLevels b → HasTidyLevels (remove_from_queue b id)
remove-HasTidyLevels b id t = elim (Option-cases (get b id)) [
  | inl e ↦ unfold remove_from_queue in rw (e, remove_from_queue) t
  | inr (o, e) ↦
      unfold remove_from_queue in
      rw (e, remove_from_queue) (drop_at-HasTidyLevels b o.side o.price_ticks id t)
]

push_at-HasTidyLevels :
    (b : OrderBook) (s : Side) (p : ℕ) (id : OrderId)
    → HasTidyLevels b
    → HasTidyLevels (set_levels b s (push_back (levels b s) p id))
unfolding levels set_levels
push_at-HasTidyLevels b buy p id t = (push_back-AreTidy b.bids p id t.0, t.1)
push_at-HasTidyLevels b sell p id t = (t.0, push_back-AreTidy b.asks p id t.1)

pub insert-HasTidyLevels :
    (b : OrderBook) (o : Order) → HasTidyLevels b → HasTidyLevels (insert b o)
unfolding insert
insert-HasTidyLevels b o t =
    push_at-HasTidyLevels (set_order b o.order_id o) o.side o.price_ticks o.order_id t
