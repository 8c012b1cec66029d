-- ===== src/Engine/Matching/Fills.antt =====
-- What a fill does to an order, and what a list of fills adds up to (src/engine/matching.rs).
use rust_matching_engine.Prelude.{
  ℕ, ◌+◌, ◌-◌, ◌≤◌, ◌<◌, ◌≡◌, ◌∙◌, List, [], ◌∷◌, ◌++◌, arith, true, false, u64_mod, ite,
  add64-eq-add, sub64-eq-sub, ◌==◌,
}
use rust_matching_engine.HashMap.{bytes_eq}
use rust_matching_engine.Domain.Order.{
  Order, OrderId, Fill, Side, buy, sell, is_closed, remaining_size_lots,
}
use rust_matching_engine.Engine.Matching.{take_fill}

-- The filled quantity is in range.
pub record IsSound (o : Order) : Type 0 where
  pub not_over : o.filled_size_lots ≤ o.orig_size_lots
  pub in_range : o.orig_size_lots < u64_mod

pub remaining-eq-sub :
    (o : Order) → IsSound o → remaining_size_lots o ≡ o.orig_size_lots - o.filled_size_lots
unfolding remaining_size_lots
remaining-eq-sub o s = sub64-eq-sub o.orig_size_lots o.filled_size_lots s.not_over s.in_range

module _ (o : Order) (seq_id qty : ℕ) (sound : IsSound o)
    (fits : o.filled_size_lots + qty ≤ o.orig_size_lots) where
  pub filled-take_fill : (take_fill o seq_id qty).filled_size_lots ≡ o.filled_size_lots + qty
  unfolding take_fill
  filled-take_fill = let r = sound.in_range in add64-eq-add o.filled_size_lots qty (omega arith)

  pub take_fill-IsSound : IsSound (take_fill o seq_id qty)
  take_fill-IsSound = record {
    not_over = rw filled-take_fill (unfold take_fill in fits);
    in_range = unfold take_fill in sound.in_range;
  }

  -- The order is closed exactly when nothing remains.
  pub is_closed-take_fill :
      is_closed (take_fill o seq_id qty) ≡ (remaining_size_lots (take_fill o seq_id qty) == 0)
  unfolding take_fill is_closed remaining_size_lots
  is_closed-take_fill = ground arith

  -- An order that a fill leaves open has a rest, and one that it closes has none.
  pub rest-take_fill :
      is_closed (take_fill o seq_id qty) ≡ false → o.filled_size_lots + qty < o.orig_size_lots
  rest-take_fill c =
      let r = remaining-eq-sub (take_fill o seq_id qty) take_fill-IsSound in
      let f = filled-take_fill in let e = is_closed-take_fill in unfold take_fill in ground arith

  pub closed-take_fill :
      is_closed (take_fill o seq_id qty) ≡ true → o.filled_size_lots + qty ≡ o.orig_size_lots
  closed-take_fill c =
      let r = remaining-eq-sub (take_fill o seq_id qty) take_fill-IsSound in
      let f = filled-take_fill in let e = is_closed-take_fill in unfold take_fill in ground arith

-- The sum of the fills' quantities.
unfoldable pub total : List Fill → ℕ
total [] = 0
total (f ∷ fs) = f.size_lots + total fs

-- The sum over the fills of one maker.
unfoldable pub filled_by : OrderId → List Fill → ℕ
filled_by id [] = 0
filled_by id (f ∷ fs) = ite (bytes_eq f.maker_order_id id) f.size_lots 0 + filled_by id fs

pub total-append_one : (fs : List Fill) (f : Fill) → total (fs ++ f ∷ []) ≡ total fs + f.size_lots
unfolding total
total-append_one [] f = omega arith
total-append_one (g ∷ fs) f = omega (arith, total-append_one fs f)

pub filled_by-append_one :
    (id : OrderId) (fs : List Fill) (f : Fill)
    → filled_by id (fs ++ f ∷ [])
      ≡ filled_by id fs + ite (bytes_eq f.maker_order_id id) f.size_lots 0
unfolding filled_by
filled_by-append_one id [] f = omega arith
filled_by-append_one id (g ∷ fs) f = omega (arith, filled_by-append_one id fs f)

-- The order's terms, which no fill changes.
pub record SameTerms (o o' : Order) : Type 0 where
  pub order_id : o'.order_id ≡ o.order_id
  pub order_hash : o'.order_hash ≡ o.order_hash
  pub trader_id : o'.trader_id ≡ o.trader_id
  pub side : o'.side ≡ o.side
  pub price : o'.price_ticks ≡ o.price_ticks
  pub size : o'.orig_size_lots ≡ o.orig_size_lots

pub SameTerms-refl : (o : Order) → SameTerms o o
SameTerms-refl o = ground arith

pub SameTerms-trans : (o p q : Order) → SameTerms o p → SameTerms p q → SameTerms o q
SameTerms-trans o p q a b = record {
  order_id = b.order_id ∙ a.order_id;
  order_hash = b.order_hash ∙ a.order_hash;
  trader_id = b.trader_id ∙ a.trader_id;
  side = b.side ∙ a.side;
  price = b.price ∙ a.price;
  size = b.size ∙ a.size;
}

pub SameTerms-take_fill :
    (o o' : Order) (seq_id qty : ℕ) → SameTerms o o' → SameTerms o (take_fill o' seq_id qty)
unfolding take_fill
SameTerms-take_fill o o' seq_id qty t = ground arith

-- The price is no worse for the taker than its limit.
abbrev pub Crosses : Side → ℕ → ℕ → Type 0
Crosses buy limit p = p ≤ limit
Crosses sell limit p = limit ≤ p

abbrev pub opposite : Side → Side
opposite buy = sell
opposite sell = buy
