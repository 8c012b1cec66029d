-- ===== src/Engine/Matching/Round.antt =====
-- One meeting of the taker with an open maker of another trader (src/engine/matching.rs).
use rust_matching_engine.Prelude.{
  ℕ, ◌+◌, ◌≤◌, ◌<◌, ◌≡◌, ◌≢◌, refl, sym, ap, subst, ◌∙◌, List, [], ◌∷◌, ◌++◌, none, some, arith,
  true, false, All, All-append, Has, Distinct, inl, inr, ◌⊎◌, Bool-cases, min,
}
use rust_matching_engine.HashMap.{HashMap, bytes_eq, bytes_key}
use rust_matching_engine.HashMap
use rust_matching_engine.Domain.Order.{Order, OrderId, Fill, Side, is_closed, remaining_size_lots}
use rust_matching_engine.Engine.Orderbook.{OrderBook, get, orders_at_price, retain_ne}
use rust_matching_engine.Engine.Orderbook.Queue
use rust_matching_engine.Engine.Orderbook.Levels.{orders-remove, orders_at_price-set_order}
use rust_matching_engine.Engine.Orderbook.Invariant.{
  IsWf, Rests, set_open-IsWf, close-IsWf, orders_at_price-close,
}
use rust_matching_engine.Engine.Matching.{
  MatchState, take_fill, make_fill, snapshot, settle_maker, trade,
}
use rust_matching_engine.Engine.Matching.Fills.{
  IsSound, remaining-eq-sub, filled-take_fill, take_fill-IsSound, rest-take_fill, total, filled_by,
  total-append_one, filled_by-append_one, SameTerms, SameTerms-refl, SameTerms-trans,
  SameTerms-take_fill, Crosses, opposite,
}

-- What an order of the first book has become under the fills; no other order is there.
pub data Account (b₀ b : OrderBook) (fills : List Fill) (id : OrderId) : Type 0 where
  absent : get b₀ id ≡ none → get b id ≡ none → Account b₀ b fills id
  present :
      (o o' : Order)
      → get b₀ id ≡ some o
      → get b id ≡ some o'
      → SameTerms o o'
      → o'.filled_size_lots ≡ o.filled_size_lots + filled_by id fills
      → Account b₀ b fills id

-- A fill for the taker `t₀` against an order of the book `b₀`.
pub record FillOk (b₀ : OrderBook) (t₀ : Order) (seq_id now_ms : ℕ) (f : Fill) : Type 0 where
  pub maker : Order
  pub found : get b₀ f.maker_order_id ≡ some maker
  pub maker_side : maker.side ≡ opposite t₀.side
  pub maker_price : f.price_ticks ≡ maker.price_ticks
  pub maker_trader : f.maker_trader_id ≡ maker.trader_id
  pub taker_id : f.taker_order_id ≡ t₀.order_id
  pub taker_trader : f.taker_trader_id ≡ t₀.trader_id
  pub not_self : f.maker_trader_id ≢ f.taker_trader_id
  pub positive : 0 < f.size_lots
  pub crosses : Crosses t₀.side t₀.price_ticks f.price_ticks
  pub stamped : (f.sequence_id ≡ seq_id) × (f.executed_at_ms ≡ now_ms)

-- The queues of `b` hold only what those of `b₁` hold.
pub record Shrinks (b₁ b : OrderBook) : Type 0 where
  pub at :
      (side : Side) (p : ℕ) (id : OrderId)
      → Has (orders_at_price b p side) id
      → Has (orders_at_price b₁ p side) id

-- How far matching has come from the book `b₀` and the taker `t₀`.
pub record Progress (b₀ : OrderBook) (t₀ : Order) (seq_id now_ms : ℕ) (s : MatchState)
    : Type 0 where
  pub wf : IsWf s.book
  pub sound : IsSound s.taker
  pub terms : SameTerms t₀ s.taker
  pub conserved : s.taker.filled_size_lots ≡ t₀.filled_size_lots + total s.fills
  pub fills_ok : All (FillOk b₀ t₀ seq_id now_ms) s.fills
  pub accounts : (id : OrderId) → Account b₀ s.book s.fills id

Rests-IsSound :
    (orders : HashMap OrderId Order) (side : Side) (p : ℕ) (id : OrderId)
    (r : Rests orders side p id)
    → IsSound r.order
Rests-IsSound orders side p id r =
    let h = r.has_rest in record { not_over = omega arith; in_range = r.in_range }

-- A maker that took a fill leaves its queue, or stays there with a rest.
module _ (b : OrderBook) (id : OrderId) (side : Side) (p : ℕ) (wf : IsWf b)
    (r : Rests b.orders side p id) (seq_id qty : ℕ)
    (fits : r.order.filled_size_lots + qty ≤ r.order.orig_size_lots) where
  maker-IsSound : IsSound r.order
  maker-IsSound = Rests-IsSound b.orders side p id r

  settle-IsWf : IsWf (settle_maker b id (take_fill r.order seq_id qty))
  unfolding take_fill
  settle-IsWf = elim (Bool-cases (is_closed (take_fill r.order seq_id qty))) [
    | inl c ↦
        unfold settle_maker in
        rw (c, settle_maker)
          (close-IsWf b id r.order (take_fill r.order seq_id qty) wf r.found refl refl c)
    | inr c ↦
        unfold settle_maker in
        rw (c, settle_maker)
          (set_open-IsWf b id r.order (take_fill r.order seq_id qty) wf r.found refl refl r.same_id
            r.is_open c
            (rw (filled-take_fill r.order seq_id qty maker-IsSound fits)
              (rest-take_fill r.order seq_id qty maker-IsSound fits c))
            r.in_range)
  ]

  settle-orders :
      (settle_maker b id (take_fill r.order seq_id qty)).orders
      ≡ HashMap.insert b.orders id (take_fill r.order seq_id qty)
  settle-orders = elim (Bool-cases (is_closed (take_fill r.order seq_id qty))) [
    | inl c ↦ unfold settle_maker in rw (c, settle_maker) (orders-remove _ id)
    | inr c ↦ unfold settle_maker in rw (c, settle_maker)
  ]

  settle_closed_at :
      is_closed (take_fill r.order seq_id qty) ≡ true
      → (t : Side) (q : ℕ)
      → orders_at_price (settle_maker b id (take_fill r.order seq_id qty)) q t
        ≡ retain_ne id (orders_at_price b q t)
  unfolding take_fill
  settle_closed_at c t q =
      unfold settle_maker in
      rw (c, settle_maker)
        (orders_at_price-close b id r.order (take_fill r.order seq_id qty) wf r.found refl refl t q)

  settle_open_at :
      is_closed (take_fill r.order seq_id qty) ≡ false
      → (t : Side) (q : ℕ)
      → orders_at_price (settle_maker b id (take_fill r.order seq_id qty)) q t
        ≡ orders_at_price b q t
  settle_open_at c t q =
      unfold settle_maker in
      rw (c, settle_maker) (orders_at_price-set_order b id (take_fill r.order seq_id qty) q t)

  settle-shrinks :
      (t : Side) (q : ℕ) (k : OrderId)
      → Has (orders_at_price (settle_maker b id (take_fill r.order seq_id qty)) q t) k
      → Has (orders_at_price b q t) k
  settle-shrinks t q k h = elim (Bool-cases (is_closed (take_fill r.order seq_id qty))) [
    | inl c ↦ Queue.Has-of_retain_ne id k _ (rw (settle_closed_at c t q) at h)
    | inr c ↦ rw (settle_open_at c t q) at h
  ]

-- The account of every order after the fill of one maker.
Account-settle :
    (b₀ b b' : OrderBook) (fs : List Fill) (f : Fill) (id j : OrderId) (maker maker' : Order)
    → f.maker_order_id ≡ id
    → get b id ≡ some maker
    → b'.orders ≡ HashMap.insert b.orders id maker'
    → SameTerms maker maker'
    → maker'.filled_size_lots ≡ maker.filled_size_lots + f.size_lots
    → Account b₀ b fs j
    → Account b₀ b' (fs ++ f ∷ []) j
Account-settle b₀ b b' fs f id j maker maker' e found changed t grown (absent n n') =
    absent n (elim (bytes_eq id j) [
      | yes same ↦ cc (found, n', same)
      | no ne ↦
          ap (λ (m : HashMap OrderId Order). HashMap.get m j) changed
          ∙ HashMap.get-insert_ne b.orders id j maker' ne
          ∙ n'
    ])
Account-settle b₀ b b' fs f id j maker maker' e found changed t grown (present o o' a a' t' g) =
    elim (bytes_eq id j) [
      | yes same ↦
          let here : o' ≡ maker = cc (found, a', same) in
          present o maker' a
            (ap (HashMap.get b'.orders) (sym same)
              ∙ ap (λ (m : HashMap OrderId Order). HashMap.get m id) changed
              ∙ HashMap.get-insert_self b.orders id maker')
            (SameTerms-trans o o' maker' t' (rw here t))
            (ground
              (arith, filled_by-append_one j fs f, ap (λ (x : Order). x.filled_size_lots) here))
      | no ne ↦
          present o o' a
            (ap (λ (m : HashMap OrderId Order). HashMap.get m j) changed
              ∙ HashMap.get-insert_ne b.orders id j maker' ne
              ∙ a')
            t' (ground (arith, filled_by-append_one j fs f))
    ]

-- A trade with the maker at the front of its queue keeps what matching has kept so far.
module _ {b₀ : OrderBook} {t₀ : Order} {seq_id now_ms : ℕ} (s : MatchState) (side : Side) (p : ℕ)
    (id : OrderId) (pr : Progress b₀ t₀ seq_id now_ms s) (r : Rests s.book.orders side p id) where
  abbrev fill_qty : ℕ
  fill_qty = min (remaining_size_lots s.taker) (remaining_size_lots r.order)

  taker_fits : s.taker.filled_size_lots + fill_qty ≤ s.taker.orig_size_lots
  taker_fits = let e = remaining-eq-sub s.taker pr.sound in let h = pr.sound.not_over in omega arith

  maker_fits : r.order.filled_size_lots + fill_qty ≤ r.order.orig_size_lots
  maker_fits =
      let e = remaining-eq-sub r.order (Rests-IsSound s.book.orders side p id r) in
      let h = r.has_rest in omega arith

  abbrev the_fill : Fill
  the_fill = make_fill s.taker (snapshot r.order) p fill_qty seq_id now_ms

  fill_qty_pos : remaining_size_lots s.taker ≢ 0 → 0 < fill_qty
  fill_qty_pos more =
      let e = remaining-eq-sub r.order (Rests-IsSound s.book.orders side p id r) in
      let h = r.has_rest in omega arith

  the_fill-FillOk :
      side ≡ opposite t₀.side
      → remaining_size_lots s.taker ≢ 0
      → r.order.trader_id ≢ s.taker.trader_id
      → Crosses t₀.side t₀.price_ticks p
      → Account b₀ s.book s.fills id
      → FillOk b₀ t₀ seq_id now_ms the_fill
  unfolding make_fill snapshot
  the_fill-FillOk at more other crosses (absent n n') = absurd (cc (n', r.found))
  the_fill-FillOk at more other crosses (present o o' a a' t g) =
      let here : o' ≡ r.order = cc (a', r.found) in
      let t' : SameTerms o r.order = rw here at t in
      record {
        maker = o;
        found = ap (get b₀) r.same_id ∙ a;
        maker_side = sym t'.side ∙ r.same_side ∙ at;
        maker_price = sym r.same_price ∙ t'.price;
        maker_trader = t'.trader_id;
        taker_id = pr.terms.order_id;
        taker_trader = pr.terms.trader_id;
        not_self = other;
        positive = fill_qty_pos more;
        crosses = crosses;
        stamped = (refl, refl);
      }

  Account-after :
      (j : OrderId)
      → Account b₀
          (settle_maker s.book id (take_fill r.order seq_id fill_qty))
          (s.fills ++ the_fill ∷ [])
          j
  Account-after j =
      Account-settle b₀ s.book _ s.fills the_fill id j r.order (take_fill r.order seq_id fill_qty)
        (unfold make_fill snapshot in r.same_id) r.found
        (settle-orders s.book id side p pr.wf r seq_id fill_qty maker_fits)
        (SameTerms-take_fill r.order r.order seq_id fill_qty (SameTerms-refl r.order))
        (unfold make_fill in
          filled-take_fill r.order seq_id fill_qty (Rests-IsSound s.book.orders side p id r)
            maker_fits)
        (pr.accounts j)

  conserved_after :
      (take_fill s.taker seq_id fill_qty).filled_size_lots
      ≡ t₀.filled_size_lots + total (s.fills ++ the_fill ∷ [])
  conserved_after =
      let e = filled-take_fill s.taker seq_id fill_qty pr.sound taker_fits in
      let c = pr.conserved in
      let q : the_fill.size_lots ≡ fill_qty = unfold make_fill in refl in
      omega (arith, total-append_one s.fills the_fill)

  pub trade-Progress :
      side ≡ opposite t₀.side
      → remaining_size_lots s.taker ≢ 0
      → r.order.trader_id ≢ s.taker.trader_id
      → Crosses t₀.side t₀.price_ticks p
      → Progress b₀ t₀ seq_id now_ms (trade p seq_id now_ms id r.order s)
  unfolding trade
  trade-Progress at more other crosses = record {
    wf = settle-IsWf s.book id side p pr.wf r seq_id fill_qty maker_fits;
    sound = take_fill-IsSound s.taker seq_id fill_qty pr.sound taker_fits;
    terms = SameTerms-take_fill t₀ s.taker seq_id fill_qty pr.terms;
    conserved = conserved_after;
    fills_ok =
        All-append _ s.fills _ pr.fills_ok
          (the_fill-FillOk at more other crosses (pr.accounts id), tt);
    accounts = Account-after;
  }

  pub trade-Shrinks : Shrinks s.book (trade p seq_id now_ms id r.order s).book
  unfolding trade
  trade-Shrinks = record { at = settle-shrinks s.book id side p pr.wf r seq_id fill_qty maker_fits }

  taker_done :
      is_closed (take_fill r.order seq_id fill_qty) ≡ false
      → remaining_size_lots (take_fill s.taker seq_id fill_qty) ≡ 0
  taker_done c =
      let t = s.taker in
      let sound' = take_fill-IsSound t seq_id fill_qty pr.sound taker_fits in
      let maker-IsSound = Rests-IsSound s.book.orders side p id r in
      let e = remaining-eq-sub (take_fill t seq_id fill_qty) sound' in
      let f = filled-take_fill t seq_id fill_qty pr.sound taker_fits in
      let size = (SameTerms-take_fill t t seq_id fill_qty (SameTerms-refl t)).size in
      let rt = remaining-eq-sub t pr.sound in
      let rm = remaining-eq-sub r.order maker-IsSound in
      let h = rest-take_fill r.order seq_id fill_qty maker-IsSound maker_fits c in omega arith

  -- After a trade the taker has nothing left, or the maker has left the front of the queue.
  pub trade-moves :
      (rest : List OrderId)
      → orders_at_price s.book p side ≡ id ∷ rest
      → (remaining_size_lots (trade p seq_id now_ms id r.order s).taker ≡ 0)
        ⊎ (orders_at_price (trade p seq_id now_ms id r.order s).book p side ≡ rest)
  unfolding trade
  trade-moves rest front = elim (Bool-cases (is_closed (take_fill r.order seq_id fill_qty))) [
    | inl c ↦ inr (
        settle_closed_at s.book id side p pr.wf r seq_id fill_qty maker_fits c side p
        ∙ ap (retain_ne id) front
        ∙ Queue.retain_ne_front id rest (subst Distinct front (pr.wf.distinct side p)))
    | inr c ↦ inl (taker_done c)
  ]
