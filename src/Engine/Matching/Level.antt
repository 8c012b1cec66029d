-- ===== src/Engine/Matching/Level.antt =====
-- The loop over the makers of one price level (src/engine/matching.rs).
use rust_matching_engine.Prelude.{
  ℕ, ◌≡◌, ◌≢◌, refl, sym, subst, Has, some, false, List, [], ◌∷◌, arith, true, All, inl, inr, ◌⊎◌,
  Bool-cases, ◌==◌, ==_iff, if_pos, if_neg, for_each_rule, Ensures,
}
use rust_matching_engine.HashMap.{bytes_eq}
use rust_matching_engine.Domain.Order.{
  Order, OrderId, Side, is_closed, closed_status, remaining_size_lots, cancelled_stp,
}
use rust_matching_engine.Engine.Orderbook.{OrderBook, get, orders_at_price}
use rust_matching_engine.Engine.Orderbook.Invariant.{Rests}
use rust_matching_engine.Engine.Matching.{
  MatchState, take_fill, trade, meet, maker_round, match_at_price_level,
}
use rust_matching_engine.Engine.Matching.Fills.{Crosses, opposite}
use rust_matching_engine.Engine.Matching.Round.{
  Progress, Shrinks, trade-Shrinks, trade-Progress, trade-moves,
}

-- Self-trade prevention has cancelled the taker: a resting order of its own trader, on the other
-- side at a price within its limit, is the reason.
pub record IsPrevented (t : Order) (s : MatchState) : Type 0 where
  pub cancelled : s.taker.status ≡ cancelled_stp
  pub price : ℕ
  pub maker_id : OrderId
  pub maker : Order
  pub found : get s.book maker_id ≡ some maker
  pub is_open : is_closed maker ≡ false
  pub rests : Has (orders_at_price s.book price (opposite t.side)) maker_id
  pub within : Crosses t.side t.price_ticks price
  pub own : maker.trader_id ≡ s.taker.trader_id

-- Why matching may stop early: the taker has nothing left, self-trade prevention has cancelled it, or
-- it was closed from the start.
abbrev pub IsStopped : Order → MatchState → Type 0
IsStopped t s =
    (remaining_size_lots s.taker ≡ 0)
    ⊎ IsPrevented t s
    ⊎ ((is_closed t ≡ true) × (is_closed s.taker ≡ true))

-- The taker is only closed if it has nothing left or was closed from the start.
abbrev pub Live : Order → MatchState → Type 0
Live t s = is_closed s.taker ≡ true → (remaining_size_lots s.taker ≡ 0) ⊎ (is_closed t ≡ true)

trade-Live :
    (t : Order) (p seq_id now_ms : ℕ) (id : OrderId) (maker : Order) (s : MatchState)
    → Live t (trade p seq_id now_ms id maker s)
unfolding trade take_fill is_closed closed_status remaining_size_lots
trade-Live t p seq_id now_ms id maker s h = ground arith

pub Shrinks-refl : (b : OrderBook) → Shrinks b b
Shrinks-refl b = record { at = λ t q k h. h }

pub Shrinks-trans : {a b c : OrderBook} → Shrinks a b → Shrinks b c → Shrinks a c
Shrinks-trans f g = record { at = λ t q k h. f.at t q k (g.at t q k h) }

-- Self-trade prevention touches the taker's status and sequence number only.
stp-Progress :
    {b₀ : OrderBook} {t₀ : Order} {seq_id now_ms : ℕ} (s : MatchState)
    → Progress b₀ t₀ seq_id now_ms s
    → Progress b₀ t₀ seq_id now_ms (record s {
      taker = record s.taker { status = cancelled_stp; last_update_sequence = seq_id };
    })
stp-Progress s pr = record {
  wf = pr.wf;
  sound = record { not_over = pr.sound.not_over; in_range = pr.sound.in_range };
  terms = record {
    order_id = pr.terms.order_id;
    order_hash = pr.terms.order_hash;
    trader_id = pr.terms.trader_id;
    side = pr.terms.side;
    price = pr.terms.price;
    size = pr.terms.size;
  };
  conserved = pr.conserved;
  fills_ok = pr.fills_ok;
  accounts = pr.accounts;
}

module _ (b₀ b₁ : OrderBook) (t₀ : Order) (seq_id now_ms : ℕ) (side : Side) (p : ℕ)
    (at : side ≡ opposite t₀.side) (crosses : Crosses t₀.side t₀.price_ticks p) where
  -- Before a round: the queue holds the makers that are left, unless the taker is done.
  Pending : List OrderId → MatchState → Type 0
  Pending ids s =
      Progress b₀ t₀ seq_id now_ms s
      × Shrinks b₁ s.book
      × ((remaining_size_lots s.taker ≡ 0) ⊎ ((orders_at_price s.book p side ≡ ids) × Live t₀ s))

  -- After the loop.
  Served : MatchState → Type 0
  Served s =
      Progress b₀ t₀ seq_id now_ms s
      × Shrinks b₁ s.book
      × (IsStopped t₀ s ⊎ ((orders_at_price s.book p side ≡ []) × Live t₀ s))

  prevented :
      (id : OrderId) (rest : List OrderId) (s : MatchState)
      → orders_at_price s.book p side ≡ id ∷ rest
      → (r : Rests s.book.orders side p id) → r.order.trader_id ≡ s.taker.trader_id
      → IsPrevented t₀ (record s {
        taker = record s.taker { status = cancelled_stp; last_update_sequence = seq_id };
      })
  prevented id rest s front r own = record {
    cancelled = refl;
    price = p;
    maker_id = id;
    maker = r.order;
    found = r.found;
    is_open = r.is_open;
    rests =
        subst (λ (sd : Side). Has (orders_at_price s.book p sd) id) at
          (subst (λ (l : List OrderId). Has l id) (sym front) (inl refl));
    within = crosses;
    own = own;
  }

  meet_step :
      (id : OrderId) (rest : List OrderId) (s : MatchState)
      → Progress b₀ t₀ seq_id now_ms s
      → Shrinks b₁ s.book
      → remaining_size_lots s.taker ≢ 0
      → orders_at_price s.book p side ≡ id ∷ rest
      → (r : Rests s.book.orders side p id)
      → Ensures (Pending rest) Served (meet p seq_id now_ms id r.order s)
  unfolding meet Pending Served
  meet_step id rest s pr sh more front r = elim (bytes_eq r.order.trader_id s.taker.trader_id) [
    | yes own ↦ rw (if_pos _ own) (
      stp-Progress s pr,
      record { at = sh.at },
      inl (inr (inl (prevented id rest s front r own))),
    )
    | no other ↦ rw (if_neg _ other) (
      trade-Progress s side p id pr r at more other crosses,
      Shrinks-trans sh (trade-Shrinks s side p id pr r),
      elim (trade-moves s side p id pr r rest front) [
        | inl e ↦ inl e
        | inr q ↦ inr (q, trade-Live t₀ p seq_id now_ms id r.order s)
      ],
    )
  ]

  round_step :
      (id : OrderId) (rest : List OrderId) (s : MatchState)
      → Pending (id ∷ rest) s
      → Ensures (Pending rest) Served (maker_round p seq_id now_ms id s)
  unfolding Pending Served
  round_step id rest s (pr, sh, pending) = elim (Bool-cases (remaining_size_lots s.taker == 0)) [
    | inl none_left ↦
        unfold maker_round in
        rw (none_left, maker_round) (pr, sh, inl (inl ((==_iff _ 0).0 none_left)))
    | inr some_left ↦
        let more : remaining_size_lots s.taker ≢ 0 = λ e. ground arith in
        elim pending [
          | inl e ↦ absurd (more e)
          | inr (front, live) ↦
              let r : Rests s.book.orders side p id =
                (subst (All (Rests s.book.orders side p)) front (pr.wf.listed side p)).0 in
              unfold maker_round in
              rw (some_left, r.found, r.is_open, maker_round)
                (meet_step id rest s pr sh more front r)
        ]
  ]

  -- After the loop over a level matching has stopped, or nothing rests at the level.
  pub match_at_price_level-Served :
      (s : MatchState)
      → Progress b₀ t₀ seq_id now_ms s
      → Shrinks b₁ s.book
      → Live t₀ s
      → Progress b₀ t₀ seq_id now_ms (match_at_price_level p side seq_id now_ms s)
        × Shrinks b₁ (match_at_price_level p side seq_id now_ms s).book
        × (IsStopped t₀ (match_at_price_level p side seq_id now_ms s)
            ⊎ ((orders_at_price (match_at_price_level p side seq_id now_ms s).book p side ≡ [])
                × Live t₀ (match_at_price_level p side seq_id now_ms s)))
  unfolding match_at_price_level Pending Served
  match_at_price_level-Served s pr sh live =
      for_each_rule Pending Served (maker_round p seq_id now_ms)
        (λ t h. (h.0, h.1, elim h.2 [ inl e ↦ inl (inl e) | inr e ↦ inr e ])) round_step
        (orders_at_price s.book p side) s (pr, sh, inr (refl, live))
