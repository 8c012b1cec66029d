-- ===== src/Engine/Matching/Walk.antt =====
-- The loop over the crossing prices (src/engine/matching.rs).
use rust_matching_engine.Prelude.{
  ℕ, ◌≡◌, ◌≢◌, ◌<◌, refl, true, false, sym, subst, ◌∙◌, List, [], ◌∷◌, arith, All, All-map, Has,
  inl, inr, ◌⊎◌, Bool-cases, Option-cases, Option, none, unwrap_or, for_each, ◌==◌, ==_iff, leb→le,
  le→leb, for_each_rule, Ensures,
}
use mathlib.Core.Bool.{false≢true}
use rust_matching_engine.BTreeMap
use rust_matching_engine.Domain.Order.{
  Order, OrderId, Side, buy, sell, is_closed, remaining_size_lots,
}
use rust_matching_engine.Engine.Orderbook.{
  OrderBook, get, orders_at_price, levels, ask_prices_asc, bid_prices_desc,
}
use rust_matching_engine.Engine.Orderbook.Invariant.{IsWf}
use rust_matching_engine.Engine.Matching.{
  MatchState, price_round, match_at_price_level, match_buy, match_sell, match_side, match_order,
}
use rust_matching_engine.Engine.Matching.Fills.{
  Crosses, opposite, IsSound, SameTerms-refl, total, filled_by,
}
use rust_matching_engine.Engine.Matching.Round.{Progress, Shrinks, absent, present}
use rust_matching_engine.Engine.Matching.Level.{
  IsPrevented, IsStopped, Live, Shrinks-refl, Shrinks-trans, match_at_price_level-Served,
}
use rust_matching_engine.Engine.Matching.Prices.{
  Has-take_while, All-take_while, Has-reverse, Ordered-reverse, Ordered-keys,
}

pub prevented-closed : {t : Order} {s : MatchState} → IsPrevented t s → is_closed s.taker ≡ true
unfolding is_closed
prevented-closed x = rw (x.cancelled, is_closed) refl

module _ (b₀ : OrderBook) (t₀ : Order) (seq_id now_ms : ℕ) (side : Side)
    (at : side ≡ opposite t₀.side) where
  -- Before a round: every crossing price at which an order rests is still to come.
  Ahead : List ℕ → MatchState → Type 0
  Ahead ps s =
      Progress b₀ t₀ seq_id now_ms s
      × Shrinks b₀ s.book
      × All (λ p. Crosses t₀.side t₀.price_ticks p) ps
      × (IsStopped t₀ s
          ⊎ (((q : ℕ) (id : OrderId)
                → Crosses t₀.side t₀.price_ticks q
                → Has (orders_at_price s.book q side) id
                → Has ps q)
              × Live t₀ s))

  -- After the loop: nothing that the taker could trade with is left, unless it is done.
  pub Walked : MatchState → Type 0
  Walked s =
      Progress b₀ t₀ seq_id now_ms s
      × Shrinks b₀ s.book
      × (IsStopped t₀ s
          ⊎ ((q : ℕ) (id : OrderId)
              → Crosses t₀.side t₀.price_ticks q
              → ¬ Has (orders_at_price s.book q side) id))

  level_step :
      (p : ℕ) (ps : List ℕ) (s : MatchState)
      → Ahead (p ∷ ps) s
      → remaining_size_lots s.taker ≢ 0
      → is_closed s.taker ≡ false
      → Ahead ps (match_at_price_level p side seq_id now_ms s)
  unfolding Ahead
  level_step p ps s (pr, sh, cross, ahead) more live =
      let served =
        match_at_price_level-Served b₀ s.book t₀ seq_id now_ms side p at cross.0 s pr
          (Shrinks-refl s.book) (λ c. absurd (false≢true (sym live ∙ c))) in
      (
        served.0,
        Shrinks-trans sh served.1,
        cross.1,
        elim served.2 [
          | inl done ↦ inl done
          | inr (empty, alive) ↦ inr (
            (λ q id c h. elim ahead [
              | inl done ↦ absurd (not_stopped done)
              | inr (covered, _) ↦ elim (covered q id c (served.1.at side q id h)) [
                | inl here ↦ absurd (
                    subst (λ (l : List OrderId). Has l id) empty
                      (subst
                        (λ (r : ℕ).
                          Has
                            (orders_at_price (match_at_price_level p side seq_id now_ms s).book r
                              side)
                            id)
                        (sym here) h))
                | inr later ↦ later
              ]
            ]),
            alive,
          )
        ],
      )
    where
      not_stopped : ¬ IsStopped t₀ s
      not_stopped (inl e) = more e
      not_stopped (inr (inl x)) = false≢true (sym live ∙ prevented-closed x)
      not_stopped (inr (inr (_, c))) = false≢true (sym live ∙ c)

  price_step :
      (p : ℕ) (ps : List ℕ) (s : MatchState)
      → Ahead (p ∷ ps) s
      → Ensures (Ahead ps) Walked (price_round side seq_id now_ms p s)
  unfolding Ahead Walked
  price_step p ps s h = elim (Bool-cases (remaining_size_lots s.taker == 0)) [
    | inl none_left ↦
        unfold price_round in
        rw (none_left, price_round) (h.0, h.1, inl (inl ((==_iff _ 0).0 none_left)))
    | inr some_left ↦ elim (Bool-cases (is_closed s.taker)) [
      | inl closed ↦
          unfold price_round in
          rw (some_left, closed, price_round) (h.0, h.1, inl (closed_early s h.3 closed))
      | inr live ↦
          unfold price_round in
          rw (some_left, live, price_round)
            (level_step p ps s h (λ e. false≢true (sym some_left ∙ (==_iff _ 0).1 e)) live)
    ]
  ]
    where
      closed_early :
          {X : Type 0} (s : MatchState)
          → IsStopped t₀ s ⊎ (X × Live t₀ s)
          → is_closed s.taker ≡ true
          → IsStopped t₀ s
      closed_early s (inl done) closed = done
      closed_early s (inr (_, live)) closed = elim (live closed) [
        | inl e ↦ inl e
        | inr c ↦ inr (inr (c, closed))
      ]

  walk :
      (ps : List ℕ) (s : MatchState)
      → Ahead ps s
      → Walked (for_each (price_round side seq_id now_ms) ps s)
  walk =
      for_each_rule Ahead Walked (price_round side seq_id now_ms)
        (λ s h.
          unfold Ahead Walked in
          (h.0, h.1, elim h.3 [ inl done ↦ inl done | inr (covered, _) ↦ inr covered ]))
        price_step

-- A level with a resting order has a key.
Has-level :
    (b : OrderBook) (s : Side) (q : ℕ) (id : OrderId)
    → Has (orders_at_price b q s) id
    → BTreeMap.get (levels b s) q ≢ none
unfolding orders_at_price
Has-level b s q id h e = subst (λ (o : Option (List OrderId)). Has (unwrap_or o []) id) e h

begin-Progress :
    (b : OrderBook) (t : Order) (seq_id now_ms : ℕ)
    → IsWf b
    → IsSound t
    → Progress b t seq_id now_ms (record { book = b; taker = t; fills = [] })
begin-Progress b t seq_id now_ms wf sound = record {
  wf = wf;
  sound = sound;
  terms = SameTerms-refl t;
  conserved = unfold total in omega arith;
  fills_ok = tt;
  accounts = λ id. elim (Option-cases (get b id)) [
    | inl e ↦ absent e e
    | inr (o, e) ↦ present o o e e (SameTerms-refl o) (unfold filled_by in omega arith)
  ];
}

-- How matching ends.
pub record Matched (b : OrderBook) (t : Order) (seq_id now_ms : ℕ) (s : MatchState) : Type 0 where
  pub progress : Progress b t seq_id now_ms s
  pub shrinks : Shrinks b s.book
  pub exhausted :
      IsStopped t s
      ⊎ ((q : ℕ) (id : OrderId)
          → Crosses t.side t.price_ticks q
          → ¬ Has (orders_at_price s.book q (opposite t.side)) id)

module _ (b : OrderBook) (t : Order) (seq_id now_ms : ℕ) (wf : IsWf b) (sound : IsSound t) where
  abbrev start : MatchState
  start = record { book = b; taker = t; fills = [] }

  finish :
      (side : Side) (at : side ≡ opposite t.side) (s : MatchState)
      → Walked b t seq_id now_ms side at s
      → Matched b t seq_id now_ms s
  unfolding Walked
  finish side at s h = record {
    progress = h.0;
    shrinks = h.1;
    exhausted = elim h.2 [
      | inl done ↦ inl done
      | inr bare ↦ inr (
          subst
            (λ (sd : Side).
              (q : ℕ) (id : OrderId)
              → Crosses t.side t.price_ticks q
              → ¬ Has (orders_at_price s.book q sd) id)
            at bare)
    ];
  }

  asks_walked : t.side ≡ buy → Matched b t seq_id now_ms (match_buy seq_id now_ms start)
  asks_walked e =
      let at : sell ≡ opposite t.side = rw e in
      finish sell at _ (
        unfold match_buy in
        walk b t seq_id now_ms sell at _ start (
          unfold Ahead in
          (
            begin-Progress b t seq_id now_ms wf sound,
            Shrinks-refl b,
            All-map (λ p h. rw e (leb→le p t.price_ticks h)) _
                (All-take_while _ (ask_prices_asc b)),
            inr (
              (λ q id c h.
                  Has-take_while ◌<◌ _ (λ x y lt le. ground arith) q (ask_prices_asc b)
                    (unfold ask_prices_asc in Ordered-keys b.asks wf.tidy.1.sorted)
                    (unfold ask_prices_asc in
                      BTreeMap.Has-keys b.asks q (unfold levels in Has-level b sell q id h))
                    (le→leb q t.price_ticks (rw e at c))),
              (λ c. inr c),
            ),
          )))

  bids_walked : t.side ≡ sell → Matched b t seq_id now_ms (match_sell seq_id now_ms start)
  bids_walked e =
      let at : buy ≡ opposite t.side = rw e in
      finish buy at _ (
        unfold match_sell in
        walk b t seq_id now_ms buy at _ start (
          unfold Ahead in
          (
            begin-Progress b t seq_id now_ms wf sound,
            Shrinks-refl b,
            All-map (λ p h. rw e (leb→le t.price_ticks p h)) _
                (All-take_while _ (bid_prices_desc b)),
            inr (
              (λ q id c h.
                  Has-take_while (λ x y. y < x) _ (λ x y lt le. ground arith) q (bid_prices_desc b)
                    (unfold bid_prices_desc in
                      Ordered-reverse ◌<◌ _ (Ordered-keys b.bids wf.tidy.0.sorted))
                    (unfold bid_prices_desc in
                      Has-reverse q _
                        (BTreeMap.Has-keys b.bids q (unfold levels in Has-level b buy q id h)))
                    (le→leb t.price_ticks q (rw e at c))),
              (λ c. inr c),
            ),
          )))

  -- On a well-formed book, with a taker whose filled quantity is in range, matching keeps the book
  -- well formed, adds up, and leaves nothing that the taker could still trade with.
  pub match_order-Matched : Matched b t seq_id now_ms (match_order b t seq_id now_ms)
  unfolding match_order
  match_order-Matched = on_side t.side refl
    where
      on_side :
          (sd : Side) → t.side ≡ sd → Matched b t seq_id now_ms (match_side sd seq_id now_ms start)
      on_side buy e = unfold match_side in asks_walked e
      on_side sell e = unfold match_side in bids_walked e
