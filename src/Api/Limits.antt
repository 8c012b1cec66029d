-- ===== src/Api/Limits.antt =====
-- How long the answers to the queries are (src/api/rest.rs).
use rust_matching_engine.Prelude.{
  ℕ, zero, suc, ◌<◌, ◌≤◌, ◌≡◌, refl, sym, ap, ◌∙◌, ◌⊎◌, inl, inr, Option-cases, List, [], ◌∷◌, map,
  take, length, min, ◌==◌, false, arith, ok,
}
use rust_matching_engine.Domain.Market.{Str}
use rust_matching_engine.Engine.{Engine}
use rust_matching_engine.Engine.Queries.{best_prices, fills_from, get_fills}
use rust_matching_engine.Pg.{Json, Database}
use rust_matching_engine.Api.Rest.{TradeResponse, trades}
use rust_matching_engine.Api.Handlers.{Answer, State, get_trades}

length-map : {A B : Type 0} (f : A → B) (xs : List A) → length (map f xs) ≡ length xs
length-map f [] = refl
length-map f (x ∷ xs) = ap suc (length-map f xs)

length-take : {A : Type 0} (n : ℕ) (xs : List A) → length (take n xs) ≤ n
length-take zero xs = omega arith
length-take (suc n) [] = omega arith
length-take (suc n) (x ∷ xs) = let rest = length-take n xs in omega (arith, rest)

get_fills-bound :
    (e : Engine) (market_id : Str) (from_seq limit : ℕ)
    → ((0 < limit) × (length (get_fills e market_id from_seq limit) ≤ limit))
      ⊎ ((limit ≡ 0)
          × (get_fills e market_id from_seq limit ≡ fills_from market_id from_seq e.sequencer.log))
unfolding get_fills
get_fills-bound e market_id from_seq zero = inr (refl, refl)
get_fills-bound e market_id from_seq (suc n) =
    let positive : (suc n == 0) ≡ false = ground arith in
    rw positive
      (inl (omega arith, length-take (suc n) (fills_from market_id from_seq e.sequencer.log)))

module _ (json : Json) (db : Database json.Value) where
  trades_of :
      {a b : List TradeResponse}
      → ◌≡◌ {A = Answer} (ok (200, trades a)) (ok (200, trades b))
      → a ≡ b
  trades_of h = cc h

  -- An answer to a query for trades has no more trades than the limit that was asked for, nor than
  -- 1000, unless the limit is 0: then it has all the fills of the market from the sequence number on.
  pub get_trades-limit :
      (market_id : Str) (limit from_seq : ℕ) (s : State json db) (ts : List TradeResponse)
      → get_trades json db market_id limit from_seq s ≡ ok (200, trades ts)
      → ((0 < limit) × (length ts ≤ limit) × (length ts ≤ 1000))
        ⊎ ((limit ≡ 0)
            × (length ts ≡ length (fills_from market_id from_seq s.engine.sequencer.log)))
  get_trades-limit market_id limit from_seq s ts =
      elim (Option-cases (best_prices s.engine market_id)) [
        | inl missing ↦ unfold get_trades in rw (missing, get_trades) (λ h. cc h)
        | inr (p, found) ↦
            unfold get_trades in
            rw (found, get_trades)
              (λ h.
                let sizes = ap length (sym (trades_of h)) ∙ length-map _ _ in
                elim (get_fills-bound s.engine market_id from_seq (min limit 1000)) [
                  | inl (some_, le) ↦
                      inl (omega (arith, some_), omega (arith, sizes, le), omega (arith, sizes, le))
                  | inr (none_, all) ↦ inr (omega (arith, none_), sizes ∙ ap length all)
                ])
      ]
