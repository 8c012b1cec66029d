-- ===== src/Engine/Matching/Outcome.antt =====
-- What matching does to the book, the taker and the makers (src/engine/matching.rs).
use rust_matching_engine.Prelude.{ℕ, ◌+◌, ◌≤◌, ◌≡◌, false, sym, ◌∙◌, All, Has, inl, inr, ◌⊎◌}
use mathlib.Core.Bool.{false≢true}
use rust_matching_engine.Domain.Order.{Order, OrderId, is_closed, remaining_size_lots}
use rust_matching_engine.Engine.Orderbook.{OrderBook, orders_at_price}
use rust_matching_engine.Engine.Orderbook.Invariant.{IsWf}
use rust_matching_engine.Engine.Matching.{MatchState, match_order}
use rust_matching_engine.Engine.Matching.Fills.{IsSound, SameTerms, Crosses, opposite, total}
use rust_matching_engine.Engine.Matching.Round.{FillOk, Account}
use rust_matching_engine.Engine.Matching.Level.{IsPrevented}
use rust_matching_engine.Engine.Matching.Walk.{Matched, match_order-Matched}

-- What one run of the matching loop promises.
pub record Settles (b : OrderBook) (t : Order) (seq_id now_ms : ℕ) (s : MatchState) : Type 0 where
  pub taker_filled : s.taker.filled_size_lots ≡ t.filled_size_lots + total s.fills
  pub not_overfilled : s.taker.filled_size_lots ≤ s.taker.orig_size_lots
  pub same_terms : SameTerms t s.taker
  pub makers : (id : OrderId) → Account b s.book s.fills id
  pub fills : All (FillOk b t seq_id now_ms) s.fills

module _ (b : OrderBook) (t : Order) (seq_id now_ms : ℕ) (wf : IsWf b) (sound : IsSound t) where
  abbrev ended : MatchState
  ended = match_order b t seq_id now_ms

  abbrev done : Matched b t seq_id now_ms ended
  done = match_order-Matched b t seq_id now_ms wf sound

  -- Matching on a well-formed book leaves a well-formed book.
  pub match_order-IsWf : IsWf (match_order b t seq_id now_ms).book
  match_order-IsWf = done.progress.wf

  -- On a well-formed book the fills account for all that changes: the taker's filled quantity grows
  -- by their sum and does not pass its size, each order of the book grows by the fills against it,
  -- no order appears or goes, and terms stay. Each fill has a positive quantity, names the taker and
  -- an order of the book on the other side, stands at that order's own price, which is no worse than
  -- the taker's limit, and never pairs two orders of one trader.
  pub match_order-Settles : Settles b t seq_id now_ms (match_order b t seq_id now_ms)
  match_order-Settles = record {
    taker_filled = done.progress.conserved;
    not_overfilled = done.progress.sound.not_over;
    same_terms = done.progress.terms;
    makers = done.progress.accounts;
    fills = done.progress.fills_ok;
  }

  -- When matching an order that is not closed ends on a well-formed book, there are three cases. The
  -- taker has nothing left. Or self-trade prevention has cancelled it, and the book holds an open
  -- order of the taker's own trader, which rests on the other side at a price within the taker's
  -- limit. Or no order rests on the other side at a price within that limit.
  pub match_order-exhausts :
      is_closed t ≡ false
      → (remaining_size_lots (match_order b t seq_id now_ms).taker ≡ 0)
        ⊎ IsPrevented t (match_order b t seq_id now_ms)
        ⊎ ((q : ℕ) (id : OrderId)
            → Crosses t.side t.price_ticks q
            → ¬ Has (orders_at_price (match_order b t seq_id now_ms).book q (opposite t.side)) id)
  match_order-exhausts live = elim done.exhausted [
    | inl (inl e) ↦ inl e
    | inl (inr (inl x)) ↦ inr (inl x)
    | inl (inr (inr (c, _))) ↦ absurd (false≢true (sym live ∙ c))
    | inr bare ↦ inr (inr bare)
  ]
