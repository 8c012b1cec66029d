-- ===== src/Tests/Books.antt =====
-- The theorems on one book, at the book of an ask of 10 lots at 100.
use rust_matching_engine.Prelude.{ℕ, ◌≡◌, refl, [], ◌∷◌, none, some, true, false, arith, ◌⊎◌, Has}
use rust_matching_engine.HashMap.{bytes_key, pair_key}
use rust_matching_engine.Domain.Order.{
  Order, OrderId, cancelled, closed_status, is_closed, remaining_size_lots,
}
use rust_matching_engine.Engine.Orderbook.{get, cancel_with_status, orders_at_price}
use rust_matching_engine.Engine.Orderbook.Cancel.{Cancels, cancel_with_status_lem}
use rust_matching_engine.Engine.Matching.{match_order}
use rust_matching_engine.Engine.Matching.Fills.{IsSound, Crosses, opposite}
use rust_matching_engine.Engine.Matching.Level.{IsPrevented}
use rust_matching_engine.Engine.Matching.Outcome.{
  Settles, match_order-Settles, match_order-exhausts,
}
use rust_matching_engine.Engine.Residual.{IsUncrossed, insert_residual, residual-IsUncrossed}
use rust_matching_engine.Engine.{new_order}
use rust_matching_engine.Engine.Validity.{IsGoodBook}
use rust_matching_engine.Tests.Sample.{market, book, book-found, taker}
use rust_matching_engine.Tests.Calls.{after_ask-IsValid}

book-IsGoodBook : IsGoodBook book
book-IsGoodBook = after_ask-IsValid.books_good market book book-found

taker-IsSound : IsSound taker
unfolding new_order
taker-IsSound = record { not_over = omega arith; in_range = omega arith }

match_order-Settles_example : Settles book taker 2 1002 (match_order book taker 2 1002)
match_order-Settles_example = match_order-Settles book taker 2 1002 book-IsGoodBook.wf taker-IsSound

match_order-exhausts_example :
    (remaining_size_lots (match_order book taker 2 1002).taker ≡ 0)
    ⊎ IsPrevented taker (match_order book taker 2 1002)
    ⊎ ((q : ℕ) (id : OrderId)
        → Crosses taker.side taker.price_ticks q
        → ¬ Has (orders_at_price (match_order book taker 2 1002).book q (opposite taker.side)) id)
unfolding is_closed new_order
match_order-exhausts_example =
    match_order-exhausts book taker 2 1002 book-IsGoodBook.wf taker-IsSound refl

residual-IsUncrossed_example :
    IsUncrossed
      (insert_residual (match_order book taker 2 1002).book (match_order book taker 2 1002).taker)
residual-IsUncrossed_example =
    residual-IsUncrossed book taker 2 1002 book-IsGoodBook.wf taker-IsSound
      book-IsGoodBook.uncrossed

cancel_with_status_lem_example :
    ((o : Order) × (get book (1 ∷ []) ≡ some o)
      × (is_closed o ≡ false)
      × ((cancel_with_status book (1 ∷ []) cancelled).1 ≡ true)
      × Cancels book (1 ∷ []) o cancelled (cancel_with_status book (1 ∷ []) cancelled).0)
    ⊎ (((get book (1 ∷ []) ≡ none)
          ⊎ ((o : Order) × (get book (1 ∷ []) ≡ some o) × (is_closed o ≡ true)))
        × (cancel_with_status book (1 ∷ []) cancelled ≡ (book, false)))
cancel_with_status_lem_example =
    cancel_with_status_lem book (1 ∷ []) cancelled book-IsGoodBook.wf (unfold closed_status in refl)
