-- ===== src/Engine/Validity.antt =====
-- The engine's invariant (src/engine/mod.rs).
use rust_matching_engine.Prelude.{
  ◌≡◌, ◌≢◌, sym, ap, ◌∙◌, List, [], ◌∷◌, none, some, arith, inl, inr, Option-cases,
}
use rust_matching_engine.HashMap.{HashMap, bytes_eq, bytes_key}
use rust_matching_engine.HashMap
use rust_matching_engine.Domain.Market.{Str, MarketConfig}
use rust_matching_engine.Domain.Order.{Order, OrderId, Fill}
use rust_matching_engine.Events.{fill}
use rust_matching_engine.StateStore.{apply_fill}
use rust_matching_engine.Engine.Orderbook.{OrderBook}
use rust_matching_engine.Engine.Orderbook
use rust_matching_engine.Engine.Orderbook.Invariant.{IsWf, new-IsWf, nothing_at}
use rust_matching_engine.Engine.Residual.{IsUncrossed}
use rust_matching_engine.Engine.{
  Engine, Inputs, add_market, with_clock, record_fills, record_stp, append,
}

pub record IsGoodBook (b : OrderBook) : Type 0 where
  pub wf : IsWf b
  pub uncrossed : IsUncrossed b

-- Each market has a book, each book is well formed and uncrossed, and the index knows the market of
-- every order of a book and names markets that have books.
pub record IsValid (e : Engine) : Type 0 where
  pub books_good : (m : Str) (b : OrderBook) → HashMap.get e.books m ≡ some b → IsGoodBook b
  pub market_book :
      (m : Str) (c : MarketConfig) → HashMap.get e.markets m ≡ some c → HashMap.get e.books m ≢ none
  pub index_book :
      (id : OrderId) (m : Str)
      → HashMap.get e.order_market_index id ≡ some m
      → HashMap.get e.books m ≢ none
  pub indexed :
      (m : Str) (b : OrderBook) (id : OrderId) (o : Order)
      → HashMap.get e.books m ≡ some b
      → Orderbook.get b id ≡ some o
      → HashMap.get e.order_market_index id ≡ some m

new-IsGoodBook : IsGoodBook Orderbook.new
new-IsGoodBook = record {
  wf = new-IsWf;
  uncrossed = record { below = λ bid ask i j h k. absurd (rw nothing_at at h) };
}

-- An engine with the same books, markets and index is as valid.
pub record SameMarkets (e e' : Engine) : Type 0 where
  pub books : e'.books ≡ e.books
  pub markets : e'.markets ≡ e.markets
  pub index : e'.order_market_index ≡ e.order_market_index

pub SameMarkets-IsValid : (e e' : Engine) → SameMarkets e e' → IsValid e → IsValid e'
SameMarkets-IsValid e e' s v = record {
  books_good = λ m b h. v.books_good m b (rw s.books at h);
  market_book = λ m c h. rw s.books (v.market_book m c (rw s.markets at h));
  index_book = λ id m h. rw s.books (v.index_book id m (rw s.index at h));
  indexed = λ m b id o h k. rw s.index (v.indexed m b id o (rw s.books at h) k);
}

pub record_fills-SameMarkets :
    (i : Inputs) (fs : List Fill) (e : Engine) → SameMarkets e (record_fills i fs e)
unfolding record_fills
record_fills-SameMarkets i [] e = ground arith
record_fills-SameMarkets i (f ∷ fs) e =
    let rest = record_fills-SameMarkets i fs (record e {
      sequencer = append i e.sequencer (fill f);
      state = apply_fill e.state f.taker_order_hash f.maker_order_hash f.size_lots;
    }) in
    record { books = rest.books; markets = rest.markets; index = rest.index }

pub record_stp-SameMarkets :
    (i : Inputs) (o : Order) (e : Engine) → SameMarkets e (record_stp i o e)
unfolding record_stp
record_stp-SameMarkets i o e = ground arith

-- A good book in the place of a market's book, whose orders the index knows.
pub set_book-IsValid :
    (e : Engine) (m : Str) (b : OrderBook)
    → IsValid e
    → IsGoodBook b
    → ((id : OrderId) (o : Order)
        → Orderbook.get b id ≡ some o
        → HashMap.get e.order_market_index id ≡ some m)
    → IsValid (record e { books = HashMap.insert e.books m b })
set_book-IsValid e m b v good known = record {
  books_good = λ n c h. elim (HashMap.found_after e.books m n b c h) [
    | inl (_, same) ↦ rw same good
    | inr (_, before) ↦ v.books_good n c before
  ];
  market_book = λ n c h k. v.market_book n c h (HashMap.missing_before e.books m n b k);
  index_book = λ id n h k. v.index_book id n h (HashMap.missing_before e.books m n b k);
  indexed = λ n c id o h k. elim (HashMap.found_after e.books m n b c h) [
    | inl (here, same) ↦
        rw here (known id o (ap (λ (x : OrderBook). Orderbook.get x id) (sym same) ∙ k))
    | inr (_, before) ↦ v.indexed n c id o before k
  ];
}

-- A new engine is valid.
pub with_clock-IsValid : IsValid with_clock
unfolding with_clock HashMap.get
with_clock-IsValid = record {
  books_good = λ m b h. cc;
  market_book = λ m c h. cc;
  index_book = λ id m h. cc;
  indexed = λ m b id o h k. cc;
}

set_market-IsValid :
    (e : Engine) (m : Str) (c : MarketConfig)
    → IsValid e
    → HashMap.get e.books m ≢ none
    → IsValid (record e { markets = HashMap.insert e.markets m c })
set_market-IsValid e m c v has_book = record {
  books_good = v.books_good;
  market_book = λ n d h. elim (HashMap.found_after e.markets m n c d h) [
    | inl (same, _) ↦ rw same has_book
    | inr (_, before) ↦ v.market_book n d before
  ];
  index_book = v.index_book;
  indexed = v.indexed;
}

no_orders : (id : OrderId) (o : Order) → Orderbook.get Orderbook.new id ≢ some o
no_orders id o h = unfold Orderbook.new HashMap.get in cc

-- Registering a market, new or known, keeps the engine valid.
pub add_market-IsValid : (e : Engine) (c : MarketConfig) → IsValid e → IsValid (add_market e c)
add_market-IsValid e c v = elim (Option-cases (HashMap.get e.books c.id)) [
  | inl missing ↦
      unfold add_market in
      rw (missing, add_market)
        (set_market-IsValid (record e { books = HashMap.insert e.books c.id Orderbook.new }) c.id c
          (set_book-IsValid e c.id Orderbook.new v new-IsGoodBook
            (λ id o h. absurd (no_orders id o h)))
          (λ k. cc (k, HashMap.get-insert_self e.books c.id Orderbook.new)))
  | inr (b, found) ↦
      unfold add_market in
      rw (found, add_market) (set_market-IsValid e c.id c v (λ k. cc (k, found)))
]
