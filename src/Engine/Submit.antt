-- ===== src/Engine/Submit.antt =====
-- Submitting and cancelling orders keeps the engine valid and never panics (src/engine/mod.rs).
use rust_matching_engine.Prelude.{
  ℕ, ◌<◌, ◌≡◌, ◌≢◌, refl, ap, ◌∙◌, Option, none, some, arith, inl, inr, Option-cases, u64_mod,
  Result-cases, ok,
}
use rust_matching_engine.HashMap.{HashMap, bytes_eq, bytes_key}
use rust_matching_engine.HashMap
use rust_matching_engine.Domain.Market.{Str}
use rust_matching_engine.Domain.Order.{Order, SignedOrder, OrderId, Crypto}
use rust_matching_engine.Sequencer.{peek_next_seq_id, idempotency_check}
use rust_matching_engine.StateStore.{check_and_update_nonce}
use rust_matching_engine.Engine.Orderbook.{OrderBook}
use rust_matching_engine.Engine.Orderbook
use rust_matching_engine.Engine.Matching.{MatchState, match_order}
use rust_matching_engine.Engine.Matching.Fills.{IsSound}
use rust_matching_engine.Engine.Residual.{
  insert_residual, residual-IsWf, residual-IsUncrossed, residual-known,
}
use rust_matching_engine.Engine.{
  Engine, Inputs, record_fills, record_stp, admit, settle, accept, new_order, validate,
  process_order,
}
use rust_matching_engine.Engine.Validity.{
  IsValid, IsGoodBook, SameMarkets, SameMarkets-IsValid, record_fills-SameMarkets,
  record_stp-SameMarkets, set_book-IsValid,
}

-- A new order, open and unfilled.
pub record IsFresh (e : Engine) (o : Order) : Type 0 where
  pub unknown : HashMap.get e.order_market_index o.order_id ≡ none
  pub unfilled : o.filled_size_lots ≡ 0
  pub in_range : o.orig_size_lots < u64_mod

admit-IsValid :
    (i : Inputs) (e : Engine) (o : Order)
    → IsValid e
    → IsFresh e o
    → HashMap.get e.books o.market_id ≢ none
    → IsValid (admit i e o)
unfolding admit
admit-IsValid i e o v f has_book = record {
  books_good = v.books_good;
  market_book = v.market_book;
  index_book = λ id m h.
      elim (HashMap.found_after e.order_market_index o.order_id id o.market_id m h) [
        | inl (_, same) ↦ rw same has_book
        | inr (_, before) ↦ v.index_book id m before
      ];
  indexed = λ m b id k h g.
      HashMap.get-insert_ne e.order_market_index o.order_id id o.market_id
        (λ same. cc (v.indexed m b id k h g, f.unknown, same))
      ∙ v.indexed m b id k h g;
}

unknown_in_book :
    (e : Engine) (o : Order) (b : OrderBook)
    → IsValid e
    → IsFresh e o
    → HashMap.get e.books o.market_id ≡ some b
    → Orderbook.get b o.order_id ≡ none
unknown_in_book e o b v f h = elim (Option-cases (Orderbook.get b o.order_id)) [
  | inl missing ↦ missing
  | inr (k, found) ↦ cc (v.indexed o.market_id b o.order_id k h found, f.unknown)
]

settle-IsValid :
    (i : Inputs) (e : Engine) (o : Order) (b : OrderBook)
    → IsValid e
    → IsFresh e o
    → HashMap.get e.books o.market_id ≡ some b
    → IsValid (settle i o b (admit i e o)).1
settle-IsValid i e o b v f h =
    let e₁ : Engine = admit i e o in
    let m : MatchState = match_order b o o.created_sequence i.now_ms in
    let v₁ : IsValid e₁ = admit-IsValid i e o v f (λ k. cc (k, h)) in
    let good : IsGoodBook b = v.books_good o.market_id b h in
    let sound : IsSound o = record {
      not_over = rw f.unfilled (omega arith);
      in_range = f.in_range;
    } in
    let fills = record_fills-SameMarkets i m.fills e₁ in
    let stp = record_stp-SameMarkets i m.taker (record_fills i m.fills e₁) in
    let same : SameMarkets e₁ (record_stp i m.taker (record_fills i m.fills e₁)) = record {
      books = stp.books ∙ fills.books;
      markets = stp.markets ∙ fills.markets;
      index = stp.index ∙ fills.index;
    } in
    unfold settle in
    set_book-IsValid _ o.market_id (insert_residual m.book m.taker)
      (SameMarkets-IsValid e₁ _ same v₁)
      (record {
        wf =
            residual-IsWf b o o.created_sequence i.now_ms good.wf sound
              (unknown_in_book e o b v f h);
        uncrossed =
            residual-IsUncrossed b o o.created_sequence i.now_ms good.wf sound good.uncrossed;
      })
      (λ id k found.
        same_index same id
          (elim (residual-known b o o.created_sequence i.now_ms good.wf sound id k found) [
            | inl new_ ↦ new_at id new_
            | inr (k₀, old) ↦ v₁.indexed o.market_id b id k₀ (unfold admit in h) old
          ]))
  where
    same_index :
        {e₁ e₂ : Engine}
        → SameMarkets e₁ e₂
        → (id : OrderId) → HashMap.get e₁.order_market_index id ≡ some o.market_id
        → HashMap.get e₂.order_market_index id ≡ some o.market_id
    same_index same id k = ap (λ (m : HashMap OrderId Str). HashMap.get m id) same.index ∙ k

    new_at :
        (id : OrderId)
        → id ≡ o.order_id
        → HashMap.get (admit i e o).order_market_index id ≡ some o.market_id
    new_at id same =
        unfold admit in
        rw same (HashMap.get-insert_self e.order_market_index o.order_id o.market_id)

-- The call returns, with a valid engine.
abbrev pub Keeps : {R : Type 0} → Option (R × Engine) → Type 0
Keeps none = ⊥
Keeps (some (r, e)) = IsValid e

accept-Keeps :
    (i : Inputs) (e : Engine) (o : Order)
    → IsValid e
    → IsFresh e o
    → HashMap.get e.books o.market_id ≢ none
    → Keeps (accept i o e)
accept-Keeps i e o v f has_book = elim (Option-cases (HashMap.get e.books o.market_id)) [
  | inl missing ↦ absurd (has_book missing)
  | inr (b, h) ↦ unfold accept in rw (h, accept) (settle-IsValid i e o b v f h)
]

validated_market :
    (x : Crypto) (now_ms : ℕ) (e : Engine) (s : SignedOrder)
    → validate x now_ms e s ≡ ok tt
    → HashMap.get e.markets s.market_id ≢ none
validated_market x now_ms e s h none_there = unfold validate in ground arith

-- In a valid engine a submission never panics, whether it is refused, a duplicate or accepted, and
-- it leaves a valid engine: every book well formed and uncrossed, and every order indexed. The new
-- UUID is in no use, and the size is a `u64`.
pub process_order-Keeps :
    (x : Crypto) (i : Inputs) (s : SignedOrder) (e : Engine)
    → IsValid e
    → HashMap.get e.order_market_index i.new_order_id ≡ none
    → s.size_lots < u64_mod
    → Keeps (process_order x i s e)
process_order-Keeps x i s e v unused in_range = elim (Result-cases (validate x i.now_ms e s)) [
  | inr (r, bad) ↦ unfold process_order in rw (bad, process_order) v
  | inl (_, good) ↦
      elim (Option-cases (idempotency_check e.sequencer s.trader_id s.client_order_id)) [
        | inr (r, dup) ↦ unfold process_order in rw (good, dup, process_order) v
        | inl new_ ↦ elim (Result-cases (check_and_update_nonce e.state s.trader_id s.nonce)) [
          | inr (n, stale) ↦ unfold process_order in rw (good, new_, stale, process_order) v
          | inl (state, fresh) ↦
              unfold process_order in
              rw (good, new_, fresh, process_order)
                (accept-Keeps i (record e { state = state })
                  (new_order x i (peek_next_seq_id e.sequencer) s)
                  (SameMarkets-IsValid e (record e { state = state })
                    (record { books = refl; markets = refl; index = refl }) v)
                  (unfold new_order in
                    record { unknown = unused; unfilled = refl; in_range = in_range })
                  (unfold new_order in market_has_book good))
        ]
      ]
]
  where
    market_has_book :
        {u : Unit {0}} → validate x i.now_ms e s ≡ ok u → HashMap.get e.books s.market_id ≢ none
    market_has_book good = elim (Option-cases (HashMap.get e.markets s.market_id)) [
      | inl missing ↦ absurd (validated_market x i.now_ms e s good missing)
      | inr (c, found) ↦ v.market_book s.market_id c found
    ]
