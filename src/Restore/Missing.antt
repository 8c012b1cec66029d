-- ===== src/Restore/Missing.antt =====
-- A restore replaces every book: a market without open orders is left without one
-- (src/engine/mod.rs and src/replay/mod.rs).
use rust_matching_engine.Prelude.{
  ℕ, ◌≡◌, ◌≢◌, refl, subst, ◌∙◌, inl, inr, none, some, List, [], ◌∷◌, All, Bool-cases, leb, Result,
  Result-cases, ok, err, Option-cases, ite, ◌&&◌, not, ◌==◌, add64,
}
use rust_matching_engine.HashMap.{HashMap, bytes_eq, bytes_key}
use rust_matching_engine.HashMap
use rust_matching_engine.Domain.Market.{Str}
use rust_matching_engine.Domain.Order.{Order, OrderId, SignedOrder, Crypto, is_closed}
use rust_matching_engine.Events.{Event, SequencedEvent, order_accepted}
use rust_matching_engine.Sequencer.{peek_next_seq_id, idempotency_check}
use rust_matching_engine.StateStore.{StateStore, check_and_update_nonce}
use rust_matching_engine.Engine.Orderbook.{OrderBook}
use rust_matching_engine.Engine.{Engine, Inputs, validate, new_order, accept, admit, process_order}
use rust_matching_engine.Replay.{
  Working, ReplayError, ReplayResult, start, fill_order, fill_side, apply_event, replay_event,
  replay_events, open_values, insert_sorted, sort_by_created, rest_order, build_books, replay,
}
use rust_matching_engine.Restore.{restore_from_events}

-- No order of the market is accepted in the log.
unfoldable pub Avoids : Str → Event → Type 0
Avoids m (order_accepted o) = o.market_id ≢ m
Avoids m _ = Unit {0}

abbrev Elsewhere : Str → HashMap OrderId Order → Type 0
Elsewhere m orders = All (λ (p : OrderId × Order). p.1.market_id ≢ m) orders

insert-Elsewhere :
    (m : Str) (orders : HashMap OrderId Order) (id : OrderId) (o : Order)
    → o.market_id ≢ m
    → Elsewhere m orders
    → Elsewhere m (HashMap.insert orders id o)
unfolding HashMap.insert
insert-Elsewhere m [] id o other h = (other, tt)
insert-Elsewhere m ((k, p) ∷ orders) id o other (here, rest) =
    elim (bytes_key.key_eq k id)
      as (λ d. Elsewhere m (ite d ((id, o) ∷ orders) ((k, p) ∷ HashMap.insert orders id o))) [
        | yes _ ↦ (other, rest)
        | no _ ↦ (here, insert-Elsewhere m orders id o other rest)
      ]

get-Elsewhere :
    (m : Str) (orders : HashMap OrderId Order) (id : OrderId) (o : Order)
    → Elsewhere m orders
    → HashMap.get orders id ≡ some o
    → o.market_id ≢ m
unfolding HashMap.get
get-Elsewhere m [] id o _ = λ h. cc
get-Elsewhere m ((k, p) ∷ orders) id o (here, rest) =
    elim (bytes_key.key_eq k id)
      as (λ d. ite d (some p) (HashMap.get orders id) ≡ some o → o.market_id ≢ m) [
        | yes _ ↦ λ h same. here (cc (h, same))
        | no _ ↦ λ h. get-Elsewhere m orders id o rest h
      ]

fill_side-Elsewhere :
    (m : Str) (n k : ℕ) (id : OrderId) (orders after : HashMap OrderId Order)
    → Elsewhere m orders
    → fill_side n k id orders ≡ ok after
    → Elsewhere m after
fill_side-Elsewhere m n k id orders after e = elim (Option-cases (HashMap.get orders id)) [
  | inl missing ↦ unfold fill_side in rw missing (λ h. cc)
  | inr (o, found) ↦
      unfold fill_side in
      rw found (λ h.
        let same : HashMap.insert orders id (fill_order n k o) ≡ after = cc h in
        rw⁻¹ same (
          insert-Elsewhere m orders id (fill_order n k o)
            (unfold fill_order in get-Elsewhere m orders id o e found) e))
]

kept :
    (m : Str) {a b : Working}
    → ◌≡◌ {A = Result ReplayError Working} (ok a) (ok b)
    → Elsewhere m a.orders
    → Elsewhere m b.orders
kept m {a} {b} h e = let same : a ≡ b = cc h in subst (λ (z : Working). Elsewhere m z.orders) same e

apply_event-Elsewhere :
    (m : Str) (n : ℕ) (ev : Event) (w w' : Working)
    → Avoids m ev
    → Elsewhere m w.orders
    → apply_event n ev w ≡ ok w'
    → Elsewhere m w'.orders
unfolding Avoids apply_event
apply_event-Elsewhere m n (order_accepted o) w w' other e h =
    kept m h (insert-Elsewhere m w.orders o.order_id o other e)
apply_event-Elsewhere m n (Event.order_rejected c t r) w w' _ e h = kept m h e
apply_event-Elsewhere m n (Event.fill f) w w' _ e h =
    elim (Result-cases (fill_side n f.size_lots f.taker_order_id w.orders)) [
      | inr (r, failed) ↦ cc (rw failed at h)
      | inl (one, took) ↦ elim (Result-cases (fill_side n f.size_lots f.maker_order_id one)) [
        | inr (r, failed) ↦ cc (rw (took, failed) at h)
        | inl (two, made) ↦ kept m (rw (took, made) at h) (
            fill_side-Elsewhere m n f.size_lots f.maker_order_id one two
              (fill_side-Elsewhere m n f.size_lots f.taker_order_id w.orders one e took) made)
      ]
    ]
apply_event-Elsewhere m n (Event.order_cancelled id hash reason) w w' _ e h =
    elim (Option-cases (HashMap.get w.orders id)) [
      | inl missing ↦ cc (rw missing at h)
      | inr (o, found) ↦
          kept m (rw found at h)
            (insert-Elsewhere m w.orders id _ (get-Elsewhere m w.orders id o e found) e)
    ]
apply_event-Elsewhere m n (Event.market_paused k t) w w' _ e h = kept m h e
apply_event-Elsewhere m n (Event.market_resumed k t) w w' _ e h = kept m h e

replay_events-Elsewhere :
    (m : Str) (log : List SequencedEvent) (w w' : Working)
    → All (λ (se : SequencedEvent). Avoids m se.event) log
    → Elsewhere m w.orders
    → replay_events log w ≡ ok w'
    → Elsewhere m w'.orders
unfolding replay_events
replay_events-Elsewhere m [] w w' _ e h = kept m h e
replay_events-Elsewhere m (se ∷ log) w w' (here, rest) e h =
    elim (Result-cases (replay_event se w)) [
      | inr (r, failed) ↦ cc (rw failed at h)
      | inl (w₁, done) ↦
          replay_events-Elsewhere m log w₁ w' rest (replay_event-Elsewhere done) (rw done at h)
    ]
  where
    replay_event-Elsewhere : {w₁ : Working} → replay_event se w ≡ ok w₁ → Elsewhere m w₁.orders
    replay_event-Elsewhere {w₁} =
        elim (Bool-cases (not (w.last_seq_id == 0) && not (se.seq_id == add64 w.last_seq_id 1))) [
          | inl gap ↦ unfold replay_event in rw gap (λ k. cc)
          | inr no_gap ↦
              unfold replay_event in
              rw no_gap (λ k.
                apply_event-Elsewhere m se.seq_id se.event (record w { last_seq_id = se.seq_id }) w₁
                  here e k)
        ]

abbrev AllElsewhere : Str → List Order → Type 0
AllElsewhere m q = All (λ (o : Order). o.market_id ≢ m) q

open_values-AllElsewhere :
    (m : Str) (orders : HashMap OrderId Order)
    → Elsewhere m orders
    → AllElsewhere m (open_values orders)
unfolding open_values
open_values-AllElsewhere m [] _ = tt
open_values-AllElsewhere m ((k, o) ∷ orders) (here, rest) =
    let tail = open_values-AllElsewhere m orders rest in
    elim (Bool-cases (is_closed o)) [ inl c ↦ rw c tail | inr c ↦ rw c (here, tail) ]

insert_sorted-AllElsewhere :
    (m : Str) (o : Order) (q : List Order)
    → o.market_id ≢ m
    → AllElsewhere m q
    → AllElsewhere m (insert_sorted o q)
unfolding insert_sorted
insert_sorted-AllElsewhere m o [] other _ = (other, tt)
insert_sorted-AllElsewhere m o (p ∷ q) other (here, rest) =
    let tail = insert_sorted-AllElsewhere m o q other rest in
    elim (Bool-cases (leb o.created_sequence p.created_sequence)) [
      | inl c ↦ rw c (other, (here, rest))
      | inr c ↦ rw c (here, tail)
    ]

sort-AllElsewhere :
    (m : Str) (q : List Order) → AllElsewhere m q → AllElsewhere m (sort_by_created q)
unfolding sort_by_created
sort-AllElsewhere m [] _ = tt
sort-AllElsewhere m (o ∷ q) (here, rest) =
    insert_sorted-AllElsewhere m o (sort_by_created q) here (sort-AllElsewhere m q rest)

build_books-missing :
    (m : Str) (q : List Order) (books : HashMap Str OrderBook)
    → AllElsewhere m q
    → HashMap.get books m ≡ none
    → HashMap.get (build_books q books) m ≡ none
unfolding build_books rest_order
build_books-missing m [] books _ h = h
build_books-missing m (o ∷ q) books (here, rest) h =
    build_books-missing m q _ rest (HashMap.get-insert_ne books o.market_id m _ here ∙ h)

replay-missing :
    (m : Str) (log : List SequencedEvent) (r : ReplayResult)
    → All (λ (se : SequencedEvent). Avoids m se.event) log
    → replay log ≡ ok r
    → HashMap.get r.books m ≡ none
unfolding replay
replay-missing m log r avoids h = elim (Result-cases (replay_events log start)) [
  | inr (e, failed) ↦ cc (rw failed at h)
  | inl (w, done) ↦ books_of (rw done at h) (
      build_books-missing m (sort_by_created (open_values w.orders)) []
        (sort-AllElsewhere m (open_values w.orders) (
          open_values-AllElsewhere m w.orders
            (replay_events-Elsewhere m log start w avoids (unfold start in tt) done)))
        (unfold HashMap.get in refl))
]
  where
    books_of :
        {a b : ReplayResult}
        → ◌≡◌ {A = Result ReplayError ReplayResult} (ok a) (ok b)
        → HashMap.get a.books m ≡ none
        → HashMap.get b.books m ≡ none
    books_of {a} {b} k e =
        let same : a ≡ b = cc k in subst (λ (z : ReplayResult). HashMap.get z.books m ≡ none) same e

no_book-panics :
    (x : Crypto) (i : Inputs) (s : SignedOrder) (e : Engine) (state : StateStore)
    → HashMap.get e.books s.market_id ≡ none
    → validate x i.now_ms e s ≡ ok tt
    → idempotency_check e.sequencer s.trader_id s.client_order_id ≡ none
    → check_and_update_nonce e.state s.trader_id s.nonce ≡ ok state
    → process_order x i s e ≡ none
no_book-panics x i s e state missing good new_ fresh =
    unfold process_order in
    rw (good, new_, fresh, process_order)
      (panics (new_order x i (peek_next_seq_id e.sequencer) s) (unfold new_order in missing))
  where
    panics :
        (o : Order)
        → HashMap.get e.books o.market_id ≡ none
        → accept i o (record e { state = state }) ≡ none
    panics o gone =
        let here : HashMap.get (admit i (record e { state = state }) o).books o.market_id ≡ none =
          unfold admit in gone in
        unfold accept in rw (here, accept) refl

-- A restore from a log that accepts no order of a market leaves the market without a book, even if it
-- had one: the first new submission to it that is valid and has a fresh nonce panics.
pub restore-panics :
    (x : Crypto) (i : Inputs) (s : SignedOrder) (e : Engine) (se : SequencedEvent)
    (log : List SequencedEvent) (state : StateStore)
    → All (λ (k : SequencedEvent). Avoids s.market_id k.event) (se ∷ log)
    → (restore_from_events e (se ∷ log)).0 ≡ ok tt
    → validate x i.now_ms (restore_from_events e (se ∷ log)).1 s ≡ ok tt
    → idempotency_check (restore_from_events e (se ∷ log)).1.sequencer s.trader_id s.client_order_id
      ≡ none
    → check_and_update_nonce (restore_from_events e (se ∷ log)).1.state s.trader_id s.nonce
      ≡ ok state
    → process_order x i s (restore_from_events e (se ∷ log)).1 ≡ none
restore-panics x i s e se log state avoids done good new_ fresh =
    no_book-panics x i s (restore_from_events e (se ∷ log)).1 state
      (elim (Result-cases (replay (se ∷ log))) [
        | inr (r, failed) ↦ cc (done, failed_restore r failed)
        | inl (r, replayed) ↦
            unfold restore_from_events in
            rw (replayed, restore_from_events)
              (replay-missing s.market_id (se ∷ log) r avoids replayed)
      ])
      good new_ fresh
  where
    failed_restore :
        (r : ReplayError) → replay (se ∷ log) ≡ err r → (restore_from_events e (se ∷ log)).0 ≡ err r
    failed_restore r failed = unfold restore_from_events in rw (failed, restore_from_events) refl
