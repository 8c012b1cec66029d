-- ===== src/Engine/Trace.antt =====
-- What follows the log: a property of the log, the state store and the index that every appended
-- event keeps is kept by every call (src/engine/mod.rs).
use rust_matching_engine.Prelude.{
  ℕ, ◌<◌, ◌≡◌, ◌≢◌, refl, sym, subst, ap, ◌∙◌, ◌⊎◌, inl, inr, Option, none, some, Option-cases,
  List, [], ◌∷◌, All, All-map, Bool-cases, arith, u64_mod, Result, ok,
}
use rust_matching_engine.HashMap.{HashMap, bytes_key, bytes_eq}
use rust_matching_engine.HashMap
use rust_matching_engine.Domain.Market.{Str}
use rust_matching_engine.Domain.Order.{
  Order, OrderId, OrderHash, SignedOrder, Crypto, Fill, is_closed,
}
use rust_matching_engine.Events.{
  Event, CancelReason, market_paused, market_resumed, order_accepted, fill, order_cancelled,
  trader_request, self_trade_prevention,
}
use rust_matching_engine.Sequencer.{Sequencer, append_event, register_accepted, peek_next_seq_id}
use rust_matching_engine.StateStore.{StateStore, check_and_update_nonce, apply_fill, cancel_order}
use rust_matching_engine.Engine.Orderbook.{OrderBook}
use rust_matching_engine.Engine.Orderbook
use rust_matching_engine.Engine.Matching.{MatchState, match_order}
use rust_matching_engine.Engine.Matching.Fills.{IsSound}
use rust_matching_engine.Engine.Matching.Outcome.{match_order-Settles}
use rust_matching_engine.Engine.{
  Engine, EngineError, OrderResult, CancelError, CancelResult, Inputs, append, record_fills,
  record_stp, is_stp, admit, settle, accept, cancel_in_book, new_order, process_order,
  process_cancel,
}
use rust_matching_engine.Engine.Validity.{IsValid, IsGoodBook, record_fills-SameMarkets}
use rust_matching_engine.Engine.Cancel.{refused_reply, closed_reply, live_reply}
use rust_matching_engine.Engine.Gates.{outcome, refused, duplicate, accepted}

-- A change of status of a market.
unfoldable pub IsStatus : Event → Type 0
IsStatus (market_paused _ _) = Unit {0}
IsStatus (market_resumed _ _) = Unit {0}
IsStatus _ = ⊥

-- A property that the four kinds of events of a call keep. Each names orders of the index only.
pub record FollowsLog (P : Sequencer → StateStore → HashMap OrderId Str → Type 0) : Type 0 where
  pub accept :
      (q : Sequencer) (s s' : StateStore) (index : HashMap OrderId Str) (stamp now : ℕ) (o : Order)
      → o.created_sequence ≡ q.next_seq_id
      → check_and_update_nonce s o.trader_id o.nonce ≡ ok s'
      → P q s index
      → P
          (register_accepted
            (append_event q stamp (order_accepted o))
            o.trader_id
            o.client_order_id
            o.created_sequence
            o.order_id
            o.order_hash
            now)
          s'
          (HashMap.insert index o.order_id o.market_id)
  pub fill :
      (q : Sequencer) (s : StateStore) (index : HashMap OrderId Str) (stamp : ℕ) (f : Fill)
      → HashMap.get index f.taker_order_id ≢ none
      → HashMap.get index f.maker_order_id ≢ none
      → P q s index
      → P
          (append_event q stamp (fill f))
          (apply_fill s f.taker_order_hash f.maker_order_hash f.size_lots)
          index
  pub cancel :
      (q : Sequencer) (s : StateStore) (index : HashMap OrderId Str) (stamp : ℕ) (id : OrderId)
      (hash : OrderHash) (reason : CancelReason)
      → HashMap.get index id ≢ none
      → P q s index
      → P (append_event q stamp (order_cancelled id hash reason)) (cancel_order s hash) index
  pub status :
      (q : Sequencer) (s : StateStore) (index : HashMap OrderId Str) (stamp : ℕ) (ev : Event)
      → IsStatus ev
      → P q s index
      → P (append_event q stamp ev) s index

admit_known :
    (i : Inputs) (e : Engine) (o : Order) (id : OrderId)
    → (o.order_id ≡ id) ⊎ (HashMap.get e.order_market_index id ≢ none)
    → HashMap.get (admit i e o).order_market_index id ≢ none
unfolding admit
admit_known i e o id (inl same) gone =
    cc (gone, same, HashMap.get-insert_self e.order_market_index o.order_id o.market_id)
admit_known i e o id (inr before) gone =
    before (HashMap.missing_before e.order_market_index o.order_id id o.market_id gone)

module _ (P : Sequencer → StateStore → HashMap OrderId Str → Type 0) (law : FollowsLog P) where
  abbrev pub At : Engine → Type 0
  At e = P e.sequencer e.state e.order_market_index

  record_fills-At :
      (i : Inputs) (fs : List Fill) (e : Engine)
      → At e
      → All
          (λ (f : Fill).
            (HashMap.get e.order_market_index f.taker_order_id ≢ none)
            × (HashMap.get e.order_market_index f.maker_order_id ≢ none))
          fs
      → At (record_fills i fs e)
  unfolding record_fills
  record_fills-At i [] e r _ = r
  record_fills-At i (f ∷ fs) e r (known, rest) =
      record_fills-At i fs _
        (unfold append in law.fill e.sequencer e.state e.order_market_index _ f known.0 known.1 r)
        rest

  record_stp-At :
      (i : Inputs) (o : Order) (e : Engine)
      → At e
      → HashMap.get e.order_market_index o.order_id ≢ none
      → At (record_stp i o e)
  unfolding record_stp
  record_stp-At i o e r known = elim (Bool-cases (is_stp o.status)) [
    | inr no_stp ↦ rw no_stp r
    | inl stp ↦ rw stp (
        unfold append in
        law.cancel e.sequencer e.state e.order_market_index _ o.order_id o.order_hash
          self_trade_prevention known r)
  ]

  settle-At :
      (i : Inputs) (o : Order) (b : OrderBook) (e : Engine)
      → At e
      → IsGoodBook b
      → IsSound o
      → HashMap.get e.order_market_index o.order_id ≢ none
      → ((id : OrderId) (k : Order)
          → Orderbook.get b id ≡ some k
          → HashMap.get e.order_market_index id ≢ none)
      → At (settle i o b e).1
  settle-At i o b e r good sound own known =
      let m : MatchState = match_order b o o.created_sequence i.now_ms in
      let settled = match_order-Settles b o o.created_sequence i.now_ms good.wf sound in
      let filled_ : At (record_fills i m.fills e) = record_fills-At i m.fills e r (
        All-map
          (λ f ok_. (
            (λ k. own (ap (HashMap.get e.order_market_index) (sym ok_.taker_id) ∙ k)),
            known f.maker_order_id ok_.maker ok_.found,
          ))
          m.fills settled.fills) in
      let same = record_fills-SameMarkets i m.fills e in
      let stp : At (record_stp i m.taker (record_fills i m.fills e)) =
        record_stp-At i m.taker (record_fills i m.fills e) filled_ (λ k. own (
          ap (HashMap.get e.order_market_index) (sym settled.same_terms.order_id)
          ∙ ap (λ (x : HashMap OrderId Str). HashMap.get x m.taker.order_id) (sym same.index)
          ∙ k)) in
      unfold settle in stp

  admit-At :
      (i : Inputs) (e : Engine) (state : StateStore) (o : Order)
      → o.created_sequence ≡ e.sequencer.next_seq_id
      → At e
      → check_and_update_nonce e.state o.trader_id o.nonce ≡ ok state
      → At (admit i (record e { state = state }) o)
  unfolding admit append
  admit-At i e state o numbered r fresh =
      law.accept e.sequencer e.state state e.order_market_index _ i.now_ms o numbered fresh r

  accept-At :
      (i : Inputs) (o : Order) (e e' : Engine) (state : StateStore)
      (r : Result EngineError OrderResult)
      → IsValid e
      → At e
      → o.created_sequence ≡ e.sequencer.next_seq_id
      → o.filled_size_lots ≡ 0
      → o.orig_size_lots < u64_mod
      → check_and_update_nonce e.state o.trader_id o.nonce ≡ ok state
      → accept i o (record e { state = state }) ≡ some (r, e')
      → At e'
  accept-At i o e e' state r v rec numbered unfilled in_range fresh =
      elim (Option-cases (HashMap.get e.books o.market_id)) [
        | inl missing ↦ unfold accept in rw (missing, accept) (λ h. cc)
        | inr (b, found) ↦
            unfold accept in
            rw (found, accept)
              (λ h. subst At (ended h) (
                settle-At i o b (admit i (record e { state = state }) o)
                  (admit-At i e state o numbered rec fresh) (v.books_good o.market_id b found)
                  (record { not_over = rw unfilled (omega arith); in_range = in_range })
                  (now_known o.order_id (inl refl))
                  (λ id k there.
                    now_known id
                      (inr (λ gone. cc (gone, v.indexed o.market_id b id k found there))))))
      ]
    where
      ended : {a b : Result EngineError OrderResult × Engine} → some a ≡ some b → a.1 ≡ b.1
      ended k = cc k

      now_known :
          (id : OrderId)
          → (o.order_id ≡ id) ⊎ (HashMap.get e.order_market_index id ≢ none)
          → HashMap.get (admit i (record e { state = state }) o).order_market_index id ≢ none
      now_known = admit_known i (record e { state = state }) o

  -- A submission that returns keeps what follows the log.
  pub process_order-At :
      (x : Crypto) (i : Inputs) (s : SignedOrder) (e e' : Engine)
      (r : Result EngineError OrderResult)
      → IsValid e
      → At e
      → s.size_lots < u64_mod
      → process_order x i s e ≡ some (r, e')
      → At e'
  process_order-At x i s e e' r v rec in_range h = elim (outcome x i s e) [
    | refused r' same ↦ same_engine (sym same ∙ h)
    | duplicate found _ same ↦ same_engine (sym same ∙ h)
    | accepted state fresh same ↦
        accept-At i (new_order x i (peek_next_seq_id e.sequencer) s) e e' state r v rec
          (unfold new_order peek_next_seq_id in refl) (unfold new_order in refl)
          (unfold new_order in in_range) (unfold new_order in fresh) (sym same ∙ h)
  ]
    where
      same_engine :
          {q : Result EngineError OrderResult}
          → ◌≡◌ {A = Option (Result EngineError OrderResult × Engine)} (some (q, e)) (some (r, e'))
          → At e'
      same_engine k = subst At same rec
        where
          same : e ≡ e'
          same = cc k

  cancel_in_book-At :
      (i : Inputs) (market_id : Str) (b : OrderBook) (o : Order) (order_id : OrderId)
      (trader_id : Str) (e : Engine)
      → At e
      → HashMap.get e.order_market_index order_id ≢ none
      → At (cancel_in_book i market_id b o order_id trader_id e).1
  cancel_in_book-At i market_id b o order_id trader_id e rec known =
      elim (bytes_eq o.trader_id trader_id) [
        | no other ↦ rw (refused_reply i order_id trader_id market_id e b o other) rec
        | yes own ↦ elim (Bool-cases (is_closed o)) [
          | inl closed ↦ rw (closed_reply i order_id trader_id market_id e b o own closed) rec
          | inr live ↦ rw (live_reply i order_id trader_id market_id e b o own live) (
              unfold append in
              law.cancel e.sequencer e.state e.order_market_index _ order_id o.order_hash
                trader_request known rec)
        ]
      ]

  -- A cancel that returns keeps what follows the log.
  pub process_cancel-At :
      (i : Inputs) (order_id : OrderId) (trader_id : Str) (e e' : Engine)
      (r : Result CancelError CancelResult)
      → At e
      → process_cancel i order_id trader_id e ≡ some (r, e')
      → At e'
  process_cancel-At i order_id trader_id e e' r rec =
      elim (Option-cases (HashMap.get e.order_market_index order_id)) [
        | inl missing ↦
            unfold process_cancel in rw (missing, process_cancel) (λ h. subst At (ended h) rec)
        | inr (m, known) ↦ elim (Option-cases (HashMap.get e.books m)) [
          | inl no_book ↦ unfold process_cancel in rw (known, no_book, process_cancel) (λ h. cc)
          | inr (b, here) ↦ elim (Option-cases (Orderbook.get b order_id)) [
            | inl gone ↦
                unfold process_cancel in
                rw (known, here, gone, process_cancel) (λ h. subst At (ended h) rec)
            | inr (o, found) ↦
                unfold process_cancel in
                rw (known, here, found, process_cancel)
                  (λ h.
                    subst At (ended h)
                      (cancel_in_book-At i m b o order_id trader_id e rec (λ k. cc (k, known))))
          ]
        ]
      ]
    where
      ended : {a b : Result CancelError CancelResult × Engine} → some a ≡ some b → a.1 ≡ b.1
      ended k = cc k
