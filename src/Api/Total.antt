-- ===== src/Api/Total.antt =====
-- No request panics (src/api/rest.rs).
use rust_matching_engine.Prelude.{
  ◌<◌, ◌≡◌, ◌≢◌, refl, inl, inr, Option, none, some, Option-cases, u64_mod, Result-cases,
}
use rust_matching_engine.HashMap.{HashMap, bytes_key}
use rust_matching_engine.HashMap
use rust_matching_engine.Domain.Market.{Str}
use rust_matching_engine.Domain.Order.{Crypto, SignedOrder}
use rust_matching_engine.Sequencer.{idempotency_check}
use rust_matching_engine.Engine.{Engine, process_order, process_cancel}
use rust_matching_engine.Engine.Validity.{IsValid}
use rust_matching_engine.Engine.Submit.{Keeps, process_order-Keeps}
use rust_matching_engine.Engine.Cancel.{process_cancel-Keeps}
use rust_matching_engine.Risk.{check}
use rust_matching_engine.Pg.{Json, Database}
use rust_matching_engine.Api.Rest.{Headers, Request}
use rust_matching_engine.Api.Rest
use rust_matching_engine.Api.Handlers.{
  Answer, Turn, State, submit, post_order, cancel_as, cancel_by_client_id, delete_order,
}
use rust_matching_engine.Api.Router.{handle}
use rust_matching_engine.Api.Publish.{IsInRange, call-cases}

no_panic : {R : Type 0} (o : Option (R × Engine)) → Keeps o → o ≢ none
no_panic none k h = k
no_panic (some _) k h = cc h

module _ (json : Json) (db : Database json.Value) (x : Crypto) (t : Turn json db) where
  -- The handler answers.
  abbrev Answers : Option (Answer × State json db) → Type 0
  Answers o = (answer : Answer) × (s' : State json db) × (o ≡ some (answer, s'))

  post_order-Answers :
      (signed : SignedOrder) (s : State json db)
      → IsValid s.engine
      → signed.size_lots < u64_mod
      → HashMap.get s.engine.order_market_index t.inputs.new_order_id ≡ none
      → Answers (post_order json db x t signed s)
  post_order-Answers signed s v in_range unused =
      let good =
        no_panic (process_order x t.inputs signed s.engine)
          (process_order-Keeps x t.inputs signed s.engine v unused in_range) in
      elim (Result-cases
        (check s.risk t.risk_now signed.trader_id signed.market_id signed.price_ticks
          signed.size_lots).0) [
            | inr (e, said) ↦ unfold post_order in rw (said, post_order) (_, _, refl)
            | inl (_, said) ↦
                unfold post_order in
                rw (said, post_order)
                  (elim (call-cases (process_order x t.inputs signed s.engine)) [
                    | inl panics ↦ absurd (good panics)
                    | inr (inl (r, e, told)) ↦ unfold submit in rw (told, submit) (_, _, refl)
                    | inr (inr (r, e, told)) ↦ unfold submit in rw (told, submit) (_, _, refl)
                  ])
          ]

  cancel_as-Answers :
      (id trader : Str) (s : State json db)
      → IsValid s.engine
      → Answers (cancel_as json db t id trader s)
  cancel_as-Answers id trader s v =
      let good =
        no_panic (process_cancel t.inputs id trader s.engine)
          (process_cancel-Keeps t.inputs id trader s.engine v) in
      elim (call-cases (process_cancel t.inputs id trader s.engine)) [
        | inl panics ↦ absurd (good panics)
        | inr (inl (r, e, told)) ↦ unfold cancel_as in rw (told, cancel_as) (_, _, refl)
        | inr (inr (r, e, told)) ↦ unfold cancel_as in rw (told, cancel_as) (_, _, refl)
      ]

  cancel_by_client_id-Answers :
      (trader client : Str) (s : State json db)
      → IsValid s.engine
      → Answers (cancel_by_client_id json db t trader client s)
  cancel_by_client_id-Answers trader client s v =
      elim (Option-cases (idempotency_check s.engine.sequencer trader client)) [
        | inl missing ↦ unfold cancel_by_client_id in rw (missing, cancel_by_client_id) (_, _, refl)
        | inr (rec, found) ↦
            unfold cancel_by_client_id in
            rw (found, cancel_by_client_id) (cancel_as-Answers rec.order_id trader s v)
      ]

  delete_order-Answers :
      (id : Str) (headers : Headers) (s : State json db)
      → IsValid s.engine
      → Answers (delete_order json db t id headers s)
  delete_order-Answers id headers s v = elim (Option-cases headers.trader_id) [
    | inl missing ↦ unfold delete_order in rw (missing, delete_order) (_, _, refl)
    | inr (trader, given) ↦
        unfold delete_order in rw (given, delete_order) (cancel_as-Answers id trader s v)
  ]

  -- Every request on a valid engine is answered, and does not panic, if the new order id is in no use
  -- and the size of a submitted order is a `u64`.
  pub handle-answers :
      (req : Request) (s : State json db)
      → IsValid s.engine
      → IsInRange req
      → HashMap.get s.engine.order_market_index t.inputs.new_order_id ≡ none
      → (answer : Answer) × (s' : State json db) × (handle json db x t req s ≡ some (answer, s'))
  unfolding handle IsInRange
  handle-answers (Rest.post_order signed) s v r unused = post_order-Answers signed s v r unused
  handle-answers (Rest.cancel_by_client_id trader client) s v r unused =
      cancel_by_client_id-Answers trader client s v
  handle-answers (Rest.delete_order id headers) s v r unused = delete_order-Answers id headers s v
  handle-answers (Rest.get_order id) s v r unused = (_, _, refl)
  handle-answers (Rest.get_book m d) s v r unused = (_, _, refl)
  handle-answers (Rest.get_trades m l f) s v r unused = (_, _, refl)
  handle-answers Rest.list_markets s v r unused = (_, _, refl)
  handle-answers (Rest.admin_pause_market headers market by) s v r unused = (_, _, refl)
  handle-answers (Rest.admin_resume_market headers market by) s v r unused = (_, _, refl)
  handle-answers (Rest.admin_cancel_all headers market) s v r unused = (_, _, refl)
