-- ===== src/Api/Service.antt =====
-- Requests are runs of the engine: what holds of every run holds behind the HTTP interface
-- (src/api/rest.rs).
use rust_matching_engine.Prelude.{
  ℕ, ◌<◌, ◌≡◌, sym, subst, inl, inr, Option, none, some, Option-cases, u64_mod, Result,
  Result-cases, ok, err, arith,
}
use rust_matching_engine.HashMap.{HashMap, bytes_key}
use rust_matching_engine.HashMap
use rust_matching_engine.Domain.Market.{Str}
use rust_matching_engine.Domain.Order.{Crypto, SignedOrder}
use rust_matching_engine.Sequencer.{idempotency_check}
use rust_matching_engine.Engine.{Engine, process_order, process_cancel}
use rust_matching_engine.Risk.{check}
use rust_matching_engine.Admin.{AdminError}
use rust_matching_engine.Pg.{Json, Database}
use rust_matching_engine.Api.{Locks, publish_since, persist_since}
use rust_matching_engine.Api.Rest.{Body, Headers, Request}
use rust_matching_engine.Api.Rest
use rust_matching_engine.Api.Handlers.{
  Answer, Turn, State, finish, reply_order, submit, post_order, cancel_as, cancel_by_client_id,
  delete_order,
}
use rust_matching_engine.Api.Router.{
  admin_reply, as_admin, require_admin_key, admin_pause_market, admin_resume_market,
  admin_cancel_all, handle,
}
use rust_matching_engine.Api.Publish.{IsInRange, call-cases}
use rust_matching_engine.Run
use rust_matching_engine.Run.{IsReachable, then_, IsSafe, reachable-IsSafe}

module _ (json : Json) (db : Database json.Value) (x : Crypto) (t : Turn json db) where
  -- Whatever the handler answers, a run reaches its engine.
  abbrev Reaches : Option (Answer × State json db) → Type 0
  Reaches o =
      (answer : Answer) (s' : State json db) → o ≡ some (answer, s') → IsReachable x s'.engine

  ends : (a : Answer) (s : State json db) → IsReachable x s.engine → Reaches (some (a, s))
  ends a s run answer s' h =
      let same : s ≡ s' = cc h in subst (λ (z : State json db). IsReachable x z.engine) same run

  finish-engine :
      (locks : Locks json db) (n : ℕ) (s : State json db)
      → (finish json db locks n s).engine ≡ s.engine
  unfolding finish publish_since persist_since
  finish-engine locks n s = ground arith

  finished :
      (a : Answer) (n : ℕ) (s : State json db)
      → IsReachable x s.engine
      → Reaches (some (a, finish json db t.locks n s))
  finished a n s run = ends a _ (subst (IsReachable x) (sym (finish-engine t.locks n s)) run)

  post_order-Reaches :
      (signed : SignedOrder) (s : State json db)
      → IsReachable x s.engine
      → signed.size_lots < u64_mod
      → HashMap.get s.engine.order_market_index t.inputs.new_order_id ≡ none
      → Reaches (post_order json db x t signed s)
  post_order-Reaches signed s run in_range unused =
      elim (Result-cases
        (check s.risk t.risk_now signed.trader_id signed.market_id signed.price_ticks
          signed.size_lots).0) [
            | inr (e, said) ↦ unfold post_order in rw (said, post_order) (ends _ _ run)
            | inl (_, said) ↦
                unfold post_order in
                rw (said, post_order)
                  (elim (call-cases (process_order x t.inputs signed s.engine)) [
                    | inl panics ↦ unfold submit in rw (panics, submit) (λ a s' h. cc h)
                    | inr (inl (r, e, told)) ↦
                        unfold submit in
                        rw (told, submit)
                          (ends _ _ (
                            then_ s.engine e run
                              (Run.submit t.inputs signed e (err r) unused in_range told)))
                    | inr (inr (r, e, told)) ↦
                        unfold submit reply_order in
                        rw (told, submit)
                          (finished _ _ _ (
                            then_ s.engine e run
                              (Run.submit t.inputs signed e (ok r) unused in_range told)))
                  ])
          ]

  cancel_as-Reaches :
      (id trader : Str) (s : State json db)
      → IsReachable x s.engine
      → Reaches (cancel_as json db t id trader s)
  cancel_as-Reaches id trader s run =
      elim (call-cases (process_cancel t.inputs id trader s.engine)) [
        | inl panics ↦ unfold cancel_as in rw (panics, cancel_as) (λ a s' h. cc h)
        | inr (inl (r, e, told)) ↦
            unfold cancel_as in
            rw (told, cancel_as)
              (ends _ _ (then_ s.engine e run (Run.cancel t.inputs id trader e (err r) told)))
        | inr (inr (r, e, told)) ↦
            unfold cancel_as in
            rw (told, cancel_as)
              (finished _ _ _ (then_ s.engine e run (Run.cancel t.inputs id trader e (ok r) told)))
      ]

  cancel_by_client_id-Reaches :
      (trader client : Str) (s : State json db)
      → IsReachable x s.engine
      → Reaches (cancel_by_client_id json db t trader client s)
  cancel_by_client_id-Reaches trader client s run =
      elim (Option-cases (idempotency_check s.engine.sequencer trader client)) [
        | inl missing ↦
            unfold cancel_by_client_id in rw (missing, cancel_by_client_id) (ends _ _ run)
        | inr (rec, found) ↦
            unfold cancel_by_client_id in
            rw (found, cancel_by_client_id) (cancel_as-Reaches rec.order_id trader s run)
      ]

  delete_order-Reaches :
      (id : Str) (headers : Headers) (s : State json db)
      → IsReachable x s.engine
      → Reaches (delete_order json db t id headers s)
  delete_order-Reaches id headers s run = elim (Option-cases headers.trader_id) [
    | inl missing ↦ unfold delete_order in rw (missing, delete_order) (ends _ _ run)
    | inr (trader, given) ↦
        unfold delete_order in rw (given, delete_order) (cancel_as-Reaches id trader s run)
  ]

  admin_reply-Reaches :
      (body : ℕ → Body) (s : State json db) (r : Result AdminError ℕ) (e : Engine)
      → IsReachable x e
      → Reaches (some (admin_reply json db t body s (r, e)))
  unfolding admin_reply
  admin_reply-Reaches body s (err r) e run = ends _ _ run
  admin_reply-Reaches body s (ok n) e run = finished _ _ _ run

  as_admin-Reaches :
      (headers : Headers) (s : State json db) (o : Answer × State json db)
      → IsReachable x s.engine
      → Reaches (some o)
      → Reaches (some (as_admin json db headers s o))
  as_admin-Reaches headers s o run h = elim (Result-cases (require_admin_key s.admin_key headers)) [
    | inr (e, said) ↦ unfold as_admin in rw (said, as_admin) (ends _ _ run)
    | inl (_, said) ↦ unfold as_admin in rw (said, as_admin) h
  ]

  handle-Reaches :
      (req : Request) (s : State json db)
      → IsReachable x s.engine
      → IsInRange req
      → HashMap.get s.engine.order_market_index t.inputs.new_order_id ≡ none
      → Reaches (handle json db x t req s)
  unfolding handle IsInRange admin_pause_market admin_resume_market admin_cancel_all
  handle-Reaches (Rest.post_order signed) s run r unused = post_order-Reaches signed s run r unused
  handle-Reaches (Rest.cancel_by_client_id trader client) s run r unused =
      cancel_by_client_id-Reaches trader client s run
  handle-Reaches (Rest.delete_order id headers) s run r unused =
      delete_order-Reaches id headers s run
  handle-Reaches (Rest.get_order id) s run r unused = ends _ _ run
  handle-Reaches (Rest.get_book m d) s run r unused = ends _ _ run
  handle-Reaches (Rest.get_trades m l f) s run r unused = ends _ _ run
  handle-Reaches Rest.list_markets s run r unused = ends _ _ run
  handle-Reaches (Rest.admin_pause_market headers market by) s run r unused =
      as_admin-Reaches headers s _ run
        (admin_reply-Reaches _ s _ _ (then_ s.engine _ run (Run.pause_ t.inputs market by)))
  handle-Reaches (Rest.admin_resume_market headers market by) s run r unused =
      as_admin-Reaches headers s _ run
        (admin_reply-Reaches _ s _ _ (then_ s.engine _ run (Run.resume_ t.inputs market by)))
  handle-Reaches (Rest.admin_cancel_all headers market) s run r unused =
      as_admin-Reaches headers s _ run
        (admin_reply-Reaches _ s _ _ (then_ s.engine _ run (Run.cancel_all t.inputs market)))

  -- A request that returns takes a server whose engine a run reaches to one whose engine a run reaches,
  -- if the new order id is in no use and the size of a submitted order is a `u64`: so its engine is
  -- safe, whatever the request, its answer, the locks and the database were.
  pub handle-IsSafe :
      (req : Request) (s s' : State json db) (answer : Answer)
      → IsReachable x s.engine
      → IsInRange req
      → HashMap.get s.engine.order_market_index t.inputs.new_order_id ≡ none
      → handle json db x t req s ≡ some (answer, s')
      → IsReachable x s'.engine × IsSafe s'.engine
  handle-IsSafe req s s' answer run r unused h =
      let after = handle-Reaches req s run r unused answer s' h in
      (after, reachable-IsSafe x s'.engine after)
