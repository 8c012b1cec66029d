-- ===== src/Api/Requests.antt =====
-- What a request does, from the router down: what it publishes, and what it may not do without the
-- administrator's key (src/api/rest.rs).
use rust_matching_engine.Prelude.{
  ℕ, ◌+◌, ◌<◌, ◌≡◌, ◌≢◌, refl, sym, ap, ◌⊎◌, inl, inr, Option, none, some, Option-cases, [], ◌∷◌,
  true, length, u64_mod, Result, Result-cases, err, guard, decide, unwrap_or,
}
use rust_matching_engine.HashMap.{bytes_eq}
use rust_matching_engine.Domain.Market.{Str}
use rust_matching_engine.Domain.Order.{Crypto}
use rust_matching_engine.Sequencer.{idempotency_check}
use rust_matching_engine.Sequencer.Log.{IsNumbered}
use rust_matching_engine.Engine.{Engine}
use rust_matching_engine.Engine.Validity.{IsValid}
use rust_matching_engine.Admin.{AdminError}
use rust_matching_engine.Admin.Growth.{
  IsOrderly, refused, done, pause_market-IsOrderly, resume_market-IsOrderly,
  cancel_all_orders-IsOrderly,
}
use rust_matching_engine.Pg.{Json, Database}
use rust_matching_engine.Api.Errors.{ErrorResponse, text}
use rust_matching_engine.Api.Rest.{Body, Headers, Request}
use rust_matching_engine.Api.Rest
use rust_matching_engine.Api.Handlers.{Answer, Turn, State, cancel_by_client_id, delete_order}
use rust_matching_engine.Api.Router.{
  admin_reply, as_admin, require_admin_key, admin_pause_market, admin_resume_market,
  admin_cancel_all, handle,
}
use rust_matching_engine.Api.Publish.{
  Published, Publishes, IsInRange, same-Publishes, finish-Publishes, post_order-Publishes,
  cancel_as-Publishes,
}

-- The headers of an administrative request.
unfoldable pub headers_of : Request → Option Headers
headers_of (Rest.admin_pause_market headers _ _) = some headers
headers_of (Rest.admin_resume_market headers _ _) = some headers
headers_of (Rest.admin_cancel_all headers _) = some headers
headers_of _ = none

module _ (json : Json) (db : Database json.Value) where
  module _ (x : Crypto) (t : Turn json db) (free : t.locks.publishes ≡ true) where
    admin_reply-Publishes :
        (body : ℕ → Body) (s : State json db) {o : Result AdminError ℕ × Engine}
        → IsNumbered s.engine.sequencer
        → IsOrderly s.engine o
        → Publishes json db x t free s (some (admin_reply json db t body s o))
    unfolding admin_reply
    admin_reply-Publishes body s n (refused r) = same-Publishes json db x t free s _ _ n refl refl
    admin_reply-Publishes body s n (done k e g) = finish-Publishes json db x t free s _ _ n g refl

    as_admin-Publishes :
        (headers : Headers) (s : State json db) (o : Answer × State json db)
        → IsNumbered s.engine.sequencer
        → Publishes json db x t free s (some o)
        → Publishes json db x t free s (some (as_admin json db headers s o))
    as_admin-Publishes headers s o n p =
        elim (Result-cases (require_admin_key s.admin_key headers)) [
          | inr (e, said) ↦
              unfold as_admin in
              rw (said, as_admin) (same-Publishes json db x t free s s _ n refl refl)
          | inl (_, said) ↦ unfold as_admin in rw (said, as_admin) p
        ]

    cancel_by_client_id-Publishes :
        (trader client : Str) (s : State json db)
        → IsNumbered s.engine.sequencer
        → Publishes json db x t free s (cancel_by_client_id json db t trader client s)
    cancel_by_client_id-Publishes trader client s n =
        elim (Option-cases (idempotency_check s.engine.sequencer trader client)) [
          | inl missing ↦
              unfold cancel_by_client_id in
              rw (missing, cancel_by_client_id) (same-Publishes json db x t free s s _ n refl refl)
          | inr (rec, found) ↦
              unfold cancel_by_client_id in
              rw (found, cancel_by_client_id)
                (cancel_as-Publishes json db x t free rec.order_id trader s n)
        ]

    delete_order-Publishes :
        (id : Str) (headers : Headers) (s : State json db)
        → IsNumbered s.engine.sequencer
        → Publishes json db x t free s (delete_order json db t id headers s)
    delete_order-Publishes id headers s n = elim (Option-cases headers.trader_id) [
      | inl missing ↦
          unfold delete_order in
          rw (missing, delete_order) (same-Publishes json db x t free s s _ n refl refl)
      | inr (trader, given) ↦
          unfold delete_order in
          rw (given, delete_order) (cancel_as-Publishes json db x t free id trader s n)
    ]

    handle-Publishes :
        (req : Request) (s : State json db)
        → IsValid s.engine
        → IsNumbered s.engine.sequencer
        → IsInRange req
        → Publishes json db x t free s (handle json db x t req s)
    unfolding handle IsInRange admin_pause_market admin_resume_market admin_cancel_all
    handle-Publishes (Rest.post_order signed) s v n r =
        post_order-Publishes json db x t free signed s v n r
    handle-Publishes (Rest.cancel_by_client_id trader client) s v n r =
        cancel_by_client_id-Publishes trader client s n
    handle-Publishes (Rest.delete_order id headers) s v n r = delete_order-Publishes id headers s n
    handle-Publishes (Rest.get_order id) s v n r = same-Publishes json db x t free s s _ n refl refl
    handle-Publishes (Rest.get_book m d) s v n r = same-Publishes json db x t free s s _ n refl refl
    handle-Publishes (Rest.get_trades m l f) s v n r =
        same-Publishes json db x t free s s _ n refl refl
    handle-Publishes Rest.list_markets s v n r = same-Publishes json db x t free s s _ n refl refl
    handle-Publishes (Rest.admin_pause_market headers market by) s v n r =
        as_admin-Publishes headers s _ n
          (admin_reply-Publishes _ s n (pause_market-IsOrderly t.inputs s.engine market by n))
    handle-Publishes (Rest.admin_resume_market headers market by) s v n r =
        as_admin-Publishes headers s _ n
          (admin_reply-Publishes _ s n (resume_market-IsOrderly t.inputs s.engine market by n))
    handle-Publishes (Rest.admin_cancel_all headers market) s v n r =
        as_admin-Publishes headers s _ n
          (admin_reply-Publishes _ s n (cancel_all_orders-IsOrderly t.inputs s.engine market n))

    -- Every request that returns, on a valid engine with a numbered log, when no one else holds the
    -- engine as it publishes: what it appends to the log, an order's size being a `u64` and the log
    -- shorter than `u64` counts, is what it publishes: the envelopes of the new events, each once and
    -- in order, and nothing else. The log stays numbered.
    pub handle-publishes :
        (req : Request) (s s' : State json db) (answer : Answer)
        → IsValid s.engine
        → IsNumbered s.engine.sequencer
        → IsInRange req
        → handle json db x t req s ≡ some (answer, s')
        → 1 + length s'.engine.sequencer.log < u64_mod
        → Published json db s s'
    handle-publishes req s s' answer v n in_range = handle-Publishes req s v n in_range answer s'

  -- The key of the server is set and given.
  abbrev HasKey : Str → Headers → Type 0
  HasKey key headers = (key ≢ []) × (unwrap_or headers.admin_key [] ≡ key)

  require_admin_key-HasKey :
      (key : Str) (headers : Headers)
      → HasKey key headers
        ⊎ ((e : ErrorResponse) × (require_admin_key key headers ≡ err e) × (e.status ≡ 401))
  unfolding require_admin_key mathlib.Core.Bool.decide
  require_admin_key-HasKey [] headers = inr (_, refl, refl)
  require_admin_key-HasKey (c ∷ key) headers =
      elim (bytes_eq (unwrap_or headers.admin_key []) (c ∷ key))
        as (λ d.
          HasKey (c ∷ key) headers
          ⊎ ((e : ErrorResponse) × (guard (decide d) (record {
            status = 401;
            code = "INVALID_ADMIN_KEY";
            message = text "invalid or missing X-Admin-Key header";
          })
                ≡ err e)
              × (e.status ≡ 401))) [
                | yes same ↦ inl ((λ h. cc h), same)
                | no other ↦ inr (_, refl, refl)
              ]

  refused_admin :
      (headers : Headers) (s : State json db) (o : Answer × State json db) (e : ErrorResponse)
      → require_admin_key s.admin_key headers ≡ err e
      → as_admin json db headers s o ≡ (err e, s)
  refused_admin headers s o e h = unfold as_admin in rw (h, as_admin) refl

  same_headers : {a b : Headers} → ◌≡◌ {A = Option Headers} (some a) (some b) → b ≡ a
  same_headers h = sym (cc h)

  refused_request :
      (x : Crypto) (t : Turn json db) (req : Request) (headers : Headers) (s : State json db)
      (e : ErrorResponse)
      → headers_of req ≡ some headers
      → require_admin_key s.admin_key headers ≡ err e
      → handle json db x t req s ≡ some (err e, s)
  unfolding handle headers_of admin_pause_market admin_resume_market admin_cancel_all
  refused_request x t (Rest.post_order signed) headers s e h k = cc h
  refused_request x t (Rest.cancel_by_client_id trader client) headers s e h k = cc h
  refused_request x t (Rest.delete_order id own) headers s e h k = cc h
  refused_request x t (Rest.get_order id) headers s e h k = cc h
  refused_request x t (Rest.get_book m d) headers s e h k = cc h
  refused_request x t (Rest.get_trades m l f) headers s e h k = cc h
  refused_request x t Rest.list_markets headers s e h k = cc h
  refused_request x t (Rest.admin_pause_market own market by) headers s e h k =
      ap some (refused_admin own s _ e (rw (same_headers h) at k))
  refused_request x t (Rest.admin_resume_market own market by) headers s e h k =
      ap some (refused_admin own s _ e (rw (same_headers h) at k))
  refused_request x t (Rest.admin_cancel_all own market) headers s e h k =
      ap some (refused_admin own s _ e (rw (same_headers h) at k))

  -- An administrative request without the key of the server, or to a server whose key is empty, is
  -- answered with status 401 and changes nothing.
  pub admin-refused :
      (x : Crypto) (t : Turn json db) (req : Request) (headers : Headers) (s : State json db)
      → headers_of req ≡ some headers
      → (s.admin_key ≡ []) ⊎ (unwrap_or headers.admin_key [] ≢ s.admin_key)
      → (e : ErrorResponse) × (handle json db x t req s ≡ some (err e, s)) × (e.status ≡ 401)
  admin-refused x t req headers s is_admin no_key =
      elim (require_admin_key-HasKey s.admin_key headers) [
        | inl (set_, given) ↦ absurd (elim no_key [ inl off ↦ set_ off | inr other ↦ other given ])
        | inr (e, said, status) ↦ (e, refused_request x t req headers s e is_admin said, status)
      ]
