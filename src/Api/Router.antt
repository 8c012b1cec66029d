-- ===== src/Api/Router.antt =====
-- The administrative handlers and the router (src/api/rest.rs).
use rust_matching_engine.Prelude.{
  ℕ, Option, some, [], ◌∷◌, Bool, true, false, Result, ok, err, guard, unwrap_or, decide, not, ◌>>◌,
}
use rust_matching_engine.HashMap.{bytes_eq}
use rust_matching_engine.Domain.Market.{Str}
use rust_matching_engine.Domain.Order.{Crypto}
use rust_matching_engine.Engine.{Engine}
use rust_matching_engine.Admin.{AdminError}
use rust_matching_engine.Admin
use rust_matching_engine.Pg.{Json, Database}
use rust_matching_engine.Api.Errors.{ErrorResponse, text, admin_err_to_response}
use rust_matching_engine.Api.Rest.{
  Body, BookResponse, Headers, Request, accepted, cancelled, state_of, book, trades, markets,
  status_changed, cancelled_all, accepted_response, cancelled_response, order_state_response,
  book_level, trade_response, market_response, default_depth, default_limit,
}
use rust_matching_engine.Api.Rest
use rust_matching_engine.Api.Handlers.{
  Answer, Turn, State, finish, last_committed, post_order, cancel_by_client_id, delete_order,
  get_order, get_book, get_trades, list_markets,
}

abbrev is_empty_text : Str → Bool
is_empty_text [] = true
is_empty_text (_ ∷ _) = false

unfoldable pub require_admin_key : Str → Headers → Result ErrorResponse (Unit {0})
require_admin_key admin_key headers = do
  guard (not (is_empty_text admin_key))
      (record { status = 401; code = "ADMIN_DISABLED"; message = text "admin key not configured" })
  guard (decide (bytes_eq (unwrap_or headers.admin_key []) admin_key)) (record {
    status = 401;
    code = "INVALID_ADMIN_KEY";
    message = text "invalid or missing X-Admin-Key header";
  })

module _ (json : Json) (db : Database json.Value) where
  -- What follows an administrative operation.
  unfoldable pub admin_reply :
      Turn json db
      → (ℕ → Body)
      → State json db
      → Result AdminError ℕ × Engine
      → Answer × State json db
  unfolding finish
  admin_reply t body s (err e, engine) =
      (err (admin_err_to_response e), record s { engine = engine })
  admin_reply t body s (ok n, engine) = (
    ok (200, body n),
    finish json db t.locks (last_committed s.engine.sequencer) (record s { engine = engine }),
  )

  -- An administrative handler: the key first.
  unfoldable pub as_admin :
      Headers → State json db → Answer × State json db → Answer × State json db
  unfolding require_admin_key
  as_admin headers s done = elim (require_admin_key s.admin_key headers) [
    | err e ↦ (err e, s)
    | ok _ ↦ done
  ]

  unfoldable pub admin_pause_market :
      Turn json db → Headers → Str → Str → State json db → Answer × State json db
  unfolding admin_reply as_admin
  admin_pause_market t headers market_id triggered_by s = as_admin headers s (
      admin_reply t (status_changed market_id) s
        (Admin.pause_market t.inputs s.engine market_id triggered_by))

  unfoldable pub admin_resume_market :
      Turn json db → Headers → Str → Str → State json db → Answer × State json db
  unfolding admin_reply as_admin
  admin_resume_market t headers market_id triggered_by s = as_admin headers s (
      admin_reply t (status_changed market_id) s
        (Admin.resume_market t.inputs s.engine market_id triggered_by))

  unfoldable pub admin_cancel_all :
      Turn json db → Headers → Str → State json db → Answer × State json db
  unfolding admin_reply as_admin
  admin_cancel_all t headers market_id s = as_admin headers s (
      admin_reply t (cancelled_all market_id) s
        (Admin.cancel_all_orders t.inputs s.engine market_id))

  -- The router.
  unfoldable pub handle :
      Crypto → Turn json db → Request → State json db → Option (Answer × State json db)
  unfolding post_order cancel_by_client_id delete_order get_order get_book get_trades list_markets
      admin_pause_market admin_resume_market admin_cancel_all
  handle x t (Rest.post_order signed) s = post_order json db x t signed s
  handle x t (Rest.cancel_by_client_id trader client) s =
      cancel_by_client_id json db t trader client s
  handle x t (Rest.delete_order id headers) s = delete_order json db t id headers s
  handle x t (Rest.get_order id) s = some (get_order json db x id s, s)
  handle x t (Rest.get_book market depth) s =
      some (get_book json db market (unwrap_or depth default_depth) s, s)
  handle x t (Rest.get_trades market limit from_seq) s =
      some (get_trades json db market (unwrap_or limit default_limit) (unwrap_or from_seq 0) s, s)
  handle x t Rest.list_markets s = some (list_markets json db s, s)
  handle x t (Rest.admin_pause_market headers market by) s =
      some (admin_pause_market t headers market by s)
  handle x t (Rest.admin_resume_market headers market by) s =
      some (admin_resume_market t headers market by s)
  handle x t (Rest.admin_cancel_all headers market) s = some (admin_cancel_all t headers market s)
