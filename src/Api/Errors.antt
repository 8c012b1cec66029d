-- ===== src/Api/Errors.antt =====
-- The mapping of errors to HTTP statuses and codes (src/api/rest.rs).
use Prim.Native.String.{String}
use rust_matching_engine.Prelude.{ℕ}
use rust_matching_engine.Domain.Market.{Str}
use rust_matching_engine.Domain.Order.{
  OrderError, unsupported_schema_version, empty_field, zero_price, zero_size, expired,
  invalid_public_key, invalid_signature, invalid_tick, invalid_lot, nonce_invalid,
  duplicate_client_order_id, market_not_found, market_not_active, trader_id_mismatch,
}
use rust_matching_engine.Engine.{EngineError, CancelError, order, nonce, not_found, unauthorized}
use rust_matching_engine.Risk.{RiskError, rate_limit_exceeded, order_too_large, price_outside_band}
use rust_matching_engine.Admin.{AdminError, already_in_state, is_settled}
use rust_matching_engine.Admin

-- The message of an error: the display text of what it is about, or a text.
pub data Message : Type 0 where
  of_engine : EngineError → Message
  of_risk : RiskError → Message
  of_admin : AdminError → Message
  of_cancel : CancelError → Message
  no_order no_market : Str → Message
  text : String → Message

pub record ErrorResponse : Type 0 where
  pub status : ℕ
  pub code : String
  pub message : Message

abbrev pub order_status_code : OrderError → ℕ × String
order_status_code invalid_signature = (401, "INVALID_SIGNATURE")
order_status_code invalid_public_key = (400, "INVALID_PUBLIC_KEY")
order_status_code trader_id_mismatch = (400, "TRADER_ID_MISMATCH")
order_status_code (market_not_found _) = (404, "MARKET_NOT_FOUND")
order_status_code (market_not_active _) = (409, "MARKET_HALTED")
order_status_code (invalid_tick _ _) = (400, "INVALID_TICK_SIZE")
order_status_code (invalid_lot _ _) = (400, "INVALID_LOT_SIZE")
order_status_code (expired _ _) = (400, "ORDER_EXPIRED")
order_status_code zero_price = (400, "ZERO_PRICE")
order_status_code zero_size = (400, "ZERO_SIZE")
order_status_code (unsupported_schema_version _) = (400, "UNSUPPORTED_SCHEMA_VERSION")
order_status_code (empty_field _) = (400, "EMPTY_FIELD")
order_status_code (nonce_invalid _ _) = (400, "NONCE_INVALID")
order_status_code (duplicate_client_order_id _) = (409, "DUPLICATE_CLIENT_ORDER_ID")

abbrev pub engine_err_to_response : EngineError → ErrorResponse
engine_err_to_response (order e) = record {
  status = (order_status_code e).0;
  code = (order_status_code e).1;
  message = of_engine (order e);
}
engine_err_to_response (nonce e) = record {
  status = 400;
  code = "NONCE_INVALID";
  message = of_engine (nonce e);
}

abbrev pub risk_err_to_response : RiskError → ErrorResponse
risk_err_to_response (rate_limit_exceeded t n w m) = record {
  status = 429;
  code = "RATE_LIMIT_EXCEEDED";
  message = of_risk (rate_limit_exceeded t n w m);
}
risk_err_to_response (order_too_large m s l) = record {
  status = 400;
  code = "ORDER_TOO_LARGE";
  message = of_risk (order_too_large m s l);
}
risk_err_to_response (price_outside_band m p r b) = record {
  status = 400;
  code = "PRICE_OUTSIDE_BAND";
  message = of_risk (price_outside_band m p r b);
}

abbrev pub admin_err_to_response : AdminError → ErrorResponse
admin_err_to_response (Admin.market_not_found m) = record {
  status = 404;
  code = "MARKET_NOT_FOUND";
  message = of_admin (Admin.market_not_found m);
}
admin_err_to_response (already_in_state m s) = record {
  status = 409;
  code = "ALREADY_IN_STATE";
  message = of_admin (already_in_state m s);
}
admin_err_to_response (is_settled m) = record {
  status = 409;
  code = "MARKET_SETTLED";
  message = of_admin (is_settled m);
}

-- The `map_err` of both cancel handlers.
abbrev pub cancel_err_to_response : CancelError → ErrorResponse
cancel_err_to_response (not_found id) = record {
  status = 404;
  code = "ORDER_NOT_FOUND";
  message = of_cancel (not_found id);
}
cancel_err_to_response (unauthorized tid) = record {
  status = 403;
  code = "UNAUTHORIZED_CANCEL";
  message = of_cancel (unauthorized tid);
}
