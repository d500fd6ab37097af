-- ===== src/Http.antt =====
-- internal/controller/http: v1/error.go, v1/health.go, middleware/requestid.go, middleware/logger.go.
-- A handler is read as what it sets on the fiber context: the status, the body, the headers.
pub mod Responses
pub mod Pipeline
mod Tests
use thiam_api.Base.{ℕ, Bool, Option, none, some, List, String, if◌then◌else◌, leb, str_eq}
use thiam_api.Base.Int.{ℤ}
use thiam_api.Errors.{
  Kind, Error, unknown, validation, not_found, conflict, unauthorized, forbidden, internal,
  external, timeout,
}
use thiam_api.AppError.{AppError, to_error, validation_error, kind_string, as_app_error}

-- `response.Error`
pub record ErrorBody : Type 0 where
  pub code : String
  pub message : String
  pub details : Option (List (String × String))

-- What a handler answers with.
pub record Response (B : Type 0) : Type 0 where
  pub status : ℕ
  pub body : B

-- `KindToHTTPStatus`
unfoldable pub kind_to_http_status : Kind → ℕ
kind_to_http_status unknown = 500
kind_to_http_status internal = 500
kind_to_http_status validation = 400
kind_to_http_status not_found = 404
kind_to_http_status conflict = 409
kind_to_http_status unauthorized = 401
kind_to_http_status forbidden = 403
kind_to_http_status timeout = 504
kind_to_http_status external = 502

-- The two answers of `ErrorResponse`.
abbrev pub respond : Option AppError → Response ErrorBody
respond none = record {
  status = 500;
  body = record {
    code = kind_string internal;
    message = "An unexpected error occurred";
    details = none;
  };
}
respond (some a) = record {
  status = kind_to_http_status a.kind;
  body = record { code = a.code; message = a.message; details = a.fields };
}

-- `ErrorResponse`
unfoldable pub error_response : Error → Response ErrorBody
unfolding kind_to_http_status as_app_error kind_string
error_response err = respond (as_app_error err)

-- `ValidationError`
unfoldable pub validation_response : String → Response ErrorBody
unfolding error_response
validation_response msg = error_response (to_error (validation_error msg List.[]))

-- `DBHealthResponse`
pub record DbHealthResponse : Type 0 where
  pub status : String
  pub migration_version : Option ℤ
  pub dirty : Option Bool
  pub error : String

-- The answer of the query for the migration version, if it gave one.
abbrev pub with_version : Option (ℤ × Bool) → DbHealthResponse
with_version none = record {
  status = "healthy";
  migration_version = none;
  dirty = none;
  error = "";
}
with_version (some (version, dirty)) = record {
  status = "healthy";
  migration_version = some version;
  dirty = some dirty;
  error = "";
}

-- `healthRoutes.dbHealth`, for the error of `Ping` and the row of the query.
unfoldable pub db_health : Option Error → Option (ℤ × Bool) → Response DbHealthResponse
db_health (some e) row = record {
  status = 503;
  body = record {
    status = "unhealthy";
    migration_version = none;
    dirty = none;
    error = "database connection failed";
  };
}
db_health none row = record { status = 200; body = with_version row }

-- `RequestID`, for the request's header and a fresh UUID: the id that is kept in the locals and
-- set as the header of the answer.
unfoldable pub request_id : String → String → String
request_id header fresh = if str_eq header "" then fresh else header

-- `GetRequestID`, for what the locals hold.
unfoldable pub get_request_id : Option String → String
get_request_id none = ""
get_request_id (some id) = id

pub data Level : Type 0 where
  level_error level_warn level_info : Level

-- The level at which the middleware `Logger` logs a request.
unfoldable pub log_level : ℕ → Level
log_level status =
    if leb 500 status then level_error else if leb 400 status then level_warn else level_info
