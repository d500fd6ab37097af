-- ===== src/Http/Pipeline/Unrouted.antt =====
-- Requests that no route takes.
use thiam_api.Base.{arith, ℕ, ◌≡◌, false, some, List, String}
use thiam_api.Errors.{Error}
use thiam_api.Logger.Sampled.{info}
use thiam_api.Logger.Redact.{Bytes, Value}
use thiam_api.Http.{request_id, get_request_id, log_level}
use thiam_api.Http.Pipeline.{
  Request, Exchange, RouterConfig, Libraries, request_entry, with_middlewares, record_entry,
  log_fields, request_id_middleware, logger_middleware, recovery_middleware, serve_request,
  new_router,
}
use thiam_api.Http.Pipeline.Served.{prepared}

module _ (redact : List (String × Value) → List (String × Value)) (bytes : String → Bytes)
    (stack : Bytes → Bytes) (as_error : Bytes → Error) (fresh : String) (start now : ℕ) where
  -- Without metrics, a request that no route takes is logged once, at info, as completed with the
  -- status 200; the error handler makes its answer only then, whatever its status is.
  pub serve_request_unrouted :
      (lib : Libraries) (cfg : RouterConfig) (on_error : Error → Exchange → Exchange) (r : Request)
      → cfg.metrics_enabled ≡ false
      → ((pattern : String) → lib.matches pattern r ≡ false)
      → serve_request redact bytes stack as_error fresh start now (new_router lib cfg) on_error r
        ≡ some (
            on_error (lib.missing r) (
              record_entry
                (record {
                  severity = info;
                  request_id = some (request_id r.header fresh);
                  fields = redact (
                      log_fields redact bytes stack as_error start now
                        (prepared redact bytes stack as_error fresh start now r));
                  message = bytes "request completed";
                })
                (prepared redact bytes stack as_error fresh start now r)))
  unfolding serve_request with_middlewares request_id_middleware logger_middleware
      recovery_middleware request_entry log_level get_request_id new_router
  serve_request_unrouted lib cfg f r m n =
      ground (arith, n "/swagger/*", n "/healthz", n "/healthz/db")
