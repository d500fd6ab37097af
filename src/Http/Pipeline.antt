-- ===== src/Http/Pipeline.antt =====
-- internal/controller/http: router.go and the middlewares requestid.go, logger.go and recovery.go, one
-- around the other. Fiber, as it is documented: the status of an answer is 200 until it is set; what
-- `Next` returns is the error of the handlers behind; recover turns a panic into an error after its
-- trace handler was called; the application's error handler answers for the error that is left.
pub mod Served
pub mod Unrouted
mod Tests
use thiam_api.Base.Int.{ℤ}
use thiam_api.Http.{
  DbHealthResponse, db_health, Level, level_error, level_warn, level_info, log_level, request_id,
  get_request_id,
}
use thiam_api.Base.{
  if◌then◌else◌, Bool, ℕ, ◌-◌, ◌/◌, Option, none, some, List, [], ◌∷◌, ◌++◌, String, length,
}
use thiam_api.Errors.{Error}
use thiam_api.Logger.Sampled.{Severity, info, warn, error}
use thiam_api.Logger.Redact.{Bytes, Value, text, other}

-- What is read of a request; `header` is its X-Request-ID.
pub record Request : Type 0 where
  pub method : String
  pub path : String
  pub original_url : String
  pub ip : String
  pub user_agent : String
  pub header : String

-- A line of the log: its level, the id it was given, its fields, and its text.
pub record Entry : Type 0 where
  pub severity : Severity
  pub request_id : Option String
  pub fields : List (String × Value)
  pub message : Bytes

-- The fiber context with the log: the request id in the locals, and the answer's X-Request-ID, status
-- and body.
pub record Exchange : Type 0 where
  pub request : Request
  pub locals : Option String
  pub header : String
  pub status : ℕ
  pub body : Bytes
  pub entries : List Entry

-- How a handler ends.
pub data Verdict : Type 0 where
  fine : Verdict
  failed : Error → Verdict
  panicked : Bytes → Verdict

abbrev pub Handler : Type 0
Handler = Exchange → Verdict × Exchange

abbrev pub record_entry : Entry → Exchange → Exchange
record_entry e x = record x { entries = x.entries ++ e ∷ [] }

-- `RequestID`, with what `uuid.New` gives.
unfoldable pub request_id_middleware : String → Handler → Handler
unfolding request_id
request_id_middleware fresh next x =
    let id = request_id x.request.header fresh in next (record x { locals = some id; header = id })

-- The error handler of the application; a panic that is left ends the process.
abbrev pub answered : (Error → Exchange → Exchange) → Verdict × Exchange → Option Exchange
answered on_error (fine, x) = some x
answered on_error (failed e, x) = some (on_error e x)
answered on_error (panicked err, x) = none

abbrev pub incoming : Request → Exchange
incoming r = record {
  request = r;
  locals = none;
  header = "";
  status = 200;
  body = [];
  entries = [];
}

-- `redact` is `RedactFields`, `bytes` the bytes of a text, `stack` what `debug.Stack` and `%v` make of a
-- panic, `as_error` the error that recover makes of it.
module _ (redact : List (String × Value) → List (String × Value)) (bytes : String → Bytes)
    (stack : Bytes → Bytes) (as_error : Bytes → Error) where
  -- `buildPanicMessage`
  unfoldable pub build_panic_message : Request → Bytes → Bytes
  build_panic_message r err =
      bytes r.ip
      ++ bytes " - "
      ++ bytes r.method
      ++ bytes " "
      ++ bytes r.original_url
      ++ bytes " PANIC DETECTED: "
      ++ stack err

  -- `logPanic`
  unfoldable pub log_panic : Bytes → Exchange → Exchange
  unfolding build_panic_message
  log_panic err x =
      record_entry
        (record {
          severity = error;
          request_id = none;
          fields = [];
          message = build_panic_message x.request err;
        })
        x

  abbrev pub recovered : Verdict × Exchange → Verdict × Exchange
  recovered (fine, x) = (fine, x)
  recovered (failed e, x) = (failed e, x)
  recovered (panicked err, x) = (failed (as_error err), log_panic err x)

  -- `Recovery`
  unfoldable pub recovery_middleware : Handler → Handler
  unfolding log_panic
  recovery_middleware next x = recovered (next x)

  -- The fields that `Logger` makes; the clock is in nanoseconds.
  abbrev pub log_fields : ℕ → ℕ → Exchange → List (String × Value)
  log_fields start now x =
      ("method", text (bytes x.request.method))
      ∷ ("path", text (bytes x.request.path))
      ∷ ("status", other x.status)
      ∷ ("latency_ms", other ((now - start) / 1000000))
      ∷ ("ip", text (bytes x.request.ip))
      ∷ ("user_agent", text (bytes x.request.user_agent))
      ∷ ("bytes_out", other (length x.body))
      ∷ []

  abbrev pub severity_of : Level → Severity
  severity_of level_error = error
  severity_of level_warn = warn
  severity_of level_info = info

  abbrev pub level_text : Level → String
  level_text level_error = "server error"
  level_text level_warn = "client error"
  level_text level_info = "request completed"

  -- What `Logger` writes about an exchange.
  unfoldable pub request_entry : ℕ → ℕ → Exchange → Entry
  unfolding log_level get_request_id
  request_entry start now x = record {
    severity = severity_of (log_level x.status);
    request_id = some (get_request_id x.locals);
    fields = redact (log_fields start now x);
    message = bytes (level_text (log_level x.status));
  }

  abbrev pub logged : ℕ → ℕ → Verdict × Exchange → Verdict × Exchange
  logged start now (panicked err, x) = (panicked err, x)
  logged start now (fine, x) = (fine, record_entry (request_entry start now x) x)
  logged start now (failed e, x) = (failed e, record_entry (request_entry start now x) x)

  -- `Logger`, with the clock before and after `Next`.
  unfoldable pub logger_middleware : ℕ → ℕ → Handler → Handler
  unfolding request_entry
  logger_middleware start now next x = logged start now (next x)

  -- The middlewares in the order in which `NewRouter` registers them, around what it registers then.
  unfoldable pub with_middlewares : String → ℕ → ℕ → Handler → Handler
  unfolding request_id_middleware logger_middleware recovery_middleware
  with_middlewares fresh start now routes =
      request_id_middleware fresh (logger_middleware start now (recovery_middleware routes))

  -- A request from its arrival to its answer.
  unfoldable pub serve_request :
      String → ℕ → ℕ → Handler → (Error → Exchange → Exchange) → Request → Option Exchange
  unfolding with_middlewares
  serve_request fresh start now routes on_error r =
      answered on_error (with_middlewares fresh start now routes (incoming r))

-- The settings that `NewRouter` reads.
pub record RouterConfig : Type 0 where
  pub metrics_enabled : Bool
  pub swagger_enabled : Bool

-- What libraries do: fiber's matching of a GET route, the Prometheus middleware and its page, the
-- Swagger page, the error for a request that no route takes; and what the database answers to the
-- health check, with the JSON of the result.
pub record Libraries : Type 0 where
  pub matches : String → Request → Bool
  pub prometheus : Handler → Handler
  pub metrics : Handler
  pub swagger : Handler
  pub missing : Request → Error
  pub ping : Option Error
  pub version : Option (ℤ × Bool)
  pub encode : DbHealthResponse → Bytes
  pub ok_text : Bytes

module _ (lib : Libraries) where
  -- `app.Get`, in front of what is registered after it.
  abbrev pub get : String → Handler → Handler → Handler
  get pattern h next x = if lib.matches pattern x.request then h x else next x

  -- `/healthz`
  abbrev pub healthz : Handler
  healthz x = (fine, record x { status = 200; body = lib.ok_text })

  -- `healthRoutes.dbHealth`, on the context.
  abbrev pub healthz_db : Handler
  healthz_db x =
      let r = db_health lib.ping lib.version in
      (fine, record x { status = r.status; body = lib.encode r.body })

  abbrev pub no_route : Handler
  no_route x = (failed (lib.missing x.request), x)

  abbrev pub swagger_routes : RouterConfig → Handler → Handler
  swagger_routes cfg next = if cfg.swagger_enabled then get "/swagger/*" lib.swagger next else next

  abbrev pub metrics_routes : RouterConfig → Handler → Handler
  metrics_routes cfg next =
      if cfg.metrics_enabled then get "/metrics" lib.metrics (lib.prometheus next) else next

  -- `NewRouter`, after the middlewares.
  unfoldable pub new_router : RouterConfig → Handler
  unfolding db_health
  new_router cfg =
      metrics_routes cfg
        (swagger_routes cfg (get "/healthz" healthz (get "/healthz/db" healthz_db no_route)))
