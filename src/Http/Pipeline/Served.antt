-- ===== src/Http/Pipeline/Served.antt =====
-- What is answered and logged.

use thiam_api.Http.Pipeline.{
  fine, failed, panicked, recovered, logged, answered, log_panic, request_entry, with_middlewares,
  request_id_middleware, logger_middleware, recovery_middleware, serve_request, Request, Entry,
  Exchange, Verdict, Handler, incoming, build_panic_message,
}
use thiam_api.Base.{◌∙◌, refl, arith, ℕ, ◌≡◌, none, some, List, [], ◌∷◌, ◌++◌, String}
use thiam_api.Errors.{Error}
use thiam_api.Logger.Sampled.{error}
use thiam_api.Logger.Redact.{Bytes, Value}
use thiam_api.Http.{get_request_id, request_id}

-- A handler leaves the id where it is and does not write to the log.
abbrev pub KeepsId : Handler → Type 0
KeepsId h =
    (x : Exchange)
    → ((h x).1.locals ≡ x.locals)
      × ((h x).1.header ≡ x.header)
      × ((h x).1.entries ≡ x.entries)
      × ((h x).1.request ≡ x.request)

abbrev pub ErrorKeepsId : (Error → Exchange → Exchange) → Type 0
ErrorKeepsId f =
    (e : Error) (x : Exchange) → ((f e x).header ≡ x.header) × ((f e x).entries ≡ x.entries)

module _ (redact : List (String × Value) → List (String × Value)) (bytes : String → Bytes)
    (stack : Bytes → Bytes) (as_error : Bytes → Error) (fresh : String) (start now : ℕ) where
  -- What the handlers behind the middlewares are given.
  abbrev pub prepared : Request → Exchange
  prepared r = record (incoming r) {
    locals = some (request_id r.header fresh);
    header = request_id r.header fresh;
  }

  -- The entry of a panic.
  abbrev pub panic_entries : Request → Verdict → List Entry
  panic_entries r (panicked err) =
      record {
        severity = error;
        request_id = none;
        fields = [];
        message = build_panic_message redact bytes stack as_error r err;
      }
      ∷ []
  panic_entries r v = []

  abbrev pub entry_of : Request → Exchange → Entry
  entry_of r y = request_entry redact bytes stack as_error start now y

  -- What `Logger` passes on, after the handlers have ended with `v` and left `y`.
  abbrev passed_on : Verdict → Exchange → Verdict × Exchange
  passed_on v y =
      logged redact bytes stack as_error start now (recovered redact bytes stack as_error (v, y))

  abbrev all_entries : Request → Verdict → Exchange → List Entry
  all_entries r v y =
      panic_entries r v
      ++ record (entry_of r y) { request_id = some (request_id r.header fresh) } ∷ []

  passed_on-entries :
      (r : Request) (v : Verdict) (y : Exchange)
      → y.locals ≡ some (request_id r.header fresh)
      → y.entries ≡ []
      → y.request ≡ r
      → (passed_on v y).1.entries ≡ all_entries r v y
  unfolding log_panic request_entry get_request_id
  passed_on-entries r fine y l e q = ground (arith, l, e)
  passed_on-entries r (failed x) y l e q = ground (arith, l, e)
  passed_on-entries r (panicked x) y l e q = ground (arith, l, e, q)

  passed_on-header : (v : Verdict) (y : Exchange) → (passed_on v y).1.header ≡ y.header
  unfolding log_panic
  passed_on-header fine y = refl
  passed_on-header (failed x) y = refl
  passed_on-header (panicked x) y = refl

  after_handler :
      (f : Error → Exchange → Exchange) (r : Request) (v : Verdict) (y : Exchange)
      → ErrorKeepsId f
      → y.header ≡ request_id r.header fresh
      → (passed_on v y).1.entries ≡ all_entries r v y
      → (z : Exchange) × (answered f (passed_on v y) ≡ some z)
        × (z.header ≡ request_id r.header fresh)
        × (z.entries ≡ all_entries r v y)
  after_handler f r fine y k h e = (_, refl, passed_on-header fine y ∙ h, e)
  after_handler f r (failed x) y k h e =
      let b = passed_on-header (failed x) y in (_, refl, (k x _).0 ∙ b ∙ h, (k x _).1 ∙ e)
  after_handler f r (panicked x) y k h e =
      let b = passed_on-header (panicked x) y in
      (_, refl, (k (as_error x) _).0 ∙ b ∙ h, (k (as_error x) _).1 ∙ e)

  -- Every request is answered, also when its handler panics. The answer carries the id of the request,
  -- given or fresh, and the log has one entry for the request, with this id and the status that the
  -- handler left, after one for the panic if there was one: if the handler and the error handler leave
  -- the id and the log alone.
  pub serve_request_answer :
      (h : Handler) (on_error : Error → Exchange → Exchange) (r : Request)
      → KeepsId h
      → ErrorKeepsId on_error
      → (z : Exchange) × (serve_request redact bytes stack as_error fresh start now h on_error r
          ≡ some z)
        × (z.header ≡ request_id r.header fresh)
        × (z.entries
            ≡ panic_entries r (h (prepared r)).0
              ++ record (entry_of r (h (prepared r)).1) {
                request_id = some (request_id r.header fresh);
              }
                ∷ [])
  unfolding serve_request with_middlewares request_id_middleware logger_middleware
      recovery_middleware
  serve_request_answer h on_error r k ke =
      let x = prepared r in
      let (v, y) = h x in
      after_handler on_error r v y ke (k x).1 (passed_on-entries r v y (k x).0 (k x).2 (k x).3)
