-- ===== src/Http/Pipeline/Tests.antt =====
-- Requests at concrete inputs.
use thiam_api.Http.Pipeline.Unrouted.{serve_request_unrouted}
use thiam_api.Http.Pipeline.{
  info, new_router, log_fields, Request, Exchange, Handler, panicked, serve_request, RouterConfig,
  Libraries, fine,
}
use thiam_api.Http.{request_id}
use thiam_api.Http.Pipeline.Served.{prepared, panic_entries, entry_of, serve_request_answer}
use thiam_api.Base.{◌++◌, ◌≡◌, refl, true, false, none, some, List, [], ◌∷◌, String}
use thiam_api.Errors.{Error, leaf}
use thiam_api.Logger.Redact.{Bytes, Value}

abbrev as_is : List (String × Value) → List (String × Value)
as_is fs = fs

abbrev one_byte : String → Bytes
one_byte s = 63 ∷ []

abbrev trace : Bytes → Bytes
trace err = err

abbrev crash_error : Bytes → Error
crash_error err = leaf 50 "runtime error"

abbrev request : Request
request = record {
  method = "GET";
  path = "/missing";
  original_url = "/missing";
  ip = "10.0.0.1";
  user_agent = "curl";
  header = "abc";
}

-- What fiber does with an error that is not its own.
abbrev answer_500 : Error → Exchange → Exchange
answer_500 e x = record x { status = 500; body = 101 ∷ [] }

abbrev crashing : Handler
crashing x = (panicked (33 ∷ []), x)

abbrev reached : Exchange
reached = prepared as_is one_byte trace crash_error "f1" 0 5 request

serve_request_answer_example :
    (z : Exchange) × (serve_request as_is one_byte trace crash_error "f1" 0 5 crashing answer_500
        request
      ≡ some z)
    × (z.header ≡ "abc")
    × (z.entries
        ≡ panic_entries as_is one_byte trace crash_error "f1" 0 5 request (panicked (33 ∷ []))
          ++ record (entry_of as_is one_byte trace crash_error "f1" 0 5 request reached) {
            request_id = some "abc";
          }
            ∷ [])
unfolding request_id
serve_request_answer_example =
    serve_request_answer as_is one_byte trace crash_error "f1" 0 5 crashing answer_500 request
      (λ x. (refl, refl, refl, refl)) (λ e x. (refl, refl))

abbrev no_pages : Handler
no_pages x = (fine, x)

abbrev libraries : Libraries
libraries = record {
  matches = λ pattern r. false;
  prometheus = λ h. h;
  metrics = no_pages;
  swagger = no_pages;
  missing = λ r. leaf 51 "Cannot GET /missing";
  ping = none;
  version = none;
  encode = λ r. [];
  ok_text = 79 ∷ 75 ∷ [];
}

abbrev config : RouterConfig
config = record { metrics_enabled = false; swagger_enabled = true }

-- Answered with 500, and logged as completed with 200.
serve_request_unrouted_example :
    serve_request as_is one_byte trace crash_error "f1" 0 5
      (new_router libraries config)
      answer_500
      request
    ≡ some (record reached {
      status = 500;
      body = 101 ∷ [];
      entries =
          record {
            severity = info;
            request_id = some "abc";
            fields = log_fields as_is one_byte trace crash_error 0 5 reached;
            message = 63 ∷ [];
          }
          ∷ [];
    })
unfolding request_id
serve_request_unrouted_example =
    serve_request_unrouted as_is one_byte trace crash_error "f1" 0 5 libraries config answer_500
      request refl (λ pattern. refl)
