-- ===== src/Http/Responses.antt =====
-- What clients see of an error, and how requests are logged.
use thiam_api.Base.{
  sym, subst, ◌≤◌, ◌<◌, ◌≡◌, refl, Bool, true, false, Option, none, some, String, if◌then◌else◌,
  eq_iff, arith, ◌≢◌,
}
use thiam_api.Errors.{Kind, Head, Error, unknown, internal, external, timeout, errors_as}
use thiam_api.AppError.{kind_of, AppError, as_app_error, get_kind, found}
use thiam_api.AppError.Chain.{get_kind_lem, heads, front, head_of, errors_as-heads}
use thiam_api.Http.{
  respond, error_response, kind_to_http_status, log_level, level_error, level_warn, request_id,
  get_request_id,
}

respond-found :
    (o p : Option (Head × Error)) → head_of o ≡ head_of p → respond (found o) ≡ respond (found p)
respond-found none none h = refl
respond-found none (some (k, d)) h = ground arith
respond-found (some (k, d)) none h = ground arith
respond-found (some (k, d)) (some (j, e)) h = ground arith

-- Two errors whose trees have the same first application error, or none, get the same answer: the
-- texts of wraps, the causes behind an application error, and whatever else an error that is not
-- an application error says, do not reach the client.
pub error_response_hides :
    (d e : Error) → front (heads d) ≡ front (heads e) → error_response d ≡ error_response e
unfolding error_response as_app_error
error_response_hides d e h =
    respond-found (errors_as d) (errors_as e) (ground (arith, errors_as-heads d, errors_as-heads e))

-- The kinds for which the server is to blame.
abbrev pub is_server_kind : Kind → Bool
is_server_kind unknown = true
is_server_kind internal = true
is_server_kind external = true
is_server_kind timeout = true
is_server_kind _ = false

level_of :
    (o : Option AppError)
    → (400 ≤ (respond o).status)
      × ((respond o).status < 600)
      × (log_level (respond o).status
          ≡ (if is_server_kind (kind_of o) then level_error else level_warn))
unfolding log_level kind_to_http_status
level_of none = ground arith
level_of (some a) = ground arith

-- Every error is answered with a status from 400 to 599, and the request is logged as a warning or
-- as an error: as an error exactly if the kind is unknown, internal, external or timeout.
error_response_level :
    (e : Error)
    → (400 ≤ (error_response e).status)
      × ((error_response e).status < 600)
      × (log_level (error_response e).status
          ≡ (if is_server_kind (get_kind e) then level_error else level_warn))
unfolding error_response get_kind as_app_error log_level kind_to_http_status
error_response_level e =
    let p = level_of (as_app_error e) in
    (
      p.0,
      p.1,
      subst
          (λ k.
            log_level (error_response e).status
            ≡ (if is_server_kind k then level_error else level_warn))
          (sym (get_kind_lem e)) p.2,
    )

-- A request keeps its id: the id is never empty if fresh ones are not, a client that sends an
-- answer's id again gets the same one, and the handlers read the id that the client gets.
request_id_kept :
    (header fresh other : String)
    → fresh ≢ ""
    → (request_id header fresh ≢ "")
      × (request_id (request_id header fresh) other ≡ request_id header fresh)
      × (header ≢ "" → get_request_id (some (request_id header fresh)) ≡ header)
unfolding request_id get_request_id
request_id_kept header fresh other n =
    ground (arith, eq_iff header "", eq_iff fresh "", eq_iff (request_id header fresh) "")
