-- ===== src/Rpc/Client/RoundTrip.antt =====
-- A call over NATS, from the client through the server and back.
use thiam_api.Rpc.Server.Replies.{encoded, handle_message_reply, due, answered}
use thiam_api.Base.{ap, sym, subst, refl, arith, ℕ, ◌≡◌, Option, none, some, List, [], ◌∷◌, String}
use thiam_api.Errors.{error_text}
use thiam_api.Exec.{Env, Result, ok, err}
use thiam_api.Exec.Faults.{NoFaults}
use thiam_api.Rpc.{Delivery, Reply, err_bad_handler, err_internal_server}
use thiam_api.Rpc.Server.{Answer, value, failed, CallHandler, route, handle_message}
use thiam_api.Rpc.Client.{decoded, nats_remote_call, interpret}

-- The status and the body of the first answer.
abbrev pub first_answer : List Reply → Answer (String × List ℕ)
first_answer [] = failed err_internal_server
first_answer (r ∷ rs) = value (r.status, r.body)

module _ {V : Type 0} where
  -- What a caller is due for the handler's outcome.
  abbrev pub due_result : Option (Answer V) → Result (Option V)
  due_result none = err err_bad_handler
  due_result (some (failed e)) = err err_internal_server
  due_result (some (value v)) = ok (some v)

  abbrev pub handled : Option (CallHandler V) → Delivery → Option (Answer V)
  handled none d = none
  handled (some handler) d = some (handler d)

module _ {Q V : Type 0} (env : Env) (marshal : Q → Answer (List ℕ)) (unmarshal : List ℕ → Answer V)
    (encode : V → Answer (List ℕ)) (router : List (String × CallHandler V)) where
  -- The message that asks for the call.
  abbrev pub request : String → List ℕ → Delivery
  request handler body = record {
    tag = 0;
    handler = handler;
    reply_to = "_INBOX";
    correlation_id = "";
    body = body;
  }

  -- The connection hands the request to the server, and its answer back.
  abbrev pub transport : String → List ℕ → Answer (String × List ℕ)
  transport handler body =
      first_answer
        (handle_message env encode router (request handler body)
          (record { calls = 0; state = record { replies = []; acks = [] } })).1.state.replies

  -- What is due is read as the handler's outcome.
  abbrev before : String
  before = "nats_rpc client - Client - RemoteCall - json.Unmarshal: "

  interpret-answered :
      ((v : V) → (body : List ℕ) × (encode v ≡ value body) × (unmarshal body ≡ value v))
      → (a : Answer V)
      → interpret unmarshal before (answered encode a).0 (answered encode a).1 ≡ due_result (some a)
  unfolding interpret error_text
  interpret-answered codec (value v) =
      subst (λ a. interpret unmarshal before (encoded a).0 (encoded a).1 ≡ ok (some v))
        (sym (codec v).1) (ap (decoded unmarshal before) (codec v).2)
  interpret-answered codec (failed e) = refl

  interpret-due :
      ((v : V) → (body : List ℕ) × (encode v ≡ value body) × (unmarshal body ≡ value v))
      → (d : Delivery) (o : Option (CallHandler V))
      → interpret unmarshal before (due encode d o).0 (due encode d o).1 ≡ due_result (handled o d)
  unfolding interpret error_text
  interpret-due codec d none = refl
  interpret-due codec d (some handler) = interpret-answered codec (handler d)

  -- If what the server encodes can be decoded to the same value by the client, then, without faults, a
  -- remote call returns exactly what the handler with its name returned for the request's body: its
  -- value; an internal error if it failed; and that there is no such handler if there is none.
  pub nats_round_trip :
      NoFaults env
      → ((v : V) → (body : List ℕ) × (encode v ≡ value body) × (unmarshal body ≡ value v))
      → (handler : String) (q : Q) (body : List ℕ) → marshal q ≡ value body
      → nats_remote_call marshal unmarshal transport handler (some q)
        ≡ due_result (handled (route handler router) (request handler body))
  unfolding nats_remote_call
  nats_round_trip faultless codec handler q body m = ground (
    arith,
    m,
    handle_message_reply encode env router (request handler body)
        (record { calls = 0; state = record { replies = []; acks = [] } }) faultless,
    interpret-due codec (request handler body) (route handler router),
  )
