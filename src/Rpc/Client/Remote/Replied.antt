-- ===== src/Rpc/Client/Remote/Replied.antt =====
-- A call over RabbitMQ, from the client through the server and back.
use thiam_api.Rpc.Client.Remote.{
  Woken, by_timer, by_call, default, pre_remote_call_wait, remote_call_wait, publishing, Caller,
  publish_request, remote_call, Publishing, Remote, without, add_call, delete_call,
}
use thiam_api.Exec.Faults.{NoFaults}
use thiam_api.Exec.{World, call, err, ok, Result, Env}
use thiam_api.Rpc.Client.RoundTrip.{handled, due_result}
use thiam_api.Rpc.Client.{decoded, interpret}
use thiam_api.Errors.{wrap, error_text, Error}
use thiam_api.Base.{
  none, ◌∙◌, ◌+◌, eq_iff, some, refl, ap, ◌≡◌, Option, ℕ, ◌&&◌, List, [], ◌∷◌, String, str_eq,
  if◌then◌else◌,
}
use thiam_api.Rpc.{Delivery, Reply}
use thiam_api.Rpc.Server.{route, serve_call, CallHandler, Answer, value, failed}
use thiam_api.Rpc.Server.Replies.{
  serve_call_reply, answered, due, is_response_unencodable, encoded, fails, is_unencodable,
  reply_to,
}

-- The broker hands a message to the server under a tag.
abbrev pub delivery_of : ℕ → Publishing → Delivery
delivery_of tag p = record {
  tag = tag;
  handler = p.type;
  reply_to = p.reply_to;
  correlation_id = p.correlation_id;
  body = p.body;
}

-- The first answer that goes to this exchange with this correlation id; without one, the call times out.
abbrev pub answer_to : Delivery → List Reply → Woken
answer_to d [] = by_timer
answer_to d (r ∷ rs) =
    if str_eq r.to d.reply_to && str_eq r.correlation_id d.correlation_id
    then by_call r.status r.body
    else answer_to d rs

abbrev text : String
text = "rmq_rpc client - Client - RemoteCall - json.Unmarshal: "

module _ {V : Type 0} (server : Env) (encode : V → Answer (List ℕ)) (unmarshal : List ℕ → Answer V)
    (router : List (String × CallHandler V)) where
  -- The server serves the message that was published, and the broker brings back its answer.
  abbrev pub served : ℕ → List Publishing → Woken
  served tag [] = by_timer
  served tag (p ∷ ps) =
      answer_to (delivery_of tag p)
        (serve_call server encode router (delivery_of tag p)
          (record { calls = 0; state = record { replies = []; acks = [] } })).1.state.replies

  -- The result for a handler's outcome, where an empty body cannot be decoded: `x`.
  abbrev pub replied : Error → Delivery → Option (CallHandler V) → Result (Option V)
  replied x d o =
      if is_unencodable encode d o then err (wrap text "" x) else due_result (handled o d)

  abbrev read : String × List ℕ → Result (Option V)
  read (status, body) = interpret unmarshal text status body

  read-encoded :
      (x : Error) (v : V) (a : Answer (List ℕ))
      → unmarshal [] ≡ failed x
      → ((body : List ℕ) → a ≡ value body → unmarshal body ≡ value v)
      → read (if fails encode a then ("success", []) else encoded a)
        ≡ (if fails encode a then err (wrap text "" x) else ok (some v))
  unfolding interpret error_text
  read-encoded x v (value body) e h = ap (decoded unmarshal text) (h body refl)
  read-encoded x v (failed y) e h = ap (decoded unmarshal text) e

  read-answered :
      (x : Error) (a : Answer V)
      → unmarshal [] ≡ failed x
      → ((v : V) (body : List ℕ) → encode v ≡ value body → unmarshal body ≡ value v)
      → read (if is_response_unencodable encode a then ("success", []) else answered encode a)
        ≡ (if is_response_unencodable encode a then err (wrap text "" x) else due_result (some a))
  unfolding interpret error_text
  read-answered x (value v) e h = read-encoded x v (encode v) e (h v)
  read-answered x (failed y) e h = refl

  read-due :
      (x : Error) (d : Delivery) (o : Option (CallHandler V))
      → unmarshal [] ≡ failed x
      → ((v : V) (body : List ℕ) → encode v ≡ value body → unmarshal body ≡ value v)
      → read (if is_unencodable encode d o then ("success", []) else due encode d o) ≡ replied x d o
  unfolding interpret error_text
  read-due x d none e h = refl
  read-due x d (some handler) e h = read-answered x (handler d) e h

  answer_to_lem :
      (d : Delivery) (a : String × List ℕ)
      → answer_to d (reply_to encode d a ∷ []) ≡ by_call a.0 a.1
  answer_to_lem d (status, body) =
      rw ((eq_iff d.reply_to d.reply_to).1 refl, (eq_iff d.correlation_id d.correlation_id).1 refl)

  -- What the call is answered with.
  abbrev due_answer : Delivery → String × List ℕ
  due_answer d =
      if is_unencodable encode d (route d.handler router)
      then ("success", [])
      else due encode d (route d.handler router)

  served_lem :
      (tag : ℕ) (p : Publishing)
      → NoFaults server
      → served tag (p ∷ [])
        ≡ by_call (due_answer (delivery_of tag p)).0 (due_answer (delivery_of tag p)).1
  served_lem tag p faultless =
      let d = delivery_of tag p in
      ap (λ b. answer_to d b.replies)
        (serve_call_reply encode server router d
          (record { calls = 0; state = record { replies = []; acks = [] } }) faultless)
      ∙ answer_to_lem d _

module _ {Q V : Type 0} (client : Env) (server : Env) (marshal : Q → Answer (List ℕ))
    (encode : V → Answer (List ℕ)) (unmarshal : List ℕ → Answer V)
    (router : List (String × CallHandler V)) where
  -- A call over RabbitMQ, without faults, of a client that has no error to report before, and where the
  -- wait ends with the answer of the server that serves the request (and not with a stop, a time-out,
  -- or an answer that was lost since it came before the call was in the table): the request
  -- is published once, to the exchange of the server, and the caller gets what the handler with its
  -- name returned for the request's body: its value; an internal error if it failed; that there is
  -- no such handler if there is none. A value that the server cannot encode comes back as the
  -- client's failure to decode an empty body. The table of pending calls has no entry for the id then, and those that
  -- it had for others. What is encoded is decoded to the same value.
  pub rmq_round_trip :
      (x : Error)
      → NoFaults client
      → NoFaults server
      → unmarshal [] ≡ failed x
      → ((v : V) (body : List ℕ) → encode v ≡ value body → unmarshal body ≡ value v)
      → (caller : Caller) (tag : ℕ) → caller.ready ≡ default
      → ((ps : List Publishing) → caller.woken ps ≡ served server encode unmarshal router tag ps)
      → (handler : String) (q : Q) (body : List ℕ) (w : World Remote) → w.state.published ≡ []
      → marshal q ≡ value body
      → let p = publishing client caller marshal unmarshal (caller.id_of w.calls) handler body in
        let d = delivery_of tag p in
        remote_call client caller marshal unmarshal handler (some q) w ≡ (
          replied server encode unmarshal router x d (route handler router),
          record {
            calls = w.calls + 1;
            state = record {
              published = p ∷ [];
              pending = without (caller.id_of w.calls) w.state.pending;
            };
          },
        )
  unfolding remote_call publish_request pre_remote_call_wait remote_call_wait add_call delete_call
      call
  rmq_round_trip x fc fs e h caller tag pre wait handler q body w s m =
      let p = publishing client caller marshal unmarshal (caller.id_of w.calls) handler body in
      rw (
        pre,
        m,
        fc w.calls,
        s,
        (eq_iff (caller.id_of w.calls) (caller.id_of w.calls)).1 refl,
        wait (p ∷ []),
        served_lem server encode unmarshal router tag p fs,
        read-due server encode unmarshal router x (delivery_of tag p) (route handler router) e h,
      )
