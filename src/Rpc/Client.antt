-- ===== src/Rpc/Client.antt =====
-- pkg/rabbitmq/rmq_rpc/client/client.go and pkg/nats/nats_rpc/client/client.go. The callers of
-- `RemoteCall` and the goroutine that serves deliveries interleave, one event at a time, each
-- event between two accesses of the table of pending calls.
pub mod Matching
pub mod Crashes
pub mod RoundTrip
pub mod Race
pub mod Remote
use thiam_api.Base.{
  ℕ, ◌==◌, Bool, true, false, ◌||◌, Option, none, some, List, [], ◌∷◌, String, if◌then◌else◌,
  str_eq,
}
use thiam_api.Errors.{Error, wrap, error_text, errors_is}
use thiam_api.Exec.{Result, ok, err}
use thiam_api.Rpc.{err_timeout, err_bad_handler, err_internal_server, success}
use thiam_api.Rpc.Server.{Answer, value, failed}

-- A delivery to the client. A correlation id is a number.
pub record Message : Type 0 where
  pub correlation_id : ℕ
  pub status : String
  pub body : List ℕ

-- `pendingCall`. `is_done` says whether its channel is closed.
pub record PendingCall : Type 0 where
  pub is_done : Bool
  pub status : String
  pub body : List ℕ

-- Where the caller with an id stands in `RemoteCall`.
pub data Place : Type 0 where
  idle published waiting : Place
  answered : String → List ℕ → Place
  given_up : Error → Place

-- The caller of an id, and the entry of `Client.calls` under the id.
pub record Call : Type 0 where
  pub place : Place
  pub entry : Option PendingCall

-- `Client`, with what it was delivered; `is_crashed` after a panic.
pub record Client : Type 0 where
  pub calls : ℕ → Call
  pub delivered : List Message
  pub is_crashed : Bool

-- What happens next: the request of an id is published, or cannot be; `addCall`; the delivery of a
-- message; the caller finds its channel closed, or one of the other cases of the wait is ready.
pub data Event : Type 0 where
  publish add wake : ℕ → Event
  give_up : ℕ → Error → Event
  serve : Message → Event

-- `c.publish` returned.
abbrev pub act_publish : Place → Option PendingCall → Call
act_publish idle entry = record { place = published; entry = entry }
act_publish place entry = record { place = place; entry = entry }

-- `c.addCall(corrID, &pendingCall{…})`
abbrev pub act_add : Place → Option PendingCall → Call
act_add published entry = record {
  place = waiting;
  entry = some (record { is_done = false; status = ""; body = [] });
}
act_add place entry = record { place = place; entry = entry }

-- `case <-call.done`, and the deferred `deleteCall`.
abbrev pub woken : Bool → PendingCall → Call
woken true p = record { place = answered p.status p.body; entry = none }
woken false p = record { place = waiting; entry = some p }

abbrev pub act_wake : Place → Option PendingCall → Call
act_wake waiting (some p) = woken p.is_done p
act_wake place entry = record { place = place; entry = entry }

-- Before the call is added a failed publish ends it, and after that the other cases of the wait; the
-- deferred `deleteCall` removes the entry.
abbrev pub act_give_up : Error → Place → Option PendingCall → Call
act_give_up e idle entry = record { place = given_up e; entry = entry }
act_give_up e waiting entry = record { place = given_up e; entry = none }
act_give_up e place entry = record { place = place; entry = entry }

-- `Client.serveCall`: nothing without an entry; else the entry takes the answer, and its channel is
-- closed, which panics where it is closed already.
abbrev pub act_serve : Message → Option PendingCall → Option PendingCall
act_serve m none = none
act_serve m (some p) = some (record { is_done = true; status = m.status; body = m.body })

abbrev pub closes_twice : Option PendingCall → Bool
closes_twice none = false
closes_twice (some p) = p.is_done

abbrev pub set : ℕ → Call → (ℕ → Call) → ℕ → Call
set i c calls j = if j == i then c else calls j

abbrev pub update : ℕ → (Place → Option PendingCall → Call) → Client → Client
update i act c = record c { calls = set i (act (c.calls i).place (c.calls i).entry) c.calls }

unfoldable pub step : Event → Client → Client
step (publish i) c = update i act_publish c
step (add i) c = update i act_add c
step (wake i) c = update i act_wake c
step (give_up i e) c = update i (act_give_up e) c
step (serve m) c =
    let i = m.correlation_id in
    record {
      calls =
          set i (record { place = (c.calls i).place; entry = act_serve m (c.calls i).entry })
            c.calls;
      delivered = m ∷ c.delivered;
      is_crashed = c.is_crashed || closes_twice (c.calls i).entry;
    }

unfoldable pub steps : List Event → Client → Client
unfolding step
steps [] c = c
steps (e ∷ es) c = steps es (step e c)

-- `New`: no calls.
abbrev pub new_client : Client
new_client = record {
  calls = λ _. record { place = idle; entry = none };
  delivered = [];
  is_crashed = false;
}

-- `unmarshal` is `json.Unmarshal` into the response, which stays unset where it is not reached.
module _ {V : Type 0} (unmarshal : List ℕ → Answer V) (before : String) where
  abbrev pub decoded : Answer V → Result (Option V)
  decoded (value v) = ok (some v)
  decoded (failed e) = err (wrap before "" e)

  -- The `switch` on the status of an answer, at the end of `RemoteCall` of both clients.
  unfoldable pub interpret : String → List ℕ → Result (Option V)
  unfolding error_text
  interpret status body =
      if str_eq status success
      then decoded (unmarshal body)
      else if str_eq status (error_text err_bad_handler)
      then err err_bad_handler
      else if str_eq status (error_text err_internal_server)
      then err err_internal_server
      else ok none

-- `context.DeadlineExceeded`
abbrev pub deadline_exceeded : ℕ
deadline_exceeded = 30

module _ {Q V : Type 0} (marshal : Q → Answer (List ℕ)) (unmarshal : List ℕ → Answer V)
    (request_msg : String → List ℕ → Answer (String × List ℕ)) where
  -- The request's body. A nil request has none.
  abbrev pub request_body : Option Q → Answer (List ℕ)
  request_body none = value []
  request_body (some q) = marshal q

  abbrev pub responded : Answer (String × List ℕ) → Result (Option V)
  responded (value (status, body)) =
      interpret unmarshal "nats_rpc client - Client - RemoteCall - json.Unmarshal: " status body
  responded (failed e) =
      if errors_is e deadline_exceeded
      then err err_timeout
      else err (wrap "nats_rpc client - Client - RemoteCall - c.connection.Conn.Request: " "" e)

  abbrev pub requested : String → Answer (List ℕ) → Result (Option V)
  requested handler (value body) = responded (request_msg handler body)
  requested handler (failed e) = err e

  -- `Client.RemoteCall` of NATS. `request_msg` is the connection's `RequestMsg`.
  unfoldable pub nats_remote_call : String → Option Q → Result (Option V)
  unfolding interpret errors_is
  nats_remote_call handler request = requested handler (request_body request)
