-- ===== src/Rpc/Client/Remote.antt =====
-- pkg/rabbitmq/rmq_rpc/client/client.go: `RemoteCall` and `publish`, as one caller sees them. Which
-- cases of their selects are taken is an argument.
pub mod Replied
use thiam_api.Base.{ℕ, Option, none, some, List, [], ◌∷◌, ◌++◌, String, str_eq, if◌then◌else◌}
use thiam_api.Errors.{Error, leaf, wrap}
use thiam_api.Rpc.{err_timeout}
use thiam_api.Exec.{Env, Exec, Result, ok, err, pure, fail, gets, ◌>>=◌, ◌>>◌, wrapping, call}
use thiam_api.Rpc.Server.{Answer, value, failed}
use thiam_api.Rpc.Client.{interpret}

-- What `publish` hands to the channel, `amqp.Publishing` with its exchange.
pub record Publishing : Type 0 where
  pub exchange : String
  pub content_type : String
  pub correlation_id : String
  pub reply_to : String
  pub type : String
  pub body : List ℕ

-- `ErrConnectionClosed`
abbrev pub connection_closed : Error
connection_closed = leaf 24 "rmq_rpc client - Client - RemoteCall - Connection closed"

-- Which case of the `select` in `preRemoteCallWait` is taken.
pub data Ready : Type 0 where
  ctx_done notified : Error → Ready
  stopped default : Ready

abbrev pub notify_error : Error → Error
notify_error e = wrap "rmq_rpc client - Client - RemoteCall - c.notify: " "" e

-- `preRemoteCallWait`
unfoldable pub pre_remote_call_wait : Ready → Option Error
pre_remote_call_wait (ctx_done e) = some e
pre_remote_call_wait (notified e) = some (notify_error e)
pre_remote_call_wait stopped = some connection_closed
pre_remote_call_wait default = none

-- Which case of the `select` in `remoteCallWait` is taken; with what the call holds then.
pub data Woken : Type 0 where
  by_ctx by_notify : Error → Woken
  by_stop by_timer : Woken
  by_call : String → List ℕ → Woken

-- `remoteCallWait`
unfoldable pub remote_call_wait : Woken → Answer (String × List ℕ)
remote_call_wait (by_ctx e) = failed e
remote_call_wait (by_notify e) = failed (notify_error e)
remote_call_wait by_stop = failed connection_closed
remote_call_wait by_timer = failed err_timeout
remote_call_wait (by_call status body) = value (status, body)

-- The exchanges of a client, the ids that `uuid.New().String()` gives by the number of calls, and the
-- cases of the two selects.
pub record Caller : Type 0 where
  pub server_exchange : String
  pub consumer_exchange : String
  pub id_of : ℕ → String
  pub ready : Ready
  pub woken : List Publishing → Woken

-- What the channel was handed, and the ids in `Client.calls`.
pub record Remote : Type 0 where
  pub published : List Publishing
  pub pending : List String

-- `addCall` and `deleteCall` on the keys of the map
unfoldable pub add_call : String → Remote → Remote
add_call corr_id s = record s { pending = corr_id ∷ s.pending }

abbrev pub without : String → List String → List String
without i [] = []
without i (j ∷ js) = if str_eq j i then without i js else j ∷ without i js

unfoldable pub delete_call : String → Remote → Remote
delete_call corr_id s = record s { pending = without corr_id s.pending }

module _ {Q V : Type 0} (env : Env) (caller : Caller) (marshal : Q → Answer (List ℕ))
    (unmarshal : List ℕ → Answer V) where
  abbrev pub publishing : String → String → List ℕ → Publishing
  publishing corr_id handler body = record {
    exchange = caller.server_exchange;
    content_type = "application/json";
    correlation_id = corr_id;
    reply_to = caller.consumer_exchange;
    type = handler;
    body = body;
  }

  abbrev pub publish_body : String → String → Answer (List ℕ) → Exec Remote (Unit {0})
  publish_body corr_id handler (value body) =
      wrapping "c.Channel.Publish: " (
        call env
          (λ s. record s { published = s.published ++ publishing corr_id handler body ∷ [] }))
  publish_body corr_id handler (failed e) = fail e

  -- The request's body. A nil request has none.
  abbrev pub body_of : Option Q → Answer (List ℕ)
  body_of none = value []
  body_of (some q) = marshal q

  -- `Client.publish`
  unfoldable pub publish_request : String → String → Option Q → Exec Remote (Unit {0})
  unfolding call
  publish_request corr_id handler request = publish_body corr_id handler (body_of request)

  abbrev pub unless : Option Error → Exec Remote (Unit {0})
  unless none = pure tt
  unless (some e) = fail e

  abbrev pub awaited : Answer (String × List ℕ) → Result (Option V)
  awaited (value (status, body)) =
      interpret unmarshal "rmq_rpc client - Client - RemoteCall - json.Unmarshal: " status body
  awaited (failed e) = err (wrap "rmq_rpc client - Client - RemoteCall - c.remoteCallWait: " "" e)

  -- The result, after the deferred `deleteCall`.
  abbrev pub returning : String → Result (Option V) → Exec Remote (Option V)
  returning corr_id r w = (r, record w { state = delete_call corr_id w.state })

  abbrev pub act : (Remote → Remote) → Exec Remote (Unit {0})
  act f w = (ok tt, record w { state = f w.state })

  -- `Client.RemoteCall`
  unfoldable pub remote_call : String → Option Q → Exec Remote (Option V)
  unfolding publish_request interpret pre_remote_call_wait remote_call_wait add_call delete_call
  remote_call handler request = do
    wrapping "rmq_rpc client - Client - RemoteCall - c.preWait: "
        (unless (pre_remote_call_wait caller.ready))
    corr_id ← gets (λ w. caller.id_of w.calls)
    wrapping "rmq_rpc client - Client - RemoteCall - c.publish: "
        (publish_request corr_id handler request)
    act (add_call corr_id)
    answer ← gets (λ w. remote_call_wait (caller.woken w.state.published))
    returning corr_id (awaited answer)
