-- ===== src/Rpc/Server.antt =====
-- pkg/rabbitmq/rmq_rpc/server/server.go and pkg/nats/nats_rpc/server/server.go: serving one call.
pub mod Replies
use thiam_api.Base.{ℕ, Option, none, some, List, [], ◌∷◌, ◌++◌, String, if◌then◌else◌, str_eq}
use thiam_api.Errors.{Error, error_text}
use thiam_api.Exec.{Env, Exec, ◌>>=◌, ◌>>◌, ignoring, call}
use thiam_api.Rpc.{Delivery, Reply, err_bad_handler, err_internal_server, success}

-- What the broker got: the answers, and the tags of the messages that were acknowledged.
pub record Broker : Type 0 where
  pub replies : List Reply
  pub acks : List ℕ

-- `(interface{}, error)` of a handler or of `json.Marshal`: a value, or an error.
pub data Answer (A : Type 0) : Type 0 where
  value : A → Answer A
  failed : Error → Answer A

-- A handler, for responses of type `V`.
abbrev pub CallHandler : Type 0 → Type 0
CallHandler V = Delivery → Answer V

-- `s.router[d.Type]`
unfoldable pub route :
    {V : Type 0} → String → List (String × CallHandler V) → Option (CallHandler V)
route h [] = none
route h ((name, f) ∷ router) = if str_eq name h then some f else route h router

-- `marshal` is `json.Marshal` on the responses.
module _ {V : Type 0} (env : Env) (marshal : V → Answer (List ℕ)) where
  -- `Server.publish`, whose error is logged.
  unfoldable pub reply : Delivery → List ℕ → String → Exec Broker (Unit {0})
  unfolding call
  reply d body status = ignoring (
      call env (λ b. record b {
        replies =
            b.replies
            ++ record {
              to = d.reply_to;
              correlation_id = d.correlation_id;
              status = status;
              body = body;
            }
              ∷ [];
      }))

  -- `Server.ack`, whose error is logged.
  unfoldable pub ack : Delivery → Exec Broker (Unit {0})
  unfolding call
  ack d = ignoring (call env (λ b. record b { acks = b.acks ++ d.tag ∷ [] }))

  -- RabbitMQ: where `json.Marshal` fails, `body` is nil and the call goes on.
  abbrev pub rmq_marshalled : Delivery → Answer (List ℕ) → Exec Broker (Unit {0})
  rmq_marshalled d (value body) = reply d body success
  rmq_marshalled d (failed e) = reply d [] success

  abbrev pub rmq_answered : Delivery → Answer V → Exec Broker (Unit {0})
  rmq_answered d (value response) = rmq_marshalled d (marshal response)
  rmq_answered d (failed e) = reply d [] (error_text err_internal_server)

  abbrev pub rmq_routed : Delivery → Option (CallHandler V) → Exec Broker (Unit {0})
  rmq_routed d none = reply d [] (error_text err_bad_handler)
  rmq_routed d (some handler) = rmq_answered d (handler d)

  -- `Server.serveCall` of RabbitMQ. The acknowledgement is deferred.
  unfoldable pub serve_call : List (String × CallHandler V) → Delivery → Exec Broker (Unit {0})
  unfolding reply ack route error_text
  serve_call router d = do rmq_routed d (route d.handler router); ack d

  -- `Server.publish` of NATS, whose error is logged. The reply subject names the call, so that there
  -- is no correlation id.
  unfoldable pub nats_respond : Delivery → List ℕ → String → Exec Broker (Unit {0})
  unfolding call
  nats_respond msg body status = ignoring (
      call env (λ b. record b {
        replies =
            b.replies
            ++ record { to = msg.reply_to; correlation_id = ""; status = status; body = body } ∷ [];
      }))

  abbrev pub nats_marshalled : Delivery → Answer (List ℕ) → Exec Broker (Unit {0})
  nats_marshalled d (value body) = nats_respond d body success
  nats_marshalled d (failed e) = nats_respond d [] (error_text err_internal_server)

  abbrev pub nats_answered : Delivery → Answer V → Exec Broker (Unit {0})
  nats_answered d (value response) = nats_marshalled d (marshal response)
  nats_answered d (failed e) = nats_respond d [] (error_text err_internal_server)

  abbrev pub nats_routed : Delivery → Option (CallHandler V) → Exec Broker (Unit {0})
  nats_routed d none = nats_respond d [] (error_text err_bad_handler)
  nats_routed d (some handler) = nats_answered d (handler d)

  -- `Server.handleMessage` of NATS, which has no acknowledgement.
  unfoldable pub handle_message : List (String × CallHandler V) → Delivery → Exec Broker (Unit {0})
  unfolding nats_respond route error_text
  handle_message router d = nats_routed d (route d.handler router)
