-- ===== src/Rpc/Server/Replies.antt =====
-- Which answer a call gets.
use thiam_api.Base.{
  if◌then◌else◌, length-append, ◌≤◌, length, ◌+◌, arith, true, false, Bool, ℕ, ◌≡◌, Option, none,
  some, List, [], ◌∷◌, ◌++◌, String,
}
use thiam_api.Errors.{error_text}
use thiam_api.Exec.{Result, ok, Env, World, call}
use thiam_api.Exec.Faults.{NoFaults}
use thiam_api.Rpc.{err_bad_handler, err_internal_server, success, Delivery, Reply}
use thiam_api.Rpc.Server.{
  rmq_marshalled, rmq_answered, rmq_routed, ack, serve_call, Broker, Answer, value, failed,
  CallHandler, route, reply, nats_respond, handle_message,
}

-- An answer that was encoded, or could not be.
abbrev pub encoded : Answer (List ℕ) → String × List ℕ
encoded (value body) = ("success", body)
encoded (failed e) = ("internal server error", [])

module _ {V : Type 0} (marshal : V → Answer (List ℕ)) where
  abbrev pub answered : Answer V → String × List ℕ
  answered (value response) = encoded (marshal response)
  answered (failed e) = ("internal server error", [])

  -- The status and the body that a call is due.
  abbrev pub due : Delivery → Option (CallHandler V) → String × List ℕ
  due d none = ("unregistered handler", [])
  due d (some handler) = answered (handler d)

  abbrev pub fails : {A : Type 0} → Answer A → Bool
  fails (value a) = false
  fails (failed e) = true

  abbrev pub is_response_unencodable : Answer V → Bool
  is_response_unencodable (value response) = fails (marshal response)
  is_response_unencodable (failed e) = false

  -- A handler whose response cannot be encoded.
  abbrev pub is_unencodable : Delivery → Option (CallHandler V) → Bool
  is_unencodable d none = false
  is_unencodable d (some handler) = is_response_unencodable (handler d)

  abbrev pub reply_to : Delivery → String × List ℕ → Reply
  reply_to d (status, body) = record {
    to = d.reply_to;
    correlation_id = d.correlation_id;
    status = status;
    body = body;
  }

  -- Over NATS there is no correlation id.
  abbrev pub response_to : Delivery → String × List ℕ → Reply
  response_to d answer = record (reply_to d answer) { correlation_id = "" }

  module _ (env : Env) (d : Delivery) (w : World Broker) where
    -- One call, after which there is at most one answer more.
    abbrev Once : Result (Unit {0}) × World Broker → Type 0
    Once (r, v) =
        (r ≡ ok tt)
        × (v.calls ≡ w.calls + 1)
        × (length v.state.replies ≤ length w.state.replies + 1)
        × (v.state.acks ≡ w.state.acks)

    reply-Once : (body : List ℕ) (status : String) → Once (reply env marshal d body status w)
    unfolding reply call
    reply-Once body status =
        ground (arith, length-append w.state.replies (reply_to d (status, body) ∷ []))

    marshalled-Once : (a : Answer (List ℕ)) → Once (rmq_marshalled env marshal d a w)
    marshalled-Once (value body) = reply-Once body success
    marshalled-Once (failed e) = reply-Once [] success

    answered-Once : (a : Answer V) → Once (rmq_answered env marshal d a w)
    answered-Once (value response) = marshalled-Once (marshal response)
    answered-Once (failed e) = reply-Once [] (error_text err_internal_server)

    routed-Once : (o : Option (CallHandler V)) → Once (rmq_routed env marshal d o w)
    routed-Once none = reply-Once [] (error_text err_bad_handler)
    routed-Once (some handler) = answered-Once (handler d)

  module _ (env : Env) (router : List (String × CallHandler V)) (d : Delivery)
      (w : World Broker) where
    -- A call over NATS gets exactly one answer, without faults: the encoded response of the handler
    -- that its name is registered for, with status success; or, without a body, that there is no
    -- such handler, or an internal error if the handler or the encoding failed.
    pub handle_message_reply :
        NoFaults env
        → (handle_message env marshal router d w).1.state ≡ record w.state {
          replies = w.state.replies ++ response_to d (due d (route d.handler router)) ∷ [];
        }
    unfolding handle_message nats_respond call error_text
    handle_message_reply faultless = ground (arith, faultless w.calls)

    -- Without faults, a call over RabbitMQ gets exactly one answer, which goes to where the
    -- message says and carries its correlation id, and the message is acknowledged once. The
    -- answer has the encoded response of the registered handler with status success; or, without a
    -- body, says that there is no such handler or that it failed. Where the response cannot be
    -- encoded the answer is success without a body.
    pub serve_call_reply :
        NoFaults env
        → (serve_call env marshal router d w).1.state ≡ record {
          replies =
              w.state.replies
              ++ reply_to d (
                  if is_unencodable d (route d.handler router)
                  then ("success", [])
                  else due d (route d.handler router))
                ∷ [];
          acks = w.state.acks ++ d.tag ∷ [];
        }
    unfolding serve_call reply ack call error_text
    serve_call_reply faultless = ground (arith, faultless w.calls, faultless (w.calls + 1))

    -- Serving a call reports no error and, whatever calls fail, adds at most one answer and at most
    -- one acknowledgement, and makes both attempts.
    serve_call_once :
        ((serve_call env marshal router d w).0 ≡ ok tt)
        × ((serve_call env marshal router d w).1.calls ≡ w.calls + 2)
        × (length (serve_call env marshal router d w).1.state.replies ≤ length w.state.replies + 1)
        × (length (serve_call env marshal router d w).1.state.acks ≤ length w.state.acks + 1)
    unfolding serve_call reply ack call
    serve_call_once = ground (
      arith,
      routed-Once env d w (route d.handler router),
      length-append w.state.acks (d.tag ∷ []),
    )
