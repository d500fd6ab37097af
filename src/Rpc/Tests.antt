-- ===== src/Rpc/Tests.antt =====
-- Remote calls at concrete inputs.
use thiam_api.Rpc.Client.Remote.{default, Caller, Remote, remote_call, publishing}
use thiam_api.Rpc.Client.Remote.Replied.{served, rmq_round_trip}
use thiam_api.Exec.{err, Env, World, Outcome, done, refused, ok}
use thiam_api.Errors.{wrap, leaf}
use thiam_api.Base.{
  arith, ◌≢◌, ◌≤◌, ℕ, ◌==◌, ◌≡◌, refl, false, some, List, [], ◌∷◌, String, if◌then◌else◌,
}
use thiam_api.Rpc.Client.Race.{steps_lose_answer}
use thiam_api.Rpc.Client.{
  answered, step, Message, Event, publish, add, wake, give_up, serve, steps, new_client,
  nats_remote_call,
}
use thiam_api.Rpc.Connection.{MeansConnected, attempt_connect-MeansConnected, attempt_connect, Link}
use thiam_api.Base.Int.{pos}
use thiam_api.Rpc.{Delivery, Reply}
use thiam_api.Rpc.Server.{Broker, Answer, value, failed, CallHandler, route}
use thiam_api.Rpc.Client.Matching.{IsMatched, steps-IsMatched}
use thiam_api.Rpc.Client.RoundTrip.{nats_round_trip, transport}

abbrev env_with : (ℕ → Outcome) → Env
env_with outcome = record {
  outcome = outcome;
  now = λ n. n;
  violation = leaf 2 "never";
  fresh = λ n. n;
}

-- The first dial is refused.
abbrev flaky : ℕ → Outcome
flaky n = if n == 0 then refused (leaf 1 "dial tcp") else done

abbrev unlinked : World Link
unlinked = record {
  calls = 0;
  state = record { connection = false; channel = false; delivery = false };
}

attempt_connect-MeansConnected_example :
    ((attempt_connect (env_with flaky) (pos 2) unlinked).1.calls ≤ 12)
    × MeansConnected (pos 2) unlinked (attempt_connect (env_with flaky) (pos 2) unlinked)
attempt_connect-MeansConnected_example =
    attempt_connect-MeansConnected (env_with flaky) (pos 2) unlinked

-- Answers a body with itself; `odd` is a response that cannot be encoded.
abbrev marshal : List ℕ → Answer (List ℕ)
marshal [] = failed (leaf 3 "unsupported value")
marshal (b ∷ bs) = value (b ∷ bs)

abbrev router : List (String × CallHandler (List ℕ))
router = ("echo", λ d. value d.body) ∷ ("fail", λ d. failed (leaf 4 "no")) ∷ []

abbrev asked : String → List ℕ → Delivery
asked handler body = record {
  tag = 5;
  handler = handler;
  reply_to = "client";
  correlation_id = "c1";
  body = body;
}

abbrev broker : World Broker
broker = record { calls = 0; state = record { replies = []; acks = [] } }

abbrev answer : String → List ℕ → Reply
answer status body = record { to = "client"; correlation_id = "c1"; status = status; body = body }

abbrev pong : ℕ → Message
pong i = record { correlation_id = i; status = "success"; body = i ∷ [] }

-- Two calls, answered in the other order; the first one gives up.
abbrev events : List Event
events =
    publish 1
    ∷ publish 2
    ∷ add 2
    ∷ add 1
    ∷ serve (pong 2)
    ∷ give_up 1 (leaf 20 "timeout")
    ∷ wake 2
    ∷ serve (pong 1)
    ∷ []

steps-IsMatched_example : IsMatched (steps events new_client)
steps-IsMatched_example = steps-IsMatched events new_client (λ i. tt)

abbrev encode : List ℕ → Answer (List ℕ)
encode bs = value bs

nats_round_trip_example :
    nats_remote_call encode encode
      (transport (env_with (λ _. done)) encode encode encode router)
      "echo"
      (some (7 ∷ []))
    ≡ ok (some (7 ∷ []))
unfolding route
nats_round_trip_example =
    nats_round_trip (env_with (λ _. done)) encode encode encode router (λ _. refl)
      (λ v. (v, refl, refl)) "echo" (7 ∷ []) (7 ∷ []) refl

-- The answer comes before the call is in the table, and the caller times out.
steps_lose_answer_example :
    ((steps
        (serve (pong 1) ∷ add 1 ∷ give_up 1 (leaf 20 "timeout") ∷ [])
        (steps (publish 1 ∷ []) new_client)).calls
      1).place
    ≢ answered "success" (1 ∷ [])
unfolding steps step
steps_lose_answer_example =
    steps_lose_answer (pong 1) (add 1 ∷ give_up 1 (leaf 20 "timeout") ∷ [])
      (steps (publish 1 ∷ []) new_client) refl refl tt "success" (1 ∷ [])

abbrev unmarshal : List ℕ → Answer (List ℕ)
unmarshal [] = failed (leaf 5 "unexpected end of JSON input")
unmarshal (b ∷ bs) = value (b ∷ bs)

marshal_decodes : (v body : List ℕ) → marshal v ≡ value body → unmarshal body ≡ value v
marshal_decodes [] body h = absurd (ground (arith, h))
marshal_decodes (b ∷ bs) body h = ground (arith, h)

abbrev calm : Env
calm = env_with (λ n. done)

abbrev caller : Caller
caller = record {
  server_exchange = "rpc_server";
  consumer_exchange = "rpc_client";
  id_of = λ n. "c1";
  ready = default;
  woken = served calm marshal unmarshal router 5;
}

-- Another call is waiting.
abbrev unsent : World Remote
unsent = record { calls = 0; state = record { published = []; pending = "c0" ∷ [] } }

-- A response that cannot be encoded.
rmq_round_trip_example : remote_call calm caller encode unmarshal "echo" (some []) unsent ≡ (
  err (
      wrap "rmq_rpc client - Client - RemoteCall - json.Unmarshal: " ""
        (leaf 5 "unexpected end of JSON input")),
  record {
    calls = 1;
    state = record {
      published = publishing calm caller encode unmarshal "c1" "echo" [] ∷ [];
      pending = "c0" ∷ [];
    };
  },
)
unfolding route
rmq_round_trip_example =
    rmq_round_trip calm calm encode marshal unmarshal router (leaf 5 "unexpected end of JSON input")
      (λ n. refl) (λ n. refl) refl marshal_decodes caller 5 refl (λ ps. refl) "echo" [] [] unsent
      refl refl
