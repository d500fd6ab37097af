-- ===== src/Outbox/Worker.antt =====
-- pkg/eventbus/worker.go and the publisher of pkg/eventbus/rabbitmq.go. Log lines are not part of
-- the state. The poll interval says when a tick comes, but for one that the ticker refuses.
pub mod Delivery
pub mod Frame
pub mod Starvation
pub mod Progress
pub mod Drain
pub mod Effects
pub mod Retries
pub mod Raised
use thiam_api.Base.{ℕ, Bool, true, Option, none, some, List, [], ◌∷◌, ◌++◌, String, if◌then◌else◌}
use thiam_api.Base.Int.{ltb_ℤ, ℤ, pos, leb_ℤ}
use thiam_api.Errors.{Error}
use thiam_api.Exec.{
  Env, Exec, World, Result, ok, err, panics, pure, gets, ◌>>=◌, ◌>>◌, wrapping, try, ignoring, call,
}
use thiam_api.Event.{OutboxEvent}
use thiam_api.Outbox.{Message, Outbox, fetch_unpublished, mark_published, mark_failed}

-- The settings of `Worker`; durations are in nanoseconds.
pub record Worker : Type 0 where
  pub poll_interval : ℤ
  pub batch_size : ℤ
  pub max_retries : ℤ

pub data WorkerOption : Type 0 where
  with_poll_interval with_batch_size with_max_retries : ℤ → WorkerOption

unfoldable pub set_option : WorkerOption → Worker → Worker
set_option (with_poll_interval d) w = record w { poll_interval = d }
set_option (with_batch_size n) w = record w { batch_size = n }
set_option (with_max_retries n) w = record w { max_retries = n }

abbrev pub default_worker : Worker
default_worker = record {
  poll_interval = pos 1000000000;
  batch_size = pos 100;
  max_retries = pos 5;
}

set_options : List WorkerOption → Worker → Worker
unfolding set_option
set_options [] w = w
set_options (o ∷ os) w = set_options os (set_option o w)

-- `NewWorker`
unfoldable pub new_worker : List WorkerOption → Worker
unfolding set_options
new_worker opts = set_options opts default_worker

-- `RetryCount >= maxRetries`
abbrev pub is_exhausted : Worker → OutboxEvent → Bool
is_exhausted w e = leb_ℤ w.max_retries (pos e.retry_count)

-- What one channel of the `select` in `run` yields.
pub data Signal : Type 0 where
  ctx_done stop tick : Signal

-- How far `run` has come: it waits, it has returned, or it has panicked.
pub data Loop : Type 0 where
  waiting returned crashed : Loop

-- What the worker is connected to: the answers of database and broker, the server's `ORDER BY
-- created_at ASC`, `uuid.UUID.String`, and the name of the exchange.
pub record Site : Type 0 where
  pub env : Env
  pub order : List OutboxEvent → List OutboxEvent
  pub uuid_string : ℕ → String
  pub exchange : String

module _ (site : Site) where
  -- What `Publish` hands to the channel.
  abbrev pub message : ℕ → OutboxEvent → Message
  message now e = record {
    exchange = site.exchange;
    routing_key = e.event_type;
    content_type = "application/json";
    persistent = true;
    message_id = site.uuid_string e.id;
    timestamp = now;
    type = e.event_type;
    body = e.payload;
  }

  abbrev pub deliver : ℕ → OutboxEvent → Outbox → Outbox
  deliver now e s = record s { sent = s.sent ++ message now e ∷ [] }

  -- `RabbitMQPublisher.Publish`. A nil error says that the channel has taken the message, no more.
  unfoldable pub publish : OutboxEvent → Exec Outbox (Unit {0})
  unfolding call
  publish e = do now ← gets (λ v. site.env.now v.calls); call site.env (deliver now e)

  -- After `Publish`: the event is marked, and the error of that is only logged.
  abbrev pub mark : OutboxEvent → Option Error → Exec Outbox (Unit {0})
  mark e none = ignoring (mark_published site.env e.id)
  mark e (some publish_err) = ignoring (mark_failed site.env e.id publish_err)

module _ (site : Site) (w : Worker) where
  -- One round of the loop in `processOutbox`.
  unfoldable pub process_event : OutboxEvent → Exec Outbox (Unit {0})
  unfolding publish mark_published mark_failed
  process_event e =
      if is_exhausted w e
      then pure tt
      else do publish_err ← try (publish site e); mark site e publish_err

  unfoldable pub process_events : List OutboxEvent → Exec Outbox (Unit {0})
  process_events [] = pure tt
  process_events (e ∷ es) = process_event e >> process_events es

  -- `processOutbox`
  unfoldable pub process_outbox : Exec Outbox (Unit {0})
  process_outbox = do
    events ← wrapping "fetch unpublished: " (fetch_unpublished site.env site.order w.batch_size)
    process_events events

  abbrev pub after_tick :
      Result (Unit {0}) × World Outbox → (World Outbox → Loop × World Outbox) → Loop × World Outbox
  after_tick (ok a, v) k = k v
  after_tick (err e, v) k = k v
  after_tick (panics t, v) k = (crashed, v)

  -- `run`, by the channels that its `select` takes.
  unfoldable pub run : List Signal → World Outbox → Loop × World Outbox
  run [] v = (waiting, v)
  run (ctx_done ∷ signals) v = (returned, v)
  run (stop ∷ signals) v = (returned, v)
  run (tick ∷ signals) v = after_tick (process_outbox v) (run signals)

  -- The goroutine of `Start`, with the ticker that `run` makes first: `time.NewTicker` panics on an
  -- interval that is not positive.
  unfoldable pub start_worker : List Signal → World Outbox → Loop × World Outbox
  unfolding run
  start_worker signals v = if ltb_ℤ (pos 0) w.poll_interval then run signals v else (crashed, v)
