-- ===== src/Event.antt =====
-- internal/entity/event: the event base, the events that an aggregate has raised, and the row of
-- the outbox. A UUID is a number that is only compared, 0 the nil one; a time is in nanoseconds.
use thiam_api.Base.{ℕ, List, [], ◌∷◌, ◌++◌, Option, none, String}

-- `Base`; the accessors of the source are the fields.
pub record EventBase : Type 0 where
  pub id : ℕ
  pub type : String
  pub aggr_id : String
  pub aggr_type : String
  pub timestamp : ℕ

-- `NewBase`, with the fresh UUID and the clock's reading as arguments.
unfoldable pub new_base : ℕ → ℕ → String → String → String → EventBase
new_base fresh now event_type aggregate_type aggregate_id = record {
  id = fresh;
  type = event_type;
  aggr_id = aggregate_id;
  aggr_type = aggregate_type;
  timestamp = now;
}

-- `RaisesEvents`
pub record RaisesEvents : Type 0 where
  pub events : List EventBase

unfoldable pub raise : EventBase → RaisesEvents → RaisesEvents
raise e r = record r { events = r.events ++ e ∷ [] }

unfoldable pub clear_events : RaisesEvents → RaisesEvents
clear_events r = record r { events = [] }

-- `OutboxEvent`, a row of the table `outbox_events`.
pub record OutboxEvent : Type 0 where
  pub id : ℕ
  pub aggregate_type : String
  pub aggregate_id : String
  pub event_type : String
  pub payload : List ℕ
  pub created_at : ℕ
  pub published_at : Option ℕ
  pub retry_count : ℕ
  pub last_error : Option String

-- `NewOutboxEvent`
unfoldable pub new_outbox_event : EventBase → List ℕ → OutboxEvent
new_outbox_event e payload = record {
  id = e.id;
  aggregate_type = e.aggr_type;
  aggregate_id = e.aggr_id;
  event_type = e.type;
  payload = payload;
  created_at = e.timestamp;
  published_at = none;
  retry_count = 0;
  last_error = none;
}
