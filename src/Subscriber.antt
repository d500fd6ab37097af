-- ===== src/Subscriber.antt =====
-- pkg/eventbus/rabbitmq_subscriber.go: the goroutine that `Subscribe` starts, one step at a time.
pub mod Handover
pub mod Reader
mod Tests
use thiam_api.Base.{ℕ, ◌≡◌, Bool, List, [], ◌∷◌, ◌++◌, String, if◌then◌else◌}

-- `amqp.Delivery`, the fields that are read; its tag is what `Ack` names.
pub record Delivery : Type 0 where
  pub tag : ℕ
  pub message_id : String
  pub type : String
  pub body : List ℕ

-- `Event` of pkg/eventbus.
pub record BusEvent : Type 0 where
  pub id : String
  pub type : String
  pub payload : List ℕ

unfoldable pub bus_event : Delivery → BusEvent
bus_event d = record { id = d.message_id; type = d.type; payload = d.body }

-- At the `select`, in the send to `events`, before `Ack`, or returned with `events` closed.
pub data Phase : Type 0 where
  selecting ended : Phase
  sending acking : Delivery → Phase

-- What came from the broker, what the reader of `events` got, and which tags the broker has as
-- acknowledged.
pub record Forwarder : Type 0 where
  pub phase : Phase
  pub received : List Delivery
  pub handed : List BusEvent
  pub acked : List ℕ

-- The context is done or the channel of deliveries is closed; a delivery is received; the reader takes
-- the event; `Ack` goes through or not.
pub data Step (s : Forwarder) : Forwarder → Type 0 where
  finish : s.phase ≡ selecting → Step s (record s { phase = ended })
  receive :
      (d : Delivery)
      → s.phase ≡ selecting
      → Step s (record s { phase = sending d; received = s.received ++ d ∷ [] })
  hand :
      (d : Delivery)
      → s.phase ≡ sending d
      → Step s (record s { phase = acking d; handed = s.handed ++ bus_event d ∷ [] })
  acknowledge :
      (d : Delivery) (through : Bool)
      → s.phase ≡ acking d
      → Step s (record s {
        phase = selecting;
        acked = if through then s.acked ++ d.tag ∷ [] else s.acked;
      })

-- Any number of steps.
pub data Steps : Forwarder → Forwarder → Type 0 where
  none_yet : (s : Forwarder) → Steps s s
  one_more : (s t u : Forwarder) → Steps s t → Step t u → Steps s u

abbrev pub started : Forwarder
started = record { phase = selecting; received = []; handed = []; acked = [] }
