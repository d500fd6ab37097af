-- ===== src/Outbox/Tests.antt =====
-- A table of three rows and a site for it: the outbox theorems at concrete inputs.
use thiam_api.Subscriber.{Delivery, BusEvent, bus_event, Forwarder, sending, acking, receive, hand}
use thiam_api.Subscriber.Reader.{Pipe, reading, and_then, stay, forward, meet, handle_event}
use thiam_api.Subscriber.Reader.Stuck.{type_of}
use thiam_api.Subscriber.Reader.Raised.{raised_event, handed_raised}
use thiam_api.Outbox.Worker.Frame.{run_contents}
use thiam_api.Outbox.{stored, store, fetch_unpublished, mark_published, Outbox, unpublished}
use thiam_api.Outbox.Worker.{
  process_events, process_event, publish, Site, Worker, stop, tick, message, run, process_outbox,
}
use thiam_api.Exec.{call, call_if, scan_rows, next_row, World, Outcome, done, lost}
use thiam_api.Event.{EventBase, new_base, new_outbox_event, raise, OutboxEvent}
use thiam_api.Base.{
  ℕ, ◌==◌, ◌+◌, ◌≡◌, refl, Bool, true, Option, some, List, [], ◌∷◌, map, none, leb, if◌then◌else◌,
  count, arith,
}
use thiam_api.Base.Int.{pos}
use thiam_api.Errors.{Error, leaf}
use thiam_api.Outbox.Rows.{OrderLaws, in_order, left}
use thiam_api.Outbox.InSync.{UniqueIds, Tried}
use thiam_api.Outbox.Worker.Delivery.{IsHanded, run-IsHanded}
use thiam_api.Outbox.Worker.Starvation.{run_starved}
use thiam_api.Outbox.Worker.Progress.{process_outbox_progress, untimed}
use thiam_api.Outbox.Worker.Drain.{run_drains, ticks}
use thiam_api.Outbox.Worker.Retries.{run_retries}

insert : OutboxEvent → List OutboxEvent → List OutboxEvent
insert e [] = e ∷ []
insert e (r ∷ rows) = if leb e.created_at r.created_at then e ∷ r ∷ rows else r ∷ insert e rows

-- A sort by creation time, for the server's `ORDER BY`.
by_age : List OutboxEvent → List OutboxEvent
unfolding insert
by_age [] = []
by_age (e ∷ es) = insert e (by_age es)

count-insert :
    (p : OutboxEvent → Bool) (e : OutboxEvent) (rows : List OutboxEvent)
    → count p (insert e rows) ≡ count p (e ∷ rows)
unfolding insert
count-insert p e [] = refl
count-insert p e (r ∷ rows) = ground (arith, count-insert p e rows)

count-by_age :
    (p : OutboxEvent → Bool) (rows : List OutboxEvent) → count p (by_age rows) ≡ count p rows
unfolding by_age
count-by_age p [] = refl
count-by_age p (e ∷ es) = ground (arith, count-insert p e (by_age es), count-by_age p es)

in_order-insert :
    (t : ℕ) (e : OutboxEvent) (rows : List OutboxEvent)
    → leb t e.created_at ≡ true
    → in_order t rows ≡ true
    → in_order t (insert e rows) ≡ true
unfolding insert
in_order-insert t e [] h k = ground arith
in_order-insert t e (r ∷ rows) h k = ground (arith, in_order-insert r.created_at e rows)

in_order-by_age : (rows : List OutboxEvent) → in_order 0 (by_age rows) ≡ true
unfolding by_age
in_order-by_age [] = refl
in_order-by_age (e ∷ es) = in_order-insert 0 e (by_age es) (ground arith) (in_order-by_age es)

by_age-laws : OrderLaws by_age
by_age-laws = record { same_rows = count-by_age; sorted = in_order-by_age }

abbrev event : ℕ → ℕ → ℕ → OutboxEvent
event id created retries = record {
  id = id;
  aggregate_type = "user";
  aggregate_id = "7";
  event_type = "user.created";
  payload = id ∷ [];
  created_at = created;
  published_at = none;
  retry_count = retries;
  last_error = none;
}

abbrev timeout : Error
timeout = leaf 1 "timeout"

-- The broker's answer to the first publish of a batch of two is lost.
abbrev faulty : ℕ → Outcome
faulty n = if n == 7 then lost timeout else done

abbrev site_with : (ℕ → Outcome) → Site
site_with outcome = record {
  env = record {
    outcome = outcome;
    now = λ n. n;
    violation = leaf 2 "duplicate key";
    fresh = λ n. n + 100;
  };
  order = by_age;
  uuid_string = λ i. if leb i 1 then "one" else "more";
  exchange = "domain.events";
}

abbrev worker : ℕ → ℕ → Worker
worker size retries = record {
  poll_interval = pos 1;
  batch_size = pos size;
  max_retries = pos retries;
}

-- Event 2 is older than event 1.
abbrev pending : World Outbox
pending = record {
  calls = 0;
  state = record { rows = event 1 20 0 ∷ event 2 10 0 ∷ []; sent = [] };
}

-- An old event has used up its retries, and blocks a batch of one.
abbrev poisoned : World Outbox
poisoned = record {
  calls = 0;
  state = record { rows = event 1 20 0 ∷ event 2 10 3 ∷ []; sent = [] };
}

pending-UniqueIds : UniqueIds pending.state.rows
pending-UniqueIds i = ground arith

run-IsHanded_example :
    IsHanded
      (site_with faulty).uuid_string
      (run (site_with faulty) (worker 2 3) (tick ∷ tick ∷ stop ∷ []) pending).1.state
run-IsHanded_example =
    run-IsHanded (site_with faulty) (worker 2 3) (tick ∷ tick ∷ stop ∷ []) pending
      (refl, (refl, tt))

run_contents_example :
    map stored (run (site_with faulty) (worker 2 3) (tick ∷ tick ∷ stop ∷ []) pending).1.state.rows
    ≡ map stored pending.state.rows
run_contents_example =
    run_contents (site_with faulty) (worker 2 3) (tick ∷ tick ∷ stop ∷ []) pending

run_starved_example :
    (run (site_with (λ _. done)) (worker 1 3) (tick ∷ tick ∷ []) poisoned).1.state ≡ poisoned.state
unfolding unpublished by_age
run_starved_example =
    run_starved (site_with (λ _. done)) (worker 1 3) (tick ∷ tick ∷ []) poisoned (refl, tt)

process_outbox_progress_example :
    map untimed (process_outbox (site_with (λ _. done)) (worker 2 3) pending).1.state.sent
    ≡ message (site_with (λ _. done)) 0 (event 2 10 0)
      ∷ message (site_with (λ _. done)) 0 (event 1 20 0)
      ∷ []
unfolding unpublished by_age
process_outbox_progress_example =
    (process_outbox_progress (site_with (λ _. done)) (worker 2 3) (λ _. refl) 2 pending refl).1

run_drains_example :
    left (run (site_with (λ _. done)) (worker 1 3) (ticks 2) pending).1.state.rows ≡ 0
run_drains_example =
    (run_drains (site_with (λ _. done)) (worker 1 3) (λ _. refl) by_age-laws 0 2 pending refl refl
      (omega arith)).1

run_retries_example :
    Tried 3 (run (site_with faulty) (worker 2 3) (tick ∷ tick ∷ []) pending).1.state.rows
run_retries_example =
    (run_retries (site_with faulty) (worker 2 3) 3 refl by_age-laws (tick ∷ tick ∷ []) pending
      (pending-UniqueIds, (omega arith))).1

-- Two events that an aggregate raised, one after the other.
abbrev raised : List EventBase
raised = new_base 41 5 "user.created" "user" "7" ∷ new_base 42 6 "user.renamed" "user" "7" ∷ []

abbrev payload : EventBase → List ℕ
payload e = 32 ∷ 49 ∷ []

-- The column drops a space in front.
abbrev jsonb : List ℕ → Option (List ℕ)
jsonb [] = none
jsonb (b ∷ bytes) = if b == 32 then some bytes else some (b ∷ bytes)

abbrev body : EventBase → List ℕ
body e = 49 ∷ []

abbrev empty_outbox : World Outbox
empty_outbox = record { calls = 0; state = record { rows = []; sent = [] } }

-- The first of the two was handed over, the second is not delivered yet.
abbrev first_delivery : Delivery
first_delivery = record { tag = 1; message_id = "more"; type = "user.created"; body = 49 ∷ [] }

abbrev receiving : Forwarder
receiving = record {
  phase = sending first_delivery;
  received = first_delivery ∷ [];
  handed = [];
  acked = [];
}

abbrev handing : Forwarder
handing = record receiving { phase = acking first_delivery; handed = bus_event first_delivery ∷ [] }

abbrev pipe : Pipe
pipe = record { forwarder = handing; reader = reading; logged = "user.created" ∷ [] }

abbrev second_event : BusEvent
second_event = record { id = "more"; type = "user.renamed"; payload = 49 ∷ [] }

handed_raised_example :
    (bus_event first_delivery ∷ second_event ∷ []
      ≡ map (raised_event (site_with (λ n. done)) payload jsonb body) raised)
    × ("user.created" ∷ [] ≡ map type_of (bus_event first_delivery ∷ []))
unfolding insert by_age new_outbox_event new_base raise bus_event handle_event store process_outbox
    fetch_unpublished process_events process_event publish call call_if scan_rows next_row
    mark_published
handed_raised_example =
    handed_raised (site_with (λ n. done)) payload jsonb body (worker 2 3) raised 1 empty_outbox
      (λ n. refl) (λ e. refl) refl refl refl refl refl (omega arith) refl pipe
      (("more", "user.renamed", 49 ∷ []) ∷ [])
      (and_then (and_then stay (forward receiving (receive first_delivery refl) refl))
        (meet handing (bus_event first_delivery) (hand first_delivery refl) refl refl))
      refl
