-- ===== src/Subscriber/Tests.antt =====
-- A subscriber that hands over a delivery and acknowledges it.
use thiam_api.Base.{◌≡◌, refl, true, [], ◌∷◌}
use thiam_api.Subscriber.Handover.{HandsOver, Steps-HandsOver, no_tags}
use thiam_api.Subscriber.Reader.Stuck.{stuck_in_send}
use thiam_api.Subscriber.Reader.{
  Pipe, reading, stopped, Moves, worker_started, and_then, stay, forward, meet, handle_event,
}
use thiam_api.Subscriber.{
  Delivery, bus_event, acking, sending, selecting, Forwarder, receive, hand, acknowledge, Steps,
  none_yet, one_more, started,
}

abbrev delivery : Delivery
delivery = record { tag = 1; message_id = "m1"; type = "user.created"; body = 7 ∷ [] }

abbrev received_one : Forwarder
received_one = record {
  phase = sending delivery;
  received = delivery ∷ [];
  handed = [];
  acked = [];
}

abbrev handed_one : Forwarder
handed_one = record {
  phase = acking delivery;
  received = delivery ∷ [];
  handed = bus_event delivery ∷ [];
  acked = [];
}

abbrev acked_one : Forwarder
acked_one = record {
  phase = selecting;
  received = delivery ∷ [];
  handed = bus_event delivery ∷ [];
  acked = 1 ∷ [];
}

past : Steps started acked_one
past =
    one_more started handed_one acked_one
      (one_more started received_one handed_one
        (one_more started started received_one (none_yet started) (receive delivery refl))
        (hand delivery refl))
      (acknowledge delivery true refl)

Steps-HandsOver_example : HandsOver acked_one
Steps-HandsOver_example = Steps-HandsOver started acked_one past (refl, no_tags)

abbrev moved : Pipe
moved = record { forwarder = handed_one; reader = reading; logged = "user.created" ∷ [] }

moves : Moves worker_started moved
unfolding handle_event bus_event
moves =
    and_then (and_then stay (forward received_one (receive delivery refl) refl))
      (meet handed_one (bus_event delivery) (hand delivery refl) refl refl)

abbrev left : Pipe
left = record { forwarder = received_one; reader = stopped; logged = [] }

stuck_in_send_example : left ≡ left
stuck_in_send_example = stuck_in_send delivery left left refl refl stay
