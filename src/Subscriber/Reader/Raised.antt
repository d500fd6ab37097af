-- ===== src/Subscriber/Reader/Raised.antt =====
-- Events from an aggregate to the notification worker: the outbox and its worker, the exchange, the
-- subscriber, and the reader.
use thiam_api.Subscriber.{Delivery, bus_event, BusEvent, started}
use thiam_api.Base.{
  String, ℕ, suc, ◌≤◌, ◌≡◌, refl, sym, ap, ◌∙◌, true, false, Option, List, [], ◌∷◌, ◌++◌, map,
  length, append_assoc,
}
use thiam_api.Base.Int.{pos, leb_ℤ}
use thiam_api.Event.{EventBase}
use thiam_api.Exec.{World}
use thiam_api.Exec.Faults.{NoFaults}
use thiam_api.Outbox.{Message, Outbox, fresh_ids}
use thiam_api.Outbox.Worker.{Site, Worker}
use thiam_api.Outbox.Worker.Progress.{untimed}
use thiam_api.Outbox.Worker.Raised.{
  event_message, ReadsBack, outbox_rows, raise_all, no_events, raised_published, ticked,
}
use thiam_api.Subscriber.Handover.{in_flight, Steps-HandsOver, no_tags}
use thiam_api.Subscriber.Reader.{Pipe, Moves, worker_started}
use thiam_api.Subscriber.Reader.Stuck.{type_of, Moves-logged, Moves-Steps}

-- What a message and a delivery carry: id, type and body.
abbrev pub Contents : Type 0
Contents = String × String × List ℕ

abbrev pub carried : Message → Contents
carried m = (m.message_id, m.type, m.body)

abbrev pub contents : Delivery → Contents
contents d = (d.message_id, d.type, d.body)

abbrev pub event_of : Contents → BusEvent
event_of (id, type, body) = record { id = id; type = type; payload = body }

carried-untimed : (ms : List Message) → map carried (map untimed ms) ≡ map carried ms
carried-untimed [] = refl
carried-untimed (m ∷ ms) = ap (◌∷◌ (carried m)) (carried-untimed ms)

bus_event-contents :
    (ds : List Delivery) (rest : List Contents)
    → map bus_event ds ++ map event_of rest ≡ map event_of (map contents ds ++ rest)
unfolding bus_event
bus_event-contents [] rest = refl
bus_event-contents (d ∷ ds) rest = ap (◌∷◌ (event_of (contents d))) (bus_event-contents ds rest)

module _ (site : Site) (payload : EventBase → List ℕ) (jsonb : List ℕ → Option (List ℕ))
    (body : EventBase → List ℕ) where
  -- What a reader is to get of an event.
  abbrev pub raised_event : EventBase → BusEvent
  raised_event e = record { id = site.uuid_string e.id; type = e.type; payload = body e }

  carried-event_message :
      (es : List EventBase)
      → map event_of (map carried (map (event_message site payload jsonb body) es))
        ≡ map raised_event es
  carried-event_message [] = refl
  carried-event_message (e ∷ es) = ap (◌∷◌ (raised_event e)) (carried-event_message es)

  -- The outbox after the events `es` were raised and stored, and one tick.
  abbrev pub after_tick : Worker → List EventBase → World Outbox → Outbox
  after_tick w es v =
      (ticked site payload jsonb body w (outbox_rows payload (raise_all es no_events)) v).1.state

  carried-after_tick :
      (w : Worker) (es : List EventBase) (v : World Outbox)
      → v.state.sent ≡ []
      → map untimed (after_tick w es v).sent
        ≡ map untimed v.state.sent ++ map (event_message site payload jsonb body) es
      → map event_of (map carried (after_tick w es v).sent) ≡ map raised_event es
  carried-after_tick w es v e h =
      ap (map event_of) (sym (carried-untimed (after_tick w es v).sent))
      ∙ ap (λ ms. map event_of (map carried ms))
          (h ∙ ap (λ ms. map untimed ms ++ map (event_message site payload jsonb body) es) e)
      ∙ carried-event_message es

  -- An event that is raised, whose payload is JSON, reaches the notification worker: under the conditions of one tick that
  -- publishes everything, and with a broker that has delivered the first of the messages that were
  -- published, in their order and as they are, has lost none, and has the others (`rest`) still to deliver, what the
  -- worker was handed, then what is being sent to it, then the rest, are the raised events in
  -- their order, each once and with its id, its type, and its payload as the JSONB column of the outbox
  -- gives it back; and the worker has logged
  -- exactly the types of those that it was handed.
  pub handed_raised :
      (w : Worker) (es : List EventBase) (n : ℕ) (v : World Outbox)
      → NoFaults site.env
      → ReadsBack site payload jsonb body
      → v.state.rows ≡ []
      → v.state.sent ≡ []
      → fresh_ids (outbox_rows payload (raise_all es no_events)) v.state.rows ≡ true
      → site.order (outbox_rows body (raise_all es no_events))
        ≡ outbox_rows body (raise_all es no_events)
      → w.batch_size ≡ pos (suc n)
      → length es ≤ suc n
      → leb_ℤ w.max_retries (pos 0) ≡ false
      → (t : Pipe) (rest : List Contents) → Moves worker_started t
      → map contents t.forwarder.received ++ rest ≡ map carried (after_tick w es v).sent
      → (t.forwarder.handed ++ (in_flight t.forwarder.phase ++ map event_of rest)
          ≡ map raised_event es)
        × (t.logged ≡ map type_of t.forwarder.handed)
  handed_raised w es n v f j e s h o b l k t rest m q =
      let p = raised_published site payload jsonb body w es n v f j e h o b l k in
      let c = Steps-HandsOver started t.forwarder (Moves-Steps m) (refl, no_tags) in
      (
        sym (append_assoc t.forwarder.handed (in_flight t.forwarder.phase) (map event_of rest))
            ∙ ap (λ ds. ds ++ map event_of rest) (sym c.0)
            ∙ bus_event-contents t.forwarder.received rest
            ∙ ap (map event_of) q
            ∙ carried-after_tick w es v s p.1,
        Moves-logged m refl,
      )
