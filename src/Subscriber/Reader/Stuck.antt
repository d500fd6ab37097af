-- ===== src/Subscriber/Reader/Stuck.antt =====
-- What was handed over is logged, and a forwarder whose reader has left is stuck.
use thiam_api.Base.{arith, refl, ap, sym, ◌∙◌, [], ◌∷◌, ◌++◌, map, ◌≡◌, List, String}
use thiam_api.Subscriber.Reader.{
  stopped, Pipe, Move, forward, meet, leave, Moves, stay, and_then, handle_event, worker_started,
}
use thiam_api.Subscriber.Handover.{in_flight, Steps-HandsOver, no_tags}
use thiam_api.Subscriber.{
  Step, Steps, none_yet, one_more, started, finish, receive, hand, acknowledge, sending, Forwarder,
  Delivery, bus_event, BusEvent,
}

abbrev pub type_of : BusEvent → String
type_of e = e.type

map-append :
    (f : BusEvent → String) (es : List BusEvent) (e : BusEvent)
    → map f (es ++ e ∷ []) ≡ map f es ++ f e ∷ []
map-append f [] e = refl
map-append f (x ∷ es) e = ap (◌∷◌ (f x)) (map-append f es e)

Move-logged :
    {s t : Pipe}
    → Move s t
    → s.logged ≡ map type_of s.forwarder.handed
    → t.logged ≡ map type_of t.forwarder.handed
unfolding handle_event
Move-logged (forward f st q) h = h ∙ ap (map type_of) (sym q)
Move-logged {s = s} (meet f e st q r) h =
    ap (λ ts. ts ++ e.type ∷ []) h
    ∙ sym (map-append type_of s.forwarder.handed e)
    ∙ ap (map type_of) (sym q)
Move-logged (leave r) h = h

pub Moves-logged :
    {s t : Pipe}
    → Moves s t
    → s.logged ≡ map type_of s.forwarder.handed
    → t.logged ≡ map type_of t.forwarder.handed
Moves-logged stay h = h
Moves-logged (and_then m st) h = Move-logged st (Moves-logged m h)

Move-Step : {s t : Pipe} → Steps started s.forwarder → Move s t → Steps started t.forwarder
Move-Step {s = s} p (forward f st q) = one_more started s.forwarder f p st
Move-Step {s = s} p (meet f e st q r) = one_more started s.forwarder f p st
Move-Step p (leave r) = p

pub Moves-Steps : {t : Pipe} → Moves worker_started t → Steps started t.forwarder
Moves-Steps stay = none_yet started
Moves-Steps (and_then m st) = Move-Step (Moves-Steps m) st

map-++ : (f : BusEvent → String) (ds es : List BusEvent) → map f (ds ++ es) ≡ map f ds ++ map f es
map-++ f [] es = refl
map-++ f (d ∷ ds) es = ap (◌∷◌ (f d)) (map-++ f ds es)

-- In every state that the subscriber and the notification worker reach together, the types that the
-- worker has logged, followed by that of the delivery that is still being sent, are those of the
-- deliveries received from the broker: each is handled once, in their order.
logged-received :
    (t : Pipe)
    → Moves worker_started t
    → t.logged ++ map type_of (in_flight t.forwarder.phase)
      ≡ map type_of (map bus_event t.forwarder.received)
logged-received t m =
    let h = Steps-HandsOver started t.forwarder (Moves-Steps m) (refl, no_tags) in
    ap (λ ts. ts ++ map type_of (in_flight t.forwarder.phase)) (Moves-logged m refl)
    ∙ sym (map-++ type_of t.forwarder.handed (in_flight t.forwarder.phase))
    ∙ ap (map type_of) (sym h.0)

not_longer : (es : List BusEvent) (e : BusEvent) → ¬ (es ++ e ∷ [] ≡ es)
not_longer [] e h = absurd (ground (arith, h))
not_longer (x ∷ es) e h = not_longer es e (ground (arith, h))

Step-sending :
    {s f : Forwarder} (d : Delivery) → s.phase ≡ sending d → Step s f → ¬ (f.handed ≡ s.handed)
Step-sending d p (finish q) = absurd (ground (arith, p, q))
Step-sending d p (receive e q) = absurd (ground (arith, p, q))
Step-sending {s = s} d p (hand e q) = not_longer s.handed (bus_event e)
Step-sending d p (acknowledge e b q) = absurd (ground (arith, p, q))

Move-stuck :
    {s t : Pipe} (d : Delivery) → s.reader ≡ stopped → s.forwarder.phase ≡ sending d → ¬ Move s t
Move-stuck d r p (forward f st q) = Step-sending d p st q
Move-stuck d r p (meet f e st q k) = absurd (ground (arith, r, k))
Move-stuck d r p (leave k) = absurd (ground (arith, r, k))

-- Once the worker has left while a delivery is being sent to it, nothing moves any more: the
-- forwarder stays in its send, and neither acknowledges the delivery nor ends.
pub stuck_in_send :
    (d : Delivery) (s t : Pipe)
    → s.reader ≡ stopped
    → s.forwarder.phase ≡ sending d
    → Moves s t
    → t ≡ s
stuck_in_send d s t r p stay = refl
stuck_in_send d s t r p (and_then {t = u} m st) =
    let e = stuck_in_send d s u r p m in
    absurd (Move-stuck d (ap (λ x. x.reader) e ∙ r) (ap (λ x. x.forwarder.phase) e ∙ p) st)
