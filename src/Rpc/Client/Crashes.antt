-- ===== src/Rpc/Client/Crashes.antt =====
-- The client does not close a channel twice.
use thiam_api.Base.{
  ℕ, ◌==◌, ◌≡◌, refl, Bool, true, false, ◌||◌, inl, inr, Option, none, some, List, [], ◌∷◌, String,
  arith, ap,
}
use thiam_api.Rpc.Client.{
  publish, Message, PendingCall, Place, idle, published, waiting, answered, given_up, Client, Event,
  add, wake, give_up, serve, closes_twice, step, steps,
}
use thiam_api.Rpc.Client.Matching.{Delivered, Matches, IsMatched, step-IsMatched}

-- The deliveries among the events are for different ids, none of which had one before.
abbrev pub is_answered : ℕ → List Message → Bool
is_answered i [] = false
is_answered i (m ∷ ms) = m.correlation_id == i || is_answered i ms

abbrev pub AnswersOnce : List Event → List Message → Type 0
AnswersOnce [] ms = Unit {0}
AnswersOnce (serve m ∷ es) ms = (is_answered m.correlation_id ms ≡ false) × AnswersOnce es (m ∷ ms)
AnswersOnce (e ∷ es) ms = AnswersOnce es ms

Delivered-answered :
    (i : ℕ) (status : String) (body : List ℕ) (ms : List Message)
    → Delivered i status body ms
    → is_answered i ms ≡ true
Delivered-answered i status body [] d = absurd d
Delivered-answered i status body (m ∷ ms) (inl e) =
    ground (arith, ap (λ (n : Message). n.correlation_id) e)
Delivered-answered i status body (m ∷ ms) (inr d) =
    ground (arith, Delivered-answered i status body ms d)

closes_twice-none :
    (m : Message) (ms : List Message) (p : Place) (o : Option PendingCall)
    → Matches ms m.correlation_id p o
    → is_answered m.correlation_id ms ≡ false
    → closes_twice o ≡ false
closes_twice-none m ms p none h n = refl
closes_twice-none m ms waiting (some q) h n =
    ground (arith, h, Delivered-answered m.correlation_id q.status q.body ms)
closes_twice-none m ms idle (some q) h n = absurd h
closes_twice-none m ms published (some q) h n = absurd h
closes_twice-none m ms (answered s b) (some q) h n = absurd h
closes_twice-none m ms (given_up x) (some q) h n = absurd h

-- If no id is answered twice, no channel is closed twice: the client does not panic, however
-- callers, timeouts and deliveries interleave.
steps-is_crashed :
    (es : List Event) (c : Client)
    → IsMatched c
    → AnswersOnce es c.delivered
    → c.is_crashed ≡ false
    → (steps es c).is_crashed ≡ false
unfolding steps step
steps-is_crashed [] c h a n = n
steps-is_crashed (publish i ∷ es) c h a n =
    steps-is_crashed es (step (publish i) c) (step-IsMatched (publish i) c h) a n
steps-is_crashed (add i ∷ es) c h a n =
    steps-is_crashed es (step (add i) c) (step-IsMatched (add i) c h) a n
steps-is_crashed (wake i ∷ es) c h a n =
    steps-is_crashed es (step (wake i) c) (step-IsMatched (wake i) c h) a n
steps-is_crashed (give_up i e ∷ es) c h a n =
    steps-is_crashed es (step (give_up i e) c) (step-IsMatched (give_up i e) c h) a n
steps-is_crashed (serve m ∷ es) c h a n =
    steps-is_crashed es (step (serve m) c) (step-IsMatched (serve m) c h) a.1 (
      ground (
        arith,
        closes_twice-none m c.delivered (c.calls m.correlation_id).place
            (c.calls m.correlation_id).entry (h m.correlation_id) a.0,
      ))
