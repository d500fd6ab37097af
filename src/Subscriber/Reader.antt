-- ===== src/Subscriber/Reader.antt =====
-- internal/usecase/notification/worker.go: the goroutine of `Worker.Start`, which reads the channel of
-- events that the goroutine of `Subscribe` writes. `handleEvent` logs the type of the event.
pub mod Stuck
pub mod Raised
use thiam_api.Base.{◌≡◌, List, [], ◌∷◌, ◌++◌, String}
use thiam_api.Subscriber.{BusEvent, Forwarder, Step, started}

-- At the `select` of `processEvents`, or returned.
pub data Reader : Type 0 where
  reading stopped : Reader

-- Both goroutines, and the types that were logged.
pub record Pipe : Type 0 where
  pub forwarder : Forwarder
  pub reader : Reader
  pub logged : List String

-- `handleEvent`
unfoldable pub handle_event : BusEvent → List String → List String
handle_event e types = types ++ e.type ∷ []

-- A step of the forwarder that hands nothing over; one that hands over an event, for which the reader
-- has to be at its select; and the end of the reader, once the context is done or `events` closed.
pub data Move (s : Pipe) : Pipe → Type 0 where
  forward :
      (f : Forwarder)
      → Step s.forwarder f
      → f.handed ≡ s.forwarder.handed
      → Move s (record s { forwarder = f })
  meet :
      (f : Forwarder) (e : BusEvent)
      → Step s.forwarder f
      → f.handed ≡ s.forwarder.handed ++ e ∷ []
      → s.reader ≡ reading
      → Move s (record s { forwarder = f; logged = handle_event e s.logged })
  leave : s.reader ≡ reading → Move s (record s { reader = stopped })

pub data Moves (s : Pipe) : Pipe → Type 0 where
  stay : Moves s s
  and_then : {t u : Pipe} → Moves s t → Move t u → Moves s u

-- `Worker.Start`, after `Subscribe`.
abbrev pub worker_started : Pipe
worker_started = record { forwarder = started; reader = reading; logged = [] }
