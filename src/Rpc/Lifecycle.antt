-- ===== src/Rpc/Lifecycle.antt =====
-- The goroutine of a server or client of pkg/rabbitmq/rmq_rpc, its channels `stop` and `notify`, and
-- the caller of `Shutdown`: server.go and client.go, `Start`, `handleMessages`, `reconnect`,
-- `Shutdown`. The context of the errgroup is only done once the goroutine has returned an error, so
-- that its case of the select is never taken by the goroutine. Closing a connection that is nil
-- panics in the AMQP library, which reads a field of it.
pub mod Sound
pub mod Finish
pub mod Hang
mod Tests
use thiam_api.Base.{
  ℕ, ◌+◌, ◌<◌, ◌≡◌, Bool, true, false, Option, none, some, List, [], ◌∷◌, ◌++◌, length,
  if◌then◌else◌,
}
use thiam_api.Base.Int.{ℤ}
use thiam_api.Errors.{Error, errors_is}
use thiam_api.Exec.{Env, World, Result, ok, err}
use thiam_api.Rpc.Connection.{Link, attempt_connect}

-- The goroutine: not started; at the select; in `reconnect` after the deliveries were closed; before
-- the send to `notify`; before `close(s.notify)`; returned with what `eg.Wait` gets.
pub data Place : Type 0 where
  fresh listening reconnecting : Place
  failing announced : Error → Place
  returned : Option Error → Place

-- The caller of `Shutdown`: not called; in `eg.Wait`; before `Connection.Close`; returned with the
-- errors that it joins; panicked.
pub data Waiter : Type 0 where
  not_called waiting crashed : Waiter
  closing finished : List Error → Waiter

-- `capacity` is that of the channel `notify`, 1 for a server and 0 for a client; `link` and `attempts`
-- are of its `Connection`; `served` counts the calls of `serveCall`.
pub record Runner : Type 0 where
  pub place : Place
  pub waiter : Waiter
  pub is_stopped : Bool
  pub capacity : ℕ
  pub notices : List Error
  pub served : ℕ
  pub link : Link
  pub attempts : ℤ

-- The address of `context.Canceled`.
abbrev pub canceled : ℕ
canceled = 23

-- `if err != nil { shutdownErrors = append(shutdownErrors, err) }`
abbrev pub errors_of : Option Error → List Error
errors_of none = []
errors_of (some e) = e ∷ []

-- `if err != nil && !errors.Is(err, context.Canceled) { … }`
unfoldable pub wait_errors : Option Error → List Error
unfolding errors_is
wait_errors none = []
wait_errors (some e) = if errors_is e canceled then [] else e ∷ []

-- `reconnect`, at the n-th call to the broker.
abbrev pub reconnected : Env → ℕ → Runner → Result (Unit {0}) × World Link
reconnected env n s = attempt_connect env s.attempts (record { calls = n; state = s.link })

-- One step of the goroutine, of the caller of `Shutdown`, or of someone who reads `notify`, if
-- `has_reader` says that there is one.
pub data Step (has_reader : Bool) (s : Runner) : Runner → Type 0 where
  start : s.place ≡ fresh → Step has_reader s (record s { place = listening })
  serve : s.place ≡ listening → Step has_reader s (record s { served = s.served + 1 })
  see_stop :
      s.place ≡ listening
      → s.is_stopped ≡ true
      → Step has_reader s (record s { place = returned none })
  lose_deliveries : s.place ≡ listening → Step has_reader s (record s { place = reconnecting })
  reconnect :
      (env : Env) (n : ℕ)
      → s.place ≡ reconnecting
      → (reconnected env n s).0 ≡ ok tt
      → Step has_reader s (record s { place = listening; link = (reconnected env n s).1.state })
  give_up :
      (env : Env) (n : ℕ) (e : Error)
      → s.place ≡ reconnecting
      → (reconnected env n s).0 ≡ err e
      → Step has_reader s (record s { place = failing e; link = (reconnected env n s).1.state })
  announce :
      (e : Error)
      → s.place ≡ failing e
      → length s.notices < s.capacity
      → Step has_reader s (record s { place = announced e; notices = s.notices ++ e ∷ [] })
  hand_over :
      (e : Error)
      → has_reader ≡ true
      → s.place ≡ failing e
      → s.notices ≡ []
      → Step has_reader s (record s { place = announced e })
  read_notice :
      (e : Error) (rest : List Error)
      → has_reader ≡ true
      → s.notices ≡ e ∷ rest
      → Step has_reader s (record s { notices = rest })
  close_notify :
      (e : Error)
      → s.place ≡ announced e
      → Step has_reader s (record s { place = returned (some e) })
  shut :
      s.waiter ≡ not_called → Step has_reader s (record s { waiter = waiting; is_stopped = true })
  join :
      (r : Option Error)
      → s.waiter ≡ waiting
      → s.place ≡ returned r
      → Step has_reader s (record s { waiter = closing (wait_errors r) })
  join_fresh :
      s.waiter ≡ waiting → s.place ≡ fresh → Step has_reader s (record s { waiter = closing [] })
  close_connection :
      (es : List Error) (r : Option Error)
      → s.waiter ≡ closing es
      → s.link.connection ≡ true
      → Step has_reader s (record s { waiter = finished (es ++ errors_of r) })
  crash :
      (es : List Error)
      → s.waiter ≡ closing es
      → s.link.connection ≡ false
      → Step has_reader s (record s { waiter = crashed })

pub data Reach (has_reader : Bool) (s : Runner) : Runner → Type 0 where
  here : Reach has_reader s s
  next : {t u : Runner} → Reach has_reader s t → Step has_reader t u → Reach has_reader s u

-- What `New` makes.
abbrev pub new_runner : ℕ → ℤ → Link → Runner
new_runner capacity attempts link = record {
  place = fresh;
  waiter = not_called;
  is_stopped = false;
  capacity = capacity;
  notices = [];
  served = 0;
  link = link;
  attempts = attempts;
}
