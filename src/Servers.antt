-- ===== src/Servers.antt =====
-- pkg/httpserver/server.go, pkg/grpcserver/server.go and pkg/nats/nats_rpc/server/server.go: the
-- goroutine of each `Start`, and each `Shutdown`, which waits for it. A goroutine, or a `Shutdown`, that
-- would wait for ever says so. That `Listen` and `Serve` return once their server is shut down is
-- documented of the libraries; nobody reads `notify` meanwhile.
pub mod Announced
pub mod Setup
pub mod Lifetime
mod Tests
use thiam_api.Base.{
  ℕ, Bool, true, false, Option, none, some, List, [], ◌∷◌, ◌++◌, length, ltb, if◌then◌else◌,
}
use thiam_api.Errors.{Error}
use thiam_api.Exec.{Env, Exec, ok, pure, panic, gets, ◌>>=◌, ◌>>◌, wrapping, try, call, attempt}
use thiam_api.Rpc.Lifecycle.{wait_errors, errors_of}

-- The channels `notify`, with the errors that it has room for, and `stop`, and whether the NATS server
-- is subscribed and connected.
pub record Notices : Type 0 where
  pub room : ℕ
  pub sent : List Error
  pub is_closed : Bool
  pub is_stopped : Bool
  pub is_subscribed : Bool
  pub is_connected : Bool

-- The channels that each `New` makes.
abbrev pub new_notices : Notices
new_notices = record {
  room = 1;
  sent = [];
  is_closed = false;
  is_stopped = false;
  is_subscribed = false;
  is_connected = true;
}

-- Where a goroutine is in the end: it has returned an error or nil, it receives from `stop`, or it sends
-- to a full `notify`.
pub data Goroutine : Type 0 where
  ended : Option Error → Goroutine
  at_stop : Goroutine
  at_send : Error → Goroutine

abbrev pub act : (Notices → Notices) → Exec Notices (Unit {0})
act f w = (ok tt, record w { state = f w.state })

-- `s.notify <- err; close(s.notify); return err`, by whether the channel has room.
abbrev pub send_to : Bool → Error → Exec Notices Goroutine
send_to true e = do
  act (λ n. record n { sent = n.sent ++ e ∷ []; is_closed = true })
  pure (ended (some e))
send_to false e = pure (at_send e)

abbrev pub send_error : Error → Exec Notices Goroutine
send_error e = do is_free ← gets (λ w. ltb (length w.state.sent) w.state.room); send_to is_free e

abbrev pub or_announce : Option Error → Exec Notices Goroutine → Exec Notices Goroutine
or_announce none m = m
or_announce (some e) m = send_error e

-- `s.eg.Wait()`, by whether `stop` is closed: the goroutine's error, or none where it never returns.
abbrev pub wait : Goroutine → Bool → Option (Option Error)
wait (ended e) stopped = some e
wait at_stop true = some none
wait at_stop false = none
wait (at_send e) stopped = none

-- What `Shutdown` does after `Wait`; without a result where that does not return.
abbrev pub waited :
    Option (Option Error)
    → (Option Error → Exec Notices (List Error))
    → Exec Notices (Option (List Error))
waited none k = pure none
waited (some e) k = do es ← k e; pure (some es)

abbrev pub waiting :
    Goroutine → (Option Error → Exec Notices (List Error)) → Exec Notices (Option (List Error))
waiting g k = do stopped ← gets (λ w. w.state.is_stopped); waited (wait g stopped) k

-- `close(s.stop)`, by whether it is closed already.
abbrev pub close_if : Bool → Exec Notices (Unit {0})
close_if true = panic "close of closed channel"
close_if false = act (λ n. record n { is_stopped = true })

abbrev pub close_stop : Exec Notices (Unit {0})
close_stop = do stopped ← gets (λ w. w.state.is_stopped); close_if stopped

module _ (env : Env) where
  -- The goroutine of the HTTP server: `Listen`.
  unfoldable pub http_start : Exec Notices Goroutine
  unfolding call
  http_start = do e ← try (attempt env); or_announce e (pure (ended none))

  -- The goroutine of the gRPC server: `lc.Listen` and `Serve`.
  unfoldable pub grpc_start : Exec Notices Goroutine
  unfolding call
  grpc_start = do
    listen_err ← try (attempt env)
    or_announce listen_err
        do serve_err ← try (attempt env); or_announce serve_err (pure (ended none))

  -- `subscribe` of the NATS server
  unfoldable pub nats_subscribe : Exec Notices (Unit {0})
  unfolding call
  nats_subscribe = do
    wrapping "nats_rpc server - subscribe - s.conn.AttemptConnect: " (attempt env)
    act (λ n. record n { is_subscribed = true })

  -- The goroutine of the NATS server, which then waits for `stop`.
  unfoldable pub nats_start : Exec Notices Goroutine
  unfolding nats_subscribe
  nats_start = do e ← try nats_subscribe; or_announce e (pure at_stop)

  -- `Shutdown` of the HTTP server: the errors that it joins.
  unfoldable pub http_shutdown : Goroutine → Exec Notices (Option (List Error))
  unfolding call wait_errors
  http_shutdown g = do
    e ← try (attempt env)
    waiting g (λ waited_err. pure (wait_errors e ++ wait_errors waited_err))

  -- `Shutdown` of the gRPC server; `GracefulStop` reports nothing, and returns where the pending calls
  -- end, which is `drains`.
  unfoldable pub grpc_shutdown : Bool → Goroutine → Exec Notices (Option (List Error))
  unfolding wait_errors
  grpc_shutdown drains g =
      if drains then waiting g (λ waited_err. pure (wait_errors waited_err)) else pure none

  abbrev pub unsubscribe : Bool → Exec Notices (Option Error)
  unsubscribe true = try (attempt env)
  unsubscribe false = pure none

  -- What `Shutdown` of the NATS server does after `Wait`.
  abbrev pub disconnect : Option Error → Exec Notices (List Error)
  disconnect waited_err = do
    subscribed ← gets (λ w. w.state.is_subscribed)
    e ← unsubscribe subscribed
    act (λ n. record n { is_connected = false })
    pure (wait_errors waited_err ++ errors_of e)

  -- `Shutdown` of the NATS server
  unfoldable pub nats_shutdown : Goroutine → Exec Notices (Option (List Error))
  unfolding call wait_errors
  nats_shutdown g = do close_stop; waiting g disconnect
