-- ===== src/Servers/Announced.antt =====
-- What is sent to `notify`, and where the goroutines are in the end.
use thiam_api.Base.{refl, ◌+◌, Bool, Option, none, some, ◌≡◌, true, false, ℕ}
use thiam_api.Servers.{
  or_announce, act, http_start, grpc_start, nats_start, nats_subscribe, Notices, new_notices,
  Goroutine, ended, at_stop, at_send,
}
use thiam_api.Exec.{
  Env, Exec, World, Outcome, done, refused, lost, Result, ok, err, panics, settle, call, try,
  wrapping, pure, attempt, ◌>>=◌, ◌>>◌,
}
use thiam_api.Errors.{Error}
use thiam_api.Rpc.Lifecycle.{errors_of}

abbrev pub error_of : Goroutine → Option Error
error_of (ended e) = e
error_of at_stop = none
error_of (at_send e) = some e

abbrev pub is_some : Option Error → Bool
is_some none = false
is_some (some e) = true

-- The goroutine has returned; it has returned or receives from `stop`.
abbrev pub HasEnded : Goroutine → Type 0
HasEnded (ended e) = Unit {0}
HasEnded at_stop = ⊥
HasEnded (at_send e) = ⊥

abbrev pub EndsOnStop : Goroutine → Type 0
EndsOnStop (ended e) = Unit {0}
EndsOnStop at_stop = Unit {0}
EndsOnStop (at_send e) = ⊥

-- What a goroutine leaves: its error, sent once, after which the channel is closed.
abbrev pub HasSent : (Goroutine → Type 0) → Result Goroutine × World Notices → Type 0
HasSent P (ok g, v) =
    (v.state.sent ≡ errors_of (error_of g))
    × (v.state.is_closed ≡ is_some (error_of g))
    × (v.state.is_stopped ≡ false)
    × P g
HasSent P (err e, v) = ⊥
HasSent P (panics t, v) = ⊥

-- A server that was made, after some calls.
abbrev pub fresh : ℕ → World Notices
fresh n = record { calls = n; state = new_notices }

module _ (env : Env) where
  -- A library's call that came to `o`, and the send if it failed.
  serving : Outcome → Exec Notices Goroutine
  serving o = do e ← try (settle env o (λ n. n)); or_announce e (pure (ended none))

  HasSent-serving : (o : Outcome) (n : ℕ) → HasSent HasEnded (serving o (fresh n))
  unfolding serving
  HasSent-serving done n = (refl, refl, refl, tt)
  HasSent-serving (refused e) n = (refl, refl, refl, tt)
  HasSent-serving (lost e) n = (refl, refl, refl, tt)

  -- The same with a second call.
  listening : Outcome → Exec Notices Goroutine
  unfolding call
  listening o = do
    e ← try (settle env o (λ n. n))
    or_announce e do x ← try (attempt env); or_announce x (pure (ended none))

  HasSent-listening : (o : Outcome) (n : ℕ) → HasSent HasEnded (listening o (fresh n))
  unfolding serving listening call
  HasSent-listening done n = HasSent-serving (env.outcome (n + 1)) (n + 1)
  HasSent-listening (refused e) n = (refl, refl, refl, tt)
  HasSent-listening (lost e) n = (refl, refl, refl, tt)

  subscribing : Outcome → Exec Notices Goroutine
  subscribing o = do
    e ← try do
      wrapping "nats_rpc server - subscribe - s.conn.AttemptConnect: " (settle env o (λ n. n))
      act (λ n. record n { is_subscribed = true })
    or_announce e (pure at_stop)

  HasSent-subscribing : (o : Outcome) (n : ℕ) → HasSent EndsOnStop (subscribing o (fresh n))
  unfolding subscribing
  HasSent-subscribing done n = (refl, refl, refl, tt)
  HasSent-subscribing (refused e) n = (refl, refl, refl, tt)
  HasSent-subscribing (lost e) n = (refl, refl, refl, tt)

  pub start-HasSent :
      (n : ℕ)
      → HasSent HasEnded (http_start env (fresh n))
        × HasSent HasEnded (grpc_start env (fresh n))
        × HasSent EndsOnStop (nats_start env (fresh n))
  unfolding serving listening subscribing http_start grpc_start nats_start nats_subscribe call
  start-HasSent n = (
    HasSent-serving (env.outcome n) n,
    HasSent-listening (env.outcome n) n,
    HasSent-subscribing (env.outcome n) n,
  )
