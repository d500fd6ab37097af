-- ===== src/Rpc/Connection.antt =====
-- pkg/rabbitmq/rmq_rpc/connection.go.
use thiam_api.Base.{
  inl, refl, ◌*◌, inr, ◌⊎◌, arith, ℕ, zero, suc, ◌+◌, ◌≤◌, ◌≡◌, Bool, true, false, Option, none,
  some,
}
use thiam_api.Base.Int.{◌≤ℤ◌, ℤ, pos, negsuc}
use thiam_api.Errors.{Error, wrap}
use thiam_api.Exec.{
  continue, panics, failure, Env, Exec, World, Outcome, done, refused, lost, Result, ok, err, pure,
  fail, ◌>>=◌, ◌>>◌, wrapping, try, call, attempt,
}

-- `Connection`: which of its pointers are set.
pub record Link : Type 0 where
  pub connection : Bool
  pub channel : Bool
  pub delivery : Bool

module _ (env : Env) where
  -- `field, err = f()`: on an error the field is nil.
  abbrev pub assign : (Bool → Link → Link) → Outcome → World Link → Result (Unit {0}) × World Link
  assign put done w = (ok tt, record { calls = w.calls + 1; state = put true w.state })
  assign put (refused e) w = (err e, record { calls = w.calls + 1; state = put false w.state })
  assign put (lost e) w = (err e, record { calls = w.calls + 1; state = put false w.state })

  unfoldable pub assigning : (Bool → Link → Link) → Exec Link (Unit {0})
  assigning put w = assign put (env.outcome w.calls) w

  -- `Connection.connect`
  unfoldable pub connect : Exec Link (Unit {0})
  unfolding call assigning
  connect = do
    wrapping "amqp.Dial: " (assigning (λ b l. record l { connection = b }))
    wrapping "c.Connection.Channel: " (assigning (λ b l. record l { channel = b }))
    wrapping "c.Connection.Channel: " (attempt env)
    wrapping "c.Channel.QueueDeclare: " (attempt env)
    wrapping "c.Channel.QueueBind: " (attempt env)
    wrapping "c.Channel.Consume: " (assigning (λ b l. record l { delivery = b }))

  -- `break` on success, or the next round.
  abbrev pub next_round : Exec Link (Option Error) → Option Error → Exec Link (Option Error)
  next_round again none = pure none
  next_round again (some e) = again

  -- The loop of `AttemptConnect`, with the error of the round before.
  unfoldable pub connect_loop : ℕ → Option Error → Exec Link (Option Error)
  unfolding connect
  connect_loop zero last = pure last
  connect_loop (suc i) last = do e ← try connect; next_round (connect_loop i e) e

  abbrev pub outcome_of : Option Error → Exec Link (Unit {0})
  outcome_of none = pure tt
  outcome_of (some e) = fail (wrap "rmq_rpc - AttemptConnect - c.connect: " "" e)

  abbrev pub rounds : ℤ → ℕ
  rounds (pos n) = n
  rounds (negsuc n) = 0

  -- `Connection.AttemptConnect`
  unfoldable pub attempt_connect : ℤ → Exec Link (Unit {0})
  unfolding connect_loop
  attempt_connect attempts = do e ← connect_loop (rounds attempts) none; outcome_of e

abbrev pub IsConnected : Link → Type 0
IsConnected l = (l.connection ≡ true) × (l.channel ≡ true) × (l.delivery ≡ true)

module _ (env : Env) where
  connect_ok : (w : World Link) → (connect env w).0 ≡ ok tt → IsConnected (connect env w).1.state
  unfolding connect call assigning
  connect_ok w h = ground arith

  connect_calls : (w : World Link) → (connect env w).1.calls ≤ w.calls + 6
  unfolding connect call assigning
  connect_calls w = ground arith

  -- One round: what follows is the next one where the round failed.
  abbrev after : ℕ → Result (Unit {0}) → World Link → Result (Option Error) × World Link
  after i r v = (failure r >>= λ e. next_round env (connect_loop env i e) e) v

  after-IsConnected :
      (i : ℕ) (r : Result (Unit {0})) (v : World Link)
      → (r ≡ ok tt → IsConnected v.state)
      → ((x : Error)
          → (connect_loop env i (some x) v).0 ≡ ok none
          → IsConnected (connect_loop env i (some x) v).1.state)
      → (after i r v).0 ≡ ok none
      → IsConnected (after i r v).1.state
  after-IsConnected i (ok tt) v c next h = c refl
  after-IsConnected i (err x) v c next h = next x h
  after-IsConnected i (panics t) v c next h = ground arith

  -- A loop that had an error before, or has a round to go, ends without an error only connected.
  loop-IsConnected :
      (n : ℕ) (x : Error) (w : World Link)
      → (connect_loop env n (some x) w).0 ≡ ok none
      → IsConnected (connect_loop env n (some x) w).1.state
  unfolding connect_loop
  loop-IsConnected zero x w h = ground arith
  loop-IsConnected (suc i) x w h =
      after-IsConnected i (connect env w).0 (connect env w).1 (connect_ok w)
        (λ y. loop-IsConnected i y (connect env w).1) h

  after-calls :
      (i : ℕ) (r : Result (Unit {0})) (v : World Link)
      → ((x : Error) → (connect_loop env i (some x) v).1.calls ≤ v.calls + 6 * i)
      → (after i r v).1.calls ≤ v.calls + 6 * i
  after-calls i (ok tt) v h = omega arith
  after-calls i (err x) v h = h x
  after-calls i (panics t) v h = omega arith

  loop-calls :
      (n : ℕ) (last : Option Error) (w : World Link)
      → (connect_loop env n last w).1.calls ≤ w.calls + 6 * n
  unfolding connect_loop
  loop-calls zero last w = omega arith
  loop-calls (suc i) last w = omega (
    arith,
    connect_calls w,
    after-calls i (connect env w).0 (connect env w).1
        (λ x. loop-calls i (some x) (connect env w).1),
  )

  finish-IsConnected :
      (r : Result (Option Error)) (v : World Link)
      → (r ≡ ok none → IsConnected v.state)
      → (continue r (outcome_of env) v).0 ≡ ok tt
      → IsConnected (continue r (outcome_of env) v).1.state
  finish-IsConnected (ok none) v c h = c refl
  finish-IsConnected (ok (some e)) v c h = ground arith
  finish-IsConnected (err e) v c h = ground arith
  finish-IsConnected (panics t) v c h = ground arith

  finish_calls :
      (r : Result (Option Error)) (v : World Link)
      → (continue r (outcome_of env) v).1.calls ≡ v.calls
  finish_calls (ok none) v = refl
  finish_calls (ok (some e)) v = refl
  finish_calls (err e) v = refl
  finish_calls (panics t) v = refl

  pub attempt_connect-IsConnected :
      (attempts : ℤ) (w : World Link)
      → ((attempt_connect env attempts w).1.calls ≤ w.calls + 6 * rounds env attempts)
        × ((attempt_connect env attempts w).0 ≡ ok tt
            → IsConnected (attempt_connect env attempts w).1.state
              ⊎ ((attempts ≤ℤ pos 0) × ((attempt_connect env attempts w).1 ≡ w)))
  unfolding attempt_connect connect_loop
  attempt_connect-IsConnected (negsuc n) w = (omega arith, λ h. inr (omega arith, refl))
  attempt_connect-IsConnected (pos zero) w = (omega arith, λ h. inr (omega arith, refl))
  attempt_connect-IsConnected (pos (suc i)) w =
      let r = (after i (connect env w).0 (connect env w).1).0 in
      let v = (after i (connect env w).0 (connect env w).1).1 in
      (
        omega (
          arith,
          finish_calls r v,
          connect_calls w,
          after-calls i (connect env w).0 (connect env w).1
              (λ x. loop-calls i (some x) (connect env w).1),
        ),
        λ h. inl (
            finish-IsConnected r v
              (after-IsConnected i (connect env w).0 (connect env w).1 (connect_ok w)
                (λ y. loop-IsConnected i y (connect env w).1))
              h),
      )

-- What a result of `attempt_connect` means for what it leaves.
abbrev pub MeansConnected : ℤ → World Link → Result (Unit {0}) × World Link → Type 0
MeansConnected attempts w (ok a, v) = IsConnected v.state ⊎ ((attempts ≤ℤ pos 0) × (v ≡ w))
MeansConnected attempts w (err e, v) = Unit {0}
MeansConnected attempts w (panics t, v) = Unit {0}

means_connected :
    (attempts : ℤ) (w : World Link) (r : Result (Unit {0})) (v : World Link)
    → (r ≡ ok tt → IsConnected v.state ⊎ ((attempts ≤ℤ pos 0) × (v ≡ w)))
    → MeansConnected attempts w (r, v)
means_connected attempts w (ok a) v h = h refl
means_connected attempts w (err e) v h = tt
means_connected attempts w (panics t) v h = tt

-- Connecting ends after at most six calls to the broker for each attempt. If it reports no error,
-- then the connection, its channel and its deliveries are there, or the number of attempts was
-- zero or negative: then nothing was tried at all.
pub attempt_connect-MeansConnected :
    (env : Env) (attempts : ℤ) (w : World Link)
    → ((attempt_connect env attempts w).1.calls ≤ w.calls + 6 * rounds env attempts)
      × MeansConnected attempts w (attempt_connect env attempts w)
attempt_connect-MeansConnected env attempts w =
    let h = attempt_connect-IsConnected env attempts w in
    (
      h.0,
      means_connected attempts w (attempt_connect env attempts w).0
          (attempt_connect env attempts w).1 h.1,
    )
