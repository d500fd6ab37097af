-- ===== src/Servers/Lifetime.antt =====
-- A server from `Start` to `Shutdown`.
use thiam_api.Servers.{
  unsubscribe, nats_start, grpc_start, http_start, nats_shutdown, grpc_shutdown, http_shutdown, act,
  Notices, Goroutine, ended, at_stop, at_send, close_if, waiting, wait, waited, disconnect,
}
use thiam_api.Exec.{
  call, Outcome, Env, try, settle, ◌>>◌, pure, refused, done, lost, Exec, World, Result, ok, err,
  panics, continue, ◌>>=◌,
}
use thiam_api.Base.{
  refl, arith, ◌∷◌, ap, [], ◌≡◌, sym, ◌∙◌, ℕ, Bool, true, false, Option, none, some, List, ◌++◌,
  append_nil,
}
use thiam_api.Errors.{Error}
use thiam_api.Rpc.Lifecycle.{wait_errors, errors_of}
use thiam_api.Servers.Announced.{
  start-HasSent, HasSent, HasEnded, EndsOnStop, error_of, is_some, fresh,
}

-- The goroutine of `Start` and then `Shutdown`: where the first is in the end, and the errors that the
-- second joins, if it returns.
abbrev pub lifetime :
    Exec Notices Goroutine
    → (Goroutine → Exec Notices (Option (List Error)))
    → Exec Notices (Goroutine × Option (List Error))
lifetime m shutdown = do g ← m; errors ← shutdown g; pure (g, errors)

-- The second list has the first one as a part.
abbrev pub Contains : List Error → List Error → Type 0
Contains es fs = (before : List Error) × (after : List Error) × (fs ≡ before ++ (es ++ after))

-- `Shutdown` has returned, what was sent to `notify` is the goroutine's error, and `Shutdown` reports it,
-- unless it is that of a cancelled context.
abbrev pub Reports : Result (Goroutine × Option (List Error)) × World Notices → Type 0
Reports (ok (g, some es), v) =
    (v.state.sent ≡ errors_of (error_of g))
    × (v.state.is_closed ≡ is_some (error_of g))
    × Contains (wait_errors (error_of g)) es
Reports (ok (g, none), v) = ⊥
Reports (err e, v) = ⊥
Reports (panics t, v) = ⊥

-- A shutdown returns, sends nothing, and joins the error that it waited for.
Joined : Option Error → World Notices → Result (Option (List Error)) × World Notices → Type 0
Joined e v (ok (some es), u) =
    (u.state.sent ≡ v.state.sent)
    × (u.state.is_closed ≡ v.state.is_closed)
    × Contains (wait_errors e) es
Joined e v (ok none, u) = ⊥
Joined e v (err x, u) = ⊥
Joined e v (panics t, u) = ⊥

Joined-Reports :
    (g : Goroutine) (v : World Notices)
    → (q : Result (Option (List Error))) (u : World Notices) → v.state.sent ≡ errors_of (error_of g)
    → v.state.is_closed ≡ is_some (error_of g)
    → Joined (error_of g) v (q, u)
    → Reports (continue q (λ es. pure (g, es)) u)
unfolding Joined
Joined-Reports g v (ok (some es)) u s c j = (j.0 ∙ s, j.1 ∙ c, j.2)
Joined-Reports g v (ok none) u s c j = absurd j
Joined-Reports g v (err e) u s c j = absurd j
Joined-Reports g v (panics t) u s c j = absurd j

reported :
    (P : Goroutine → Type 0) (shutdown : Goroutine → Exec Notices (Option (List Error)))
    → (r : Result Goroutine) (v : World Notices)
    → ((g : Goroutine) (u : World Notices)
        → P g
        → u.state.is_stopped ≡ false
        → Joined (error_of g) u (shutdown g u))
    → HasSent P (r, v)
    → Reports (continue r (λ g. shutdown g >>= λ es. pure (g, es)) v)
reported P shutdown (ok g) v j h =
    Joined-Reports g v (shutdown g v).0 (shutdown g v).1 h.0 h.1 (j g v h.3 h.2)
reported P shutdown (err e) v j h = absurd h
reported P shutdown (panics t) v j h = absurd h

Contains-end : (es fs : List Error) → Contains es (fs ++ es)
Contains-end es fs = (fs, [], ap (λ l. fs ++ l) (sym (append_nil es)))

module _ (env : Env) where
  -- The shutdowns, with the outcome of their library's call.
  shutting_http : Outcome → Goroutine → Exec Notices (Option (List Error))
  shutting_http o g = do
    e ← try (settle env o (λ n. n))
    waiting g (λ x. pure (wait_errors e ++ wait_errors x))

  Joined-shutting_http :
      (o : Outcome) (g : Goroutine) (w : World Notices)
      → HasEnded g
      → Joined (error_of g) w (shutting_http o g w)
  unfolding shutting_http Joined
  Joined-shutting_http done (ended x) w h = (refl, refl, Contains-end _ (wait_errors none))
  Joined-shutting_http (refused e) (ended x) w h =
      (refl, refl, Contains-end _ (wait_errors (some e)))
  Joined-shutting_http (lost e) (ended x) w h = (refl, refl, Contains-end _ (wait_errors (some e)))
  Joined-shutting_http o at_stop w h = absurd h
  Joined-shutting_http o (at_send e) w h = absurd h

  Joined-http_shutdown :
      (g : Goroutine) (w : World Notices)
      → HasEnded g
      → w.state.is_stopped ≡ false
      → Joined (error_of g) w (http_shutdown env g w)
  unfolding http_shutdown shutting_http call
  Joined-http_shutdown g w h s = Joined-shutting_http (env.outcome w.calls) g w h

  Joined-grpc_shutdown :
      (g : Goroutine) (w : World Notices)
      → HasEnded g
      → w.state.is_stopped ≡ false
      → Joined (error_of g) w (grpc_shutdown env true g w)
  unfolding grpc_shutdown Joined
  Joined-grpc_shutdown (ended x) w h s = (refl, refl, Contains-end (wait_errors x) [])
  Joined-grpc_shutdown at_stop w h s = absurd h
  Joined-grpc_shutdown (at_send e) w h s = absurd h

  -- After the goroutine of the NATS server, with the outcome of `Unsubscribe`.
  disconnecting : Exec Notices (Option Error) → Option Error → Exec Notices (Option (List Error))
  disconnecting m x = do
    es ← do e ← m; act (λ n. record n { is_connected = false }); pure (wait_errors x ++ errors_of e)
    pure (some es)

  Joined-subscribed :
      (o : Outcome) (x : Option Error) (w : World Notices)
      → Joined x w (disconnecting (try (settle env o (λ n. n))) x w)
  unfolding disconnecting Joined
  Joined-subscribed done x w = (refl, refl, ([], [], refl))
  Joined-subscribed (refused e) x w = (refl, refl, ([], e ∷ [], refl))
  Joined-subscribed (lost e) x w = (refl, refl, ([], e ∷ [], refl))

  -- The server with `stop` closed.
  abbrev stopped : World Notices → World Notices
  stopped w = record w { state = record w.state { is_stopped = true } }

  Joined-disconnecting :
      (subscribed : Bool) (x : Option Error) (w : World Notices)
      → Joined x w (disconnecting (unsubscribe env subscribed) x (stopped w))
  unfolding disconnecting Joined call
  Joined-disconnecting false x w = (refl, refl, ([], [], refl))
  Joined-disconnecting true x w = Joined-subscribed (env.outcome w.calls) x (stopped w)

  Joined-waited :
      (g : Goroutine) (w : World Notices)
      → EndsOnStop g
      → Joined (error_of g) w (waited (wait g true) (disconnect env) (stopped w))
  unfolding disconnecting
  Joined-waited (ended x) w h = Joined-disconnecting w.state.is_subscribed x w
  Joined-waited at_stop w h = Joined-disconnecting w.state.is_subscribed none w
  Joined-waited (at_send e) w h = absurd h

  -- `Shutdown` of the NATS server, by whether `stop` is closed already.
  closing : Bool → Goroutine → Exec Notices (Option (List Error))
  closing is_stopped g = do close_if is_stopped; waiting g (disconnect env)

  Joined-closing :
      (b : Bool) (g : Goroutine) (w : World Notices)
      → b ≡ false
      → EndsOnStop g
      → Joined (error_of g) w (closing b g w)
  unfolding closing
  Joined-closing true g w s h = absurd (ground (arith, s))
  Joined-closing false g w s h = Joined-waited g w h

  Joined-nats_shutdown :
      (g : Goroutine) (w : World Notices)
      → EndsOnStop g
      → w.state.is_stopped ≡ false
      → Joined (error_of g) w (nats_shutdown env g w)
  unfolding nats_shutdown closing call
  Joined-nats_shutdown g w h s = Joined-closing w.state.is_stopped g w s h

  -- Of the HTTP, the gRPC and the NATS server, from `New` on: what the goroutine of `Start` fails with is
  -- sent to `notify` once, after which the channel is closed, and nothing is sent if it does not fail;
  -- the `Shutdown` that follows does not wait for ever, neither for a goroutine that receives from `stop`
  -- nor for one that sends to `notify`, and the errors that it joins contain the goroutine's, unless this
  -- is that of a cancelled context. The pending calls of the gRPC server end.
  pub lifetime-Reports :
      (n : ℕ)
      → Reports (lifetime (http_start env) (http_shutdown env) (fresh n))
        × Reports (lifetime (grpc_start env) (grpc_shutdown env true) (fresh n))
        × Reports (lifetime (nats_start env) (nats_shutdown env) (fresh n))
  lifetime-Reports n =
      let s = start-HasSent env n in
      (
        reported HasEnded (http_shutdown env) _ _ Joined-http_shutdown s.0,
        reported HasEnded (grpc_shutdown env true) _ _ Joined-grpc_shutdown s.1,
        reported EndsOnStop (nats_shutdown env) _ _ Joined-nats_shutdown s.2,
      )
