-- ===== src/App/Ends.antt =====
-- When `Run` returns, and what it has done when it exits.
use thiam_api.App.Order.{script, script-Takes, Takes-run_app}
use thiam_api.Exec.Faults.{NoFaults}
use thiam_api.Base.{ap, ◌∙◌, sym, ◌++◌, subst, ◌≡◌, refl, Bool, true, false, [], ◌∷◌, String, arith}
use thiam_api.Errors.{Error}
use thiam_api.Exec.{Env, Exec, World, Result, ok, err, panics, ◌>>◌, call, continue}
use thiam_api.Exec.Preserves.{Preserves, Preserves-wrapping, Preserves-call}
use thiam_api.App.{
  run_app, serve, shutdown, Part, Action, connect, start, shut_down, close, cancel, Trace, append,
  act, deferred, deferring, connecting, shutting_down, when,
}
use thiam_api.Config.{OutboxConfig}

-- `m` returns.
pub record Ends (m : Exec Trace (Unit {0})) : Type 0 where
  pub ends : (w : World Trace) → (m w).0 ≡ ok tt

-- `m` does not exit.
pub record Stays (m : Exec Trace (Unit {0})) : Type 0 where
  pub stays : (w : World Trace) (e : Error) → ¬ ((m w).0 ≡ err e)

abbrev pub OnlyConnects : Trace → Type 0
OnlyConnects [] = Unit {0}
OnlyConnects (connect p ∷ t) = OnlyConnects t
OnlyConnects (a ∷ t) = ⊥

-- If `m` exits, it has taken no action but connects.
pub record Exits (m : Exec Trace (Unit {0})) : Type 0 where
  pub exits :
      (w : World Trace) (e : Error)
      → (m w).0 ≡ err e
      → OnlyConnects w.state
      → OnlyConnects (m w).1.state

continue-Ends :
    (n : Exec Trace (Unit {0})) (r : Result (Unit {0})) (v : World Trace)
    → r ≡ ok tt
    → Ends n
    → (continue r (λ a. n) v).0 ≡ ok tt
continue-Ends n (ok a) v h k = k.ends v
continue-Ends n (err e) v h k = absurd (ground (arith, h))
continue-Ends n (panics t) v h k = absurd (ground (arith, h))

continue-Stays :
    (n : Exec Trace (Unit {0})) (r : Result (Unit {0})) (v : World Trace) (e : Error)
    → ¬ (r ≡ err e)
    → Stays n
    → ¬ ((continue r (λ a. n) v).0 ≡ err e)
continue-Stays n (ok a) v e h k = k.stays v e
continue-Stays n (err x) v e h k = h
continue-Stays n (panics t) v e h k = λ q. absurd (ground (arith, q))

continue-Exits :
    (n : Exec Trace (Unit {0})) (r : Result (Unit {0})) (v : World Trace) (e : Error)
    → OnlyConnects v.state
    → Exits n
    → (continue r (λ a. n) v).0 ≡ err e
    → OnlyConnects (continue r (λ a. n) v).1.state
continue-Exits n (ok a) v e h k q = k.exits v e q h
continue-Exits n (err x) v e h k q = h
continue-Exits n (panics t) v e h k q = h

deferred-Ends :
    (a : Action) (r : Result (Unit {0})) (v : World Trace)
    → r ≡ ok tt
    → (deferred r (act a) v).0 ≡ ok tt
deferred-Ends a (ok x) v h = refl
deferred-Ends a (err e) v h = h
deferred-Ends a (panics t) v h = h

deferred-Stays :
    (a : Action) (r : Result (Unit {0})) (v : World Trace) (e : Error)
    → ¬ (r ≡ err e)
    → ¬ ((deferred r (act a) v).0 ≡ err e)
deferred-Stays a (ok x) v e h = λ q. absurd (ground (arith, q))
deferred-Stays a (err x) v e h = h
deferred-Stays a (panics t) v e h = λ q. absurd (ground (arith, q))

deferred-Exits :
    (a : Action) (s : Trace) (r : Result (Unit {0})) (v : World Trace) (e : Error)
    → (r ≡ err e → OnlyConnects s → OnlyConnects v.state)
    → (deferred r (act a) v).0 ≡ err e
    → OnlyConnects s
    → OnlyConnects (deferred r (act a) v).1.state
deferred-Exits a s (ok x) v e h q c = absurd (ground (arith, q))
deferred-Exits a s (err x) v e h q c = h q c
deferred-Exits a s (panics t) v e h q c = absurd (ground (arith, q))

module _ {m n : Exec Trace (Unit {0})} where
  Ends-then : Ends m → Ends n → Ends (m >> n)
  Ends-then h k = record { ends = λ w. continue-Ends n (m w).0 (m w).1 (h.ends w) k }

  Stays-then : Stays m → Stays n → Stays (m >> n)
  Stays-then h k = record { stays = λ w e. continue-Stays n (m w).0 (m w).1 e (h.stays w e) k }

  Exits-then : Preserves OnlyConnects m → Exits n → Exits (m >> n)
  Exits-then h k = record {
    exits = λ w e q c. continue-Exits n (m w).0 (m w).1 e (h.holds w c) k q;
  }

module _ {m : Exec Trace (Unit {0})} where
  Ends-deferring : (a : Action) → Ends m → Ends (deferring (act a) m)
  Ends-deferring a h = record { ends = λ w. deferred-Ends a (m w).0 (m w).1 (h.ends w) }

  Stays-deferring : (a : Action) → Stays m → Stays (deferring (act a) m)
  Stays-deferring a h = record { stays = λ w e. deferred-Stays a (m w).0 (m w).1 e (h.stays w e) }

  Exits-deferring : (a : Action) → Exits m → Exits (deferring (act a) m)
  Exits-deferring a h = record {
    exits = λ w e. deferred-Exits a w.state (m w).0 (m w).1 e (h.exits w e);
  }

  Exits-Stays : Stays m → Exits m
  Exits-Stays h = record { exits = λ w e q. absurd (h.stays w e q) }

Ends-act : (a : Action) → Ends (act a)
Ends-act a = record { ends = λ w. refl }

Stays-act : (a : Action) → Stays (act a)
Stays-act a = record { stays = λ w e q. absurd (ground (arith, q)) }

OnlyConnects-append : (p : Part) (t : Trace) → OnlyConnects t → OnlyConnects (append (connect p) t)
OnlyConnects-append p [] h = tt
OnlyConnects-append p (connect q ∷ t) h = OnlyConnects-append p t h
OnlyConnects-append p (start q ∷ t) h = h
OnlyConnects-append p (shut_down q ∷ t) h = h
OnlyConnects-append p (close q ∷ t) h = h
OnlyConnects-append p (cancel ∷ t) h = h

module _ (env : Env) (crashes : Part → Bool) where
  Ends-when : {m : Exec Trace (Unit {0})} (b : Bool) → Ends m → Ends (when env crashes b m)
  Ends-when true h = h
  Ends-when false h = record { ends = λ w. refl }

  Stays-when : {m : Exec Trace (Unit {0})} (b : Bool) → Stays m → Stays (when env crashes b m)
  Stays-when true h = h
  Stays-when false h = record { stays = λ w e q. absurd (ground (arith, q)) }

  Preserves-when :
      {m : Exec Trace (Unit {0})} (b : Bool)
      → Preserves OnlyConnects m
      → Preserves OnlyConnects (when env crashes b m)
  Preserves-when true h = h
  Preserves-when false h = record { holds = λ w c. c }

  Stays-shutting_down : (a : Action) (p : Part) → Stays (shutting_down env crashes a p)
  unfolding call
  Stays-shutting_down a p = record { stays = λ w e q. absurd (ground (arith, q)) }

  Preserves-connecting :
      (text : String) (p : Part) → Preserves OnlyConnects (connecting env crashes text p)
  Preserves-connecting text p =
      Preserves-wrapping text _ (Preserves-call env (append (connect p)) (OnlyConnects-append p))

  Stays-shutdown : (cfg : OutboxConfig) → Stays (shutdown env crashes cfg)
  unfolding shutdown
  Stays-shutdown cfg = search (Stays-then, Stays-act, Stays-when, Stays-shutting_down) depth 12

  Stays-serve : (cfg : OutboxConfig) → Stays (serve env crashes cfg)
  unfolding serve
  Stays-serve cfg =
      search (Stays-then, Stays-act, Stays-when, Stays-deferring, Stays-shutdown) depth 12

  Exits-run_app : (cfg : OutboxConfig) → Exits (run_app env crashes cfg)
  unfolding run_app
  Exits-run_app cfg =
      search
        (
          Exits-then, Exits-deferring, Exits-Stays, Stays-serve, Preserves-when,
          Preserves-connecting,
        )
        depth 12

module _ (env : Env) (crashes : Part → Bool) (faultless : NoFaults env)
    (sane : (p : Part) → crashes p ≡ false) where
  Ends-connecting : (text : String) (p : Part) → Ends (connecting env crashes text p)
  unfolding call
  Ends-connecting text p = record { ends = λ w. ground (arith, faultless w.calls) }

  Ends-shutting_down : (a : Action) (p : Part) → Ends (shutting_down env crashes a p)
  unfolding call
  Ends-shutting_down a p = record { ends = λ w. ground (arith, sane p) }

  Ends-shutdown : (cfg : OutboxConfig) → Ends (shutdown env crashes cfg)
  unfolding shutdown
  Ends-shutdown cfg = search (Ends-then, Ends-act, Ends-when, Ends-shutting_down) depth 12

  Ends-serve : (cfg : OutboxConfig) → Ends (serve env crashes cfg)
  unfolding serve
  Ends-serve cfg = search (Ends-then, Ends-act, Ends-when, Ends-deferring, Ends-shutdown) depth 12

  pub Ends-run_app : (cfg : OutboxConfig) → Ends (run_app env crashes cfg)
  unfolding run_app
  Ends-run_app cfg =
      search (Ends-then, Ends-when, Ends-deferring, Ends-connecting, Ends-serve) depth 12

-- A `Run` that returns has connected, started, shut down and closed its parts in the one order of the
-- script, with the publisher and the worker if the outbox is enabled, whichever shutdowns reported an
-- error.
pub run_app-script :
    (env : Env) (crashes : Part → Bool) (cfg : OutboxConfig) (w : World Trace)
    → (run_app env crashes cfg w).0 ≡ ok tt
    → (run_app env crashes cfg w).1.state ≡ w.state ++ script cfg.enabled
run_app-script env crashes cfg w e =
    (Takes-run_app env crashes cfg).holds w e
    ∙ ap (λ t. w.state ++ t) (sym (script-Takes env crashes cfg.enabled))

-- A `Run` that exits, since a constructor failed, has started nothing: all it did was to connect.
run_app-OnlyConnects :
    (env : Env) (crashes : Part → Bool) (cfg : OutboxConfig) (w : World Trace) (e : Error)
    → w.state ≡ []
    → (run_app env crashes cfg w).0 ≡ err e
    → OnlyConnects (run_app env crashes cfg w).1.state
run_app-OnlyConnects env crashes cfg w e s q =
    (Exits-run_app env crashes cfg).exits w e q (subst OnlyConnects (sym s) tt)
