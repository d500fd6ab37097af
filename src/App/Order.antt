-- ===== src/App/Order.antt =====
-- The order in which `Run` starts and stops its parts.
use thiam_api.Base.{
  ◌≡◌, refl, ap, Bool, true, false, [], ◌∷◌, ◌++◌, String, if◌then◌else◌, arith, append_assoc,
  append_nil, ◌∙◌, sym,
}
use thiam_api.Exec.{Env, Exec, World, Result, ok, err, panics, ◌>>◌, call, continue}
use thiam_api.App.{
  close, cancel, outbox_worker, nats_server, grpc_server, publisher, rmq_server, http_server,
  database, run_app, serve, start, shutdown, shut_down, Part, Action, connect, Trace, append, act,
  deferred, deferring, connecting, shutting_down, when,
}
use thiam_api.Config.{OutboxConfig}

-- If `m` returns, it has taken the actions `t`.
pub record Takes (t : Trace) (m : Exec Trace (Unit {0})) : Type 0 where
  pub holds : (w : World Trace) → (m w).0 ≡ ok tt → (m w).1.state ≡ w.state ++ t

continue-Takes :
    (s t u : Trace) (n : Exec Trace (Unit {0})) (r : Result (Unit {0})) (v : World Trace)
    → (r ≡ ok tt → v.state ≡ s ++ t)
    → Takes u n
    → (continue r (λ a. n) v).0 ≡ ok tt
    → (continue r (λ a. n) v).1.state ≡ s ++ (t ++ u)
continue-Takes s t u n (ok a) v h k e = k.holds v e ∙ ap (λ x. x ++ u) (h refl) ∙ append_assoc s t u
continue-Takes s t u n (err x) v h k e = absurd (ground (arith, e))
continue-Takes s t u n (panics x) v h k e = absurd (ground (arith, e))

Takes-then :
    {t u : Trace} {m n : Exec Trace (Unit {0})} → Takes t m → Takes u n → Takes (t ++ u) (m >> n)
Takes-then {t = t} {u = u} {m = m} {n = n} h k = record {
  holds = λ w. continue-Takes w.state t u n (m w).0 (m w).1 (h.holds w) k;
}

Takes-act : (a : Action) → Takes (a ∷ []) (act a)
Takes-act a = record { holds = λ w e. refl }

deferred-Takes :
    (s t : Trace) (a : Action) (r : Result (Unit {0})) (v : World Trace)
    → (r ≡ ok tt → v.state ≡ s ++ t)
    → (deferred r (act a) v).0 ≡ ok tt
    → (deferred r (act a) v).1.state ≡ s ++ (t ++ a ∷ [])
deferred-Takes s t a (ok x) v h e = ap (append a) (h refl) ∙ append_assoc s t (a ∷ [])
deferred-Takes s t a (err x) v h e = absurd (ground (arith, e))
deferred-Takes s t a (panics x) v h e = absurd (ground (arith, e))

Takes-deferring :
    {t : Trace} {m : Exec Trace (Unit {0})} (a : Action)
    → Takes t m
    → Takes (t ++ a ∷ []) (deferring (act a) m)
Takes-deferring {t = t} {m = m} a h = record {
  holds = λ w. deferred-Takes w.state t a (m w).0 (m w).1 (h.holds w);
}

abbrev pub when_enabled : Bool → Trace → Trace
when_enabled b t = if b then t else []

module _ (env : Env) (crashes : Part → Bool) where
  Takes-connecting :
      (text : String) (p : Part) → Takes (connect p ∷ []) (connecting env crashes text p)
  unfolding call
  Takes-connecting text p = record { holds = λ w e. ground (arith, e) }

  Takes-shutting_down : (a : Action) (p : Part) → Takes (a ∷ []) (shutting_down env crashes a p)
  unfolding call
  Takes-shutting_down a p = record { holds = λ w e. ground (arith, e) }

  Takes-when :
      {t : Trace} {m : Exec Trace (Unit {0})} (b : Bool)
      → Takes t m
      → Takes (when_enabled b t) (when env crashes b m)
  Takes-when true h = h
  Takes-when false h = record { holds = λ w e. sym (append_nil w.state) }

  abbrev pub stops : Bool → Trace
  stops b =
      shut_down http_server
      ∷ shut_down grpc_server
      ∷ shut_down rmq_server
      ∷ shut_down nats_server
      ∷ (when_enabled b (shut_down outbox_worker ∷ []) ++ when_enabled b (close publisher ∷ []))

  Takes-shutdown : (cfg : OutboxConfig) → Takes (stops cfg.enabled) (shutdown env crashes cfg)
  unfolding shutdown
  Takes-shutdown cfg = Takes-then (Takes-shutting_down (shut_down http_server) http_server) (
      Takes-then (Takes-shutting_down (shut_down grpc_server) grpc_server) (
        Takes-then (Takes-shutting_down (shut_down rmq_server) rmq_server) (
          Takes-then (Takes-shutting_down (shut_down nats_server) nats_server) (
            Takes-then (Takes-when cfg.enabled (Takes-act (shut_down outbox_worker)))
              (Takes-when cfg.enabled (Takes-shutting_down (close publisher) publisher))))))

  abbrev pub serves : Bool → Trace
  serves b =
      start rmq_server
      ∷ start nats_server
      ∷ start grpc_server
      ∷ start http_server
      ∷ ((when_enabled b (start outbox_worker ∷ []) ++ stops b) ++ cancel ∷ [])

  Takes-serve : (cfg : OutboxConfig) → Takes (serves cfg.enabled) (serve env crashes cfg)
  unfolding serve
  Takes-serve cfg = Takes-then (Takes-act (start rmq_server)) (
      Takes-then (Takes-act (start nats_server)) (
        Takes-then (Takes-act (start grpc_server)) (
          Takes-then (Takes-act (start http_server)) (
            Takes-deferring cancel (
              Takes-then (Takes-when cfg.enabled (Takes-act (start outbox_worker)))
                (Takes-shutdown cfg))))))

  pub Takes-run_app :
      (cfg : OutboxConfig)
      → Takes
          (connect database
            ∷ ((when_enabled cfg.enabled (connect publisher ∷ [])
                  ++ connect rmq_server ∷ connect nats_server ∷ serves cfg.enabled)
                ++ close database ∷ []))
          (run_app env crashes cfg)
  unfolding run_app
  Takes-run_app cfg = Takes-then (Takes-connecting "app - Run - postgres.New: " database) (
      Takes-deferring (close database) (
        Takes-then
          (Takes-when cfg.enabled
            (Takes-connecting "app - Run - eventbus.NewRabbitMQPublisher: " publisher))
          (Takes-then (Takes-connecting "app - Run - rmqServer - server.New: " rmq_server) (
            Takes-then (Takes-connecting "app - Run - natsServer - server.New: " nats_server)
              (Takes-serve cfg)))))

-- What `Run` is to do: with the outbox, or without.
abbrev pub script : Bool → Trace
script true =
    connect database
    ∷ connect publisher
    ∷ connect rmq_server
    ∷ connect nats_server
    ∷ start rmq_server
    ∷ start nats_server
    ∷ start grpc_server
    ∷ start http_server
    ∷ start outbox_worker
    ∷ shut_down http_server
    ∷ shut_down grpc_server
    ∷ shut_down rmq_server
    ∷ shut_down nats_server
    ∷ shut_down outbox_worker
    ∷ close publisher
    ∷ cancel
    ∷ close database
    ∷ []
script false =
    connect database
    ∷ connect rmq_server
    ∷ connect nats_server
    ∷ start rmq_server
    ∷ start nats_server
    ∷ start grpc_server
    ∷ start http_server
    ∷ shut_down http_server
    ∷ shut_down grpc_server
    ∷ shut_down rmq_server
    ∷ shut_down nats_server
    ∷ cancel
    ∷ close database
    ∷ []

pub script-Takes :
    (env : Env) (crashes : Part → Bool) (b : Bool)
    → script b
      ≡ connect database
        ∷ ((when_enabled b (connect publisher ∷ [])
              ++ connect rmq_server ∷ connect nats_server ∷ serves env crashes b)
            ++ close database ∷ [])
script-Takes env crashes true = refl
script-Takes env crashes false = refl
