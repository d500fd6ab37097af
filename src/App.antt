-- ===== src/App.antt =====
-- internal/app/app.go: `Run`, as the actions that it takes in their order. The result `err` is the exit
-- of the process by `l.Fatal`, with the error that was logged: deferred calls are not run then, as they
-- are after a return or a panic. What ends the wait of `Run` is only logged.
pub mod Order
pub mod Ends
pub mod Migrate
pub mod Addresses
pub mod Main
mod Tests
use thiam_api.Base.{Bool, List, [], ◌∷◌, ◌++◌, String, if◌then◌else◌}
use thiam_api.Base.Int.{int64_times}
use thiam_api.Config.{Config, OutboxConfig}
use thiam_api.Servers.Setup.{
  HttpServer, port, prefork, new_http_server, GrpcServer, grpc_port, new_grpc_server,
}
use thiam_api.Exec.{
  Env, Exec, Result, ok, err, panics, pure, panic, ◌>>=◌, ◌>>◌, wrapping, ignoring, call, attempt,
}
use thiam_api.Outbox.Worker.{
  Worker, new_worker, with_poll_interval, with_batch_size, with_max_retries,
}

pub data Part : Type 0 where
  database publisher rmq_server nats_server grpc_server http_server outbox_worker : Part

-- A part is connected by its constructor, started, shut down or stopped, closed; the context of the
-- worker is cancelled.
pub data Action : Type 0 where
  connect start shut_down close : Part → Action
  cancel : Action

-- The worker that `Run` makes.
unfoldable pub configured_worker : OutboxConfig → Worker
unfolding new_worker
configured_worker cfg = new_worker (
    with_poll_interval (int64_times cfg.poll_interval 1000000)
    ∷ with_batch_size cfg.batch_size
    ∷ with_max_retries cfg.max_retries
    ∷ [])

-- The HTTP and the gRPC server that `Run` makes.
unfoldable pub configured_http : Config → HttpServer
unfolding new_http_server
configured_http cfg = new_http_server (port cfg.http.port ∷ prefork cfg.http.use_prefork_mode ∷ [])

unfoldable pub configured_grpc : Config → GrpcServer
unfolding new_grpc_server
configured_grpc cfg = new_grpc_server (grpc_port cfg.grpc.port ∷ [])

abbrev pub Trace : Type 0
Trace = List Action

abbrev pub append : Action → Trace → Trace
append a trace = trace ++ a ∷ []

abbrev pub act : Action → Exec Trace (Unit {0})
act a w = (ok tt, record w { state = append a w.state })

-- `defer d`, in front of the rest `m` of the function.
abbrev pub deferred : Result (Unit {0}) → Exec Trace (Unit {0}) → Exec Trace (Unit {0})
deferred (ok a) d w = d w
deferred (err e) d w = (err e, w)
deferred (panics t) d w = (d >> panic t) w

abbrev pub deferring : Exec Trace (Unit {0}) → Exec Trace (Unit {0}) → Exec Trace (Unit {0})
deferring d m w = let (r, v) = m w in deferred r d v

-- `crashes` says which shutdowns panic.
module _ (env : Env) (crashes : Part → Bool) where
  -- A constructor that connects, and the exit if it fails.
  abbrev pub connecting : String → Part → Exec Trace (Unit {0})
  connecting text p = wrapping text (call env (append (connect p)))

  -- A shutdown, whose error is only logged.
  abbrev pub shutting_down : Action → Part → Exec Trace (Unit {0})
  shutting_down a p = do
    act a
    if crashes p
        then panic "invalid memory address or nil pointer dereference"
        else ignoring (attempt env)

  abbrev pub when : Bool → Exec Trace (Unit {0}) → Exec Trace (Unit {0})
  when b m = if b then m else pure tt

  -- From `http.Server.Shutdown` on.
  unfoldable pub shutdown : OutboxConfig → Exec Trace (Unit {0})
  unfolding call
  shutdown cfg = do
    shutting_down (shut_down http_server) http_server
    shutting_down (shut_down grpc_server) grpc_server
    shutting_down (shut_down rmq_server) rmq_server
    shutting_down (shut_down nats_server) nats_server
    when cfg.enabled (act (shut_down outbox_worker))
    when cfg.enabled (shutting_down (close publisher) publisher)

  -- From `rmqServer.Start` on.
  unfoldable pub serve : OutboxConfig → Exec Trace (Unit {0})
  unfolding shutdown
  serve cfg = do
    act (start rmq_server)
    act (start nats_server)
    act (start grpc_server)
    act (start http_server)
    deferring (act cancel) do when cfg.enabled (act (start outbox_worker)); shutdown cfg

  -- `Run`
  unfoldable pub run_app : OutboxConfig → Exec Trace (Unit {0})
  unfolding serve call
  run_app cfg = do
    connecting "app - Run - postgres.New: " database
    deferring (act (close database)) do
      when cfg.enabled (connecting "app - Run - eventbus.NewRabbitMQPublisher: " publisher)
      connecting "app - Run - rmqServer - server.New: " rmq_server
      connecting "app - Run - natsServer - server.New: " nats_server
      serve cfg
