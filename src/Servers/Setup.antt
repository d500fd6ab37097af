-- ===== src/Servers/Setup.antt =====
-- `New` with its options: pkg/httpserver, pkg/grpcserver, and both packages of pkg/nats/nats_rpc.
use Prim.Native.String.{◌++◌}
use thiam_api.Base.{ℕ, ◌+◌, Bool, true, false, Option, none, some, List, [], ◌∷◌, String}
use thiam_api.Exec.{
  Env, Exec, Outcome, done, refused, lost, World, Result, ok, err, pure, ◌>>◌, wrapping,
}

-- `net.JoinHostPort("", port)`
abbrev pub join_port : String → String
join_port port = ":" ++ port

-- What `New` hands to fiber. Durations are in nanoseconds.
pub record FiberConfig : Type 0 where
  pub prefork : Bool
  pub read_timeout : ℕ
  pub write_timeout : ℕ

-- `httpserver.Server`
pub record HttpServer : Type 0 where
  pub app : Option FiberConfig
  pub address : String
  pub prefork : Bool
  pub read_timeout : ℕ
  pub write_timeout : ℕ
  pub shutdown_timeout : ℕ

pub data HttpOption : Type 0 where
  port : String → HttpOption
  prefork : Bool → HttpOption
  read_timeout write_timeout shutdown_timeout : ℕ → HttpOption

unfoldable pub set_http_option : HttpOption → HttpServer → HttpServer
set_http_option (port p) s = record s { address = join_port p }
set_http_option (prefork b) s = record s { prefork = b }
set_http_option (read_timeout d) s = record s { read_timeout = d }
set_http_option (write_timeout d) s = record s { write_timeout = d }
set_http_option (shutdown_timeout d) s = record s { shutdown_timeout = d }

unfoldable pub set_http_options : List HttpOption → HttpServer → HttpServer
unfolding set_http_option
set_http_options [] s = s
set_http_options (o ∷ os) s = set_http_options os (set_http_option o s)

abbrev pub default_http : HttpServer
default_http = record {
  app = none;
  address = ":80";
  prefork = false;
  read_timeout = 5000000000;
  write_timeout = 5000000000;
  shutdown_timeout = 3000000000;
}

abbrev pub with_app : HttpServer → HttpServer
with_app s = record s {
  app = some (record {
    prefork = s.prefork;
    read_timeout = s.read_timeout;
    write_timeout = s.write_timeout;
  });
}

-- `httpserver.New`
unfoldable pub new_http_server : List HttpOption → HttpServer
unfolding set_http_options
new_http_server opts = with_app (set_http_options opts default_http)

-- `grpcserver.Server`
pub record GrpcServer : Type 0 where
  pub address : String

pub data GrpcOption : Type 0 where
  grpc_port : String → GrpcOption

unfoldable pub set_grpc_options : List GrpcOption → GrpcServer → GrpcServer
set_grpc_options [] s = s
set_grpc_options (grpc_port p ∷ os) s = set_grpc_options os (record s { address = join_port p })

-- `grpcserver.New`
unfoldable pub new_grpc_server : List GrpcOption → GrpcServer
unfolding set_grpc_options
new_grpc_server opts = set_grpc_options opts (record { address = ":80" })

-- `Server` and `Client` of nats_rpc: the subject, and the time-out.
pub record NatsPeer : Type 0 where
  pub subject : String
  pub timeout : ℕ

pub data NatsOption : Type 0 where
  nats_timeout : ℕ → NatsOption

unfoldable pub set_nats_options : List NatsOption → NatsPeer → NatsPeer
set_nats_options [] s = s
set_nats_options (nats_timeout d ∷ os) s = set_nats_options os (record s { timeout = d })

-- The state says whether the connection is open.
module _ (env : Env) where
  abbrev pub dialled : Outcome → World Bool → Result (Unit {0}) × World Bool
  dialled done w = (ok tt, record { calls = w.calls + 1; state = true })
  dialled (refused e) w = (err e, record { calls = w.calls + 1; state = w.state })
  dialled (lost e) w = (err e, record { calls = w.calls + 1; state = w.state })

  -- `nats.Connect`
  unfoldable pub nats_connect : Exec Bool (Unit {0})
  nats_connect w = dialled (env.outcome w.calls) w

  abbrev pub new_peer : String → String → List NatsOption → Exec Bool NatsPeer
  new_peer text subject opts = do
    wrapping text nats_connect
    pure (set_nats_options opts (record { subject = subject; timeout = 2000000000 }))

  -- `New` of the server
  unfoldable pub new_nats_server : String → List NatsOption → Exec Bool NatsPeer
  unfolding nats_connect set_nats_options
  new_nats_server = new_peer "nats_rpc server - NewServer - nats.Connect: "

  -- `New` of the client
  unfoldable pub new_nats_client : String → List NatsOption → Exec Bool NatsPeer
  unfolding nats_connect set_nats_options
  new_nats_client = new_peer "nats_rpc client - NewClient - nats.Connect: "

  -- `Client.Shutdown`, which reports nothing.
  unfoldable pub nats_client_shutdown : Exec Bool (Unit {0})
  nats_client_shutdown w = (ok tt, record w { state = false })
