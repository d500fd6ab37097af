-- ===== src/Rpc/Setup.antt =====
-- pkg/rabbitmq/rmq_rpc: `New` of server and client with their options (server/options.go and
-- client/options.go, which are the same).
pub mod Started
mod Tests
use thiam_api.Base.{ℕ, List, [], ◌∷◌, String}
use thiam_api.Base.Int.{ℤ, pos}
use thiam_api.Exec.{Env, Exec, pure, ◌>>=◌, ◌>>◌, wrapping}
use thiam_api.Rpc.Connection.{Link, attempt_connect}

-- What the options set; durations are in nanoseconds.
pub record RpcSettings : Type 0 where
  pub timeout : ℕ
  pub wait_time : ℕ
  pub attempts : ℤ

pub data RpcOption : Type 0 where
  with_timeout with_conn_wait_time : ℕ → RpcOption
  with_conn_attempts : ℤ → RpcOption

unfoldable pub set_rpc_option : RpcOption → RpcSettings → RpcSettings
set_rpc_option (with_timeout d) s = record s { timeout = d }
set_rpc_option (with_conn_wait_time d) s = record s { wait_time = d }
set_rpc_option (with_conn_attempts n) s = record s { attempts = n }

unfoldable pub set_rpc_options : List RpcOption → RpcSettings → RpcSettings
unfolding set_rpc_option
set_rpc_options [] s = s
set_rpc_options (o ∷ os) s = set_rpc_options os (set_rpc_option o s)

abbrev pub default_rpc : RpcSettings
default_rpc = record { timeout = 2000000000; wait_time = 5000000000; attempts = pos 10 }

module _ (env : Env) where
  abbrev pub connect_with : String → RpcSettings → Exec Link RpcSettings
  connect_with text s = do wrapping text (attempt_connect env s.attempts); pure s

  -- `New` of the server
  unfoldable pub new_rpc_server : List RpcOption → Exec Link RpcSettings
  unfolding attempt_connect set_rpc_options
  new_rpc_server opts =
      connect_with "rmq_rpc server - NewServer - s.conn.AttemptConnect: "
        (set_rpc_options opts default_rpc)

  -- `New` of the client
  unfoldable pub new_rpc_client : List RpcOption → Exec Link RpcSettings
  unfolding attempt_connect set_rpc_options
  new_rpc_client opts =
      connect_with "rmq_rpc client - NewClient - c.conn.AttemptConnect: "
        (set_rpc_options opts default_rpc)
