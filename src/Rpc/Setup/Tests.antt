-- ===== src/Rpc/Setup/Tests.antt =====
-- A server from `New` to `Shutdown`, at a concrete input.
use thiam_api.Base.{refl, true, false, [], ◌∷◌, List}
use thiam_api.Base.Int.{pos}
use thiam_api.Exec.{World, call}
use thiam_api.Rpc.Connection.{Link, attempt_connect, connect_loop, connect, assigning}
use thiam_api.Rpc.Lifecycle.{Runner, new_runner, reconnecting, here, next, start, lose_deliveries}
use thiam_api.Rpc.Lifecycle.Sound.{calm}
use thiam_api.Rpc.Lifecycle.Finish.{CanEnd}
use thiam_api.Rpc.Setup.{
  RpcOption, with_timeout, with_conn_attempts, set_rpc_options, set_rpc_option, default_rpc,
  new_rpc_server,
}
use thiam_api.Rpc.Setup.Started.{new_rpc_server-CanEnd}

abbrev unlinked : World Link
unlinked = record {
  calls = 0;
  state = record { connection = false; channel = false; delivery = false };
}

abbrev options : List RpcOption
options = with_conn_attempts (pos 0) ∷ with_timeout 7 ∷ with_conn_attempts (pos 3) ∷ []

-- The deliveries were closed.
abbrev losing : Runner
losing = record (new_runner 1 (pos 3) (new_rpc_server calm options unlinked).1.state) {
  place = reconnecting;
}

new_rpc_server-CanEnd_example : CanEnd false true losing
unfolding new_rpc_server set_rpc_options set_rpc_option attempt_connect connect_loop connect
    assigning call
new_rpc_server-CanEnd_example =
    new_rpc_server-CanEnd calm options unlinked (set_rpc_options options default_rpc) false 2 losing
      refl refl (next (next here (start refl)) (lose_deliveries refl)) (λ h. h)
