-- ===== src/Rpc/Lifecycle/Tests.antt =====
-- Servers and clients that are shut down, at concrete states.
use thiam_api.Base.{refl, true, false}
use thiam_api.Base.Int.{pos}
use thiam_api.Errors.{Error, leaf}
use thiam_api.Rpc.Connection.{Link}
use thiam_api.Rpc.Lifecycle.{Runner, new_runner, failing, waiting, here, next, shut}
use thiam_api.Rpc.Lifecycle.Finish.{IsFinished}
use thiam_api.Rpc.Lifecycle.Hang.{shutdown_hangs, shutdown_never_returns}

abbrev linked : Link
linked = record { connection = true; channel = true; delivery = true }

abbrev broken : Error
broken = leaf 1 "dial tcp: connection refused"

abbrev server : Runner
server = new_runner 1 (pos 10) linked

abbrev client : Runner
client = record (new_runner 0 (pos 10) linked) { place = failing broken }

abbrev closing_client : Runner
closing_client = record client { waiter = waiting; is_stopped = true }

shutdown_hangs_example : ¬ IsFinished closing_client.waiter
shutdown_hangs_example =
    shutdown_hangs broken client (record { blocked = refl; no_room = refl; before = tt })
      closing_client (next here (shut refl))

abbrev lost : Runner
lost = record server {
  place = failing broken;
  link = record { connection = false; channel = true; delivery = true };
}

abbrev shut_down : Runner → Runner
shut_down s = record s { waiter = waiting; is_stopped = true }

shutdown_never_returns_example : ¬ IsFinished (shut_down lost).waiter
shutdown_never_returns_example =
    shutdown_never_returns false broken lost refl refl (λ h. h) (shut_down lost)
      (next here (shut refl))
