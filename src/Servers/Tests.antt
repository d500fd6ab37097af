-- ===== src/Servers/Tests.antt =====
-- Servers at concrete inputs.
use thiam_api.Base.{◌==◌, true, if◌then◌else◌}
use thiam_api.Errors.{leaf}
use thiam_api.Exec.{Env, done, refused}
use thiam_api.Servers.{
  http_start, grpc_start, nats_start, http_shutdown, grpc_shutdown, nats_shutdown,
}
use thiam_api.Servers.Announced.{fresh}
use thiam_api.Servers.Lifetime.{lifetime, Reports, lifetime-Reports}

-- The port is taken.
abbrev env : Env
env = record {
  outcome = λ n. if n == 0 then refused (leaf 1 "listen tcp :80: address already in use") else done;
  now = λ n. n;
  violation = leaf 2 "never";
  fresh = λ n. n;
}

lifetime-Reports_example :
    Reports (lifetime (http_start env) (http_shutdown env) (fresh 0))
    × Reports (lifetime (grpc_start env) (grpc_shutdown env true) (fresh 0))
    × Reports (lifetime (nats_start env) (nats_shutdown env) (fresh 0))
lifetime-Reports_example = lifetime-Reports env 0
