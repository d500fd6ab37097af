-- ===== src/App/Tests.antt =====
-- The start and the end of the program, at concrete inputs.
use thiam_api.Base.{str_eq, none, ℕ, ◌≡◌, refl, Bool, false, [], ◌++◌, if◌then◌else◌, true}
use thiam_api.App.Ends.{Ends-run_app, run_app-script}
use thiam_api.App.Migrate.{Variables, init, get_env_int}
use thiam_api.App.Migrate.Migrated.{init_migrated, init_attempts}
use thiam_api.Base.Int.{pos}
use thiam_api.Errors.{leaf}
use thiam_api.Exec.{Env, World, Outcome, done}
use thiam_api.App.{Part, Trace, run_app}
use thiam_api.Config.{OutboxConfig}
use thiam_api.App.Order.{script}

abbrev env_with : (ℕ → Outcome) → Env
env_with outcome = record {
  outcome = outcome;
  now = λ n. n;
  violation = leaf 2 "never";
  fresh = λ n. n;
}

abbrev config : OutboxConfig
config = record {
  enabled = true;
  poll_interval = pos 1000;
  batch_size = pos 100;
  max_retries = pos 5;
}

abbrev begin : World Trace
begin = record { calls = 0; state = [] }

abbrev sane : Part → Bool
sane p = false

calm : Env
calm = env_with (λ n. done)

run_app-script_example : (run_app calm sane config begin).1.state ≡ [] ++ script true
unfolding calm
run_app-script_example =
    run_app-script calm sane config begin
      ((Ends-run_app calm sane (λ n. refl) (λ p. refl) config).ends begin)

abbrev variables : Variables
variables = record {
  getenv = λ key. if str_eq key "PG_URL" then "postgres://localhost" else "";
  atoi = λ text. none;
}

abbrev three_lacking : World ℕ
three_lacking = record { calls = 0; state = 3 }

init_migrated_example : (init calm variables three_lacking).1.state ≡ 0
unfolding calm get_env_int
init_migrated_example =
    init_migrated calm variables three_lacking refl refl (λ n. tt)
      (init_attempts calm variables three_lacking refl refl (λ n. refl))
