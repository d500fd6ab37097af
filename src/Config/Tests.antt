-- ===== src/Config/Tests.antt =====
-- A parser that reads an environment as it is documented, and the start of the program with it.
use thiam_api.App.Addresses.{ReadsTexts}
use thiam_api.App.{configured_worker, Part, Trace}
use thiam_api.Exec.{Env, World, done}
use thiam_api.App.Main.{Process, with_migrations, exits, initialised, program, program_lacking}
use thiam_api.App.Migrate.{Variables}
use thiam_api.Outbox.{Outbox}
use thiam_api.Outbox.Worker.{new_worker, Site}
use thiam_api.Config.Defaults.{configured_worker-new_config, ReadsDefaults}
use thiam_api.Base.{
  inl, inr, refl, ◌≡◌, ◌||◌, List, ap, Bool, true, false, Option, none, some, [], String, str_eq,
  if◌then◌else◌,
}
use thiam_api.Base.Int.{ℤ, pos}
use thiam_api.Errors.{leaf}
use thiam_api.Config.{ok, OutboxConfig, new_config, Config, Tag, required, default, Parser}
use thiam_api.Config.Required.{Among, Documented}

abbrev atoi : String → Option ℤ
atoi s =
    if str_eq s "1000"
    then some (pos 1000)
    else if str_eq s "100"
    then some (pos 100)
    else if str_eq s "5"
    then some (pos 5)
    else if str_eq s "2"
    then some (pos 2)
    else none

abbrev or_default : String → Option String → String
or_default d none = d
or_default d (some s) = s

abbrev number : Option String → Option ℤ
number none = none
number (some s) = atoi s

module _ (lookup : String → Option String) where
  abbrev read_string : Tag → Option String
  read_string (required v) = lookup v
  read_string (default v d) = some (or_default d (lookup v))

  abbrev read_int : Tag → Option ℤ
  read_int (required v) = number (lookup v)
  read_int (default v d) = atoi (or_default d (lookup v))

  abbrev parser : Parser
  parser = record {
    string_of = read_string;
    bool_of = λ t. some true;
    int_of = read_int;
    failure = λ ts. leaf 70 "env: required environment variable is not set";
  }

abbrev unset_nats : String → Option String
unset_nats v = if str_eq v "NATS_URL" then none else some "2"

abbrev env : Env
env = record { outcome = λ n. done; now = λ n. n; violation = leaf 2 "never"; fresh = λ n. n }

abbrev sane : Part → Bool
sane p = false

abbrev begin : World Trace
begin = record { calls = 0; state = [] }

Documented-unset_nats : Documented unset_nats (parser unset_nats)
Documented-unset_nats = record { unset_string = λ v h. h; unset_int = λ v h. ap number h }

-- Migrations are turned off.
abbrev variables : Variables
variables = record {
  getenv = λ key. if str_eq key "MIGRATION_ENABLED" then "false" else "";
  atoi = λ text. none;
}

abbrev unstarted : World Process
unstarted = record { calls = 0; state = record { lacking = 3; trace = [] } }

program_lacking_example :
    (ts : List Tag) × (program (parser unset_nats) env sane variables with_migrations unstarted ≡ (
      exits
          (parser unset_nats)
          env
          sane
          variables
          ts
          (initialised (parser unset_nats) env sane variables with_migrations unstarted).0,
      (initialised (parser unset_nats) env sane variables with_migrations unstarted).1,
    ))
    × ((program (parser unset_nats) env sane variables with_migrations unstarted).1.state.trace
        ≡ [])
    × Among (required "NATS_URL") ts
program_lacking_example =
    program_lacking (parser unset_nats) env sane variables unset_nats Documented-unset_nats
      "NATS_URL" (inr (inr (inr (inr (inr (inr (inr (inr (inr (inr (inr (inl refl)))))))))))) refl
      with_migrations unstarted

-- Only the required variables.
abbrev least : String → Option String
least v =
    if str_eq v "OUTBOX_POLL_INTERVAL_MS"
      || str_eq v "OUTBOX_BATCH_SIZE"
      || str_eq v "OUTBOX_MAX_RETRIES"
    then none
    else some "2"

ReadsDefaults-least : ReadsDefaults least atoi (parser least)
ReadsDefaults-least = record {
  unset_int = λ v d h. ap (λ o. atoi (or_default d o)) h;
  thousand = refl;
  hundred = refl;
  five = refl;
}

abbrev config : Config
config = record {
  app = record { name = "2"; version = "2" };
  http = record { port = "2"; use_prefork_mode = true };
  log = record { level = "2" };
  pg = record { pool_max = pos 2; url = "2" };
  grpc = record { port = "2" };
  rmq = record { server_exchange = "2"; client_exchange = "2"; url = "2"; event_exchange = "2" };
  outbox = record {
    enabled = true;
    poll_interval = pos 1000;
    batch_size = pos 100;
    max_retries = pos 5;
  };
  nats = record { server_exchange = "2"; url = "2" };
  metrics = record { enabled = true };
  swagger = record { enabled = true };
}

new_config-least : new_config (parser least) ≡ ok config
unfolding new_config
new_config-least = refl

configured_worker-new_config_example : configured_worker config.outbox ≡ new_worker []
configured_worker-new_config_example =
    configured_worker-new_config least atoi (parser least) ReadsDefaults-least refl refl refl config
      new_config-least

abbrev site : Site
site = record { env = env; order = λ es. es; uuid_string = λ n. ""; exchange = "domain.events" }

abbrev settings : ℤ → OutboxConfig
settings n = record { enabled = true; poll_interval = n; batch_size = pos 100; max_retries = pos 5 }

abbrev empty : World Outbox
empty = record { calls = 0; state = record { rows = []; sent = [] } }

ReadsTexts-least : ReadsTexts least (parser least)
ReadsTexts-least = record { set_string = λ v s h. h }
