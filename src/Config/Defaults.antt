-- ===== src/Config/Defaults.antt =====
-- The values of variables that are not set.
use thiam_api.Outbox.Worker.{new_worker}
use thiam_api.App.{configured_worker}
use thiam_api.Config.{
  config_fields, ok, new_config, parsed, outbox_fields, Config, OutboxConfig, AppConfig, HttpConfig,
  LogConfig, PgConfig, GrpcConfig, RmqConfig, NatsConfig, MetricsConfig, SwaggerConfig, all_fields,
  default, Parser, Fields, filled,
}
use thiam_api.Base.{◌∙◌, [], ◌≡◌, Option, none, some, String, arith}
use thiam_api.Base.Int.{ℤ, pos}

-- What the documentation of the parser says of numbers with a default, and what `strconv.Atoi` makes
-- of the three texts.
pub record ReadsDefaults (lookup : String → Option String) (atoi : String → Option ℤ) (p : Parser)
    : Type 0 where
  pub unset_int : (v d : String) → lookup v ≡ none → p.int_of (default v d) ≡ atoi d
  pub thousand : atoi "1000" ≡ some (pos 1000)
  pub hundred : atoi "100" ≡ some (pos 100)
  pub five : atoi "5" ≡ some (pos 5)

-- The group that a configuration is filled with.
outbox-filled :
    (a : Fields AppConfig) (b : Fields HttpConfig) (c : Fields LogConfig) (d : Fields PgConfig)
    (e : Fields GrpcConfig) (f : Fields RmqConfig) (g : Fields OutboxConfig) (h : Fields NatsConfig)
    (i : Fields MetricsConfig) (j : Fields SwaggerConfig) (k : Config)
    → all_fields a b c d e f g h i j ≡ filled k
    → g ≡ filled k.outbox
outbox-filled a b c d e f g h i j k q = ground (arith, q)

-- The same for the settings of the outbox, by the variables that hold its numbers.
outbox-numbers :
    (p : Parser) (o : OutboxConfig) (a b c : ℤ)
    → outbox_fields p ≡ filled o
    → p.int_of (default "OUTBOX_POLL_INTERVAL_MS" "1000") ≡ some a
    → p.int_of (default "OUTBOX_BATCH_SIZE" "100") ≡ some b
    → p.int_of (default "OUTBOX_MAX_RETRIES" "5") ≡ some c
    → (o.poll_interval ≡ a) × (o.batch_size ≡ b) × (o.max_retries ≡ c)
outbox-numbers p o a b c h i j k = ground (arith, h, i, j, k)

pub parsed-filled : (p : Parser) (f : Fields Config) (c : Config) → parsed p f ≡ ok c → f ≡ filled c
parsed-filled p f c h = ground (arith, h)

pub new_config-outbox :
    (p : Parser) (c : Config) → new_config p ≡ ok c → outbox_fields p ≡ filled c.outbox
unfolding new_config config_fields
new_config-outbox p c h =
    outbox-filled _ _ _ _ _ _ _ _ _ _ c (parsed-filled p (config_fields p) c h)

-- Where the three numbers of the outbox are not set, every configuration that is read makes `Run` use
-- the same worker as `NewWorker` without options: the defaults of both files agree.
pub configured_worker-new_config :
    (lookup : String → Option String) (atoi : String → Option ℤ) (p : Parser)
    → ReadsDefaults lookup atoi p
    → lookup "OUTBOX_POLL_INTERVAL_MS" ≡ none
    → lookup "OUTBOX_BATCH_SIZE" ≡ none
    → lookup "OUTBOX_MAX_RETRIES" ≡ none
    → (c : Config) → new_config p ≡ ok c
    → configured_worker c.outbox ≡ new_worker []
unfolding configured_worker new_worker
configured_worker-new_config lookup atoi p d i b r c h =
    let q =
      outbox-numbers p c.outbox (pos 1000) (pos 100) (pos 5) (new_config-outbox p c h)
        (d.unset_int "OUTBOX_POLL_INTERVAL_MS" "1000" i ∙ d.thousand)
        (d.unset_int "OUTBOX_BATCH_SIZE" "100" b ∙ d.hundred)
        (d.unset_int "OUTBOX_MAX_RETRIES" "5" r ∙ d.five) in
    rw (q.0, q.1, q.2)
