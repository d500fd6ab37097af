-- ===== src/Config.antt =====
-- config/config.go: the configuration, and the environment variables that its fields are read from.
pub mod Required
pub mod Defaults
mod Tests
use thiam_api.Base.{Bool, Option, none, some, List, [], ◌∷◌, ◌++◌, String}
use thiam_api.Base.Int.{ℤ}
use thiam_api.Errors.{Error, wrap}
use thiam_api.Exec.{Result, ok, err}

-- The groups of `Config`, which are records of the same names.
pub record AppConfig : Type 0 where
  pub name : String
  pub version : String

pub record HttpConfig : Type 0 where
  pub port : String
  pub use_prefork_mode : Bool

pub record LogConfig : Type 0 where
  pub level : String

pub record PgConfig : Type 0 where
  pub pool_max : ℤ
  pub url : String

pub record GrpcConfig : Type 0 where
  pub port : String

pub record RmqConfig : Type 0 where
  pub server_exchange : String
  pub client_exchange : String
  pub url : String
  pub event_exchange : String

-- The interval is in milliseconds.
pub record OutboxConfig : Type 0 where
  pub enabled : Bool
  pub poll_interval : ℤ
  pub batch_size : ℤ
  pub max_retries : ℤ

pub record NatsConfig : Type 0 where
  pub server_exchange : String
  pub url : String

pub record MetricsConfig : Type 0 where
  pub enabled : Bool

pub record SwaggerConfig : Type 0 where
  pub enabled : Bool

-- `Config`
pub record Config : Type 0 where
  pub app : AppConfig
  pub http : HttpConfig
  pub log : LogConfig
  pub pg : PgConfig
  pub grpc : GrpcConfig
  pub rmq : RmqConfig
  pub outbox : OutboxConfig
  pub nats : NatsConfig
  pub metrics : MetricsConfig
  pub swagger : SwaggerConfig

-- The tags of a field: `required`, or the text of `envDefault`.
pub data Tag : Type 0 where
  required : String → Tag
  default : String → String → Tag

-- `env.Parse` on fields of each type: the value, or none where it reports an error for the field. Its
-- error names the fields it could not read.
pub record Parser : Type 0 where
  pub string_of : Tag → Option String
  pub bool_of : Tag → Option Bool
  pub int_of : Tag → Option ℤ
  pub failure : List Tag → Error

-- What fields come to: a value, or the tags that were not read.
pub data Fields (A : Type 0) : Type 0 where
  filled : A → Fields A
  unread : List Tag → Fields A

abbrev pub from_option : {A : Type 0} → Tag → Option A → Fields A
from_option t none = unread (t ∷ [])
from_option t (some a) = filled a

-- One field more.
infixl 20 ◌and◌
abbrev pub ◌and◌ : {A B : Type 0} → Fields (A → B) → Fields A → Fields B
filled f and filled a = filled (f a)
filled f and unread ts = unread ts
unread ss and filled a = unread ss
unread ss and unread ts = unread (ss ++ ts)

-- The groups of `Config`, in their order.
abbrev pub all_fields :
    Fields AppConfig
    → Fields HttpConfig
    → Fields LogConfig
    → Fields PgConfig
    → Fields GrpcConfig
    → Fields RmqConfig
    → Fields OutboxConfig
    → Fields NatsConfig
    → Fields MetricsConfig
    → Fields SwaggerConfig
    → Fields Config
all_fields app http log pg grpc rmq outbox nats metrics swagger =
    filled (λ a b c d e f g h i j. record {
      app = a;
      http = b;
      log = c;
      pg = d;
      grpc = e;
      rmq = f;
      outbox = g;
      nats = h;
      metrics = i;
      swagger = j;
    })
    and app
    and http
    and log
    and pg
    and grpc
    and rmq
    and outbox
    and nats
    and metrics
    and swagger

module _ (p : Parser) where
  abbrev pub string : Tag → Fields String
  string t = from_option t (p.string_of t)

  abbrev pub bool : Tag → Fields Bool
  bool t = from_option t (p.bool_of t)

  abbrev pub int : Tag → Fields ℤ
  int t = from_option t (p.int_of t)

  abbrev pub app_fields : Fields AppConfig
  app_fields =
      filled (λ a b. record { name = a; version = b })
      and string (required "APP_NAME")
      and string (required "APP_VERSION")

  abbrev pub http_fields : Fields HttpConfig
  http_fields =
      filled (λ a b. record { port = a; use_prefork_mode = b })
      and string (required "HTTP_PORT")
      and bool (default "HTTP_USE_PREFORK_MODE" "false")

  abbrev pub log_fields : Fields LogConfig
  log_fields = filled (λ a. record { level = a }) and string (required "LOG_LEVEL")

  abbrev pub pg_fields : Fields PgConfig
  pg_fields =
      filled (λ a b. record { pool_max = a; url = b })
      and int (required "PG_POOL_MAX")
      and string (required "PG_URL")

  abbrev pub grpc_fields : Fields GrpcConfig
  grpc_fields = filled (λ a. record { port = a }) and string (required "GRPC_PORT")

  abbrev pub rmq_fields : Fields RmqConfig
  rmq_fields =
      filled (λ a b c d. record {
        server_exchange = a;
        client_exchange = b;
        url = c;
        event_exchange = d;
      })
      and string (required "RMQ_RPC_SERVER")
      and string (required "RMQ_RPC_CLIENT")
      and string (required "RMQ_URL")
      and string (default "RMQ_EVENT_EXCHANGE" "domain.events")

  abbrev pub outbox_fields : Fields OutboxConfig
  outbox_fields =
      filled (λ a b c d. record { enabled = a; poll_interval = b; batch_size = c; max_retries = d })
      and bool (default "OUTBOX_ENABLED" "true")
      and int (default "OUTBOX_POLL_INTERVAL_MS" "1000")
      and int (default "OUTBOX_BATCH_SIZE" "100")
      and int (default "OUTBOX_MAX_RETRIES" "5")

  abbrev pub nats_fields : Fields NatsConfig
  nats_fields =
      filled (λ a b. record { server_exchange = a; url = b })
      and string (required "NATS_RPC_SERVER")
      and string (required "NATS_URL")

  abbrev pub metrics_fields : Fields MetricsConfig
  metrics_fields = filled (λ a. record { enabled = a }) and bool (default "METRICS_ENABLED" "true")

  abbrev pub swagger_fields : Fields SwaggerConfig
  swagger_fields = filled (λ a. record { enabled = a }) and bool (default "SWAGGER_ENABLED" "false")

  -- The fields of `Config`, in their order.
  unfoldable pub config_fields : Fields Config
  config_fields =
      all_fields app_fields http_fields log_fields pg_fields grpc_fields rmq_fields outbox_fields
        nats_fields metrics_fields swagger_fields

  abbrev pub parsed : Fields Config → Result Config
  parsed (filled c) = ok c
  parsed (unread ts) = err (wrap "config error: " "" (p.failure ts))

  -- `NewConfig`
  unfoldable pub new_config : Result Config
  unfolding config_fields
  new_config = parsed config_fields
