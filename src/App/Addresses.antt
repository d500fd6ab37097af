-- ===== src/App/Addresses.antt =====
-- The addresses that `Run` listens on, from the environment.
use Prim.Native.String.{◌++◌}
use thiam_api.Base.{◌≡◌, refl, ap, Option, some, String, arith}
use thiam_api.Exec.{ok}
use thiam_api.Servers.Setup.{
  set_http_options, set_http_option, set_grpc_options, new_http_server, new_grpc_server,
}
use thiam_api.Config.{
  Config, AppConfig, HttpConfig, LogConfig, PgConfig, GrpcConfig, RmqConfig, OutboxConfig,
  NatsConfig, MetricsConfig, SwaggerConfig, required, Parser, Fields, filled, all_fields,
  http_fields, grpc_fields, config_fields, new_config,
}
use thiam_api.Config.Defaults.{parsed-filled}
use thiam_api.App.{configured_http, configured_grpc}

-- What the documentation of the parser says of a required text that is set.
pub record ReadsTexts (lookup : String → Option String) (p : Parser) : Type 0 where
  pub set_string : (v s : String) → lookup v ≡ some s → p.string_of (required v) ≡ some s

-- Two of the groups that a configuration is filled with.
groups-filled :
    (a : Fields AppConfig) (b : Fields HttpConfig) (c : Fields LogConfig) (d : Fields PgConfig)
    (e : Fields GrpcConfig) (f : Fields RmqConfig) (g : Fields OutboxConfig) (h : Fields NatsConfig)
    (i : Fields MetricsConfig) (j : Fields SwaggerConfig) (k : Config)
    → all_fields a b c d e f g h i j ≡ filled k
    → (b ≡ filled k.http) × (e ≡ filled k.grpc)
groups-filled a b c d e f g h i j k q = ground (arith, q)

http-port :
    (p : Parser) (h : HttpConfig) (s : String)
    → http_fields p ≡ filled h
    → p.string_of (required "HTTP_PORT") ≡ some s
    → h.port ≡ s
http-port p h s e q = ground (arith, e, q)

grpc-port :
    (p : Parser) (g : GrpcConfig) (s : String)
    → grpc_fields p ≡ filled g
    → p.string_of (required "GRPC_PORT") ≡ some s
    → g.port ≡ s
grpc-port p g s e q = ground (arith, e, q)

-- With a configuration that is read from the environment, the HTTP server and the gRPC server that `Run`
-- makes listen on all interfaces at the ports that `HTTP_PORT` and `GRPC_PORT` name; fiber gets
-- the prefork mode of the configuration.
configured_servers :
    (lookup : String → Option String) (p : Parser)
    → ReadsTexts lookup p
    → (http_port grpc_port : String) (c : Config) → lookup "HTTP_PORT" ≡ some http_port
    → lookup "GRPC_PORT" ≡ some grpc_port
    → new_config p ≡ ok c
    → ((configured_http c).address ≡ ":" ++ http_port)
      × ((configured_grpc c).address ≡ ":" ++ grpc_port)
      × ((configured_http c).app
          ≡ some (record {
            prefork = c.http.use_prefork_mode;
            read_timeout = 5000000000;
            write_timeout = 5000000000;
          }))
unfolding configured_http configured_grpc new_http_server new_grpc_server set_http_options
    set_http_option set_grpc_options new_config config_fields
configured_servers lookup p d hp gp c h g e =
    let q = groups-filled _ _ _ _ _ _ _ _ _ _ c (parsed-filled p (config_fields p) c e) in
    (
      ap (λ s. ":" ++ s) (http-port p c.http hp q.0 (d.set_string "HTTP_PORT" hp h)),
      ap (λ s. ":" ++ s) (grpc-port p c.grpc gp q.1 (d.set_string "GRPC_PORT" gp g)),
      refl,
    )
