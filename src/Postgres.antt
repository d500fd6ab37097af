-- ===== src/Postgres.antt =====
-- pkg/postgres/postgres.go and options.go: `New`.
pub mod Pool
use thiam_api.Base.{
  ℕ, zero, suc, ◌+◌, Bool, true, false, Option, none, some, List, [], ◌∷◌, if◌then◌else◌, leb,
}
use thiam_api.Base.Int.{ℤ, pos, negsuc}
use thiam_api.Errors.{Error, wrap}
use thiam_api.Exec.{
  Env, Exec, World, Outcome, done, refused, lost, Result, ok, err, pure, fail, ◌>>=◌, ◌>>◌,
  wrapping, try, call, attempt,
}

-- The fields of `Postgres` that `New` reads.
pub record Settings : Type 0 where
  pub max_pool_size : ℤ
  pub conn_attempts : ℤ
  pub conn_timeout : ℤ

-- What `New` leaves: whether `Pool` is set, and `MaxConns` of its configuration.
pub record Connected : Type 0 where
  pub pool : Bool
  pub max_conns : ℕ

-- `Option`
pub data PgOption : Type 0 where
  max_pool_size conn_attempts conn_timeout : ℤ → PgOption

-- `MaxPoolSize`, `ConnAttempts` and `ConnTimeout`
unfoldable pub apply_option : PgOption → Settings → Settings
apply_option (max_pool_size n) s = record s { max_pool_size = n }
apply_option (conn_attempts n) s = record s { conn_attempts = n }
apply_option (conn_timeout n) s = record s { conn_timeout = n }

unfoldable pub apply_options : List PgOption → Settings → Settings
unfolding apply_option
apply_options [] s = s
apply_options (o ∷ os) s = apply_options os (apply_option o s)

-- The defaults; a second is 10 ^ 9 nanoseconds.
abbrev pub default_settings : Settings
default_settings = record {
  max_pool_size = pos 1;
  conn_attempts = pos 10;
  conn_timeout = pos 1000000000;
}

-- `maxConns`
unfoldable pub max_conns_of : ℤ → ℕ
max_conns_of (negsuc n) = 1
max_conns_of (pos zero) = 1
max_conns_of (pos (suc n)) = if leb (suc n) 1000 then suc n else 1

abbrev pub rounds : ℤ → ℕ
rounds (pos n) = n
rounds (negsuc n) = 0

module _ (env : Env) where
  -- `pg.Pool, err = pgxpool.NewWithConfig(…)`: on an error the pool is nil.
  abbrev pub opened : Outcome → World Connected → Result (Unit {0}) × World Connected
  opened done w = (ok tt, record { calls = w.calls + 1; state = record w.state { pool = true } })
  opened (refused e) w =
      (err e, record { calls = w.calls + 1; state = record w.state { pool = false } })
  opened (lost e) w =
      (err e, record { calls = w.calls + 1; state = record w.state { pool = false } })

  unfoldable pub open_pool : Exec Connected (Unit {0})
  open_pool w = opened (env.outcome w.calls) w

  abbrev pub next_round :
      Exec Connected (Option Error) → Option Error → Exec Connected (Option Error)
  next_round again none = pure none
  next_round again (some e) = again

  -- The loop over the attempts, with the error so far.
  unfoldable pub pool_loop : ℕ → Option Error → Exec Connected (Option Error)
  unfolding open_pool
  pool_loop zero last = pure last
  pool_loop (suc n) last = do e ← try open_pool; next_round (pool_loop n e) e

  abbrev pub pool_result : Option Error → Exec Connected (Unit {0})
  pool_result none = pure tt
  pool_result (some e) = fail (wrap "postgres - NewPostgres - connAttempts == 0: " "" e)

  abbrev pub configure : ℕ → Exec Connected (Unit {0})
  configure n w = (ok tt, record w { state = record { pool = false; max_conns = n } })

  -- `New`
  unfoldable pub new_postgres : List PgOption → Exec Connected (Unit {0})
  unfolding call pool_loop apply_options max_conns_of
  new_postgres opts = do
    wrapping "postgres - NewPostgres - pgxpool.ParseConfig: " (attempt env)
    configure (max_conns_of (apply_options opts default_settings).max_pool_size)
    e ← pool_loop (rounds (apply_options opts default_settings).conn_attempts) none
    pool_result e
