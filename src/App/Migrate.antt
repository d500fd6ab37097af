-- ===== src/App/Migrate.antt =====
-- internal/app/migrate.go: `init` of the build with migrations. The migrations that the database lacks
-- are the state; `Up` reports that there is no change where none is lacking. The result `err` is the
-- exit by `log.Fatalf`.
pub mod Migrated
use thiam_api.Base.{
  ℕ, zero, suc, ◌==◌, Bool, true, false, Option, none, some, String, str_eq, if◌then◌else◌,
}
use thiam_api.Base.Int.{ℤ, pos, negsuc}
use thiam_api.Errors.{Error, leaf, errors_is}
use thiam_api.Exec.{Env, Exec, pure, fail, panic, gets, ◌>>=◌, ◌>>◌, try, ignoring, call, attempt}

-- `migrate.ErrNoChange`
abbrev pub no_change : Error
no_change = leaf 60 "no change"

abbrev pub no_change_address : ℕ
no_change_address = 60

-- The environment: `os.Getenv`, which is empty for a variable that is not set, and `strconv.Atoi`.
pub record Variables : Type 0 where
  pub getenv : String → String
  pub atoi : String → Option ℤ

abbrev pub int_or : ℤ → Option ℤ → ℤ
int_or d none = d
int_or d (some i) = i

-- `getEnvInt`
unfoldable pub get_env_int : Variables → String → ℤ → ℤ
get_env_int v key d = if str_eq (v.getenv key) "" then d else int_or d (v.atoi (v.getenv key))

module _ (env : Env) (v : Variables) where
  -- The loop: whether there is a `*Migrate`, and the last error. `last` is the one before.
  abbrev pub made : Exec ℕ (Bool × Option Error) → Option Error → Exec ℕ (Bool × Option Error)
  made again none = pure (true, none)
  made again (some e) = again

  unfoldable pub new_migrate : ℕ → Option Error → Exec ℕ (Bool × Option Error)
  unfolding call
  new_migrate zero last = pure (false, last)
  new_migrate (suc i) last = do e ← try (attempt env); made (new_migrate i e) e

  abbrev pub tries : ℤ → ℕ
  tries (pos n) = n
  tries (negsuc n) = 0

  -- `m.Up()`
  unfoldable pub up : Exec ℕ (Unit {0})
  unfolding call
  up = do
    lacking ← gets (λ w. w.state)
    if lacking == 0 then attempt env >> fail no_change else call env (λ n. 0)

  -- The end of `init`: `Version` is only logged, and `Close` comes last.
  abbrev pub report : Option Error → Exec ℕ (Unit {0})
  report none = ignoring (attempt env)
  report (some e) = if errors_is e no_change_address then pure tt else fail e

  abbrev pub migrate : Bool × Option Error → Exec ℕ (Unit {0})
  migrate (has_m, some e) = fail e
  migrate (true, none) = do e ← try up; report e
  migrate (false, none) = panic "invalid memory address or nil pointer dereference"

  -- `init`
  unfoldable pub init : Exec ℕ (Unit {0})
  unfolding new_migrate up errors_is call get_env_int
  init =
      if str_eq (v.getenv "MIGRATION_ENABLED") "false"
      then pure tt
      else if str_eq (v.getenv "PG_URL") ""
      then fail (leaf 61 "migrate: environment variable not declared: PG_URL")
      else new_migrate (tries (get_env_int v "MIGRATION_RETRY_ATTEMPTS" (pos 20))) none >>= migrate
