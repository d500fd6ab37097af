-- ===== src/App/Migrate/Migrated.antt =====
-- What is migrated after `init`.
use thiam_api.Base.{
  zero, suc, sym, ◌∙◌, ap, if◌then◌else◌, refl, ◌==◌, arith, ◌+◌, ℕ, ◌≡◌, Bool, true, false, Option,
  none, some,
}
use thiam_api.Base.Int.{ℤ, leb_ℤ, pos, negsuc}
use thiam_api.App.Migrate.{
  tries, init, up, new_migrate, migrate, str_eq, no_change, report, Variables, get_env_int,
  no_change_address,
}
use thiam_api.Exec.{
  attempt, call, Env, Exec, World, Result, ok, err, panics, Outcome, done, refused, lost, fault,
  settle, try, fail, continue, ◌>>=◌, ◌>>◌,
}
use thiam_api.Exec.Faults.{NoFaults}
use thiam_api.Errors.{Error, errors_is}

-- An error of the database is not `ErrNoChange`.
abbrev pub IsOther : Option Error → Type 0
IsOther none = Unit {0}
IsOther (some e) = errors_is e no_change_address ≡ false

abbrev pub attempts : Variables → ℤ
attempts v = get_env_int v "MIGRATION_RETRY_ATTEMPTS" (pos 20)

module _ (env : Env) (v : Variables) where
  -- `Up` where no migration is lacking, and where some are, with the report; its statements came to
  -- `o`.
  abbrev current : Outcome → Exec ℕ (Unit {0})
  current o = do e ← try (settle env o (λ n. n) >> fail no_change); report env v e

  abbrev lacking : Outcome → Exec ℕ (Unit {0})
  lacking o = do e ← try (settle env o (λ n. 0)); report env v e

  current_lem :
      (o : Outcome) (w : World ℕ)
      → w.state ≡ 0
      → IsOther (fault o)
      → (current o w).0 ≡ ok tt
      → (current o w).1.state ≡ 0
  unfolding errors_is
  current_lem done w z h q = z
  current_lem (refused e) w z h q = absurd (ground (arith, h, q))
  current_lem (lost e) w z h q = absurd (ground (arith, h, q))

  lacking_lem :
      (o : Outcome) (w : World ℕ)
      → IsOther (fault o)
      → (lacking o w).0 ≡ ok tt
      → (lacking o w).1.state ≡ 0
  unfolding call
  lacking_lem done w h q = ground arith
  lacking_lem (refused e) w h q = absurd (ground (arith, h, q))
  lacking_lem (lost e) w h q = absurd (ground (arith, h, q))

  -- `Up` by whether no migration is lacking.
  abbrev ending : Bool → Exec ℕ (Unit {0})
  ending is_current = do
    e ← try (if is_current then attempt env >> fail no_change else call env (λ n. 0))
    report env v e

  ending_lem :
      (b : Bool) (w : World ℕ)
      → (b ≡ true → w.state ≡ 0)
      → IsOther (fault (env.outcome w.calls))
      → (ending b w).0 ≡ ok tt
      → (ending b w).1.state ≡ 0
  unfolding call
  ending_lem true w z h q = current_lem (env.outcome w.calls) w (z refl) h q
  ending_lem false w z h q = lacking_lem (env.outcome w.calls) w h q

  migrate_lem :
      (x : Bool × Option Error) (w : World ℕ)
      → IsOther (fault (env.outcome w.calls))
      → (migrate env v x w).0 ≡ ok tt
      → (migrate env v x w).1.state ≡ 0
  unfolding up call errors_is
  migrate_lem (b, some e) w h q = absurd (ground (arith, q))
  migrate_lem (false, none) w h q = absurd (ground (arith, q))
  migrate_lem (true, none) w h q = ending_lem (w.state == 0) w (λ z. ground (arith, z)) h q

  continue-migrate :
      (r : Result (Bool × Option Error)) (w : World ℕ)
      → ((n : ℕ) → IsOther (fault (env.outcome n)))
      → (continue r (migrate env v) w).0 ≡ ok tt
      → (continue r (migrate env v) w).1.state ≡ 0
  continue-migrate (ok x) w h q = migrate_lem x w (h w.calls) q
  continue-migrate (err e) w h q = absurd (ground (arith, q))
  continue-migrate (panics t) w h q = absurd (ground (arith, q))

  new_migrate_done :
      (n : ℕ) (w : World ℕ)
      → NoFaults env
      → new_migrate env v (suc n) none w
        ≡ (ok (true, none), record { calls = w.calls + 1; state = w.state })
  unfolding new_migrate call
  new_migrate_done n w f = ground (arith, f w.calls)

  ending_done : (b : Bool) (w : World ℕ) → NoFaults env → (ending b w).0 ≡ ok tt
  unfolding call errors_is
  ending_done true w f = ground (arith, f w.calls, f (w.calls + 1))
  ending_done false w f = ground (arith, f w.calls, f (w.calls + 1))

  -- `init` once the variables are read.
  abbrev starting : ℕ → Exec ℕ (Unit {0})
  starting n = new_migrate env v n none >>= migrate env v

  init-starting :
      (w : World ℕ)
      → str_eq (v.getenv "MIGRATION_ENABLED") "false" ≡ false
      → str_eq (v.getenv "PG_URL") "" ≡ false
      → init env v w ≡ starting (tries env v (attempts v)) w
  unfolding init
  init-starting w d u = ground (arith, d, u)

  starting_lem :
      (n : ℕ) (w : World ℕ)
      → ((n : ℕ) → IsOther (fault (env.outcome n)))
      → (starting n w).0 ≡ ok tt
      → (starting n w).1.state ≡ 0
  starting_lem n w h q =
      continue-migrate (new_migrate env v n none w).0 (new_migrate env v n none w).1 h q

  starting_done : (k : ℕ) (w : World ℕ) → NoFaults env → (starting (suc k) w).0 ≡ ok tt
  unfolding new_migrate up call
  starting_done k w f = ground (
    arith,
    new_migrate_done k w f,
    ending_done (w.state == 0) (record { calls = w.calls + 1; state = w.state }) f,
  )

  starting-none :
      (w : World ℕ) → starting 0 w ≡ (panics "invalid memory address or nil pointer dereference", w)
  unfolding new_migrate
  starting-none w = refl

  starting_result :
      (z : ℤ) (w : World ℕ)
      → NoFaults env
      → (starting (tries env v z) w).0 ≡ (
          if leb_ℤ z (pos 0)
          then panics "invalid memory address or nil pointer dereference"
          else ok tt)
  starting_result (pos zero) w f = ap (λ x. x.0) (starting-none w)
  starting_result (pos (suc k)) w f = ground (arith, starting_done k w f)
  starting_result (negsuc k) w f = ground (arith, starting-none w)

  -- Where migrations are not disabled and the URL is set, the database lacks no migration when `init`
  -- has returned. The error for no change is not among those of the database.
  pub init_migrated :
      (w : World ℕ)
      → str_eq (v.getenv "MIGRATION_ENABLED") "false" ≡ false
      → str_eq (v.getenv "PG_URL") "" ≡ false
      → ((n : ℕ) → IsOther (fault (env.outcome n)))
      → (init env v w).0 ≡ ok tt
      → (init env v w).1.state ≡ 0
  init_migrated w d u h q =
      let e = init-starting w d u in
      ap (λ x. x.1.state) e ∙ starting_lem _ w h (sym (ap (λ x. x.0) e) ∙ q)

  -- With migrations enabled, a positive number of attempts and no failing call, `init` returns; with
  -- zero attempts or a negative number it panics, without a call.
  pub init_attempts :
      (w : World ℕ)
      → str_eq (v.getenv "MIGRATION_ENABLED") "false" ≡ false
      → str_eq (v.getenv "PG_URL") "" ≡ false
      → NoFaults env
      → (init env v w).0 ≡ (
          if leb_ℤ (attempts v) (pos 0)
          then panics "invalid memory address or nil pointer dereference"
          else ok tt)
  init_attempts w d u f = ap (λ x. x.0) (init-starting w d u) ∙ starting_result (attempts v) w f
