-- ===== src/App/Main.antt =====
-- cmd/app/main.go: `main`, which reads the configuration and calls `Run`, behind the `init` of
-- internal/app/migrate.go in a build with the tag migrate. The result `err` is the exit by
-- `log.Fatalf` or `l.Fatal`.
use thiam_api.Base.{◌≡◌, ◌∙◌, refl, ap, Bool, ℕ, Option, none, String, List}
use thiam_api.Errors.{wrap}
use thiam_api.Exec.{Env, Exec, World, Result, ok, err, panics, pure, fail, panic, continue, ◌>>◌}
use thiam_api.Config.{Config, Parser, Tag, required, new_config}
use thiam_api.Config.Required.{Documented, Among, required_names, new_config_lacking}
use thiam_api.App.Migrate.{Variables, init}
use thiam_api.App.{Part, Trace, run_app}

-- The build tags of internal/app/migrate.go.
pub data Build : Type 0 where
  plain with_migrations : Build

-- The migrations that the database lacks, and what `Run` did.
pub record Process : Type 0 where
  pub lacking : ℕ
  pub trace : Trace

module _ {A : Type 0} where
  abbrev pub on_lacking : Exec ℕ A → Exec Process A
  on_lacking m w =
      let (r, v) = m (record { calls = w.calls; state = w.state.lacking }) in
      (r, record { calls = v.calls; state = record w.state { lacking = v.state } })

  abbrev pub on_trace : Exec Trace A → Exec Process A
  on_trace m w =
      let (r, v) = m (record { calls = w.calls; state = w.state.trace }) in
      (r, record { calls = v.calls; state = record w.state { trace = v.state } })

module _ (p : Parser) (env : Env) (crashes : Part → Bool) where
  abbrev pub configured : Result Config → Exec Trace (Unit {0})
  configured (ok cfg) = run_app env crashes cfg.outbox
  configured (err e) = fail (wrap "Config error: " "" e)
  configured (panics t) = panic t

  -- `main`
  unfoldable pub main : Exec Trace (Unit {0})
  unfolding run_app new_config
  main = configured (new_config p)

  module _ (v : Variables) where
    -- What is run before `main`.
    abbrev pub initialised : Build → Exec Process (Unit {0})
    initialised plain = pure tt
    initialised with_migrations = on_lacking (init env v)

    -- The program
    unfoldable pub program : Build → Exec Process (Unit {0})
    unfolding main init
    program build = initialised build >> on_trace main

    -- What a program without a required variable comes to after `init`: where that succeeded, the
    -- error of the parser for `ts`.
    abbrev pub exits : List Tag → Result (Unit {0}) → Result (Unit {0})
    exits ts (ok a) = err (wrap "Config error: " "" (wrap "config error: " "" (p.failure ts)))
    exits ts (err e) = err e
    exits ts (panics t) = panics t

    main_fails :
        (ts : List Tag)
        → ((w : World Trace)
            → main w
              ≡ (err (wrap "Config error: " "" (wrap "config error: " "" (p.failure ts))), w))
        → (r : Result (Unit {0})) (w : World Process)
        → continue r (λ _. on_trace main) w ≡ (exits ts r, w)
    main_fails ts m (ok a) w =
        ap (λ x. (x.0, record { calls = x.1.calls; state = record w.state { trace = x.1.state } }))
          (m (record { calls = w.calls; state = w.state.trace }))
    main_fails ts m (err e) w = refl
    main_fails ts m (panics t) w = refl

    initialised_trace :
        (build : Build) (w : World Process) → (initialised build w).1.state.trace ≡ w.state.trace
    initialised_trace plain w = refl
    initialised_trace with_migrations w = refl

    -- A program that is started without one of the required variables exits before `Run` does anything. In
    -- a build without the tag migrate it exits with the error of the parser, for a list of fields
    -- that contains the one that is missing. In a build with the tag, `init` comes first, which may
    -- migrate the database: the program exits as `init` does if that fails, and otherwise with the
    -- error of the parser, and leaves the database as `init` left it.
    pub program_lacking :
        (lookup : String → Option String)
        → Documented lookup p
        → (name : String) → Among name required_names
        → lookup name ≡ none
        → (build : Build) (w : World Process)
        → (ts : List Tag) × (program build w
            ≡ (exits ts (initialised build w).0, (initialised build w).1))
          × ((program build w).1.state.trace ≡ w.state.trace)
          × Among (required name) ts
    unfolding program
    program_lacking lookup d name a h build w =
        let (ts, e, m) = new_config_lacking lookup p d name a h in
        let q =
          main_fails ts (λ u. ap (λ r. configured r u) e) (initialised build w).0
            (initialised build w).1 in
        (ts, q, ap (λ x. x.1.state.trace) q ∙ initialised_trace build w, m)
