-- ===== src/Postgres/Pool.antt =====
-- What a pool that was opened is.
use thiam_api.Base.{
  ◌+◌, false, inl, inr, ℕ, zero, suc, ◌≤◌, ◌≡◌, ◌⊎◌, refl, true, Option, none, some, List, arith,
}
use thiam_api.Base.Int.{negsuc, ℤ, pos, ◌≤ℤ◌}
use thiam_api.Errors.{wrap, Error}
use thiam_api.Exec.{
  fail, settle, call, recover, err, panics, done, ◌>>=◌, continue, lost, refused, failure, Outcome,
  Result, Env, World, ok,
}
use thiam_api.Postgres.{
  rounds, Settings, pool_result, max_conns_of, next_round, opened, Connected, PgOption,
  apply_options, default_settings, open_pool, pool_loop, new_postgres,
}

module _ (env : Env) where
  -- A loop that ends without an error has opened a pool, or has neither run nor had one before.
  abbrev LoopOpens : ℕ → Option Error → Result (Option Error) × World Connected → ℕ → Type 0
  LoopOpens n last (r, v) max =
      (r ≡ ok none → (v.state.pool ≡ true) ⊎ ((n ≡ 0) × (last ≡ none))) × (v.state.max_conns ≡ max)

  after_error :
      (n m : ℕ) (e : Error) (last : Option Error) (out : Result (Option Error) × World Connected)
      (max : ℕ)
      → LoopOpens n (some e) out max
      → LoopOpens m last out max
  after_error n m e last (r, v) max h =
      (λ k. elim (h.0 k) [ inl p ↦ inl p | inr p ↦ absurd (ground (arith, p.1)) ], h.1)

  -- One round, by what opening the pool comes to.
  abbrev round : ℕ → Outcome → World Connected → Result (Option Error) × World Connected
  round n o w =
      (failure (opened env o w).0 >>= λ e. next_round env (pool_loop env n e) e) (opened env o w).1

  round-Opens :
      (n : ℕ) (o : Outcome) (last : Option Error) (w : World Connected)
      → ((e : Error) (v : World Connected)
          → LoopOpens n (some e) (pool_loop env n (some e) v) v.state.max_conns)
      → LoopOpens (suc n) last (round n o w) w.state.max_conns
  round-Opens n done last w h = (λ k. inl refl, refl)
  round-Opens n (refused e) last w h =
      after_error n (suc n) e last (pool_loop env n (some e) (opened env (refused e) w).1)
        w.state.max_conns (h e (opened env (refused e) w).1)
  round-Opens n (lost e) last w h =
      after_error n (suc n) e last (pool_loop env n (some e) (opened env (lost e) w).1)
        w.state.max_conns (h e (opened env (lost e) w).1)

  loop-Opens :
      (n : ℕ) (last : Option Error) (w : World Connected)
      → LoopOpens n last (pool_loop env n last w) w.state.max_conns
  unfolding pool_loop open_pool
  loop-Opens zero last w = (λ k. inr (refl, ground arith), refl)
  loop-Opens (suc n) last w =
      round-Opens n (env.outcome w.calls) last w (λ e v. loop-Opens n (some e) v)

  max_conns_bounds : (n : ℤ) → (1 ≤ max_conns_of n) × (max_conns_of n ≤ 1000)
  unfolding max_conns_of
  max_conns_bounds (negsuc n) = (omega arith, omega arith)
  max_conns_bounds (pos zero) = (omega arith, omega arith)
  max_conns_bounds (pos (suc n)) = ground arith

  rounds_zero : (n : ℤ) → rounds n ≡ 0 → n ≤ℤ pos 0
  rounds_zero (negsuc n) h = omega arith
  rounds_zero (pos n) h = omega arith

  -- What the error of the loop, or its absence, makes of `New`.
  abbrev finished : Result (Option Error) × World Connected → Result (Unit {0}) × World Connected
  finished (r, v) = continue r (pool_result env) v

  finished_ok :
      (n max : ℕ) (r : Result (Option Error)) (v : World Connected)
      → LoopOpens n none (r, v) max
      → (finished (r, v)).0 ≡ ok tt
      → ((finished (r, v)).1.state.max_conns ≡ max)
        × (((finished (r, v)).1.state.pool ≡ true) ⊎ (n ≡ 0))
  finished_ok n max (ok none) v l h = (l.1, elim (l.0 refl) [ inl p ↦ inl p | inr p ↦ inr p.0 ])
  finished_ok n max (ok (some e)) v l h = absurd (ground arith)
  finished_ok n max (err e) v l h = absurd (ground arith)
  finished_ok n max (panics t) v l h = absurd (ground arith)

  -- `New` after the configuration was parsed.
  abbrev parsed : Settings → World Connected → Result (Unit {0}) × World Connected
  parsed s v = finished (
      pool_loop env (rounds s.conn_attempts) none
        (record v { state = record { pool = false; max_conns = max_conns_of s.max_pool_size } }))

  abbrev IsOpen : Settings → World Connected → Type 0
  IsOpen s v =
      (1 ≤ v.state.max_conns)
      × (v.state.max_conns ≤ 1000)
      × ((v.state.pool ≡ true) ⊎ (s.conn_attempts ≤ℤ pos 0))

  parsed-IsOpen :
      (s : Settings) (v : World Connected) → (parsed s v).0 ≡ ok tt → IsOpen s (parsed s v).1
  parsed-IsOpen s v h =
      let n = rounds s.conn_attempts in
      let u : World Connected = record v {
        state = record { pool = false; max_conns = max_conns_of s.max_pool_size };
      } in
      let f =
        finished_ok n (max_conns_of s.max_pool_size) (pool_loop env n none u).0
          (pool_loop env n none u).1 (loop-Opens n none u) h in
      let b = max_conns_bounds s.max_pool_size in
      (
        omega (arith, f.0, b.0),
        omega (arith, f.0, b.1),
        elim f.1 [ inl p ↦ inl p | inr p ↦ inr (rounds_zero s.conn_attempts p) ],
      )

  configured-IsOpen :
      (s : Settings) (o : Outcome) (w : World Connected)
      → let m =
          recover
            (settle env o (λ c. c) w).0
            (λ e. fail (wrap "postgres - NewPostgres - pgxpool.ParseConfig: " "" e))
            (settle env o (λ c. c) w).1 in
        (continue m.0 (λ _. parsed s) m.1).0 ≡ ok tt → IsOpen s (continue m.0 (λ _. parsed s) m.1).1
  configured-IsOpen s done w h = parsed-IsOpen s (record { calls = w.calls + 1; state = w.state }) h
  configured-IsOpen s (refused e) w h = absurd (ground arith)
  configured-IsOpen s (lost e) w h = absurd (ground arith)

  -- `New` without an error leaves a pool of at least 1 and at most 1000 connections, whatever size is
  -- asked for, unless the number of attempts is zero or negative: then there is no pool.
  new_postgres_pool :
      (opts : List PgOption) (w : World Connected)
      → (new_postgres env opts w).0 ≡ ok tt
      → (1 ≤ (new_postgres env opts w).1.state.max_conns)
        × ((new_postgres env opts w).1.state.max_conns ≤ 1000)
        × (((new_postgres env opts w).1.state.pool ≡ true)
            ⊎ ((apply_options opts default_settings).conn_attempts ≤ℤ pos 0))
  unfolding new_postgres call
  new_postgres_pool opts w h =
      configured-IsOpen (apply_options opts default_settings) (env.outcome w.calls) w h
