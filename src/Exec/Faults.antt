-- ===== src/Exec/Faults.antt =====
-- What calls return: their results when they do, and that without faults they do.
use thiam_api.Base.{
  subst, zero, suc, ◌<◌, ◌≤◌, take, some, ℕ, ◌+◌, ◌*◌, ◌≡◌, refl, List, [], ◌∷◌, length, Option,
  none, String, arith,
}
use thiam_api.Errors.{Error}
use thiam_api.Exec.{
  Outcome, Env, refused, done, World, Result, ok, err, panics, call, next_row, scan_rows,
}

-- `Q` holds of the value, if there is one.
abbrev pub Returns : {A : Type 0} → (A → Type 0) → Result A → Type 0
Returns Q (ok a) = Q a
Returns Q (err e) = Unit {0}
Returns Q (panics t) = Unit {0}

-- There is a value, and `Q` holds of it.
abbrev pub Yields : {A : Type 0} → (A → Type 0) → Result A → Type 0
Yields Q (ok a) = Q a
Yields Q (err e) = ⊥
Yields Q (panics t) = ⊥

-- A loop over rows that nothing stopped has read every row.
pub scan_rows_complete :
    {S T : Type 0} (env : Env) (before : String) (rs : List T) (w : World S)
    → Returns
        (λ (read : List T × Option Error). read.1 ≡ none → read.0 ≡ rs)
        (scan_rows env before rs w).0
unfolding scan_rows next_row call
scan_rows_complete env before [] w = λ h. refl
scan_rows_complete env before (r ∷ rs) w =
    ground (
      arith,
      scan_rows_complete env before rs (record { calls = w.calls + 1 + 1; state = w.state }),
    )

-- No call fails.
abbrev pub NoFaults : Env → Type 0
NoFaults env = (n : ℕ) → env.outcome n ≡ done

-- Without faults the loop reads every row, with two calls for each and one at the end.
pub scan_rows_all :
    {S T : Type 0} (env : Env) (before : String) (rs : List T) (w : World S)
    → NoFaults env
    → scan_rows env before rs w
      ≡ (ok (rs, none), record { calls = w.calls + 2 * length rs + 1; state = w.state })
unfolding scan_rows next_row call
scan_rows_all env before [] w h = ground (arith, h w.calls)
scan_rows_all env before (r ∷ rs) w h = ground (
  arith,
  h w.calls,
  h (w.calls + 1),
  scan_rows_all env before rs (record { calls = w.calls + 1 + 1; state = w.state }) h,
)

pub moved : (env : Env) (o : Outcome) (m n : ℕ) → m ≡ n → env.outcome m ≡ o → env.outcome n ≡ o
moved env o m n e h = subst (λ k. env.outcome k ≡ o) e h

-- A loop whose connection is cut before row `n` has read the rows before it, and keeps the error.
pub scan_rows_cut :
    {S T : Type 0} (env : Env) (before : String) (n : ℕ) (rs : List T) (w : World S) (e : Error)
    → n ≤ length rs
    → ((m : ℕ) → m < 2 * n → env.outcome (w.calls + m) ≡ done)
    → env.outcome (w.calls + 2 * n) ≡ refused e
    → (scan_rows env before rs w).0 ≡ ok (take n rs, some e)
unfolding scan_rows next_row call
scan_rows_cut env before zero [] w e h d c = ground arith
scan_rows_cut env before zero (r ∷ rs) w e h d c = ground arith
scan_rows_cut env before (suc n) [] w e h d c = absurd (omega arith)
scan_rows_cut env before (suc n) (r ∷ rs) w e h d c = ground (
  arith,
  moved env done (w.calls + 0) w.calls (omega arith) (d 0 (omega arith)),
  d 1 (omega arith),
  scan_rows_cut env before n rs (record { calls = w.calls + 1 + 1; state = w.state }) e
      (omega arith)
      (λ m lt. moved env done (w.calls + (2 + m)) _ (omega arith) (d (2 + m) (omega arith)))
      (moved env (refused e) (w.calls + 2 * suc n) _ (omega arith) c),
)
