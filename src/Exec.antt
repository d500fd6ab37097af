-- ===== src/Exec.antt =====
-- Calls that return a Go error, over a state that external systems hold. What the systems answer
-- is an argument: the outcome of the n-th call since the start. A call that fails may have taken
-- effect all the same, since the answer can be lost on the way.
pub mod Preserves
pub mod Faults
use thiam_api.Base.{ℕ, ◌+◌, Option, none, some, List, [], ◌∷◌, String, Bool, if◌then◌else◌}
use thiam_api.Errors.{Error, wrap}

-- What an external call comes to. `lost` is an effect without its answer.
pub data Outcome : Type 0 where
  done : Outcome
  refused lost : Error → Outcome

-- A Go result. `err` holds a non-nil error; a panic ends the goroutine.
pub data Result {ℓ} (A : Type ℓ) : Type ℓ where
  ok : A → Result A
  err : Error → Result A
  panics : String → Result A

-- The state, and how many external calls were made.
pub record World (S : Type 0) : Type 0 where
  pub calls : ℕ
  pub state : S

-- The answers of the external systems and the readings of the clock, by call number, and the
-- error with which the database refuses a statement that breaks a constraint. `fresh` is what
-- `uuid.New` returns.
pub record Env : Type 0 where
  pub outcome : ℕ → Outcome
  pub now : ℕ → ℕ
  pub violation : Error
  pub fresh : ℕ → ℕ

abbrev pub Exec : Type 0 → Type 0 → Type 0
Exec S A = World S → Result A × World S

module _ {S A : Type 0} where
  abbrev pub pure : A → Exec S A
  pure a w = (ok a, w)

  abbrev pub fail : Error → Exec S A
  fail e w = (err e, w)

  abbrev pub panic : String → Exec S A
  panic t w = (panics t, w)

  abbrev pub gets : (World S → A) → Exec S A
  gets f w = (ok (f w), w)

module _ {S A B : Type 0} where
  abbrev pub continue : Result A → (A → Exec S B) → Exec S B
  continue (ok a) f w = f a w
  continue (err e) f w = (err e, w)
  continue (panics t) f w = (panics t, w)

  infixl 10 ◌>>=◌ ◌>>◌
  abbrev pub ◌>>=◌ : Exec S A → (A → Exec S B) → Exec S B
  ◌>>=◌ m f w = let (r, w') = m w in continue r f w'

  abbrev pub ◌>>◌ : Exec S A → Exec S B → Exec S B
  m >> n = m >>= λ _. n

module _ {S A : Type 0} where
  abbrev pub recover : Result A → (Error → Exec S A) → Exec S A
  recover (ok a) f w = (ok a, w)
  recover (err e) f w = f e w
  recover (panics t) f w = (panics t, w)

  -- `if err := m; err != nil { … }` that does not return.
  abbrev pub catch : Exec S A → (Error → Exec S A) → Exec S A
  catch m f w = let (r, w') = m w in recover r f w'

  -- `return fmt.Errorf("…: %w", err)`.
  abbrev pub wrapping : String → Exec S A → Exec S A
  wrapping before m = catch m (λ e. fail (wrap before "" e))

module _ {S : Type 0} where
  abbrev pub failure : Result (Unit {0}) → Exec S (Option Error)
  failure (ok a) w = (ok none, w)
  failure (err e) w = (ok (some e), w)
  failure (panics t) w = (panics t, w)

  -- The error of a call, as a value to test.
  abbrev pub try : Exec S (Unit {0}) → Exec S (Option Error)
  try m w = let (r, w') = m w in failure r w'

  -- A call whose error is at most logged.
  abbrev pub ignoring : Exec S (Unit {0}) → Exec S (Unit {0})
  ignoring m = try m >> pure tt

-- Whether the call went through, and its error if not.
abbrev pub fault : Outcome → Option Error
fault done = none
fault (refused e) = some e
fault (lost e) = some e

-- The loop ends with no row read where `rows.Next()` is false.
abbrev pub unless_stopped :
    {S T : Type 0} → Option Error → Exec S (List T × Option Error) → Exec S (List T × Option Error)
unless_stopped (some e) m = pure ([], some e)
unless_stopped none m = m

module _ {S : Type 0} (env : Env) where
  -- What one call leaves, by its outcome.
  abbrev pub settle : Outcome → (S → S) → World S → Result (Unit {0}) × World S
  settle done f w = (ok tt, record { calls = w.calls + 1; state = f w.state })
  settle (refused e) f w = (err e, record { calls = w.calls + 1; state = w.state })
  settle (lost e) f w = (err e, record { calls = w.calls + 1; state = f w.state })

  -- An external call with its effect on the state.
  unfoldable pub call : (S → S) → Exec S (Unit {0})
  call f w = settle (env.outcome w.calls) f w

  -- A statement that the database refuses where a constraint is broken, whatever else happens.
  unfoldable pub call_if : (S → Bool) → (S → S) → Exec S (Unit {0})
  unfolding call
  call_if fits f w = if fits w.state then call f w else (call (λ s. s) >> fail env.violation) w

  -- A call that has no effect: a query is built, sent, or read.
  abbrev pub attempt : Exec S (Unit {0})
  attempt = call (λ s. s)

  -- `rows.Next()`: the error is kept for `rows.Err()`.
  unfoldable pub next_row : Exec S (Option Error)
  next_row w = (ok (fault (env.outcome w.calls)), record { calls = w.calls + 1; state = w.state })

  -- `for rows.Next() { … rows.Scan … }`: the rows that were read, and what `rows.Err()` is then.
  unfoldable pub scan_rows : {T : Type 0} → String → List T → Exec S (List T × Option Error)
  unfolding call next_row
  scan_rows before [] = do stopped ← next_row; pure ([], stopped)
  scan_rows before (r ∷ rs) = do
    stopped ← next_row
    unless_stopped stopped
        do wrapping before attempt; rest ← scan_rows before rs; pure (r ∷ rest.0, rest.1)
