-- ===== src/Logger/Sampler/Threads.antt =====
-- `ShouldLog` in several goroutines, one atomic operation at a time.
use thiam_api.Base.{
  subst, ℕ, zero, ◌+◌, ◌*◌, ◌-◌, ◌≤◌, ◌<◌, ◌≡◌, refl, Bool, true, false, List, [], ◌∷◌,
  if◌then◌else◌, ◌==◌, length, arith,
}
use thiam_api.Logger.Sampler.{Sampler, is_due, within, add_one, sign_bit}

-- Where a goroutine stands: before it reads the clock; with a reading; with `lastReset` loaded; with
-- the compare-and-swap won, before `counter.Store(0)`; before `counter.Add(1)`; with its answer.
pub data Place : Type 0 where
  entering : Place
  timed : ℕ → Place
  loaded : ℕ → ℕ → Place
  resetting counting : Place
  answered : Bool → Place

-- What one operation does: where the goroutine stands then, and the sampler.
abbrev pub swap : Bool → ℕ → Sampler → Place × Sampler
swap true now s = (resetting, record s { last_reset = now })
swap false now s = (counting, s)

unfoldable pub step : ℕ → Place → Sampler → Place × Sampler
step clock entering s = (timed clock, s)
step clock (timed now) s = (loaded now s.last_reset, s)
step clock (loaded now last) s =
    if is_due now last s then swap (s.last_reset == last) now s else (counting, s)
step clock resetting s = (counting, record s { counter = zero })
step clock counting s =
    (answered (within (add_one s.counter) s.rate), record s { counter = add_one s.counter })
step clock (answered b) s = (answered b, s)

-- The operation that is next answers true, or resets the counter.
abbrev pub passes_now : Place → Sampler → ℕ
passes_now counting s = if within (add_one s.counter) s.rate then 1 else 0
passes_now _ s = 0

abbrev pub resets_now : Place → ℕ
resets_now resetting = 1
resets_now _ = 0

abbrev pub moved_to : ℕ → Place → (ℕ → Place) → ℕ → Place
moved_to i p threads j = if j == i then p else threads j

-- An interleaving says at each step which goroutine goes on, and what the clock shows.
-- The entries that pass in an interleaving.
unfoldable pub passed_in : List (ℕ × ℕ) → (ℕ → Place) → Sampler → ℕ
unfolding step
passed_in [] threads s = 0
passed_in ((i, clock) ∷ steps) threads s =
    let (p, t) = step clock (threads i) s in
    passes_now (threads i) s + passed_in steps (moved_to i p threads) t

-- How often the counter is reset in it.
unfoldable pub resets_in : List (ℕ × ℕ) → (ℕ → Place) → Sampler → ℕ
unfolding step
resets_in [] threads s = 0
resets_in ((i, clock) ∷ steps) threads s =
    let (p, t) = step clock (threads i) s in
    resets_now (threads i) + resets_in steps (moved_to i p threads) t

-- What a step leaves to pass until the next reset.
step_bound :
    (clock : ℕ) (p : Place) (s : Sampler) (rest resets : ℕ)
    → s.counter + 1 < sign_bit
    → rest ≤ s.rate * resets + (s.rate - (step clock p s).1.counter)
    → passes_now p s + rest ≤ s.rate * (resets_now p + resets) + (s.rate - s.counter)
unfolding step
step_bound clock entering s rest resets b h = omega arith
step_bound clock (timed now) s rest resets b h = omega arith
step_bound clock (loaded now last) s rest resets b h = ground arith
step_bound clock resetting s rest resets b h = ground arith
step_bound clock counting s rest resets b h = ground arith
step_bound clock (answered a) s rest resets b h = omega arith

step_rate : (clock : ℕ) (p : Place) (s : Sampler) → (step clock p s).1.rate ≡ s.rate
unfolding step
step_rate clock entering s = refl
step_rate clock (timed now) s = refl
step_rate clock (loaded now last) s = ground arith
step_rate clock resetting s = refl
step_rate clock counting s = refl
step_rate clock (answered a) s = refl

step_counter :
    (clock : ℕ) (p : Place) (s : Sampler)
    → s.counter + 1 < sign_bit
    → (step clock p s).1.counter ≤ s.counter + 1
unfolding step
step_counter clock entering s b = omega arith
step_counter clock (timed now) s b = omega arith
step_counter clock (loaded now last) s b = ground arith
step_counter clock resetting s b = omega arith
step_counter clock counting s b = ground arith
step_counter clock (answered a) s b = omega arith

-- However goroutines interleave, no more entries pass than the rate times the number of resets of
-- the counter, and what was left of the rate at the start, as long as the counter stays below 2 ^
-- 63.
pub passed_in_bound :
    (steps : List (ℕ × ℕ)) (threads : ℕ → Place) (s : Sampler)
    → s.counter + length steps < sign_bit
    → passed_in steps threads s ≤ s.rate * resets_in steps threads s + (s.rate - s.counter)
unfolding passed_in resets_in
passed_in_bound [] threads s b = omega arith
passed_in_bound ((i, clock) ∷ steps) threads s b =
    let p = (step clock (threads i) s).0 in
    let t = (step clock (threads i) s).1 in
    let c = step_counter clock (threads i) s (omega arith) in
    step_bound clock (threads i) s _ _ (omega arith) (
      subst
        (λ r.
          passed_in steps (moved_to i p threads) t
          ≤ r * resets_in steps (moved_to i p threads) t + (r - t.counter))
        (step_rate clock (threads i) s)
        (passed_in_bound steps (moved_to i p threads) t (omega (arith, c))))
