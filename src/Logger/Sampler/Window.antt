-- ===== src/Logger/Sampler/Window.antt =====
-- How many entries pass, one call after the other.
use thiam_api.Base.{
  ℕ, ◌+◌, ◌*◌, ◌-◌, ◌≤◌, ◌<◌, ◌≡◌, List, [], ◌∷◌, if◌then◌else◌, leb, length, All, arith,
}
use thiam_api.Logger.Sampler.{Sampler, should_log, is_due, sign_bit}

-- The entries that pass among calls at these times.
unfoldable pub passed : List ℕ → Sampler → ℕ
unfolding should_log
passed [] s = 0
passed (now ∷ nows) s = let (b, t) = should_log now s in (if b then 1 else 0) + passed nows t

-- The calls that start a new window.
unfoldable pub windows : List ℕ → Sampler → ℕ
unfolding should_log
windows [] s = 0
windows (now ∷ nows) s =
    (if is_due now s.last_reset s then 1 else 0) + windows nows (should_log now s).1

abbrev pub min : ℕ → ℕ → ℕ
min a b = if leb a b then a else b

-- In one window, which no call is late enough to end, as many entries pass as there are calls, up
-- to what is left of the rate. The counter must not reach 2 ^ 63.
passed_window :
    (nows : List ℕ) (s : Sampler)
    → All (λ now. now ≤ s.last_reset + s.interval) nows
    → s.counter + length nows < sign_bit
    → passed nows s ≡ min (length nows) (s.rate - s.counter)
unfolding passed should_log
passed_window [] s h b = ground arith
passed_window (now ∷ nows) s h b =
    ground (arith, passed_window nows (record s { counter = s.counter + 1 }))

-- At whatever times the calls come one after the other, no more entries pass than the rate times
-- the number of windows that the calls start, and what was left of the rate before; the counter
-- must stay below 2 ^ 63.
pub passed_bound :
    (nows : List ℕ) (s : Sampler)
    → s.counter + length nows < sign_bit
    → passed nows s ≤ s.rate * windows nows s + (s.rate - s.counter)
unfolding passed windows should_log
passed_bound [] s b = ground arith
passed_bound (now ∷ nows) s b = ground (
  arith,
  passed_bound nows (record s { counter = 1; last_reset = now }),
  passed_bound nows (record s { counter = s.counter + 1 }),
)
