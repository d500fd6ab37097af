-- ===== src/Logger/Sampler.antt =====
-- pkg/logger/sampler.go: `Sampler`, one call after the other and in several goroutines. Clock
-- readings are in nanoseconds; the counter is the bit pattern of an int64, whose increment wraps.
pub mod Window
pub mod Threads
pub mod Overshoot
use thiam_api.Base.{zero, suc, ℕ, ◌+◌, ◌%◌, Bool, ◌||◌, if◌then◌else◌, leb, ltb}
use thiam_api.Base.Int.{ℤ, pos, negsuc}
use thiam_api.Exec.{Result, ok, panics}

pub record Sampler : Type 0 where
  pub rate : ℕ
  pub counter : ℕ
  pub interval : ℕ
  pub last_reset : ℕ

-- 2 ^ 63 and 2 ^ 64
abbrev pub sign_bit : ℕ
sign_bit = 9223372036854775808

abbrev pub word : ℕ
word = 18446744073709551616

-- `NewSampler`
unfoldable pub new_sampler : ℤ → ℤ → ℕ → Result Sampler
new_sampler (negsuc n) interval now = panics "sampler rate must be positive"
new_sampler (pos zero) interval now = panics "sampler rate must be positive"
new_sampler (pos (suc n)) (negsuc m) now = panics "sampler interval must be positive"
new_sampler (pos (suc n)) (pos zero) now = panics "sampler interval must be positive"
new_sampler (pos (suc n)) (pos (suc m)) now =
    ok (record { rate = suc n; counter = 0; interval = suc m; last_reset = now })

-- `now-lastReset > s.interval`
abbrev pub is_due : ℕ → ℕ → Sampler → Bool
is_due now last s = ltb (last + s.interval) now

-- `counter.Add(1)`
abbrev pub add_one : ℕ → ℕ
add_one c = (c + 1) % word

-- `count <= s.rate` on int64, for a rate that is positive.
abbrev pub within : ℕ → ℕ → Bool
within count rate = leb sign_bit count || leb count rate

abbrev pub reset_at : ℕ → Sampler → Sampler
reset_at now s = record s { counter = 0; last_reset = now }

abbrev pub counted : Sampler → Bool × Sampler
counted s = (within (add_one s.counter) s.rate, record s { counter = add_one s.counter })

-- `Sampler.ShouldLog`, not interrupted.
unfoldable pub should_log : ℕ → Sampler → Bool × Sampler
should_log now s = counted (if is_due now s.last_reset s then reset_at now s else s)
