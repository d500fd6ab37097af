-- ===== src/Notify/Sender.antt =====
-- pkg/notify/interfaces.go: `EmailSender` and `PushSender`. What their users may rely on is a law: a send
-- that reports no error has handed its message over once, and one that does has not done so twice.
pub mod Senders
pub mod Counting
use thiam_api.Base.{[], ◌∷◌, List, All, length, ℕ, ◌+◌, ◌≤◌, ◌≡◌, Bool, true, arith}
use thiam_api.Exec.{Exec, World, Result, ok, err, panics}

-- What a send leaves, by its result and the numbers handed over before and after.
abbrev pub IsSend : Result (Unit {0}) → ℕ → ℕ → Type 0
IsSend (ok a) n k = k ≡ n + 1
IsSend (err e) n k = (n ≤ k) × (k ≤ n + 1)
IsSend (panics t) n k = (n ≤ k) × (k ≤ n + 1)

-- A sender of messages, those that it `accepts`.
pub record Sender (M : Type 0) : Type 1 where
  pub State : Type 0
  pub send : M → Exec State (Unit {0})
  pub delivered : State → ℕ
  pub accepts : M → Bool
  pub once :
      (m : M) (w : World State)
      → accepts m ≡ true
      → IsSend (send m w).0 (delivered w.state) (delivered (send m w).1.state)

abbrev pub successes : Result (Unit {0}) → ℕ
successes (ok a) = 1
successes (err e) = 0
successes (panics t) = 0

IsSend-bounds :
    (r : Result (Unit {0})) (n k : ℕ) → IsSend r n k → (n + successes r ≤ k) × (k ≤ n + 1)
IsSend-bounds (ok a) n k h = (omega (arith, h), omega (arith, h))
IsSend-bounds (err e) n k h = (omega (arith, h.0), h.1)
IsSend-bounds (panics t) n k h = (omega (arith, h.0), h.1)

module _ {M : Type 0} (s : Sender M) where
  -- Messages one after the other, whatever becomes of each: how many sends report no error.
  abbrev pub send_all : List M → World s.State → ℕ × World s.State
  send_all [] w = (0, w)
  send_all (m ∷ ms) w = let (k, v) = send_all ms (s.send m w).1 in (successes (s.send m w).0 + k, v)

  pub send_all_bounds :
      (ms : List M) (w : World s.State)
      → All (λ m. s.accepts m ≡ true) ms
      → (s.delivered w.state + (send_all ms w).0 ≤ s.delivered (send_all ms w).1.state)
        × (s.delivered (send_all ms w).1.state ≤ s.delivered w.state + length ms)
  send_all_bounds [] w h = (omega arith, omega arith)
  send_all_bounds (m ∷ ms) w h =
      let v = (s.send m w).1 in
      let b =
        IsSend-bounds (s.send m w).0 (s.delivered w.state) (s.delivered v.state) (s.once m w h.0) in
      let i = send_all_bounds ms v h.1 in (omega (arith, b.0, i.0), omega (arith, b.1, i.1))
