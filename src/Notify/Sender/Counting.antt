-- ===== src/Notify/Sender/Counting.antt =====
-- Calls that add to a number which is read off the state.
use thiam_api.Base.{ℕ, ◌+◌, ◌≤◌, ◌≡◌, Bool, true, false, String, if◌then◌else◌, arith}
use thiam_api.Errors.{Error, wrap}
use thiam_api.Exec.{
  Env, Exec, World, Outcome, done, refused, lost, Result, ok, err, panics, settle, recover,
  continue, fail, ◌>>=◌, wrapping, call, attempt,
}

-- `k` more if no error is reported, and at most `k` otherwise.
unfoldable pub AddsTo : {A : Type 0} → ℕ → ℕ → Result A → ℕ → Type 0
AddsTo k n (ok a) m = m ≡ n + k
AddsTo k n (err e) m = (n ≤ m) × (m ≤ n + k)
AddsTo k n (panics t) m = (n ≤ m) × (m ≤ n + k)

module _ {S : Type 0} (number : S → ℕ) where
  pub record Adds {A : Type 0} (k : ℕ) (m : Exec S A) : Type 0 where
    pub adds : (w : World S) → AddsTo k (number w.state) (m w).0 (number (m w).1.state)

AddsTo-plus :
    {A : Type 0} (j k n m : ℕ) (q : Result A) (i : ℕ)
    → AddsTo k m q i
    → m ≡ n + j
    → AddsTo (j + k) n q i
unfolding AddsTo
AddsTo-plus j k n m (ok a) i h e = omega (arith, h, e)
AddsTo-plus j k n m (err x) i h e = (omega (arith, h.0, e), omega (arith, h.1, e))
AddsTo-plus j k n m (panics t) i h e = (omega (arith, h.0, e), omega (arith, h.1, e))

module _ {S A B : Type 0} (number : S → ℕ) where
  continue-AddsTo :
      (j k n : ℕ) (r : Result A) (v : World S) (p : A → Exec S B)
      → AddsTo j n r (number v.state)
      → ((a : A) → Adds number k (p a))
      → AddsTo (j + k) n (continue r p v).0 (number (continue r p v).1.state)
  unfolding AddsTo
  continue-AddsTo j k n (ok a) v p h s =
      AddsTo-plus j k n (number v.state) (p a v).0 (number (p a v).1.state) ((s a).adds v) h
  continue-AddsTo j k n (err e) v p h s = (h.0, omega (arith, h.1))
  continue-AddsTo j k n (panics t) v p h s = (h.0, omega (arith, h.1))

  pub Adds-bind :
      {m : Exec S A} {p : A → Exec S B} (j k : ℕ)
      → Adds number j m
      → ((a : A) → Adds number k (p a))
      → Adds number (j + k) (m >>= p)
  Adds-bind {m = m} {p = p} j k h s = record {
    adds = λ w. continue-AddsTo j k (number w.state) (m w).0 (m w).1 p (h.adds w) s;
  }

module _ {S A : Type 0} (number : S → ℕ) where
  recover-AddsTo :
      (k n : ℕ) (text : String) (r : Result A) (v : World S)
      → AddsTo k n r (number v.state)
      → AddsTo k n
          (recover r (λ e. fail (wrap text "" e)) v).0
          (number (recover r (λ e. fail (wrap text "" e)) v).1.state)
  unfolding AddsTo
  recover-AddsTo k n text (ok a) v h = h
  recover-AddsTo k n text (err e) v h = h
  recover-AddsTo k n text (panics t) v h = h

  pub Adds-wrapping :
      {m : Exec S A} (k : ℕ) (text : String) → Adds number k m → Adds number k (wrapping text m)
  Adds-wrapping {m = m} k text h = record {
    adds = λ w. recover-AddsTo k (number w.state) text (m w).0 (m w).1 (h.adds w);
  }

  pub Adds-if :
      (b : Bool) (k : ℕ) (m p : Exec S A)
      → Adds number k m
      → Adds number k p
      → Adds number k (if b then m else p)
  Adds-if true k m p h i = h
  Adds-if false k m p h i = i

  -- A result without a call.
  result-AddsTo : (n : ℕ) (r : Result A) → AddsTo 0 n r n
  unfolding AddsTo
  result-AddsTo n (ok a) = omega arith
  result-AddsTo n (err e) = (omega arith, omega arith)
  result-AddsTo n (panics t) = (omega arith, omega arith)

  pub Adds-result : (r : Result A) → Adds number 0 (λ w. (r, w))
  Adds-result r = record { adds = λ w. result-AddsTo (number w.state) r }

  pub Adds-fail : (k : ℕ) (e : Error) → Adds number k (fail {A = A} e)
  unfolding AddsTo
  Adds-fail k e = record { adds = λ w. (omega arith, omega arith) }

module _ {S : Type 0} (number : S → ℕ) (env : Env) where
  settle-AddsTo :
      (k : ℕ) (f : S → S) (o : Outcome) (w : World S)
      → ((s : S) → number (f s) ≡ number s + k)
      → AddsTo k (number w.state) (settle env o f w).0 (number (settle env o f w).1.state)
  unfolding AddsTo
  settle-AddsTo k f done w h = h w.state
  settle-AddsTo k f (refused e) w h = (omega arith, omega arith)
  settle-AddsTo k f (lost e) w h = (omega (arith, h w.state), omega (arith, h w.state))

  pub Adds-call :
      (k : ℕ) (f : S → S) → ((s : S) → number (f s) ≡ number s + k) → Adds number k (call env f)
  unfolding call
  Adds-call k f h = record { adds = λ w. settle-AddsTo k f (env.outcome w.calls) w h }

  pub Adds-attempt : Adds number 0 (attempt env)
  Adds-attempt = Adds-call 0 (λ s. s) (λ s. omega arith)
