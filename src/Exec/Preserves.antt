-- ===== src/Exec/Preserves.antt =====
-- Invariants of actions over the state, one rule for each way to build an action.
use thiam_api.Base.{
  refl, ◌≡◌, Bool, true, false, List, [], ◌∷◌, Option, none, some, String, if◌then◌else◌,
}
use thiam_api.Errors.{Error}
use thiam_api.Exec.{
  Env, Exec, Outcome, done, refused, lost, World, Result, ok, err, panics, pure, fail, panic, gets,
  ◌>>=◌, ◌>>◌, wrapping, try, call, call_if, next_row, scan_rows, continue, recover, failure,
  settle, unless_stopped,
}

-- `m` keeps `P` of the state, however it ends.
pub record Preserves {S A : Type 0} (P : S → Type 0) (m : Exec S A) : Type 0 where
  pub holds : (w : World S) → P w.state → P (m w).1.state

module _ {S : Type 0} {P : S → Type 0} {A : Type 0} where
  pub Preserves-pure : (a : A) → Preserves P (pure a)
  Preserves-pure a = record { holds = λ w h. h }

  pub Preserves-fail : (e : Error) → Preserves P (fail {A = A} e)
  Preserves-fail e = record { holds = λ w h. h }

  pub Preserves-panic : (t : String) → Preserves P (panic {A = A} t)
  Preserves-panic t = record { holds = λ w h. h }

  pub Preserves-gets : (f : World S → A) → Preserves P (gets f)
  Preserves-gets f = record { holds = λ w h. h }

  -- A branch either way.
  pub Preserves-if :
      (b : Bool) (m n : Exec S A) → Preserves P m → Preserves P n → Preserves P (if b then m else n)
  Preserves-if true m n km kn = km
  Preserves-if false m n km kn = kn

  recover-preserved :
      (r : Result A) (f : Error → Exec S A) (w : World S)
      → ((e : Error) → Preserves P (f e))
      → P w.state
      → P (recover r f w).1.state
  recover-preserved (ok a) f w kf h = h
  recover-preserved (err e) f w kf h = (kf e).holds w h
  recover-preserved (panics t) f w kf h = h

  pub Preserves-wrapping :
      (before : String) (m : Exec S A) → Preserves P m → Preserves P (wrapping before m)
  Preserves-wrapping before m km = record {
    holds = λ w h. recover-preserved (m w).0 _ (m w).1 (λ e. Preserves-fail _) (km.holds w h);
  }

module _ {S : Type 0} {P : S → Type 0} {A B : Type 0} where
  continue-preserved :
      (r : Result A) (f : A → Exec S B) (w : World S)
      → ((a : A) → Preserves P (f a))
      → P w.state
      → P (continue r f w).1.state
  continue-preserved (ok a) f w kf h = (kf a).holds w h
  continue-preserved (err e) f w kf h = h
  continue-preserved (panics t) f w kf h = h

  pub Preserves-bind :
      (m : Exec S A) (f : A → Exec S B)
      → Preserves P m
      → ((a : A) → Preserves P (f a))
      → Preserves P (m >>= f)
  Preserves-bind m f km kf = record {
    holds = λ w h. continue-preserved (m w).0 f (m w).1 kf (km.holds w h);
  }

module _ {S : Type 0} (P : S → Type 0) where
  failure-preserved : (r : Result (Unit {0})) (w : World S) → P w.state → P (failure r w).1.state
  failure-preserved (ok a) w h = h
  failure-preserved (err e) w h = h
  failure-preserved (panics t) w h = h

  settle-preserved :
      (env : Env) (o : Outcome) (f : S → S) (w : World S)
      → (P w.state → P (f w.state))
      → P w.state
      → P (settle env o f w).1.state
  settle-preserved env done f w kf h = kf h
  settle-preserved env (refused e) f w kf h = h
  settle-preserved env (lost e) f w kf h = kf h

module _ {S : Type 0} (P : S → Type 0) where
  violated-preserved :
      (env : Env) (o : Outcome) (e : Error) (w : World S)
      → P w.state
      → P
          (continue {A = Unit {0}} {B = Unit {0}}
            (settle env o (λ s. s) w).0
            (λ _. fail e)
            (settle env o (λ s. s) w).1).1.state
  violated-preserved env done e w h = h
  violated-preserved env (refused x) e w h = h
  violated-preserved env (lost x) e w h = h

  branch-preserved :
      (env : Env) (b : Bool) (f : S → S) (w : World S)
      → (b ≡ true → P w.state → P (f w.state))
      → P w.state
      → P (if b then call env f w else (call env (λ s. s) >> fail env.violation) w).1.state
  unfolding call
  branch-preserved env true f w kf h = settle-preserved P env (env.outcome w.calls) f w (kf refl) h
  branch-preserved env false f w kf h =
      violated-preserved env (env.outcome w.calls) env.violation w h

module _ {S : Type 0} {P : S → Type 0} where
  pub Preserves-try : (m : Exec S (Unit {0})) → Preserves P m → Preserves P (try m)
  Preserves-try m km = record { holds = λ w h. failure-preserved P (m w).0 (m w).1 (km.holds w h) }

  pub Preserves-call :
      (env : Env) (f : S → S) → ((s : S) → P s → P (f s)) → Preserves P (call env f)
  unfolding call
  Preserves-call env f kf = record {
    holds = λ w h. settle-preserved P env (env.outcome w.calls) f w (kf w.state) h;
  }

  -- A statement keeps `P` where its effect on a state that fits does.
  pub Preserves-call_if :
      (env : Env) (fits : S → Bool) (f : S → S)
      → ((s : S) → fits s ≡ true → P s → P (f s))
      → Preserves P (call_if env fits f)
  unfolding call_if
  Preserves-call_if env fits f kf = record {
    holds = λ w h. branch-preserved P env (fits w.state) f w (kf w.state) h;
  }

  pub Preserves-next_row : (env : Env) → Preserves P (next_row env)
  unfolding next_row
  Preserves-next_row env = record { holds = λ w h. h }

pub ruleset preserving = (
  Preserves-call_if, Preserves-pure, Preserves-fail, Preserves-panic, Preserves-gets, Preserves-if,
  Preserves-wrapping, Preserves-bind, Preserves-try, Preserves-call, Preserves-next_row,
)

module _ {S : Type 0} {P : S → Type 0} {T : Type 0} where
  Preserves-unless_stopped :
      (o : Option Error) (m : Exec S (List T × Option Error))
      → Preserves P m
      → Preserves P (unless_stopped o m)
  Preserves-unless_stopped none m km = km
  Preserves-unless_stopped (some e) m km = Preserves-pure _

  -- Reading rows changes nothing.
  pub Preserves-scan_rows :
      (env : Env) (before : String) (rs : List T) → Preserves P (scan_rows env before rs)
  unfolding scan_rows
  Preserves-scan_rows env before [] =
      Preserves-bind _ _ (Preserves-next_row env) (λ o. Preserves-pure ([], o))
  Preserves-scan_rows env before (r ∷ rs) = Preserves-bind _ _ (Preserves-next_row env) λ o.
      Preserves-unless_stopped o _ (
        Preserves-bind _ _ (Preserves-wrapping before _ (Preserves-call env _ (λ s h. h))) λ _.
          Preserves-bind _ _ (Preserves-scan_rows env before rs)
            λ rest. Preserves-pure (r ∷ rest.0, rest.1))
