-- ===== src/Rpc/Lifecycle/Sound.antt =====
-- What holds in every state that a server reaches.
use thiam_api.Base.{
  some, subst, ◌≡◌, refl, Bool, true, false, List, [], ◌∷◌, arith, ◌⊎◌, inl, inr, ℕ, suc, zero,
}
use thiam_api.Base.Int.{ℤ, pos, negsuc, ◌≤ℤ◌}
use thiam_api.Errors.{Error, leaf}
use thiam_api.Exec.{Env, World, ok, done, call}
use thiam_api.Rpc.Connection.{
  Link, attempt_connect, connect_loop, connect, assigning, IsConnected, attempt_connect-IsConnected,
}
use thiam_api.Rpc.Lifecycle.{
  Place, fresh, listening, reconnecting, failing, announced, returned, Waiter, not_called, Runner,
  Step, start, serve, see_stop, lose_deliveries, reconnect, give_up, announce, hand_over,
  read_notice, close_notify, shut, join, join_fresh, close_connection, crash, Reach, here, next,
  new_runner,
}

-- Nothing was sent to `notify` before the goroutine fails, so that its send finds room.
abbrev pub IsQuiet : Place → List Error → Type 0
IsQuiet (announced e) ns = Unit {0}
IsQuiet (returned r) ns = Unit {0}
IsQuiet p ns = ns ≡ []

-- Once `Shutdown` waits, `stop` is closed.
abbrev pub IsStopping : Waiter → Bool → Type 0
IsStopping not_called b = Unit {0}
IsStopping w b = b ≡ true

-- Where the goroutine stands once a reconnect has failed.
abbrev pub has_given_up : Place → Bool
has_given_up (failing e) = true
has_given_up (announced e) = true
has_given_up (returned (some e)) = true
has_given_up p = false

-- There is a connection unless a reconnect has failed.
abbrev pub IsLinked : Place → Bool → Type 0
IsLinked p b = has_given_up p ≡ false → b ≡ true

-- Room for one error, and at least one attempt.
abbrev pub HasLimits : ℕ → ℤ → Type 0
HasLimits capacity attempts = (capacity ≡ 1) × ((k : ℕ) × (attempts ≡ pos (suc k)))

pub record IsSound (s : Runner) : Type 0 where
  pub quiet : IsQuiet s.place s.notices
  pub stopping : IsStopping s.waiter s.is_stopped
  pub linked : IsLinked s.place s.link.connection
  pub limits : HasLimits s.capacity s.attempts

abbrev pub QuietAt : Runner → Place → Type 0
QuietAt s p = IsQuiet p s.notices

IsQuiet-read :
    (p : Place) (e : Error) (ns rest : List Error) → ns ≡ e ∷ rest → IsQuiet p ns → IsQuiet p rest
IsQuiet-read fresh e ns rest h q = absurd (ground arith)
IsQuiet-read listening e ns rest h q = absurd (ground arith)
IsQuiet-read reconnecting e ns rest h q = absurd (ground arith)
IsQuiet-read (failing x) e ns rest h q = absurd (ground arith)
IsQuiet-read (announced x) e ns rest h q = tt
IsQuiet-read (returned r) e ns rest h q = tt

abbrev pub StopsAt : Runner → Waiter → Type 0
StopsAt s w = IsStopping w s.is_stopped

abbrev pub LinkedAt : Runner → Place → Type 0
LinkedAt s p = IsLinked p s.link.connection

-- With at least one attempt, a reconnect that reports no error has a connection.
not_positive : (z : ℤ) (k : ℕ) → z ≡ pos (suc k) → ¬ (z ≤ℤ pos 0)
not_positive z k e h = absurd (ground (arith, h))

connected-connection : {l : Link} {B : Type 0} → ¬ B → IsConnected l ⊎ B → l.connection ≡ true
connected-connection n (inl c) = c.0
connected-connection n (inr b) = absurd (n b)

pub attempt_connect-connection :
    (env : Env) (z : ℤ) (k : ℕ) (w : World Link)
    → z ≡ pos (suc k)
    → (attempt_connect env z w).0 ≡ ok tt
    → (attempt_connect env z w).1.state.connection ≡ true
attempt_connect-connection env z k w a h =
    connected-connection (λ b. not_positive z k a b.0) ((attempt_connect-IsConnected env z w).1 h)

-- Without faults a reconnect reports none.
abbrev pub calm : Env
calm = record { outcome = λ n. done; now = λ n. n; violation = leaf 0 ""; fresh = λ n. n }

pub attempt_connect-calm : (z : ℤ) (w : World Link) → (attempt_connect calm z w).0 ≡ ok tt
unfolding attempt_connect connect_loop connect assigning call
attempt_connect-calm (negsuc n) w = refl
attempt_connect-calm (pos zero) w = refl
attempt_connect-calm (pos (suc k)) w = refl

pub Step-IsSound : {r : Bool} {s t : Runner} → Step r s t → IsSound s → IsSound t
Step-IsSound {s = s} (start e) h = record {
  quiet = subst (QuietAt s) e h.quiet;
  stopping = h.stopping;
  linked = subst (LinkedAt s) e h.linked;
  limits = h.limits;
}
Step-IsSound (serve e) h = record {
  quiet = h.quiet;
  stopping = h.stopping;
  linked = h.linked;
  limits = h.limits;
}
Step-IsSound {s = s} (see_stop e k) h = record {
  quiet = tt;
  stopping = h.stopping;
  linked = subst (LinkedAt s) e h.linked;
  limits = h.limits;
}
Step-IsSound {s = s} (lose_deliveries e) h = record {
  quiet = subst (QuietAt s) e h.quiet;
  stopping = h.stopping;
  linked = subst (LinkedAt s) e h.linked;
  limits = h.limits;
}
Step-IsSound {s = s} (reconnect env n e k) h = record {
  quiet = subst (QuietAt s) e h.quiet;
  stopping = h.stopping;
  linked = λ g. attempt_connect-connection env s.attempts h.limits.1.0 _ h.limits.1.1 k;
  limits = h.limits;
}
Step-IsSound {s = s} (give_up env n x e k) h = record {
  quiet = subst (QuietAt s) e h.quiet;
  stopping = h.stopping;
  linked = λ g. absurd (ground arith);
  limits = h.limits;
}
Step-IsSound (announce x e k) h = record {
  quiet = tt;
  stopping = h.stopping;
  linked = λ g. absurd (ground arith);
  limits = h.limits;
}
Step-IsSound (hand_over x e k n) h = record {
  quiet = tt;
  stopping = h.stopping;
  linked = λ g. absurd (ground arith);
  limits = h.limits;
}
Step-IsSound {s = s} (read_notice x rest k n) h = record {
  quiet = IsQuiet-read s.place x s.notices rest n h.quiet;
  stopping = h.stopping;
  linked = h.linked;
  limits = h.limits;
}
Step-IsSound (close_notify x e) h = record {
  quiet = tt;
  stopping = h.stopping;
  linked = λ g. absurd (ground arith);
  limits = h.limits;
}
Step-IsSound (shut e) h = record {
  quiet = h.quiet;
  stopping = refl;
  linked = h.linked;
  limits = h.limits;
}
Step-IsSound {s = s} (join o w e) h = record {
  quiet = h.quiet;
  stopping = subst (StopsAt s) w h.stopping;
  linked = h.linked;
  limits = h.limits;
}
Step-IsSound {s = s} (join_fresh w e) h = record {
  quiet = h.quiet;
  stopping = subst (StopsAt s) w h.stopping;
  linked = h.linked;
  limits = h.limits;
}
Step-IsSound {s = s} (close_connection es o w l) h = record {
  quiet = h.quiet;
  stopping = subst (StopsAt s) w h.stopping;
  linked = h.linked;
  limits = h.limits;
}
Step-IsSound {s = s} (crash es w l) h = record {
  quiet = h.quiet;
  stopping = subst (StopsAt s) w h.stopping;
  linked = h.linked;
  limits = h.limits;
}

pub Reach-IsSound : {r : Bool} {s t : Runner} → Reach r s t → IsSound s → IsSound t
Reach-IsSound here h = h
Reach-IsSound (next p st) h = Step-IsSound st (Reach-IsSound p h)

pub new_runner-IsSound :
    (z : ℤ) (k : ℕ) (l : Link) → z ≡ pos (suc k) → l.connection ≡ true → IsSound (new_runner 1 z l)
new_runner-IsSound z k l a h = record {
  quiet = refl;
  stopping = tt;
  linked = λ g. h;
  limits = (refl, (k, a));
}
