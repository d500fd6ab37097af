-- ===== src/Rpc/Lifecycle/Hang.antt =====
-- Shutting down after a reconnect has failed.
use thiam_api.Base.{subst, ◌≡◌, false, arith, ap, refl, true, Bool}
use thiam_api.Errors.{Error}
use thiam_api.Rpc.Lifecycle.{
  failing, Waiter, not_called, waiting, closing, finished, Runner, Step, start, serve, see_stop,
  lose_deliveries, reconnect, give_up, announce, hand_over, read_notice, close_notify, shut, join,
  crash, crashed, join_fresh, close_connection, Reach, here, next, Place,
}
use thiam_api.Rpc.Lifecycle.Sound.{has_given_up}
use thiam_api.Rpc.Lifecycle.Finish.{IsFinished}

-- Before `eg.Wait` has returned.
abbrev pub IsBefore : Waiter → Type 0
IsBefore not_called = Unit {0}
IsBefore waiting = Unit {0}
IsBefore w = ⊥

pub record IsStuck (e : Error) (s : Runner) : Type 0 where
  pub blocked : s.place ≡ failing e
  pub no_room : s.capacity ≡ 0
  pub before : IsBefore s.waiter

Step-IsStuck : (e : Error) {s t : Runner} → Step false s t → IsStuck e s → IsStuck e t
Step-IsStuck e (start p) h = absurd (ground (arith, h.blocked))
Step-IsStuck e (serve p) h = absurd (ground (arith, h.blocked))
Step-IsStuck e (see_stop p b) h = absurd (ground (arith, h.blocked))
Step-IsStuck e (lose_deliveries p) h = absurd (ground (arith, h.blocked))
Step-IsStuck e (reconnect v n p q) h = absurd (ground (arith, h.blocked))
Step-IsStuck e (give_up v n x p q) h = absurd (ground (arith, h.blocked))
Step-IsStuck e (announce x p k) h = absurd (omega (arith, k, h.no_room))
Step-IsStuck e (hand_over x b p n) h = absurd (ground arith)
Step-IsStuck e (read_notice x rest b n) h = absurd (ground arith)
Step-IsStuck e (close_notify x p) h = absurd (ground (arith, h.blocked))
Step-IsStuck e (shut w) h = record { blocked = h.blocked; no_room = h.no_room; before = tt }
Step-IsStuck e (join o w p) h = absurd (ground (arith, h.blocked))
Step-IsStuck e (join_fresh w p) h = absurd (ground (arith, h.blocked))
Step-IsStuck e {s = s} (close_connection es o w l) h = absurd (subst IsBefore w h.before)
Step-IsStuck e {s = s} (crash es w l) h = absurd (subst IsBefore w h.before)

Reach-IsStuck : (e : Error) {s t : Runner} → Reach false s t → IsStuck e s → IsStuck e t
Reach-IsStuck e here h = h
Reach-IsStuck e (next p st) h = Step-IsStuck e st (Reach-IsStuck e p h)

not-IsFinished : (w : Waiter) → IsBefore w → ¬ IsFinished w
not-IsFinished not_called b f = f
not-IsFinished waiting b f = f
not-IsFinished crashed b f = b
not-IsFinished (closing es) b f = b
not-IsFinished (finished es) b f = b

-- A client, whose channel `notify` has no room, is never shut down again once a reconnect has failed
-- and `eg.Wait` has not returned, if no call is made any more that would read `notify`: in no
-- state that it reaches has `Shutdown` returned.
pub shutdown_hangs :
    (e : Error) (s : Runner) → IsStuck e s → (t : Runner) → Reach false s t → ¬ IsFinished t.waiter
shutdown_hangs e s h t p = not-IsFinished t.waiter (Reach-IsStuck e p h).before

-- After a reconnect that could not dial, whatever the channel's capacity and whoever reads it.
pub record IsLost (s : Runner) : Type 0 where
  pub gone : has_given_up s.place ≡ true
  pub unlinked : s.link.connection ≡ false
  pub pending : ¬ IsFinished s.waiter

given_up-other : (p q : Place) → p ≡ q → has_given_up q ≡ false → ¬ (has_given_up p ≡ true)
given_up-other p q e f h = absurd (ground (arith, ap has_given_up e))

Step-IsLost : {r : Bool} {s t : Runner} → Step r s t → IsLost s → IsLost t
Step-IsLost (start p) h = absurd (given_up-other _ _ p refl h.gone)
Step-IsLost (serve p) h = absurd (given_up-other _ _ p refl h.gone)
Step-IsLost (see_stop p b) h = absurd (given_up-other _ _ p refl h.gone)
Step-IsLost (lose_deliveries p) h = absurd (given_up-other _ _ p refl h.gone)
Step-IsLost (reconnect v n p q) h = absurd (given_up-other _ _ p refl h.gone)
Step-IsLost (give_up v n x p q) h = absurd (given_up-other _ _ p refl h.gone)
Step-IsLost (announce x p k) h = record { gone = refl; unlinked = h.unlinked; pending = h.pending }
Step-IsLost (hand_over x b p n) h = record {
  gone = refl;
  unlinked = h.unlinked;
  pending = h.pending;
}
Step-IsLost (read_notice x rest b n) h = record {
  gone = h.gone;
  unlinked = h.unlinked;
  pending = h.pending;
}
Step-IsLost (close_notify x p) h = record {
  gone = refl;
  unlinked = h.unlinked;
  pending = h.pending;
}
Step-IsLost (shut w) h = record { gone = h.gone; unlinked = h.unlinked; pending = λ f. f }
Step-IsLost (join o w p) h = record { gone = h.gone; unlinked = h.unlinked; pending = λ f. f }
Step-IsLost (join_fresh w p) h = record { gone = h.gone; unlinked = h.unlinked; pending = λ f. f }
Step-IsLost (close_connection es o w l) h = absurd (ground (arith, l, h.unlinked))
Step-IsLost (crash es w l) h = record { gone = h.gone; unlinked = h.unlinked; pending = λ f. f }

Reach-IsLost : {r : Bool} {s t : Runner} → Reach r s t → IsLost s → IsLost t
Reach-IsLost here h = h
Reach-IsLost (next p st) h = Step-IsLost st (Reach-IsLost p h)

-- A server or client whose reconnect failed because it could not dial is never shut down in order:
-- if `Shutdown` had not returned then, it returns in no later state, whoever reads `notify`.
pub shutdown_never_returns :
    (r : Bool) (e : Error) (s : Runner)
    → s.place ≡ failing e
    → s.link.connection ≡ false
    → ¬ IsFinished s.waiter
    → (t : Runner) → Reach r s t
    → ¬ IsFinished t.waiter
shutdown_never_returns r e s p l n t q =
    (Reach-IsLost q (record { gone = ap has_given_up p; unlinked = l; pending = n })).pending
