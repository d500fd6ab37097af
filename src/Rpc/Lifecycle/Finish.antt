-- ===== src/Rpc/Lifecycle/Finish.antt =====
-- Shutting down a server, wherever its goroutine stands.
use thiam_api.Rpc.Lifecycle.Sound.{
  QuietAt, StopsAt, LinkedAt, calm, has_given_up, IsSound, Step-IsSound, Reach-IsSound,
  new_runner-IsSound, attempt_connect-calm,
}
use thiam_api.Base.Int.{ℤ, pos}
use thiam_api.Rpc.Connection.{Link}
use thiam_api.Base.{
  length, ap, suc, subst, [], ℕ, not, some, none, Option, ◌≡◌, refl, Bool, true, false, List, arith,
}
use thiam_api.Errors.{Error}
use thiam_api.Rpc.Lifecycle.{
  not_called, announce, shut, new_runner, reconnect, join_fresh, wait_errors, waiting, closing,
  Place, fresh, listening, reconnecting, failing, announced, returned, Waiter, finished, crashed,
  Runner, Step, see_stop, close_notify, join, close_connection, crash, Reach, here, next,
}

-- `Shutdown` has returned; `Shutdown` has ended, by a panic or not.
abbrev pub IsFinished : Waiter → Type 0
IsFinished (finished es) = Unit {0}
IsFinished w = ⊥

abbrev pub HasEnded : Waiter → Type 0
HasEnded crashed = Unit {0}
HasEnded w = IsFinished w

-- There is a way on to the end of `Shutdown`, where it returns if there is a connection.
abbrev pub EndsIn : Bool → Waiter → Type 0
EndsIn true w = IsFinished w
EndsIn false w = HasEnded w

pub record CanEnd (has_reader is_linked : Bool) (s : Runner) : Type 0 where
  pub last : Runner
  pub way : Reach has_reader s last
  pub ending : EndsIn is_linked last.waiter

prepend : {r : Bool} {s t u : Runner} → Step r s t → Reach r t u → Reach r s u
prepend st here = next here st
prepend st (next p last) = next (prepend st p) last

CanEnd-Step : {r b : Bool} {s t : Runner} → Step r s t → CanEnd r b t → CanEnd r b s
CanEnd-Step st c = record { last = c.last; way = prepend st c.way; ending = c.ending }

HasEnded-EndsIn : (b : Bool) (w : Waiter) → EndsIn b w → HasEnded w
HasEnded-EndsIn false w f = f
HasEnded-EndsIn true (finished es) f = tt
HasEnded-EndsIn true not_called f = f
HasEnded-EndsIn true waiting f = f
HasEnded-EndsIn true crashed f = tt
HasEnded-EndsIn true (closing es) f = f

EndsIn-linked : (b c : Bool) (w : Waiter) → (c ≡ true → b ≡ true) → EndsIn b w → EndsIn c w
EndsIn-linked b false w k f = HasEnded-EndsIn b w f
EndsIn-linked true true w k f = f
EndsIn-linked false true w k f = absurd (ground (arith, k refl))

CanEnd-linked : {r b c : Bool} {s : Runner} → (c ≡ true → b ≡ true) → CanEnd r b s → CanEnd r c s
CanEnd-linked {b = b} {c = c} k e = record {
  last = e.last;
  way = e.way;
  ending = EndsIn-linked b c e.last.waiter k e.ending;
}

module _ (r : Bool) where
  end_closing :
      (s : Runner) (es : List Error) (b : Bool)
      → s.waiter ≡ closing es
      → s.link.connection ≡ b
      → CanEnd r b s
  end_closing s es true w l = record {
    last = _;
    way = next here (close_connection es none w l);
    ending = tt;
  }
  end_closing s es false w l = record { last = _; way = next here (crash es w l); ending = tt }

  end_returned :
      (s : Runner) (o : Option Error)
      → s.waiter ≡ waiting
      → s.place ≡ returned o
      → CanEnd r s.link.connection s
  end_returned s o w p = CanEnd-Step (join o w p) (end_closing _ (wait_errors o) _ refl refl)

  end_announced :
      (s : Runner) (e : Error)
      → s.waiter ≡ waiting
      → s.place ≡ announced e
      → CanEnd r s.link.connection s
  end_announced s e w p = CanEnd-Step (close_notify e p) (end_returned _ (some e) w refl)

  end_listening :
      (s : Runner)
      → s.waiter ≡ waiting
      → s.is_stopped ≡ true
      → s.place ≡ listening
      → CanEnd r s.link.connection s
  end_listening s w b p = CanEnd-Step (see_stop p b) (end_returned _ none w refl)

  end_fresh : (s : Runner) → s.waiter ≡ waiting → s.place ≡ fresh → CanEnd r s.link.connection s
  end_fresh s w p = CanEnd-Step (join_fresh w p) (end_closing _ [] _ refl refl)

  end_failing :
      (s : Runner) (e : Error)
      → IsSound s
      → s.waiter ≡ waiting
      → s.place ≡ failing e
      → CanEnd r s.link.connection s
  end_failing s e h w p =
      let q = subst (QuietAt s) p h.quiet in
      let k = h.limits.0 in
      CanEnd-Step (announce e p (omega (arith, ap length q))) (end_announced _ e w refl)

  -- From a reconnect that comes through.
  end_reconnecting :
      (s : Runner)
      → IsSound s
      → s.waiter ≡ waiting
      → s.is_stopped ≡ true
      → s.place ≡ reconnecting
      → CanEnd r true s
  end_reconnecting s h w b p =
      let st : Step r s _ = reconnect calm 0 p (attempt_connect-calm _ _) in
      CanEnd-Step st
        (CanEnd-linked (λ g. (Step-IsSound st h).linked refl) (end_listening _ w b refl))

  end_waiting :
      (s : Runner) (p : Place)
      → IsSound s
      → s.waiter ≡ waiting
      → s.is_stopped ≡ true
      → s.place ≡ p
      → CanEnd r (not (has_given_up p)) s
  end_waiting s fresh h w b e =
      CanEnd-linked (λ g. subst (LinkedAt s) e h.linked refl) (end_fresh s w e)
  end_waiting s listening h w b e =
      CanEnd-linked (λ g. subst (LinkedAt s) e h.linked refl) (end_listening s w b e)
  end_waiting s reconnecting h w b e = end_reconnecting s h w b e
  end_waiting s (failing x) h w b e =
      CanEnd-linked (λ g. absurd (ground arith)) (end_failing s x h w e)
  end_waiting s (announced x) h w b e =
      CanEnd-linked (λ g. absurd (ground arith)) (end_announced s x w e)
  end_waiting s (returned none) h w b e =
      CanEnd-linked (λ g. subst (LinkedAt s) e h.linked refl) (end_returned s none w e)
  end_waiting s (returned (some x)) h w b e =
      CanEnd-linked (λ g. absurd (ground arith)) (end_returned s (some x) w e)

  not-false : (b : Bool) → not b ≡ true → b ≡ false
  not-false b h = ground arith

  end_from :
      (s : Runner) (w : Waiter)
      → IsSound s
      → s.waiter ≡ w
      → ¬ HasEnded w
      → CanEnd r (not (has_given_up s.place)) s
  end_from s not_called h e n =
      let t : Runner = record s { waiter = waiting; is_stopped = true } in
      CanEnd-Step (shut e) (end_waiting t s.place (Step-IsSound {r = r} (shut e) h) refl refl refl)
  end_from s waiting h e n = end_waiting s s.place h e (subst (StopsAt s) e h.stopping) refl
  end_from s (closing es) h e n =
      CanEnd-linked (λ g. h.linked (not-false _ g)) (end_closing s es _ e refl)
  end_from s crashed h e n = absurd (n tt)
  end_from s (finished es) h e n = absurd (n tt)

  -- A server that has connected can be shut down from every state that it reaches, as long as
  -- `Shutdown` has not ended.
  pub shutdown-CanEnd :
      (z : ℤ) (k : ℕ) (l : Link) (s : Runner)
      → z ≡ pos (suc k)
      → l.connection ≡ true
      → Reach r (new_runner 1 z l) s
      → ¬ HasEnded s.waiter
      → CanEnd r (not (has_given_up s.place)) s
  shutdown-CanEnd z k l s a c p n =
      end_from s s.waiter (Reach-IsSound p (new_runner-IsSound z k l a c)) refl n
