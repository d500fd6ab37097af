-- ===== src/Notification/Service/OptOut.antt =====
-- A channel that a user turned off, and a lookup of the preferences that fails.
use thiam_api.Base.{Bool, true, false, refl, [], ◌∷◌, ◌++◌, ◌+◌, some, arith, ℕ, ◌≡◌}
use thiam_api.Exec.{Env, World, Result, ok, done, refused, call}
use thiam_api.Notification.{
  find, Error, UserPreferences, EmailMessage, PushMessage, InAppMessage, Tables,
}
use thiam_api.Notification.Preferences.{owner, get_preferences}
use thiam_api.Notification.DeliveryLogs.{store_log}
use thiam_api.Notification.Service.{log_delivery, Service, send_in_app, send_push, send_email}

-- Reading preferences changes nothing.
get_preferences_state :
    (env : Env) (user : ℕ) (w : World Tables) → (get_preferences env user w).1.state ≡ w.state
unfolding get_preferences call
get_preferences_state env user w = ground arith

-- Unless the channel is on, a send returns no error and leaves everything as it was.
abbrev pub IsSilent : Bool → World Tables → Result (Unit {0}) × World Tables → Type 0
IsSilent true w r = Unit {0}
IsSilent false w r = (r.0 ≡ ok tt) × (r.1.state ≡ w.state)

IsSilent-off :
    (b : Bool) (w : World Tables) (r : Result (Unit {0}) × World Tables)
    → (b ≡ false → (r.0 ≡ ok tt) × (r.1.state ≡ w.state))
    → IsSilent b w r
IsSilent-off true w r h = tt
IsSilent-off false w r h = h refl

module _ (s : Service) (p : UserPreferences) where
  email_off :
      (e : EmailMessage) (w : World Tables)
      → (get_preferences s.env e.user_id w).0 ≡ ok p
      → p.email_enabled ≡ false
      → ((send_email s e w).0 ≡ ok tt) × ((send_email s e w).1.state ≡ w.state)
  unfolding send_email
  email_off e w got off = ground (arith, get_preferences_state s.env e.user_id w)

  push_off :
      (m : PushMessage) (w : World Tables)
      → (get_preferences s.env m.user_id w).0 ≡ ok p
      → p.push_enabled ≡ false
      → ((send_push s m w).0 ≡ ok tt) × ((send_push s m w).1.state ≡ w.state)
  unfolding send_push
  push_off m w got off = ground (arith, get_preferences_state s.env m.user_id w)

  in_app_off :
      (i : InAppMessage) (w : World Tables)
      → (get_preferences s.env i.user_id w).0 ≡ ok p
      → p.in_app_enabled ≡ false
      → ((send_in_app s i w).0 ≡ ok tt) × ((send_in_app s i w).1.state ≡ w.state)
  unfolding send_in_app
  in_app_off i w got off = ground (arith, get_preferences_state s.env i.user_id w)

  -- A user whose preferences were read, and say that a channel is off, gets nothing on it: the send
  -- returns no error, and no table and no mailbox has changed. For all three channels, whatever
  -- calls fail.
  pub opted_out :
      (e : EmailMessage) (m : PushMessage) (i : InAppMessage) (w : World Tables)
      → (get_preferences s.env e.user_id w).0 ≡ ok p
      → (get_preferences s.env m.user_id w).0 ≡ ok p
      → (get_preferences s.env i.user_id w).0 ≡ ok p
      → IsSilent p.email_enabled w (send_email s e w)
        × IsSilent p.push_enabled w (send_push s m w)
        × IsSilent p.in_app_enabled w (send_in_app s i w)
  opted_out e m i w x y z = (
    IsSilent-off p.email_enabled w (send_email s e w) (email_off e w x),
    IsSilent-off p.push_enabled w (send_push s m w) (push_off m w y),
    IsSilent-off p.in_app_enabled w (send_in_app s i w) (in_app_off i w z),
  )

  -- A user has turned e-mail off, but the query for the preferences is refused and the sender works: the message is sent
  -- to the user all the same.
  pub send_email_fail_open :
      (m : EmailMessage) (e : Error) (w : World Tables)
      → s.email_sender ≡ true
      → find owner m.user_id w.state.preferences ≡ some p
      → p.email_enabled ≡ false
      → s.env.outcome w.calls ≡ done
      → s.env.outcome (w.calls + 1) ≡ refused e
      → s.env.outcome (w.calls + 1 + 1) ≡ done
      → (send_email s m w).1.state.emails ≡ w.state.emails ++ m ∷ []
  unfolding send_email get_preferences call log_delivery store_log
  send_email_fail_open m e w sender row off b cut d = ground arith
