-- ===== src/Notification/Service.antt =====
-- internal/usecase/notification/service.go. A sender that is nil is absent; what a sender does is a
-- call of its own. `err.Error()` is the text that the log keeps.
pub mod OptOut
pub mod Recipients
pub mod Logs
use thiam_api.Base.{
  ℕ, Bool, true, false, not, List, [], ◌∷◌, ◌++◌, map, Option, none, some, String, if◌then◌else◌,
  select, str_eq,
}
use thiam_api.Errors.{wrap, error_text}
use thiam_api.Exec.{Env, Exec, Result, ok, pure, fail, ◌>>=◌, ◌>>◌, catch, wrapping, ignoring, call}
use thiam_api.Notification.{
  InAppNotification, UserPreferences, DeliveryLog, PushToken, EmailMessage, PushMessage,
  InAppMessage, Channel, Status, email, push, sent, failed, Tables,
}
use thiam_api.Notification.Inbox.{store}
use thiam_api.Notification.Preferences.{get_preferences}
use thiam_api.Notification.PushTokens.{tokens_by_user_id}
use thiam_api.Notification.DeliveryLogs.{store_log}

-- `Service`: which of the senders there are.
pub record Service : Type 0 where
  pub env : Env
  pub email_sender : Bool
  pub push_sender : Bool

abbrev pub url_or_nil : String → Option String
url_or_nil s = if str_eq s "" then none else some s

-- The notification that `SendInApp` builds.
abbrev pub in_app_of : InAppMessage → InAppNotification
in_app_of m = record {
  id = 0;
  user_id = m.user_id;
  type = m.type;
  title = m.title;
  body = m.body;
  data_map = m.data_map;
  action_url = url_or_nil m.action_url;
  image_url = url_or_nil m.image_url;
  read = false;
  read_at = none;
  created_at = 0;
}

-- `len(tokens) == 0`
abbrev pub is_empty {ℓ} : {A : Type ℓ} → List A → Bool
is_empty [] = true
is_empty (x ∷ xs) = false

-- `err == nil && !prefs.Enabled`, then an early return.
abbrev pub allowed : (UserPreferences → Bool) → Result UserPreferences → Bool
allowed enabled (ok p) = enabled p
allowed enabled _ = true

-- `prefs, err := s.prefsRepo.Get(ctx, msg.UserID)`, whose error is only tested.
abbrev pub unless_disabled :
    (UserPreferences → Bool)
    → Exec Tables UserPreferences
    → Exec Tables (Unit {0})
    → Exec Tables (Unit {0})
unless_disabled enabled get m w =
    let (r, w') = get w in (if allowed enabled r then m else pure tt) w'

-- The tokens that are active.
abbrev pub active_tokens : List PushToken → List String
active_tokens ts = map (λ t. t.token) (select (λ t. t.active) ts)

abbrev pub delivery_log : ℕ → ℕ → Channel → Status → String → DeliveryLog
delivery_log notification_id user channel status text = record {
  id = 0;
  notification_id = notification_id;
  user_id = user;
  channel = channel;
  status = status;
  provider = "";
  provider_msg_id = none;
  error_message = url_or_nil text;
  attempts = 1;
  created_at = 0;
  delivered_at = none;
}

module _ (s : Service) where
  open s use {env}

  -- `Service.SendInApp`
  unfoldable pub send_in_app : InAppMessage → Exec Tables (Unit {0})
  unfolding store get_preferences
  send_in_app msg =
      unless_disabled (λ p. p.in_app_enabled) (get_preferences env msg.user_id)
        (wrapping "Service - SendInApp - s.notificationRepo.Store: " (store env (in_app_of msg)))

  -- `Service.logDelivery`
  unfoldable pub log_delivery : ℕ → ℕ → Channel → Status → String → Exec Tables (Unit {0})
  unfolding store_log
  log_delivery notification_id user channel status text =
      ignoring (store_log env (delivery_log notification_id user channel status text))

  -- After `Send`: the delivery is logged, and an error is returned wrapped.
  abbrev pub logged : Channel → ℕ → String → Exec Tables (Unit {0}) → Exec Tables (Unit {0})
  logged channel user before send = do
    catch send λ e. do log_delivery 0 user channel failed (error_text e); fail (wrap before "" e)
    log_delivery 0 user channel sent ""

  -- The part of `SendPush` behind the token tests.
  abbrev pub push_to : PushMessage → List String → Exec Tables (Unit {0})
  push_to msg to =
      if is_empty to
      then pure tt
      else if not s.push_sender
      then pure tt
      else logged push msg.user_id "Service - SendPush - s.pushSender.Send: "
          (call env (λ t. record t { pushes = t.pushes ++ (msg, to) ∷ [] }))

  -- `Service.SendPush`
  unfoldable pub send_push : PushMessage → Exec Tables (Unit {0})
  unfolding call error_text tokens_by_user_id get_preferences log_delivery
  send_push msg =
      unless_disabled (λ p. p.push_enabled) (get_preferences env msg.user_id)
        do
          tokens ←
              wrapping "Service - SendPush - s.pushTokenRepo.GetByUserID: "
                (tokens_by_user_id env msg.user_id)
          if is_empty tokens then pure tt else push_to msg (active_tokens tokens)

  -- `Service.SendEmail`
  unfoldable pub send_email : EmailMessage → Exec Tables (Unit {0})
  unfolding call error_text get_preferences log_delivery
  send_email msg =
      if not s.email_sender
      then pure tt
      else unless_disabled (λ p. p.email_enabled) (get_preferences env msg.user_id)
          (logged email msg.user_id "Service - SendEmail - s.emailSender.Send: "
            (call env (λ t. record t { emails = t.emails ++ msg ∷ [] })))
