-- ===== src/Notification/Tests.antt =====
-- Tables of a few rows: the notification theorems at concrete inputs.
use thiam_api.Notification.UseCases.{inbox_get}
use thiam_api.Notification.UseCases.Missing.{missing_answer}
use thiam_api.Errors.{errors_is, unknown, Error, leaf}
use thiam_api.AppError.{get_kind}
use thiam_api.Http.{error_response}
use thiam_api.Exec.{err, call, World, Outcome, done, refused, ok, Env, ◌>>◌}
use thiam_api.Base.{
  eq_iff, ℕ, ◌==◌, ◌+◌, ◌≡◌, refl, Bool, true, false, [], ◌∷◌, none, if◌then◌else◌, arith, String,
}
use thiam_api.Exec.Faults.{Yields}
use thiam_api.Notification.{
  InAppNotification, UserPreferences, PushToken, EmailMessage, PushMessage, InAppMessage, Tables,
}
use thiam_api.Notification.Preferences.{get_preferences}
use thiam_api.Notification.PushTokens.{store_token, tokens_by_user_id}
use thiam_api.Notification.PushTokens.Devices.{
  UniqueDevices, tokens_by_user_id-store_token, texts_of,
}
use thiam_api.Notification.Service.{Service, send_email, send_push}
use thiam_api.Notification.Service.OptOut.{opted_out, send_email_fail_open}
use thiam_api.Notification.Service.Recipients.{send_push_recipients}

abbrev reset : Error
reset = leaf 1 "connection reset"

abbrev env_with : (ℕ → Outcome) → Env
env_with outcome = record {
  outcome = outcome;
  now = λ n. n + 1000;
  violation = leaf 2 "duplicate key";
  fresh = λ n. n + 100;
}

abbrev calm : Env
calm = env_with (λ _. done)

abbrev note : ℕ → ℕ → Bool → InAppNotification
note id user seen = record {
  id = id;
  user_id = user;
  type = "order";
  title = "Ready";
  body = "Your order is ready";
  data_map = [];
  action_url = none;
  image_url = none;
  read = seen;
  read_at = none;
  created_at = 1;
}

abbrev prefs : ℕ → Bool → UserPreferences
prefs user on = record {
  user_id = user;
  email_enabled = on;
  sms_enabled = true;
  push_enabled = on;
  in_app_enabled = on;
  quiet_start = none;
  quiet_end = none;
  updated_at = 1;
}

abbrev token : ℕ → ℕ → String → String → Bool → PushToken
token id user text device on = record {
  id = id;
  user_id = user;
  token = text;
  platform = "ios";
  device_id = device;
  active = on;
  created_at = 1;
  updated_at = 1;
}

-- User 7 has two devices, one with an inactive token; user 8 turned everything off.
abbrev tables : World Tables
tables = record {
  calls = 0;
  state = record {
    notifications = note 1 7 false ∷ note 2 8 false ∷ note 3 7 true ∷ [];
    preferences = prefs 8 false ∷ [];
    push_tokens =
        token 1 7 "a" "phone" true ∷ token 2 7 "b" "pad" false ∷ token 3 8 "c" "phone" true ∷ [];
    delivery_logs = [];
    emails = [];
    pushes = [];
  };
}

abbrev mail : ℕ → EmailMessage
mail user = record {
  user_id = user;
  to = "ann@example.com" ∷ [];
  cc_to = [];
  bcc_to = [];
  subject = "Hi";
  body = "Hello";
  html_body = "";
  attachments = [];
}

abbrev push_note : ℕ → PushMessage
push_note user = record {
  user_id = user;
  title = "Hi";
  body = "Hello";
  data_map = [];
  image_url = "";
  badge = none;
  sound = "";
}

abbrev app_note : ℕ → InAppMessage
app_note user = record {
  user_id = user;
  type = "order";
  title = "Hi";
  body = "Hello";
  data_map = [];
  action_url = "";
  image_url = "";
}

abbrev service_with : (ℕ → Outcome) → Service
service_with outcome = record { env = env_with outcome; email_sender = true; push_sender = true }

tables-UniqueDevices : UniqueDevices tables.state
tables-UniqueDevices t =
    ground (arith, eq_iff "phone" t.device_id, eq_iff "pad" t.device_id, eq_iff "phone" "pad")

tokens_by_user_id-store_token_example :
    Yields
      (λ ts. texts_of (token 0 7 "d" "phone" true) ts ≡ "d" ∷ [])
      ((store_token calm (token 0 7 "d" "phone" true) >> tokens_by_user_id calm 7) tables).0
tokens_by_user_id-store_token_example =
    tokens_by_user_id-store_token calm (λ _. refl) (token 0 7 "d" "phone" true) tables
      tables-UniqueDevices refl

-- The connection is cut before the second row.
abbrev cut_at : ℕ → ℕ → Outcome
cut_at k n = if n == k then refused reset else done

opted_out_example :
    ((send_email (service_with (λ _. done)) (mail 8) tables).0 ≡ ok tt)
    × ((send_email (service_with (λ _. done)) (mail 8) tables).1.state ≡ tables.state)
unfolding get_preferences call
opted_out_example =
    (opted_out (service_with (λ _. done)) (prefs 8 false) (mail 8) (push_note 8) (app_note 8) tables
      refl refl refl).0

send_email_fail_open_example :
    (send_email (service_with (cut_at 1)) (mail 8) tables).1.state.emails ≡ mail 8 ∷ []
send_email_fail_open_example =
    send_email_fail_open (service_with (cut_at 1)) (prefs 8 false) (mail 8) reset tables refl refl
      refl refl refl refl

send_push_recipients_example :
    (send_push (service_with (λ _. done)) (push_note 7) tables).1.state.pushes
    ≡ (push_note 7, "a" ∷ []) ∷ []
send_push_recipients_example =
    (send_push_recipients (service_with (λ _. done)) (λ _. refl) (push_note 7) tables).1

missing_answer_example :
    ((e : Error) × ((inbox_get calm 9 tables).0 ≡ err e)
      × (errors_is e 11 ≡ true)
      × (get_kind e ≡ unknown)
      × ((error_response e).status ≡ 500))
missing_answer_example = (missing_answer calm (λ n. refl) 9 7 tables refl refl).0
