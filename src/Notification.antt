-- ===== src/Notification.antt =====
-- internal/entity/notification, and the state behind the notification service: the tables of
-- migrations/20251208145901_notifications.up.sql, and what the senders delivered.
pub mod Inbox
pub mod Preferences
pub mod PushTokens
pub mod DeliveryLogs
pub mod Service
pub mod UseCases
mod Tests
use thiam_api.Base.{ℕ, ◌==◌, ◌||◌, Bool, false, List, [], ◌∷◌, Option, String, if◌then◌else◌}
use thiam_api.Errors.{Error, leaf}

pub data Channel : Type 0 where
  email sms push in_app : Channel

pub data Status : Type 0 where
  pending sent failed delivered read : Status

-- A UUID is a number, 0 the nil one; a time is in nanoseconds, 0 the zero time.
pub record InAppNotification : Type 0 where
  pub id : ℕ
  pub user_id : ℕ
  pub type : String
  pub title : String
  pub body : String
  pub data_map : List (String × String)
  pub action_url : Option String
  pub image_url : Option String
  pub read : Bool
  pub read_at : Option ℕ
  pub created_at : ℕ

pub record UserPreferences : Type 0 where
  pub user_id : ℕ
  pub email_enabled : Bool
  pub sms_enabled : Bool
  pub push_enabled : Bool
  pub in_app_enabled : Bool
  pub quiet_start : Option String
  pub quiet_end : Option String
  pub updated_at : ℕ

pub record DeliveryLog : Type 0 where
  pub id : ℕ
  pub notification_id : ℕ
  pub user_id : ℕ
  pub channel : Channel
  pub status : Status
  pub provider : String
  pub provider_msg_id : Option String
  pub error_message : Option String
  pub attempts : ℕ
  pub created_at : ℕ
  pub delivered_at : Option ℕ

pub record PushToken : Type 0 where
  pub id : ℕ
  pub user_id : ℕ
  pub token : String
  pub platform : String
  pub device_id : String
  pub active : Bool
  pub created_at : ℕ
  pub updated_at : ℕ

pub record Attachment : Type 0 where
  pub filename : String
  pub content_type : String
  pub content : List ℕ

pub record EmailMessage : Type 0 where
  pub user_id : ℕ
  pub to : List String
  pub cc_to : List String
  pub bcc_to : List String
  pub subject : String
  pub body : String
  pub html_body : String
  pub attachments : List Attachment

pub record PushMessage : Type 0 where
  pub user_id : ℕ
  pub title : String
  pub body : String
  pub data_map : List (String × String)
  pub image_url : String
  pub badge : Option ℕ
  pub sound : String

pub record InAppMessage : Type 0 where
  pub user_id : ℕ
  pub type : String
  pub title : String
  pub body : String
  pub data_map : List (String × String)
  pub action_url : String
  pub image_url : String

data Priority : Type 0 where
  low normal high : Priority

-- `Notification` and `SMSMessage`, which the program declares and does not use.
record Notification : Type 0 where
  id : ℕ
  user_id : ℕ
  channel : Channel
  type : String
  title : String
  body : String
  data_map : List (String × String)
  priority : Priority
  status : Status
  scheduled_at : Option ℕ
  sent_at : Option ℕ
  read_at : Option ℕ
  created_at : ℕ
  updated_at : ℕ

record SmsMessage : Type 0 where
  to : String
  body : String

-- The four tables, and the messages that the e-mail and the push sender delivered.
pub record Tables : Type 0 where
  pub notifications : List InAppNotification
  pub preferences : List UserPreferences
  pub push_tokens : List PushToken
  pub delivery_logs : List DeliveryLog
  pub emails : List EmailMessage
  pub pushes : List (PushMessage × List String)

-- `pgx.ErrNoRows`
abbrev pub no_rows : Error
no_rows = leaf 10 "no rows in result set"

-- Whether an id is taken in a table.
abbrev pub taken {ℓ} : {T : Type ℓ} → (T → ℕ) → ℕ → List T → Bool
taken key i [] = false
taken key i (r ∷ rows) = key r == i || taken key i rows

-- `SELECT … WHERE id = ?`
abbrev pub find {ℓ} : {T : Type ℓ} → (T → ℕ) → ℕ → List T → Option T
find key i [] = Option.none
find key i (r ∷ rows) = if key r == i then Option.some r else find key i rows

-- An id that the caller left out is drawn.
abbrev pub id_or : ℕ → ℕ → ℕ
id_or fresh i = if i == 0 then fresh else i
