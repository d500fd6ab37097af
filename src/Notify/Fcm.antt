-- ===== src/Notify/Fcm.antt =====
-- pkg/notify/fcm.go. The state is what the FCM server was sent.
pub mod Pushes
use Prim.Native.String.{◌++◌}
use thiam_api.Base.{
  ℕ, ◌==◌, Bool, true, false, not, List, [], ◌∷◌, ◌++◌ as append, String, if◌then◌else◌, str_eq,
}
use thiam_api.Base.Int.{ℤ, pos, ltb_ℤ}
use thiam_api.Errors.{Error, leaf, wrap}
use thiam_api.Exec.{
  Env, Exec, Result, ok, err, panics, pure, fail, ◌>>=◌, ◌>>◌, wrapping, call, attempt,
}
use thiam_api.Notification.{PushMessage}

-- `FCMConfig`; the time-out is in nanoseconds.
pub record FcmConfig : Type 0 where
  pub server_key : String
  pub timeout : ℕ

-- `FCMSender`: its configuration, and the time-out of its client.
pub record FcmSender : Type 0 where
  pub config : FcmConfig
  pub client_timeout : ℕ

-- `NewFCMSender`
unfoldable pub new_fcm_sender : FcmConfig → FcmSender
new_fcm_sender config = record {
  config = config;
  client_timeout = if config.timeout == 0 then 10000000000 else config.timeout;
}

-- `fcmNotification`
pub record FcmNotification : Type 0 where
  pub title : String
  pub body : String
  pub image_url : String
  pub sound : String
  pub badge : String

-- `fcmMessage`
pub record FcmMessage : Type 0 where
  pub registration_ids : List String
  pub to : String
  pub notification : FcmNotification
  pub data_map : List (String × String)
  pub priority : String
  pub content_available : Bool

-- What is read of an `http.Request` and of an `http.Response`.
pub record HttpRequest : Type 0 where
  pub method : String
  pub url : String
  pub authorization : String
  pub content_type : String
  pub body : List ℕ

pub record HttpResponse : Type 0 where
  pub status_code : ℕ
  pub body : List ℕ

-- `fcmResult`
pub record FcmResult : Type 0 where
  pub message_id : String
  pub registration_id : String
  pub error : String

-- `fcmResponse`
pub record FcmResponse : Type 0 where
  pub multicast_id : ℤ
  pub success : ℤ
  pub failure : ℤ
  pub results : List FcmResult

-- `FailedToken`
pub record FailedToken : Type 0 where
  pub token : String
  pub error : String

-- `FCMSendResult`
pub record FcmSendResult : Type 0 where
  pub success_count : ℤ
  pub failure_count : ℤ
  pub failed_tokens : List FailedToken

abbrev pub has_failed : FcmResult → Bool
has_failed r = not (str_eq r.error "")

-- A failed token in front of those that follow.
abbrev pub and_failed : FailedToken → Result (List FailedToken) → Result (List FailedToken)
and_failed f (ok fs) = ok (f ∷ fs)
and_failed f (err e) = err e
and_failed f (panics t) = panics t

-- The loop over the results. `tokens[i]` panics behind the last token.
unfoldable pub failed_of : List FcmResult → List String → Result (List FailedToken)
failed_of [] tokens = ok []
failed_of (r ∷ rs) [] =
    let rest = failed_of rs [] in
    (if has_failed r then panics "runtime error: index out of range" else rest)
failed_of (r ∷ rs) (t ∷ ts) =
    let rest = failed_of rs ts in
    (if has_failed r then and_failed (record { token = t; error = r.error }) rest else rest)

-- `errFCMBadStatus`
abbrev pub bad_status : Error
bad_status = leaf 41 "fcm returned non-200 status"

abbrev pub with_failed : FcmResponse → Result (List FailedToken) → Result FcmSendResult
with_failed r (ok fs) =
    ok (record { success_count = r.success; failure_count = r.failure; failed_tokens = fs })
with_failed r (err e) = err e
with_failed r (panics t) = panics t

abbrev pub is_empty : List String → Bool
is_empty [] = true
is_empty (t ∷ ts) = false

-- What `SendWithResult` puts in the message.
unfoldable pub fcm_message : PushMessage → List String → FcmMessage
fcm_message msg tokens = record {
  registration_ids = tokens;
  to = "";
  notification = record {
    title = msg.title;
    body = msg.body;
    image_url = msg.image_url;
    sound = msg.sound;
    badge = "";
  };
  data_map = msg.data_map;
  priority = "high";
  content_available = false;
}

-- The request, with its headers.
unfoldable pub fcm_request : FcmSender → List ℕ → HttpRequest
fcm_request f payload = record {
  method = "POST";
  url = "https://fcm.googleapis.com/fcm/send";
  authorization = "key=" ++ f.config.server_key;
  content_type = "application/json";
  body = payload;
}

-- `json.Marshal` on messages and `Decode` on answers, `%d`, and what the server answers.
pub record Fcm : Type 0 where
  pub env : Env
  pub marshal : FcmMessage → Result (List ℕ)
  pub decode : List ℕ → Result FcmResponse
  pub decimal : ℕ → String
  pub response : HttpRequest → HttpResponse

abbrev pub settled : {A : Type 0} → Result A → Exec (List HttpRequest) A
settled r w = (r, w)

-- The result for a response whose body was decoded. The capacity that `make` gets of `Failure` is not
-- modelled: one that no memory can hold panics.
abbrev pub fcm_result : FcmResponse → List String → Result FcmSendResult
fcm_result r tokens =
    with_failed r (if ltb_ℤ (pos 0) r.failure then failed_of r.results tokens else ok [])

module _ (fcm : Fcm) (f : FcmSender) where
  -- From the test of the status on.
  abbrev pub read_response : HttpResponse → List String → Exec (List HttpRequest) FcmSendResult
  read_response resp tokens =
      if not (resp.status_code == 200)
      then fail (wrap "" (": " ++ fcm.decimal resp.status_code) bad_status)
      else do
        fcm_resp ← wrapping "decode response: " (settled (fcm.decode resp.body))
        settled (fcm_result fcm_resp tokens)

  -- `FCMSender.SendWithResult`
  unfoldable pub send_with_result :
      PushMessage → List String → Exec (List HttpRequest) FcmSendResult
  unfolding call failed_of fcm_message fcm_request
  send_with_result msg tokens =
      if is_empty tokens
      then pure (record { success_count = pos 0; failure_count = pos 0; failed_tokens = [] })
      else do
        payload ← wrapping "marshal fcm message: " (settled (fcm.marshal (fcm_message msg tokens)))
        wrapping "create request: " (attempt fcm.env)
        wrapping "send request: " (call fcm.env (λ s. append s (fcm_request f payload ∷ [])))
        read_response (fcm.response (fcm_request f payload)) tokens

  -- `FCMSender.Send`
  unfoldable pub fcm_send : PushMessage → List String → Exec (List HttpRequest) (Unit {0})
  unfolding send_with_result
  fcm_send msg tokens = do send_with_result msg tokens; pure tt
