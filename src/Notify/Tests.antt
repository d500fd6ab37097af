-- ===== src/Notify/Tests.antt =====
-- An e-mail and the results of a push.
use thiam_api.Notify.Sender.{send_all}
use thiam_api.Notify.Sender.Senders.{smtp_sender, fcm_sender, mails, senders_deliver}
use thiam_api.Base.{length, ◌≤◌, ◌==◌, if◌then◌else◌, ◌+◌, ◌≡◌, refl, true, [], ◌∷◌, String, none}
use thiam_api.Exec.{refused, call, Env, World, done, ok}
use thiam_api.Notify.Smtp.{
  dial_tls, authenticate, send_message, rcpts, SmtpConfig, Session, mail, rcpt, data_end, quit,
  smtp_send, build_message, smtp_send-script,
}
use thiam_api.Errors.{leaf}
use thiam_api.Notification.{EmailMessage, PushMessage}
use thiam_api.Notify.Fcm.{
  Fcm, FcmSender, FcmResult, FcmResponse, fcm_request, fcm_send, send_with_result,
}
use thiam_api.Notify.Fcm.Pushes.{send_with_result-failures}
use thiam_api.Base.Int.{pos}

abbrev config : SmtpConfig
config = record {
  host = "mx";
  port = 465;
  username = "";
  password = "";
  from = "app@b.c";
  use_tls = true;
}

abbrev env : Env
env = record { outcome = λ n. done; now = λ n. n; violation = leaf 2 "never"; fresh = λ n. n }

abbrev letter : EmailMessage
letter = record {
  user_id = 7;
  to = "x@b.c" ∷ "y@b.c" ∷ [];
  cc_to = "z@b.c" ∷ [];
  bcc_to = [];
  subject = "Hi";
  body = "Hello";
  html_body = "";
  attachments = [];
}

abbrev fresh_session : World Session
fresh_session = record { calls = 0; state = record { commands = [] } }

-- The recipient in CC gets nothing.
smtp_send-script_example :
    (smtp_send config env letter fresh_session).1.state.commands
    ≡ mail "app@b.c"
      ∷ rcpt "x@b.c"
      ∷ rcpt "y@b.c"
      ∷ data_end (build_message config letter)
      ∷ quit
      ∷ []
unfolding smtp_send
smtp_send-script_example = (smtp_send-script config env letter fresh_session refl).1

abbrev pushed : PushMessage
pushed = record {
  user_id = 7;
  title = "Hi";
  body = "Hello";
  data_map = [];
  image_url = "";
  badge = none;
  sound = "";
}

abbrev result : String → FcmResult
result e = record { message_id = ""; registration_id = ""; error = e }

abbrev response : FcmResponse
response = record {
  multicast_id = pos 1;
  success = pos 1;
  failure = pos 1;
  results = result "" ∷ result "NotRegistered" ∷ [];
}

abbrev fcm : Fcm
fcm = record {
  env = env;
  marshal = λ m. ok (123 ∷ []);
  decode = λ bytes. ok response;
  decimal = λ n. "";
  response = λ req. record { status_code = 200; body = [] };
}

abbrev sender : FcmSender
sender = record { config = record { server_key = "k"; timeout = 0 }; client_timeout = 10000000000 }

send_with_result-failures_example :
    ((send_with_result fcm sender pushed
        ("a" ∷ "b" ∷ [])
        (record { calls = 0; state = [] })).1.state
      ≡ fcm_request sender (123 ∷ []) ∷ [])
    × ((send_with_result fcm sender pushed ("a" ∷ "b" ∷ []) (record { calls = 0; state = [] })).0
        ≡ ok (record {
          success_count = pos 1;
          failure_count = pos 1;
          failed_tokens = record { token = "b"; error = "NotRegistered" } ∷ [];
        }))
    × ((fcm_send fcm sender pushed ("a" ∷ "b" ∷ []) (record { calls = 0; state = [] })).0 ≡ ok tt)
send_with_result-failures_example =
    send_with_result-failures fcm sender (λ n. refl) pushed ("a" ∷ "b" ∷ []) (123 ∷ []) response
      (record { calls = 0; state = [] }) refl refl refl refl refl

-- The server closes the connection before it answers QUIT: the e-mail is handed over, with an error.
abbrev cut : Env
cut = record env { outcome = λ n. if n == 8 then refused (leaf 1 "EOF") else done }

senders_deliver_example :
    let s = send_all (smtp_sender config cut) (letter ∷ []) fresh_session in
    let r =
      send_all
        (fcm_sender fcm sender)
        ((pushed, "a" ∷ []) ∷ [])
        (record { calls = 0; state = [] }) in
    (0 + s.0 ≤ mails s.1.state)
    × (mails s.1.state ≤ 0 + 1)
    × (0 + r.0 ≤ length r.1.state)
    × (length r.1.state ≤ 0 + 1)
senders_deliver_example =
    senders_deliver config cut fcm sender (letter ∷ []) ((pushed, "a" ∷ []) ∷ []) (refl, tt)
      fresh_session (record { calls = 0; state = [] })

-- It is handed over, and no send reported success.
handed_over :
    let s = send_all (smtp_sender config cut) (letter ∷ []) fresh_session in
    (s.0 ≡ 0) × (mails s.1.state ≡ 1)
unfolding smtp_send dial_tls authenticate send_message rcpts call
handed_over = (refl, refl)
