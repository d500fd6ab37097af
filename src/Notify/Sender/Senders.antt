-- ===== src/Notify/Sender/Senders.antt =====
-- The senders that the program has: SMTP and FCM.
use thiam_api.Base.{
  ◌≤◌, All, ◌+◌, refl, [], ◌∷◌, true, not, length, length-append, ◌==◌, str_eq, List, count-append,
  false, ℕ, ◌≡◌, Bool, String, if◌then◌else◌, count, arith,
}
use thiam_api.Notify.Sender.{send_all, send_all_bounds, Sender, IsSend}
use thiam_api.Errors.{wrap}
use Prim.Native.String.{◌++◌}
use thiam_api.Notify.Fcm.{
  send_with_result, bad_status, fcm_result, fcm_message, fcm_request, Fcm, FcmSender, HttpRequest,
  HttpResponse, read_response, fcm_send, is_empty,
}
use thiam_api.Notification.{PushMessage, EmailMessage}
use thiam_api.Notify.Sender.Counting.{
  AddsTo, Adds, Adds-bind, Adds-wrapping, Adds-if, Adds-result, Adds-fail, Adds-call, Adds-attempt,
}
use thiam_api.Exec.{pure, attempt, ok, err, panics, Env, Exec, World, Result, ◌>>◌, wrapping}
use thiam_api.Notify.Smtp.{
  build_message, tls_required, quit, mail, rcpt, smtp_send, send_message, authenticate, dial_tls,
  rcpts, SmtpConfig, Session, Command, data_end, say,
}

abbrev pub is_data_end : Command → Bool
is_data_end (data_end msg) = true
is_data_end c = false

abbrev pub mails : Session → ℕ
mails s = count is_data_end s.commands

AddsTo-IsSend : (n : ℕ) (r : Result (Unit {0})) (m : ℕ) → AddsTo 1 n r m → IsSend r n m
unfolding AddsTo
AddsTo-IsSend n (ok a) m h = h
AddsTo-IsSend n (err e) m h = h
AddsTo-IsSend n (panics t) m h = h

abbrev weight : Command → ℕ
weight c = if is_data_end c then 1 else 0

module _ (config : SmtpConfig) (env : Env) where
  Adds-say : (c : Command) → Adds mails (weight c) (say config env c)
  Adds-say c =
      Adds-call mails env (weight c) _
        (λ s. omega (arith, count-append is_data_end s.commands (c ∷ [])))

  -- One after the other.
  Adds-then :
      {m p : Exec Session (Unit {0})} (j k : ℕ)
      → Adds mails j m
      → Adds mails k p
      → Adds mails (j + k) (m >> p)
  Adds-then j k h i = Adds-bind mails j k h (λ a. i)

  Adds-unit : Adds mails 0 (pure tt)
  Adds-unit = Adds-result mails (ok tt)

  Adds-trying : (text : String) → Adds mails 0 (wrapping text (attempt env))
  Adds-trying text = Adds-wrapping mails 0 text (Adds-attempt mails env)

  Adds-rcpts : (tos : List String) → Adds mails 0 (rcpts config env tos)
  unfolding rcpts
  Adds-rcpts [] = Adds-unit
  Adds-rcpts (to ∷ tos) =
      Adds-then 0 0 (Adds-wrapping mails 0 "smtp rcpt: " (Adds-say (rcpt to))) (Adds-rcpts tos)

  Adds-dial_tls : Adds mails 0 (dial_tls config env)
  unfolding dial_tls
  Adds-dial_tls = Adds-then 0 0 (Adds-trying "tls dial: ") (Adds-trying "smtp client: ")

  Adds-authenticate : Adds mails 0 (authenticate config env)
  unfolding authenticate
  Adds-authenticate =
      Adds-if mails (str_eq config.username "") 0 _ _ Adds-unit (Adds-trying "smtp auth: ")

  Adds-send_message :
      (to : List String) (msg : String) → Adds mails 1 (send_message config env to msg)
  unfolding send_message
  Adds-send_message to msg =
      Adds-then 0 1 (Adds-wrapping mails 0 "smtp mail: " (Adds-say (mail config.from))) (
        Adds-then 0 1 (Adds-rcpts to) (
          Adds-then 0 1 (Adds-trying "smtp data: ") (
            Adds-then 0 1 (Adds-trying "smtp write: ") (
              Adds-then 1 0 (Adds-wrapping mails 1 "smtp close writer: " (Adds-say (data_end msg)))
                (Adds-say quit)))))

  Adds-smtp_send : (msg : EmailMessage) → Adds mails 1 (smtp_send config env msg)
  unfolding smtp_send
  Adds-smtp_send msg = Adds-if mails (not config.use_tls) 1 _ _ (Adds-fail mails 1 tls_required) (
      Adds-then 0 1 Adds-dial_tls
        (Adds-then 0 1 Adds-authenticate (Adds-send_message msg.to (build_message config msg))))

  pub smtp_once :
      (msg : EmailMessage) (w : World Session)
      → IsSend
          (smtp_send config env msg w).0
          (mails w.state)
          (mails (smtp_send config env msg w).1.state)
  smtp_once msg w =
      AddsTo-IsSend (mails w.state) (smtp_send config env msg w).0
        (mails (smtp_send config env msg w).1.state) ((Adds-smtp_send msg).adds w)

  -- `SMTPSender`: a mail is handed over when the server has accepted the end of its data.
  abbrev pub smtp_sender : Sender EmailMessage
  smtp_sender = record {
    State = Session;
    send = smtp_send config env;
    delivered = mails;
    accepts = λ msg. true;
    once = λ msg w h. smtp_once msg w;
  }

abbrev pub requests : List HttpRequest → ℕ
requests rs = length rs

Adds-else :
    {A : Type 0} (b : Bool) (m p : Exec (List HttpRequest) A)
    → b ≡ false
    → Adds requests 1 p
    → Adds requests 1 (if b then m else p)
Adds-else true m p e h = absurd (ground (arith, e))
Adds-else false m p e h = h

module _ (fcm : Fcm) (f : FcmSender) where
  Adds-read_response :
      (resp : HttpResponse) (ts : List String) → Adds requests 0 (read_response fcm f resp ts)
  Adds-read_response resp ts =
      Adds-if requests (not (resp.status_code == 200)) 0 _ _
        (Adds-fail requests 0 (wrap "" (": " ++ fcm.decimal resp.status_code) bad_status))
        (Adds-bind requests 0 0
          (Adds-wrapping requests 0 "decode response: "
            (Adds-result requests (fcm.decode resp.body)))
          (λ r. Adds-result requests (fcm_result r ts)))

  Adds-send_with_result :
      (msg : PushMessage) (ts : List String)
      → is_empty ts ≡ false
      → Adds requests 1 (send_with_result fcm f msg ts)
  unfolding send_with_result
  Adds-send_with_result msg ts h = Adds-else (is_empty ts) _ _ h (
      Adds-bind requests 0 1
        (Adds-wrapping requests 0 "marshal fcm message: "
          (Adds-result requests (fcm.marshal (fcm_message msg ts))))
        (λ payload.
          Adds-bind requests 0 1
            (Adds-wrapping requests 0 "create request: " (Adds-attempt requests fcm.env))
            (λ a.
              Adds-bind requests 1 0
                (Adds-wrapping requests 1 "send request: " (
                  Adds-call requests fcm.env 1 _
                    (λ s. length-append s (fcm_request f payload ∷ []))))
                (λ b. Adds-read_response (fcm.response (fcm_request f payload)) ts))))

  Adds-fcm_send :
      (msg : PushMessage) (ts : List String)
      → is_empty ts ≡ false
      → Adds requests 1 (fcm_send fcm f msg ts)
  unfolding fcm_send
  Adds-fcm_send msg ts h =
      Adds-bind requests 1 0 (Adds-send_with_result msg ts h) (λ r. Adds-result requests (ok tt))

  pub fcm_once :
      (m : PushMessage × List String) (w : World (List HttpRequest))
      → not (is_empty m.1) ≡ true
      → IsSend
          (fcm_send fcm f m.0 m.1 w).0
          (requests w.state)
          (requests (fcm_send fcm f m.0 m.1 w).1.state)
  fcm_once m w h =
      AddsTo-IsSend (requests w.state) (fcm_send fcm f m.0 m.1 w).0
        (requests (fcm_send fcm f m.0 m.1 w).1.state)
        ((Adds-fcm_send m.0 m.1 (ground (arith, h))).adds w)

  -- `FCMSender`, for pushes that go to some token.
  abbrev pub fcm_sender : Sender (PushMessage × List String)
  fcm_sender = record {
    State = List HttpRequest;
    send = λ m. fcm_send fcm f m.0 m.1;
    delivered = requests;
    accepts = λ m. not (is_empty m.1);
    once = λ m w h. fcm_once m w h;
  }

All-mails : (ms : List EmailMessage) → All (λ m. true ≡ true) ms
All-mails [] = tt
All-mails (m ∷ ms) = (refl, All-mails ms)

-- Whatever calls fail, sending e-mails one after the other over SMTP, and pushes to at least one token
-- over FCM: as many as sends reported no error have been handed over at least, and no more than there
-- were messages. So a send that reports an error may have handed over its message, but never twice.
pub senders_deliver :
    (config : SmtpConfig) (env : Env) (fcm : Fcm) (f : FcmSender)
    → (ms : List EmailMessage) (ps : List (PushMessage × List String))
    → All (λ m. not (is_empty m.1) ≡ true) ps
    → (w : World Session) (v : World (List HttpRequest))
    → let s = send_all (smtp_sender config env) ms w in
      let r = send_all (fcm_sender fcm f) ps v in
      (mails w.state + s.0 ≤ mails s.1.state)
      × (mails s.1.state ≤ mails w.state + length ms)
      × (length v.state + r.0 ≤ length r.1.state)
      × (length r.1.state ≤ length v.state + length ps)
senders_deliver config env fcm f ms ps h w v =
    let a = send_all_bounds (smtp_sender config env) ms w (All-mails ms) in
    let b = send_all_bounds (fcm_sender fcm f) ps v h in (a.0, a.1, b.0, b.1)
