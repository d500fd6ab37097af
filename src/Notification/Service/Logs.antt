-- ===== src/Notification/Service/Logs.antt =====
-- The delivery log that a send leaves, and that it does not decide what the send returns.
use thiam_api.Base.{false, [], ◌∷◌, ◌++◌, ◌+◌, true, ℕ, ◌≡◌, arith, String}
use thiam_api.Errors.{error_text}
use thiam_api.Exec.{settle, done, lost, err, refused, Result, Outcome, call_if, World, ok, call}
use thiam_api.Notification.{
  taken, failed, sent, email, DeliveryLog, EmailMessage, Channel, Status, Tables,
}
use thiam_api.Notification.DeliveryLogs.{log_id, stamp_log, store_log}
use thiam_api.Notification.Service.{
  logged, wrap, allowed, delivery_log, send_email, get_preferences, Service, log_delivery,
}

module _ (s : Service) (id user : ℕ) (channel : Channel) (status : Status) (text : String) where
  -- Logging never reports an error.
  pub log_delivery_ok :
      (w : World Tables) → (log_delivery s id user channel status text w).0 ≡ ok tt
  unfolding log_delivery store_log call call_if
  log_delivery_ok w = ground arith

  -- Logging adds at most the one row.
  pub log_delivery_rest :
      (w : World Tables)
      → (log_delivery s id user channel status text w).1.state ≡ record w.state {
        delivery_logs = (log_delivery s id user channel status text w).1.state.delivery_logs;
      }
  unfolding log_delivery store_log call call_if
  log_delivery_rest w = ground arith

-- What `send_email` returns for the outcome of the sender.
abbrev pub email_result : Outcome → Result (Unit {0})
email_result done = ok tt
email_result (refused e) = err (wrap "Service - SendEmail - s.emailSender.Send: " "" e)
email_result (lost e) = err (wrap "Service - SendEmail - s.emailSender.Send: " "" e)

-- The log of that outcome.
abbrev pub email_log : ℕ → Outcome → DeliveryLog
email_log user done = delivery_log 0 user email sent ""
email_log user (refused e) = delivery_log 0 user email failed (error_text e)
email_log user (lost e) = delivery_log 0 user email failed (error_text e)

module _ (s : Service) (user : ℕ) (f : Tables → Tables) (v : World Tables) where
  settled_result :
      (o : Outcome)
      → (logged s email user "Service - SendEmail - s.emailSender.Send: " (settle s.env o f) v).0
        ≡ email_result o
  settled_result done = log_delivery_ok s 0 user email sent "" _
  settled_result (refused e) =
      ground (
        arith,
        log_delivery_ok s 0 user email failed (error_text e) (settle s.env (refused e) f v).1,
      )
  settled_result (lost e) =
      ground
        (arith, log_delivery_ok s 0 user email failed (error_text e) (settle s.env (lost e) f v).1)

  logged_result :
      (logged s email user "Service - SendEmail - s.emailSender.Send: " (call s.env f) v).0
      ≡ email_result (s.env.outcome v.calls)
  unfolding call
  logged_result = settled_result (s.env.outcome v.calls)

module _ (s : Service) (m : EmailMessage) (w : World Tables) where
  -- Where there is a sender and the preferences do not forbid it, `send_email` returns what the
  -- sender's call comes to, an error wrapped, whatever becomes of the delivery log: a log that
  -- cannot be stored is not reported.
  send_email_result :
      s.email_sender ≡ true
      → allowed (λ p. p.email_enabled) (get_preferences s.env m.user_id w).0 ≡ true
      → (send_email s m w).0
        ≡ email_result (s.env.outcome (get_preferences s.env m.user_id w).1.calls)
  unfolding send_email
  send_email_result sender may = ground (
    arith,
    logged_result s m.user_id (λ t. record t { emails = t.emails ++ m ∷ [] })
        (get_preferences s.env m.user_id w).1,
  )

  -- Where there is a sender, the preferences do not forbid it, the two calls that store the log go
  -- through and the fresh id is free, `send_email` adds exactly one row to the delivery logs: of
  -- the channel e-mail, with status sent, or with failed and the text of the sender's error, and
  -- with the id and time drawn at the call.
  send_email_log :
      let v = (get_preferences s.env m.user_id w).1 in
      s.email_sender ≡ true
      → allowed (λ p. p.email_enabled) (get_preferences s.env m.user_id w).0 ≡ true
      → s.env.outcome (v.calls + 1) ≡ done
      → s.env.outcome (v.calls + 1 + 1) ≡ done
      → taken log_id (s.env.fresh (v.calls + 1)) v.state.delivery_logs ≡ false
      → (send_email s m w).1.state.delivery_logs
        ≡ v.state.delivery_logs
          ++ stamp_log
              (s.env.fresh (v.calls + 1))
              (s.env.now (v.calls + 1))
              (email_log m.user_id (s.env.outcome v.calls))
            ∷ []
  unfolding send_email call error_text stamp_log log_delivery store_log call_if
  send_email_log sender may d e free = ground arith
