-- ===== src/Notify/Smtp.antt =====
-- pkg/notify/smtp.go. What the server accepted is the list of commands.
use Prim.Native.String.{◌++◌}
use thiam_api.Base.{
  append_assoc, ◌+◌, arith, append_nil, sym, true, ◌≡◌, ℕ, Bool, not, List, [], ◌∷◌, map, String,
  if◌then◌else◌, str_eq, ◌++◌ as append,
}
use thiam_api.Errors.{Error, leaf}
use thiam_api.Exec.{ok, World, Env, Exec, pure, fail, ◌>>◌, wrapping, call, attempt}
use thiam_api.Notification.{EmailMessage}

-- `SMTPConfig`
pub record SmtpConfig : Type 0 where
  pub host : String
  pub port : ℕ
  pub username : String
  pub password : String
  pub from : String
  pub use_tls : Bool

pub data Command : Type 0 where
  mail rcpt data_end : String → Command
  quit : Command

pub record Session : Type 0 where
  pub commands : List Command

-- `errTLSRequired`
abbrev pub tls_required : Error
tls_required = leaf 40 "TLS is required for secure email delivery"

-- `strings.Join(parts, ", ")`
unfoldable pub join_comma : List String → String
join_comma [] = ""
join_comma (s ∷ []) = s
join_comma (s ∷ t ∷ ss) = s ++ (", " ++ join_comma (t ∷ ss))

module _ (config : SmtpConfig) where
  -- `SMTPSender.buildMessage`
  unfoldable pub build_message : EmailMessage → String
  unfolding join_comma
  build_message msg =
      let is_plain = str_eq msg.html_body "" in
      let content_type =
        if is_plain then "text/plain; charset=UTF-8" else "text/html; charset=UTF-8" in
      let body = if is_plain then msg.body else msg.html_body in
      "From: "
      ++ (config.from
          ++ ("\r\nTo: "
              ++ (join_comma msg.to
                  ++ ("\r\nSubject: "
                      ++ (msg.subject
                          ++ ("\r\nMIME-Version: 1.0\r\nContent-Type: "
                              ++ (content_type ++ ("\r\n\r\n" ++ body))))))))

  module _ (env : Env) where
    -- A command that the server answers.
    abbrev pub say : Command → Exec Session (Unit {0})
    say c = call env (λ s. record s { commands = append s.commands (c ∷ []) })

    -- `SMTPSender.dialTLS`
    unfoldable pub dial_tls : Exec Session (Unit {0})
    unfolding call
    dial_tls = do wrapping "tls dial: " (attempt env); wrapping "smtp client: " (attempt env)

    -- `SMTPSender.authenticate`, for the `auth` that `Send` makes.
    unfoldable pub authenticate : Exec Session (Unit {0})
    unfolding call
    authenticate =
        if str_eq config.username "" then pure tt else wrapping "smtp auth: " (attempt env)

    -- The loop over the recipients.
    unfoldable pub rcpts : List String → Exec Session (Unit {0})
    unfolding call
    rcpts [] = pure tt
    rcpts (to ∷ tos) = do wrapping "smtp rcpt: " (say (rcpt to)); rcpts tos

    -- `SMTPSender.sendMessage`
    unfoldable pub send_message : List String → String → Exec Session (Unit {0})
    unfolding call rcpts
    send_message to msg = do
      wrapping "smtp mail: " (say (mail config.from))
      rcpts to
      wrapping "smtp data: " (attempt env)
      wrapping "smtp write: " (attempt env)
      wrapping "smtp close writer: " (say (data_end msg))
      say quit

    -- `SMTPSender.sendWithTLS`
    abbrev pub send_with_tls : List String → String → Exec Session (Unit {0})
    send_with_tls to msg = do dial_tls; authenticate; send_message to msg

    -- `SMTPSender.Send`
    unfoldable pub smtp_send : EmailMessage → Exec Session (Unit {0})
    unfolding dial_tls authenticate send_message build_message
    smtp_send msg =
        if not config.use_tls then fail tls_required else send_with_tls msg.to (build_message msg)

    -- The whole dialogue.
    abbrev pub script : List String → String → List Command
    script to msg = mail config.from ∷ append (map rcpt to) (data_end msg ∷ quit ∷ [])

    rcpts_ok :
        (tos : List String) (w : World Session)
        → (rcpts tos w).0 ≡ ok tt
        → (rcpts tos w).1.state.commands ≡ append w.state.commands (map rcpt tos)
    unfolding rcpts call
    rcpts_ok [] w h = sym (append_nil w.state.commands)
    rcpts_ok (to ∷ tos) w h = ground (
      arith,
      rcpts_ok tos (record {
        calls = w.calls + 1;
        state = record { commands = append w.state.commands (rcpt to ∷ []) };
      }),
      append_assoc w.state.commands (rcpt to ∷ []) (map rcpt tos),
    )

    -- The dialogue after the recipients.
    send_message_ok :
        (to : List String) (msg : String) (w : World Session)
        → (send_message to msg w).0 ≡ ok tt
        → (send_message to msg w).1.state.commands ≡ append w.state.commands (script to msg)
    unfolding send_message call
    send_message_ok to msg w h =
        let v : World Session = record {
          calls = w.calls + 1;
          state = record { commands = append w.state.commands (mail config.from ∷ []) };
        } in
        ground (
          arith,
          rcpts_ok to v,
          append_assoc v.state.commands (map rcpt to) (data_end msg ∷ []),
          append_assoc (append v.state.commands (map rcpt to)) (data_end msg ∷ []) (quit ∷ []),
          append_assoc w.state.commands (mail config.from ∷ [])
              (append (map rcpt to) (data_end msg ∷ quit ∷ [])),
          append_assoc v.state.commands (map rcpt to) (data_end msg ∷ quit ∷ []),
        )

    dial_tls_state : (w : World Session) → (dial_tls w).1.state ≡ w.state
    unfolding dial_tls call
    dial_tls_state w = ground arith

    authenticate_state : (w : World Session) → (authenticate w).1.state ≡ w.state
    unfolding authenticate call
    authenticate_state w = ground arith

    -- An e-mail is reported as sent only over TLS and after the whole dialogue: the server accepted
    -- the sender, each of the recipients in `To` and nobody else, the message, and the end.
    pub smtp_send-script :
        (msg : EmailMessage) (w : World Session)
        → (smtp_send msg w).0 ≡ ok tt
        → (config.use_tls ≡ true)
          × ((smtp_send msg w).1.state.commands
              ≡ append w.state.commands (script msg.to (build_message msg)))
    unfolding smtp_send
    smtp_send-script msg w =
        let v = (dial_tls w).1 in
        let u = (authenticate v).1 in
        ground (
          arith,
          dial_tls_state w,
          authenticate_state v,
          send_message_ok msg.to (build_message msg) u,
        )
