-- ===== src/Notification/Service/Recipients.antt =====
-- To whom a push notification goes.
use thiam_api.Notification.Service.Logs.{log_delivery_rest, log_delivery_ok}
use thiam_api.Notification.PushTokens.Truncation.{tokens_by_user_id_all}
use thiam_api.Notification.Preferences.RoundTrip.{get_preferences_all}
use thiam_api.Base.{
  length, ◌*◌, ◌+◌, arith, ◌&&◌, ◌≡◌, true, List, [], ◌∷◌, ◌++◌, Option, none, some, ◌==◌, select,
  if◌then◌else◌, String, Bool,
}
use thiam_api.Exec.{World, ok, call}
use thiam_api.Exec.Faults.{NoFaults}
use thiam_api.Notification.{sent, push, UserPreferences, PushMessage, Tables, find}
use thiam_api.Notification.Preferences.{owner}
use thiam_api.Notification.Service.{Service, send_push, active_tokens, is_empty}

-- Whether a row of the preferences lets a push through; there need not be one.
abbrev pub push_allowed : Option UserPreferences → Bool
push_allowed none = true
push_allowed (some p) = p.push_enabled

-- One request more, unless it would go to nobody.
abbrev pub add_push :
    PushMessage → List String → List (PushMessage × List String) → List (PushMessage × List String)
add_push m to old = if is_empty to then old else old ++ (m, to) ∷ []

module _ (s : Service) where
  -- Without faults, a push goes out in one request to exactly the active tokens of the user, in the
  -- order of the table; there is no request if none is active, if the user turned push off, or
  -- if there is no sender. No error is returned.
  pub send_push_recipients :
      NoFaults s.env
      → (m : PushMessage) (w : World Tables)
      → ((send_push s m w).0 ≡ ok tt)
        × ((send_push s m w).1.state.pushes ≡ (
            if push_allowed (find owner m.user_id w.state.preferences) && s.push_sender
            then add_push m
                (active_tokens (select (λ t. t.user_id == m.user_id) w.state.push_tokens))
                w.state.pushes
            else w.state.pushes))
  unfolding send_push call
  send_push_recipients faultless m w =
      let rows = select (λ t. t.user_id == m.user_id) w.state.push_tokens in
      let v : World Tables = record { calls = w.calls + 1 + 1; state = w.state } in
      let u : World Tables = record {
        calls = v.calls + 1 + 1 + 2 * length rows + 1;
        state = w.state;
      } in
      let after : World Tables = record {
        calls = u.calls + 1;
        state = record w.state { pushes = w.state.pushes ++ (m, active_tokens rows) ∷ [] };
      } in
      ground (
        arith,
        faultless u.calls,
        get_preferences_all s.env faultless m.user_id w,
        tokens_by_user_id_all s.env m.user_id v faultless,
        log_delivery_ok s 0 m.user_id push sent "" after,
        log_delivery_rest s 0 m.user_id push sent "" after,
      )
