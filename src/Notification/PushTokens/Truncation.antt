-- ===== src/Notification/PushTokens/Truncation.antt =====
-- What the list of a user's tokens holds: all of them, or those that were read before a cut.
use thiam_api.Exec.Faults.{NoFaults, scan_rows_all, moved, scan_rows_cut}
use thiam_api.Base.{arith, take, ◌≡◌, ◌*◌, ◌+◌, ◌<◌, ◌==◌, select, length, ◌≤◌}
use thiam_api.Notification.{Error, ℕ, Tables}
use thiam_api.Notification.PushTokens.{tokens_by_user_id}
use thiam_api.Exec.{call, Env, World, ok, refused, done}

-- If the connection is cut before row `n` of the answer is read, with the calls before it answered,
-- the list of a user's tokens is the first `n` of them, without an error.
tokens_by_user_id_cut :
    (env : Env) (user n : ℕ) (e : Error) (w : World Tables)
    → n ≤ length (select (λ t. t.user_id == user) w.state.push_tokens)
    → ((m : ℕ) → m < 2 + 2 * n → env.outcome (w.calls + m) ≡ done)
    → env.outcome (w.calls + (2 + 2 * n)) ≡ refused e
    → (tokens_by_user_id env user w).0
      ≡ ok (take n (select (λ t. t.user_id == user) w.state.push_tokens))
unfolding tokens_by_user_id call
tokens_by_user_id_cut env user n e w h d c = ground (
  arith,
  moved env done (w.calls + 0) w.calls (omega arith) (d 0 (omega arith)),
  d 1 (omega arith),
  scan_rows_cut env "PushTokenRepo - GetByUserID - rows.Scan: " n
      (select (λ t. t.user_id == user) w.state.push_tokens)
      (record { calls = w.calls + 1 + 1; state = w.state }) e h
      (λ m lt. moved env done (w.calls + (2 + m)) _ (omega arith) (d (2 + m) (omega arith)))
      (moved env (refused e) (w.calls + (2 + 2 * n)) _ (omega arith) c),
)

-- Without faults all rows of the user are read.
pub tokens_by_user_id_all :
    (env : Env) (user : ℕ) (w : World Tables)
    → NoFaults env
    → let rows = select (λ t. t.user_id == user) w.state.push_tokens in
      tokens_by_user_id env user w
      ≡ (ok rows, record { calls = w.calls + 1 + 1 + 2 * length rows + 1; state = w.state })
unfolding tokens_by_user_id call
tokens_by_user_id_all env user w faultless = ground (
  arith,
  faultless w.calls,
  faultless (w.calls + 1),
  scan_rows_all env "PushTokenRepo - GetByUserID - rows.Scan: "
      (select (λ t. t.user_id == user) w.state.push_tokens)
      (record { calls = w.calls + 1 + 1; state = w.state }) faultless,
)
