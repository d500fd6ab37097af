-- ===== src/Notification/PushTokens.antt =====
-- internal/repo/persistent/push_token_postgres.go, over the table `push_tokens`, which is unique in
-- (user_id, device_id).
pub mod Devices
pub mod Truncation
use thiam_api.Base.{
  ℕ, ◌==◌, Bool, not, ◌&&◌, ◌||◌, List, [], ◌∷◌, String, if◌then◌else◌, select, str_eq,
}
use thiam_api.Exec.{Env, Exec, pure, gets, ◌>>=◌, ◌>>◌, wrapping, call, call_if, attempt, scan_rows}
use thiam_api.Notification.{PushToken, Tables, taken, id_or}

-- What `Store` writes into the caller's token before anything can fail. A zero time is 0.
unfoldable pub stamp_token : ℕ → ℕ → PushToken → PushToken
stamp_token fresh now t = record t {
  id = id_or fresh t.id;
  updated_at = now;
  created_at = if t.created_at == 0 then now else t.created_at;
}

abbrev pub same_device : PushToken → PushToken → Bool
same_device t r = r.user_id == t.user_id && str_eq r.device_id t.device_id

-- `ON CONFLICT (user_id, device_id) DO UPDATE SET …`: the row keeps its id and creation time.
abbrev pub replace_token : PushToken → PushToken → PushToken
replace_token t r = record r {
  token = t.token;
  platform = t.platform;
  active = t.active;
  updated_at = t.updated_at;
}

unfoldable pub upsert_token : PushToken → List PushToken → List PushToken
upsert_token t [] = t ∷ []
upsert_token t (r ∷ rows) =
    if same_device t r then replace_token t r ∷ rows else r ∷ upsert_token t rows

abbrev pub has_device : PushToken → List PushToken → Bool
has_device t [] = Bool.false
has_device t (r ∷ rows) = same_device t r || has_device t rows

abbrev pub token_id : PushToken → ℕ
token_id t = t.id

module _ (env : Env) where
  -- `PushTokenRepo.Store`. A new row must have a new id; a replaced one keeps its own.
  unfoldable pub store_token : PushToken → Exec Tables (Unit {0})
  unfolding call call_if stamp_token upsert_token
  store_token token = do
    row ← gets (λ w. stamp_token (env.fresh w.calls) (env.now w.calls) token)
    wrapping "PushTokenRepo - Store - r.Pool.Exec: " (
        call_if env (λ s. has_device row s.push_tokens || not (taken token_id row.id s.push_tokens))
          (λ s. record s { push_tokens = upsert_token row s.push_tokens }))

  -- `PushTokenRepo.GetByUserID`, which returns what was read when `rows.Next()` turned false.
  unfoldable pub tokens_by_user_id : ℕ → Exec Tables (List PushToken)
  unfolding call scan_rows
  tokens_by_user_id user = do
    wrapping "PushTokenRepo - GetByUserID - r.Builder: " (attempt env)
    found ← gets (λ w. select (λ t. t.user_id == user) w.state.push_tokens)
    wrapping "PushTokenRepo - GetByUserID - r.Pool.Query: " (attempt env)
    read ← scan_rows env "PushTokenRepo - GetByUserID - rows.Scan: " found
    pure read.0

  -- `PushTokenRepo.Delete`
  unfoldable pub delete_token : String → Exec Tables (Unit {0})
  unfolding call
  delete_token token = do
    wrapping "PushTokenRepo - Delete - r.Builder: " (attempt env)
    wrapping "PushTokenRepo - Delete - r.Pool.Exec: " (
        call env
          (λ s. record s { push_tokens = select (λ t. not (str_eq t.token token)) s.push_tokens }))

  -- `PushTokenRepo.DeleteByUserID`
  unfoldable pub delete_by_user_id : ℕ → Exec Tables (Unit {0})
  unfolding call
  delete_by_user_id user = do
    wrapping "PushTokenRepo - DeleteByUserID - r.Builder: " (attempt env)
    wrapping "PushTokenRepo - DeleteByUserID - r.Pool.Exec: " (
        call env
          (λ s. record s { push_tokens = select (λ t. not (t.user_id == user)) s.push_tokens }))
