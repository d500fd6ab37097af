-- ===== src/Notification/Inbox.antt =====
-- internal/repo/persistent/notification_postgres.go, over the table `notifications`.
pub mod Unread
pub mod RoundTrip
pub mod Pages
pub mod Order
mod Tests
use thiam_api.Base.{
  ℕ, ◌==◌, Bool, true, not, ◌&&◌, List, [], ◌∷◌, ◌++◌, Option, none, some, String, if◌then◌else◌,
  count, select, take, drop,
}
use thiam_api.Errors.{Error, leaf, wrap, errors_is}
use thiam_api.Exec.{
  Env, Exec, pure, fail, gets, ◌>>=◌, ◌>>◌, catch, wrapping, call, call_if, attempt, scan_rows,
}
use thiam_api.Notification.{InAppNotification, Tables, no_rows, taken, find, id_or}

-- `errNotificationNotFound`
abbrev pub notification_not_found : Error
notification_not_found = leaf 11 "notification not found"

-- What `Store` writes into the caller's notification before anything can fail.
unfoldable pub stamp : ℕ → ℕ → InAppNotification → InAppNotification
stamp fresh now n = record n { id = id_or fresh n.id; created_at = now }

abbrev pub notification_id : InAppNotification → ℕ
notification_id n = n.id

abbrev pub is_unread_of : ℕ → InAppNotification → Bool
is_unread_of user n = n.user_id == user && not n.read

abbrev pub mark_read : ℕ → InAppNotification → InAppNotification
mark_read now n = record n { read = true; read_at = some now }

-- `UPDATE notifications SET … WHERE …`
unfoldable pub update_where :
    (InAppNotification → Bool)
    → (InAppNotification → InAppNotification)
    → List InAppNotification
    → List InAppNotification
update_where p f [] = []
update_where p f (n ∷ ns) = (if p n then f n else n) ∷ update_where p f ns

-- `QueryRow(…).Scan(…)` with its `errors.Is(err, pgx.ErrNoRows)` branch.
abbrev pub row_or : {T : Type 0} → Option T → Exec Tables T
row_or none = fail no_rows
row_or (some r) = pure r

abbrev pub no_rows_as : {T : Type 0} → Error → String → Exec Tables T → Exec Tables T
no_rows_as missing before m =
    catch m (λ e. if errors_is e 10 then fail missing else fail (wrap before "" e))

-- `order` is the server's `ORDER BY created_at DESC` in the query of a call number: rows of the same
-- time can come in another order in each query.
module _ (env : Env) where
  -- `NotificationRepo.Store`
  unfoldable pub store : InAppNotification → Exec Tables (Unit {0})
  unfolding call call_if stamp
  store n = do
    row ← gets (λ w. stamp (env.fresh w.calls) (env.now w.calls) n)
    wrapping "NotificationRepo - Store - r.Builder: " (attempt env)
    wrapping "NotificationRepo - Store - r.Pool.Exec: " (
        call_if env (λ s. not (taken notification_id row.id s.notifications))
          (λ s. record s { notifications = s.notifications ++ row ∷ [] }))

  -- `NotificationRepo.GetByID`
  unfoldable pub get_by_id : ℕ → Exec Tables InAppNotification
  unfolding call errors_is
  get_by_id id = do
    wrapping "NotificationRepo - GetByID - r.Builder: " (attempt env)
    no_rows_as notification_not_found "NotificationRepo - GetByID - r.Pool.QueryRow: " do
      attempt env
      found ← gets (λ w. find notification_id id w.state.notifications)
      row_or found

  -- `NotificationRepo.GetByUserID`, which returns what was read when `rows.Next()` turned false.
  unfoldable pub get_by_user_id :
      (ℕ → List InAppNotification → List InAppNotification)
      → ℕ
      → ℕ
      → ℕ
      → Exec Tables (List InAppNotification)
  unfolding call scan_rows
  get_by_user_id order user limit offset = do
    wrapping "NotificationRepo - GetByUserID - r.Builder: " (attempt env)
    found ← gets (λ w.
        take limit
          (drop offset (order w.calls (select (λ n. n.user_id == user) w.state.notifications))))
    wrapping "NotificationRepo - GetByUserID - r.Pool.Query: " (attempt env)
    read ← scan_rows env "NotificationRepo - GetByUserID - rows.Scan: " found
    pure read.0

  -- `NotificationRepo.MarkAsRead`
  unfoldable pub mark_as_read : ℕ → Exec Tables (Unit {0})
  unfolding call update_where
  mark_as_read id = do
    now ← gets (λ w. env.now w.calls)
    wrapping "NotificationRepo - MarkAsRead - r.Builder: " (attempt env)
    wrapping "NotificationRepo - MarkAsRead - r.Pool.Exec: " (
        call env (λ s. record s {
          notifications = update_where (λ n. n.id == id) (mark_read now) s.notifications;
        }))

  -- `NotificationRepo.MarkAllAsRead`
  unfoldable pub mark_all_as_read : ℕ → Exec Tables (Unit {0})
  unfolding call update_where
  mark_all_as_read user = do
    now ← gets (λ w. env.now w.calls)
    wrapping "NotificationRepo - MarkAllAsRead - r.Builder: " (attempt env)
    wrapping "NotificationRepo - MarkAllAsRead - r.Pool.Exec: " (
        call env (λ s. record s {
          notifications = update_where (is_unread_of user) (mark_read now) s.notifications;
        }))

  -- `NotificationRepo.GetUnreadCount`
  unfoldable pub get_unread_count : ℕ → Exec Tables ℕ
  unfolding call
  get_unread_count user = do
    wrapping "NotificationRepo - GetUnreadCount - r.Builder: " (attempt env)
    wrapping "NotificationRepo - GetUnreadCount - r.Pool.QueryRow: "
        do attempt env; gets (λ w. count (is_unread_of user) w.state.notifications)
