-- ===== src/Notification/DeliveryLogs.antt =====
-- internal/repo/persistent/delivery_log_postgres.go, over `notification_delivery_logs`.
use thiam_api.Base.{ℕ, ◌==◌, not, List, [], ◌∷◌, ◌++◌, if◌then◌else◌, select}
use thiam_api.Exec.{Env, Exec, pure, gets, ◌>>=◌, ◌>>◌, wrapping, call, call_if, attempt, scan_rows}
use thiam_api.Notification.{DeliveryLog, Tables, taken, id_or}

-- What `Store` writes into the caller's log before anything can fail. A zero time is 0.
unfoldable pub stamp_log : ℕ → ℕ → DeliveryLog → DeliveryLog
stamp_log fresh now l = record l {
  id = id_or fresh l.id;
  created_at = if l.created_at == 0 then now else l.created_at;
}

abbrev pub log_id : DeliveryLog → ℕ
log_id l = l.id

module _ (env : Env) where
  -- `DeliveryLogRepo.Store`
  unfoldable pub store_log : DeliveryLog → Exec Tables (Unit {0})
  unfolding call call_if stamp_log
  store_log log = do
    row ← gets (λ w. stamp_log (env.fresh w.calls) (env.now w.calls) log)
    wrapping "DeliveryLogRepo - Store - r.Builder: " (attempt env)
    wrapping "DeliveryLogRepo - Store - r.Pool.Exec: " (
        call_if env (λ s. not (taken log_id row.id s.delivery_logs))
          (λ s. record s { delivery_logs = s.delivery_logs ++ row ∷ [] }))

  -- `DeliveryLogRepo.GetByNotificationID`; `order` is the server's `ORDER BY created_at DESC`.
  unfoldable pub logs_by_notification_id :
      (List DeliveryLog → List DeliveryLog) → ℕ → Exec Tables (List DeliveryLog)
  unfolding call scan_rows
  logs_by_notification_id order notification_id = do
    wrapping "DeliveryLogRepo - GetByNotificationID - r.Builder: " (attempt env)
    found ←
        gets (λ w. order (select (λ l. l.notification_id == notification_id) w.state.delivery_logs))
    wrapping "DeliveryLogRepo - GetByNotificationID - r.Pool.Query: " (attempt env)
    read ← scan_rows env "DeliveryLogRepo - GetByNotificationID - rows.Scan: " found
    pure read.0
