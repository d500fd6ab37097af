-- ===== src/Notification/Preferences.antt =====
-- internal/repo/persistent/notification_preferences_postgres.go, over `notification_preferences`.
-- The column created_at is written once and never read.
pub mod RoundTrip
pub mod Abstract
use thiam_api.Base.{
  ℕ, ◌==◌, Bool, true, false, ◌&&◌, Option, none, some, String, List, [], ◌∷◌, if◌then◌else◌,
}
use thiam_api.Errors.{Error, leaf, errors_is}
use thiam_api.Exec.{Env, Exec, gets, ◌>>=◌, ◌>>◌, wrapping, call, call_if, attempt}
use thiam_api.Notification.{UserPreferences, Tables, find}
use thiam_api.Notification.Inbox.{row_or, no_rows_as}

-- `errPreferencesNotFound`
abbrev pub preferences_not_found : Error
preferences_not_found = leaf 12 "notification preferences not found"

abbrev pub owner : UserPreferences → ℕ
owner p = p.user_id

abbrev is_some : Option String → Bool
is_some none = false
is_some (some t) = true

-- quiet_start and quiet_end are TIME columns: `time_of` is the text with which the driver reads back what
-- was saved for a text, and none where the text is no time, which the server refuses.
abbrev pub is_time : (String → Option String) → Option String → Bool
is_time time_of none = true
is_time time_of (some t) = is_some (time_of t)

abbrev pub read_back : (String → Option String) → Option String → Option String
read_back time_of none = none
read_back time_of (some t) = time_of t

abbrev pub are_times : (String → Option String) → UserPreferences → Bool
are_times time_of p = is_time time_of p.quiet_start && is_time time_of p.quiet_end

-- The row that preferences are saved as.
abbrev pub saved_row : (String → Option String) → ℕ → UserPreferences → UserPreferences
saved_row time_of now p = record p {
  quiet_start = read_back time_of p.quiet_start;
  quiet_end = read_back time_of p.quiet_end;
  updated_at = now;
}

-- `INSERT … ON CONFLICT (user_id) DO UPDATE SET …`
unfoldable pub upsert_row : UserPreferences → List UserPreferences → List UserPreferences
upsert_row p [] = p ∷ []
upsert_row p (q ∷ rows) = if q.user_id == p.user_id then p ∷ rows else q ∷ upsert_row p rows

module _ (env : Env) where
  -- `NotificationPreferencesRepo.Get`
  unfoldable pub get_preferences : ℕ → Exec Tables UserPreferences
  unfolding call errors_is
  get_preferences user = do
    wrapping "NotificationPreferencesRepo - Get - r.Builder: " (attempt env)
    no_rows_as preferences_not_found "NotificationPreferencesRepo - Get - r.Pool.QueryRow: "
        do attempt env; found ← gets (λ w. find owner user w.state.preferences); row_or found

  -- `NotificationPreferencesRepo.Upsert`
  unfoldable pub upsert : (String → Option String) → UserPreferences → Exec Tables (Unit {0})
  unfolding call call_if upsert_row
  upsert time_of prefs = do
    now ← gets (λ w. env.now w.calls)
    wrapping "NotificationPreferencesRepo - Upsert - r.Pool.Exec: " (
        call_if env (λ s. are_times time_of prefs)
          (λ s. record s { preferences = upsert_row (saved_row time_of now prefs) s.preferences }))
