-- ===== src/Notification/Preferences/RoundTrip.antt =====
-- Saved preferences are read back, and those of other users stay.
use thiam_api.Base.{
  ℕ, ◌+◌, ◌≡◌, refl, List, [], ◌∷◌, String, true, Option, none, some, arith, ◌==◌, if◌then◌else◌,
}
use thiam_api.Exec.{Env, World, Result, ok, err, ◌>>◌, call, call_if}
use thiam_api.Exec.Faults.{NoFaults}
use thiam_api.Notification.{UserPreferences, Tables, find}
use thiam_api.Notification.Preferences.{
  owner, upsert_row, upsert, get_preferences, preferences_not_found, saved_row, are_times,
}

pub find-upsert_row :
    (p : UserPreferences) (v : ℕ) (rows : List UserPreferences)
    → find owner v (upsert_row p rows) ≡ (if p.user_id == v then some p else find owner v rows)
unfolding upsert_row
find-upsert_row p v [] = refl
find-upsert_row p v (q ∷ rows) = ground (arith, find-upsert_row p v rows)

abbrev pub preferences_or_missing : Option UserPreferences → Result UserPreferences
preferences_or_missing none = err preferences_not_found
preferences_or_missing (some p) = ok p

module _ (env : Env) (faultless : NoFaults env) where
  -- Without faults, after preferences whose quiet hours are times were saved, `get_preferences` of their user returns them as they are read back, with
  -- the time of the call as their update time, whether the user had a row before or not, and of any
  -- other user what it would have returned before: the row, or that there is none.
  get_preferences-upsert :
      (time_of : String → Option String) (p : UserPreferences) (v : ℕ) (w : World Tables)
      → are_times time_of p ≡ true
      → ((upsert env time_of p >> get_preferences env v) w).0 ≡ (
          if p.user_id == v
          then ok (saved_row time_of (env.now w.calls) p)
          else preferences_or_missing (find owner v w.state.preferences))
  unfolding upsert get_preferences call call_if
  get_preferences-upsert time_of p v w h = ground (
    arith,
    h,
    faultless w.calls,
    faultless (w.calls + 1),
    faultless (w.calls + 1 + 1),
    find-upsert_row (saved_row time_of (env.now w.calls) p) v w.state.preferences,
  )

  -- Without faults the row is found or reported as missing.
  pub get_preferences_all :
      (user : ℕ) (w : World Tables)
      → get_preferences env user w ≡ (
        preferences_or_missing (find owner user w.state.preferences),
        record { calls = w.calls + 1 + 1; state = w.state },
      )
  unfolding get_preferences call
  get_preferences_all user w = ground (arith, faultless w.calls, faultless (w.calls + 1))
