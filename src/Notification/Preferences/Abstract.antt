-- ===== src/Notification/Preferences/Abstract.antt =====
-- The preferences as their users see them: a map from users to their preferences, whatever rows the
-- table has and whatever fails on the way. PreferencesUseCase over NotificationPreferencesRepo.
pub mod Refines
mod Tests
use thiam_api.Base.{
  ℕ, ◌==◌, ◌≡◌, true, false, List, [], ◌∷◌, Option, none, some, String, if◌then◌else◌,
}
use thiam_api.Errors.{Error, errors_is}
use thiam_api.Exec.{Env, Exec, World, Result, ok, err, fault, pure, ◌>>=◌, ◌>>◌}
use thiam_api.Notification.{UserPreferences, Tables, find}
use thiam_api.Notification.Preferences.{owner, are_times, saved_row}
use thiam_api.Notification.UseCases.{preferences_get, preferences_update}

abbrev pub Preferences : Type 0
Preferences = ℕ → Option UserPreferences

abbrev pub put : UserPreferences → Preferences → Preferences
put p m user = if p.user_id == user then some p else m user

pub data Operation : Type 0 where
  save : UserPreferences → Operation
  load : ℕ → Operation

pub data Answer : Type 0 where
  saved : Answer
  loaded : UserPreferences → Answer

-- The address of `errPreferencesNotFound`.
abbrev pub not_found_address : ℕ
not_found_address = 12

-- What one operation may do to the map. A save puts the preferences as they are read back, and succeeds
-- only if its quiet hours are times; one that fails has been made or not; a load changes
-- nothing, and fails as one of missing preferences only if there are none.
pub data Does (time_of : String → Option String) (m : Preferences)
    : Operation → Result Answer → Preferences → Type 0 where
  saves :
      (p : UserPreferences) (now : ℕ)
      → are_times time_of p ≡ true
      → Does time_of m (save p) (ok saved) (put (saved_row time_of now p) m)
  fails_after :
      (p : UserPreferences) (now : ℕ) (e : Error)
      → are_times time_of p ≡ true
      → Does time_of m (save p) (err e) (put (saved_row time_of now p) m)
  fails_before : (p : UserPreferences) (e : Error) → Does time_of m (save p) (err e) m
  loads :
      (user : ℕ) (p : UserPreferences)
      → m user ≡ some p
      → Does time_of m (load user) (ok (loaded p)) m
  misses :
      (user : ℕ) (e : Error)
      → m user ≡ none
      → errors_is e not_found_address ≡ true
      → Does time_of m (load user) (err e) m
  fails :
      (user : ℕ) (e : Error)
      → errors_is e not_found_address ≡ false
      → Does time_of m (load user) (err e) m

-- Operations one after the other, with their results.
pub data Do (time_of : String → Option String)
    : Preferences → List Operation → List (Result Answer) → Preferences → Type 0 where
  nothing : {m : Preferences} → Do time_of m [] [] m
  first :
      {m : Preferences} {o : Operation} {r : Result Answer} {n : Preferences} {os : List Operation}
      {rs : List (Result Answer)} {k : Preferences}
      → Does time_of m o r n
      → Do time_of n os rs k
      → Do time_of m (o ∷ os) (r ∷ rs) k

-- The map that a table stands for.
abbrev pub view : Tables → Preferences
view s user = find owner user s.preferences

-- An operation of the use case.
unfoldable pub perform : Env → (String → Option String) → Operation → Exec Tables Answer
unfolding preferences_get preferences_update
perform env time_of (save p) = preferences_update env time_of p >> pure saved
perform env time_of (load user) = do p ← preferences_get env user; pure (loaded p)

unfoldable pub perform_all :
    Env
    → (String → Option String)
    → List Operation
    → World Tables
    → List (Result Answer) × World Tables
unfolding perform
perform_all env time_of [] w = ([], w)
perform_all env time_of (o ∷ os) w =
    let (r, v) = perform env time_of o w in
    let (rs, u) = perform_all env time_of os v in (r ∷ rs, u)

-- The sentinels of the repository and of pgx do not come from a failing connection.
abbrev pub IsOther : Option Error → Type 0
IsOther none = Unit {0}
IsOther (some e) = (errors_is e 10 ≡ false) × (errors_is e not_found_address ≡ false)

abbrev pub NoSentinels : Env → Type 0
NoSentinels env = (n : ℕ) → IsOther (fault (env.outcome n))
