-- ===== src/Notification/Preferences/Abstract/Tests.antt =====
-- Preferences at concrete inputs.
use thiam_api.Base.{
  Bool, ◌==◌, [], ◌∷◌, List, Option, none, some, String, str_eq, if◌then◌else◌, true, false, refl,
}
use thiam_api.Errors.{errors_is, leaf}
use thiam_api.Exec.{fault, Env, World, done, lost}
use thiam_api.Notification.Preferences.Abstract.{
  IsOther, NoSentinels, Operation, save, load, Do, view, perform_all,
}
use thiam_api.Notification.{UserPreferences, Tables}
use thiam_api.Notification.Preferences.Abstract.Refines.{perform_all-Do}

-- The answer to the second call is lost.
abbrev env : Env
env = record {
  outcome = λ n. if n == 1 then lost (leaf 1 "connection reset") else done;
  now = λ n. n;
  violation = leaf 2 "duplicate key";
  fresh = λ n. n;
}

outcome-IsOther :
    (b : Bool) → IsOther (fault (if b then lost (leaf 1 "connection reset") else done))
unfolding errors_is
outcome-IsOther true = (refl, refl)
outcome-IsOther false = tt

env-NoSentinels : NoSentinels env
env-NoSentinels n = outcome-IsOther (n == 1)

-- The server reads one text as a time.
abbrev time_of : String → Option String
time_of t = if str_eq t "22:00" then some "22:00:00" else none

abbrev quiet : UserPreferences
quiet = record {
  user_id = 7;
  email_enabled = false;
  sms_enabled = false;
  push_enabled = false;
  in_app_enabled = true;
  quiet_start = some "22:00";
  quiet_end = none;
  updated_at = 0;
}

abbrev no_tables : World Tables
no_tables = record {
  calls = 0;
  state = record {
    notifications = [];
    preferences = [];
    push_tokens = [];
    delivery_logs = [];
    emails = [];
    pushes = [];
  };
}

abbrev operations : List Operation
operations =
    save quiet ∷ save quiet ∷ save (record quiet { quiet_end = some "late" }) ∷ load 7 ∷ load 8 ∷ []

perform_all-Do_example :
    Do time_of
      (view no_tables.state)
      operations
      (perform_all env time_of operations no_tables).0
      (view (perform_all env time_of operations no_tables).1.state)
perform_all-Do_example = perform_all-Do env time_of operations no_tables env-NoSentinels
