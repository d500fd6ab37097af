-- ===== src/AppError.antt =====
-- pkg/apperror/error.go: the constructors, the options, and the tests on kinds.
pub mod Options
pub mod Chain
use text.Mathlib.Text.{◌==◌ as str_eq}
use thiam_api.Base.{Bool, ◌==◌, ℕ, Option, none, some, List, [], ◌∷◌, String, if◌then◌else◌}
use thiam_api.Errors.{
  Kind, Head, Error, nil, is_nil, app, unknown, validation, not_found, conflict, unauthorized,
  forbidden, internal, external, timeout, errors_as,
}

-- `Kind.String`
unfoldable pub kind_string : Kind → String
kind_string unknown = "UNKNOWN_ERROR"
kind_string validation = "VALIDATION_ERROR"
kind_string not_found = "NOT_FOUND"
kind_string conflict = "CONFLICT"
kind_string unauthorized = "UNAUTHORIZED"
kind_string forbidden = "FORBIDDEN"
kind_string internal = "INTERNAL_ERROR"
kind_string external = "EXTERNAL_SERVICE_ERROR"
kind_string timeout = "TIMEOUT"

-- `Error`: the head and the cause `err`.
pub record AppError : Type 0 where
  pub head : Head
  pub open head use *
  pub err : Error

abbrev pub to_error : AppError → Error
to_error e = app e.head e.err

-- `fields[key] = value` on a map.
unfoldable pub put : String → String → List (String × String) → List (String × String)
put k v [] = (k, v) ∷ []
put k v ((j, w) ∷ m) = if str_eq j k then (k, v) ∷ m else (j, w) ∷ put k v m

-- `fields[key]`
unfoldable pub field : String → List (String × String) → Option String
field k [] = none
field k ((j, w) ∷ m) = if str_eq j k then some w else field k m

-- A nil map reads as the empty one.
abbrev pub entries : Option (List (String × String)) → List (String × String)
entries none = []
entries (some m) = m

-- `Option`: the closures that `With…` return. A map value stands for the map it refers to.
pub data Setting : Type 0 where
  with_op with_code : String → Setting
  with_cause : Error → Setting
  with_field : String → String → Setting
  with_fields : Option (List (String × String)) → Setting

unfoldable pub set_option : Setting → AppError → AppError
unfolding put
set_option (with_op s) e = record e { head = record e.head { op = s } }
set_option (with_code s) e = record e { head = record e.head { code = s } }
set_option (with_cause c) e = record e { err = c }
set_option (with_field k v) e = record e {
  head = record e.head { fields = some (put k v (entries e.fields)) };
}
set_option (with_fields m) e = record e { head = record e.head { fields = m } }

unfoldable pub set_options : List Setting → AppError → AppError
unfolding set_option
set_options [] e = e
set_options (o ∷ os) e = set_options os (set_option o e)

-- `newError`, which `Validation`, `NotFound` and the others call with their kind.
unfoldable pub new_error : Kind → String → List Setting → AppError
unfolding set_options kind_string
new_error kind message opts = set_options opts (record {
  head = record { kind = kind; code = kind_string kind; message = message; op = ""; fields = none };
  err = nil;
})

-- `Validation`, and so on for each kind.
abbrev pub validation_error : String → List Setting → AppError
validation_error message opts = new_error validation message opts

abbrev pub not_found_error : String → List Setting → AppError
not_found_error message opts = new_error not_found message opts

abbrev pub conflict_error : String → List Setting → AppError
conflict_error message opts = new_error conflict message opts

abbrev pub unauthorized_error : String → List Setting → AppError
unauthorized_error message opts = new_error unauthorized message opts

abbrev pub forbidden_error : String → List Setting → AppError
forbidden_error message opts = new_error forbidden message opts

abbrev pub internal_error : String → List Setting → AppError
internal_error message opts = new_error internal message opts

abbrev pub external_error : String → List Setting → AppError
external_error message opts = new_error external message opts

abbrev pub timeout_error : String → List Setting → AppError
timeout_error message opts = new_error timeout message opts

-- What `errors.As` found.
abbrev pub found : Option (Head × Error) → Option AppError
found none = none
found (some (h, e)) = some (record { head = h; err = e })

abbrev pub kind_code : Kind → ℕ
kind_code unknown = 0
kind_code validation = 1
kind_code not_found = 2
kind_code conflict = 3
kind_code unauthorized = 4
kind_code forbidden = 5
kind_code internal = 6
kind_code external = 7
kind_code timeout = 8

-- `AsAppError`
unfoldable pub as_app_error : Error → Option AppError
unfolding errors_as
as_app_error e = found (errors_as e)

abbrev pub kind_of : Option AppError → Kind
kind_of none = unknown
kind_of (some a) = a.kind

-- `GetKind`, whose nil test `errors.As` makes as well.
unfoldable pub get_kind : Error → Kind
unfolding as_app_error
get_kind e = if is_nil e then unknown else kind_of (as_app_error e)

-- `Is`
unfoldable pub is_kind : Error → Kind → Bool
unfolding get_kind
is_kind e k = kind_code (get_kind e) == kind_code k

-- `IsNotFound` and the others.
abbrev pub is_not_found : Error → Bool
is_not_found e = is_kind e not_found

abbrev pub is_validation : Error → Bool
is_validation e = is_kind e validation

abbrev pub is_conflict : Error → Bool
is_conflict e = is_kind e conflict

abbrev pub is_unauthorized : Error → Bool
is_unauthorized e = is_kind e unauthorized

abbrev pub is_forbidden : Error → Bool
is_forbidden e = is_kind e forbidden

abbrev pub is_internal : Error → Bool
is_internal e = is_kind e internal

abbrev pub is_external : Error → Bool
is_external e = is_kind e external

abbrev pub is_timeout : Error → Bool
is_timeout e = is_kind e timeout
