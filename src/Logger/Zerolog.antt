-- ===== src/Logger/Zerolog.antt =====
-- pkg/logger/logger.go: `Logger` over zerolog. What zerolog does with an event is modelled as it is
-- documented: it is written if its level is at least that of the logger and the global one.
pub mod Written
use thiam_api.Base.{
  ℕ, Bool, true, ◌&&◌, Option, none, some, List, [], ◌∷◌, ◌++◌, String, if◌then◌else◌, leb, ◌==◌,
  str_eq,
}
use thiam_api.Errors.{Error, error_text}
use thiam_api.Logger.Sampled.{Severity, debug, info, warn, error, fatal}

-- zerolog's levels; a new logger is at the trace level, under all of them.
pub data ZerologLevel : Type 0 where
  trace_level debug_level info_level warn_level error_level : ZerologLevel

abbrev pub rank : ZerologLevel → ℕ
rank trace_level = 0
rank debug_level = 1
rank info_level = 2
rank warn_level = 3
rank error_level = 4

-- A written line: its level, the fields of the logger, and the text.
pub record Line : Type 0 where
  pub level : ZerologLevel
  pub fields : List (String × String)
  pub text : String

-- `Logger` with the global level.
pub record Logger : Type 0 where
  pub global : ZerologLevel
  pub own : ZerologLevel
  pub fields : List (String × String)

-- What was written, and whether the process has exited.
pub record Console : Type 0 where
  pub lines : List Line
  pub has_exited : Bool

-- `message interface{}`: an error, a string, or anything else with what `%v` prints for it.
pub data Content : Type 0 where
  of_error : Error → Content
  of_text : String → Content
  of_other : String → Content

-- The names that `log` is called with.
abbrev pub level_name : Severity → String
level_name debug = "debug"
level_name info = "info"
level_name warn = "warn"
level_name error = "error"
level_name fatal = "fatal"

-- `New`; `lower` is `strings.ToLower`.
unfoldable pub new_logger : (String → String) → String → Logger
new_logger lower level = record {
  global =
      if str_eq (lower level) "error"
      then error_level
      else if str_eq (lower level) "warn"
      then warn_level
      else if str_eq (lower level) "info"
      then info_level
      else if str_eq (lower level) "debug"
      then debug_level
      else info_level;
  own = trace_level;
  fields = [];
}

-- The event that `log` makes for the name of a level.
unfoldable pub event_level : String → ZerologLevel
event_level name =
    if str_eq name "debug"
    then debug_level
    else if str_eq name "warn"
    then warn_level
    else if str_eq name "error"
    then error_level
    else info_level

-- Whether zerolog writes an event.
abbrev pub is_enabled : Logger → ZerologLevel → Bool
is_enabled l level = leb (rank l.own) (rank level) && leb (rank l.global) (rank level)

abbrev pub write : Logger → ZerologLevel → String → Console → Console
write l level text c =
    if is_enabled l level
    then record c {
      lines = c.lines ++ record { level = level; fields = l.fields; text = text } ∷ [];
    }
    else c

-- `format` is `fmt.Sprintf`; `other_text` is the text for a message that is no error and no string.
module _ (format : String → List String → String) (other_text : String → String → String) where
  abbrev pub formatted : String → List String → String
  formatted text [] = text
  formatted text (a ∷ args) = format text (a ∷ args)

  -- `Logger.log`
  unfoldable pub log_event : Logger → String → String → List String → Console → Console
  unfolding event_level
  log_event l level text args c = write l (event_level level) (formatted text args) c

  abbrev pub content_text : String → Content → String
  content_text level (of_error e) = error_text e
  content_text level (of_text s) = s
  content_text level (of_other v) = other_text level v

  -- `Logger.msg`
  unfoldable pub msg : Logger → String → Content → List String → Console → Console
  unfolding log_event error_text
  msg l level content args c = log_event l level (content_text level content) args c

  abbrev pub exit : Console → Console
  exit c = record c { has_exited = true }

  -- `Logger.Debug`, `Info`, `Warn`, `Error` and `Fatal`. `Info` and `Warn` are only given strings.
  unfoldable pub emit : Severity → Logger → Content → List String → Console → Console
  unfolding msg
  emit debug l content args c = msg l "debug" content args c
  emit info l content args c = msg l "info" content args c
  emit warn l content args c = msg l "warn" content args c
  emit error l content args c =
      msg l "error" content args (if rank l.own == 1 then msg l "debug" content args c else c)
  emit fatal l content args c = exit (msg l "fatal" content args c)

-- `Logger.WithField`, `WithFields` and `WithRequestID`
unfoldable pub with_field : String → String → Logger → Logger
with_field k v l = record l { fields = l.fields ++ (k, v) ∷ [] }

unfoldable pub with_fields : List (String × String) → Logger → Logger
with_fields fs l = record l { fields = l.fields ++ fs }

unfoldable pub with_request_id : String → Logger → Logger
with_request_id id l = record l { fields = l.fields ++ ("request_id", id) ∷ [] }

-- `ContextWithRequestID` and `RequestIDFromContext`, for the value that a context holds.
abbrev pub RequestContext : Type 0
RequestContext = Option String

unfoldable pub context_with_request_id : RequestContext → String → RequestContext
context_with_request_id ctx id = some id

unfoldable pub request_id_from_context : RequestContext → String
request_id_from_context none = ""
request_id_from_context (some id) = id

-- `Logger.WithContext`
unfoldable pub with_context : RequestContext → Logger → Logger
unfolding with_request_id
with_context none l = l
with_context (some id) l = if str_eq id "" then l else with_request_id id l

-- How one logger is made from another.
pub data Derivation : Type 0 where
  by_field : String → String → Derivation
  by_fields : List (String × String) → Derivation
  by_request_id : String → Derivation
  by_context : RequestContext → Derivation

abbrev pub derive_once : Derivation → Logger → Logger
derive_once (by_field k v) l = with_field k v l
derive_once (by_fields fs) l = with_fields fs l
derive_once (by_request_id id) l = with_request_id id l
derive_once (by_context ctx) l = with_context ctx l

abbrev pub derive : List Derivation → Logger → Logger
derive [] l = l
derive (d ∷ ds) l = derive ds (derive_once d l)
