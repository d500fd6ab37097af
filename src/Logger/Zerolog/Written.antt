-- ===== src/Logger/Zerolog/Written.antt =====
-- Which entries are written.
use thiam_api.Logger.Zerolog.{
  Derivation, by_field, by_fields, by_request_id, by_context, derive, derive_once, with_field,
  with_fields, with_request_id, with_context, request_id_from_context, Logger, Console, Content,
  rank, formatted, content_text, level_name, emit, msg, log_event, event_level, new_logger,
  ZerologLevel, debug_level, info_level, warn_level, error_level,
}
use thiam_api.Base.{
  none, some, str_eq, refl, ap, sym, ◌∙◌, append_nil, append_assoc, Bool, ◌≡◌, true, false, List,
  [], ◌∷◌, ◌++◌, String, if◌then◌else◌, leb, arith,
}
use thiam_api.Logger.Sampled.{Severity, debug, info, warn, error, fatal}

-- The level at which an entry of a severity is written.
abbrev pub written_at : Severity → ZerologLevel
written_at debug = debug_level
written_at info = info_level
written_at warn = warn_level
written_at error = error_level
written_at fatal = info_level

abbrev pub is_fatal : Severity → Bool
is_fatal fatal = true
is_fatal s = false

-- The fields that a derivation adds.
abbrev pub id_field : String → List (String × String)
id_field id = ("request_id", id) ∷ []

abbrev pub added : Derivation → List (String × String)
added (by_field k v) = (k, v) ∷ []
added (by_fields fs) = fs
added (by_request_id id) = id_field id
added (by_context ctx) =
    if str_eq (request_id_from_context ctx) "" then [] else id_field (request_id_from_context ctx)

abbrev pub all_added : List Derivation → List (String × String)
all_added [] = []
all_added (d ∷ ds) = added d ++ all_added ds

abbrev with_more : Logger → List (String × String) → Logger
with_more l fs = record l { fields = l.fields ++ fs }

with_more-nil : (l : Logger) → l ≡ with_more l []
with_more-nil l = ap (λ fs. record l { fields = fs }) (sym (append_nil l.fields))

-- `WithContext` by whether its id is empty.
if-with_more :
    (b : Bool) (l : Logger) (fs : List (String × String))
    → (if b then l else with_more l fs) ≡ with_more l (if b then [] else fs)
if-with_more true l fs = with_more-nil l
if-with_more false l fs = refl

derive_once_lem : (d : Derivation) (l : Logger) → derive_once d l ≡ with_more l (added d)
unfolding with_field with_fields with_request_id with_context request_id_from_context
derive_once_lem (by_field k v) l = refl
derive_once_lem (by_fields fs) l = refl
derive_once_lem (by_request_id id) l = refl
derive_once_lem (by_context none) l = with_more-nil l
derive_once_lem (by_context (some id)) l = if-with_more (str_eq id "") l (id_field id)

derive_lem : (ds : List Derivation) (l : Logger) → derive ds l ≡ with_more l (all_added ds)
derive_lem [] l = with_more-nil l
derive_lem (d ∷ ds) l =
    derive_lem ds (derive_once d l)
    ∙ ap (λ m. with_more m (all_added ds)) (derive_once_lem d l)
    ∙ ap (λ fs. record l { fields = fs }) (append_assoc l.fields (added d) (all_added ds))

module _ (format : String → List String → String) (other_text : String → String → String)
    (lower : String → String) (level : String) where
  -- What an entry leaves: the line, unless its level is under the configured one.
  abbrev pub written : List (String × String) → Severity → Content → List String → Console → Console
  written fields s content args c = record {
    lines =
        if leb (rank (new_logger lower level).global) (rank (written_at s))
        then c.lines
          ++ record {
            level = written_at s;
            fields = fields;
            text =
                formatted format other_text (content_text format other_text (level_name s) content)
                  args;
          }
            ∷ []
        else c.lines;
    has_exited = if is_fatal s then true else c.has_exited;
  }

  emit_with :
      (fs : List (String × String)) (s : Severity) (content : Content) (args : List String)
      (c : Console)
      → emit format other_text s (with_more (new_logger lower level) fs) content args c
        ≡ written fs s content args c
  unfolding emit msg log_event event_level new_logger
  emit_with fs debug content args c = ground arith
  emit_with fs info content args c = ground arith
  emit_with fs warn content args c = ground arith
  emit_with fs error content args c = ground arith
  emit_with fs fatal content args c = ground arith

  -- A logger made for a configured level, and any logger derived from it by fields, a request id or a
  -- context, writes an entry of each severity once, with the fields and the id of its derivations in
  -- their order, if its level is at least the configured one, and not at all otherwise. An entry at
  -- fatal counts as one at info there, and ends the process in any case. A context without an id, or
  -- with the empty one, adds nothing.
  pub emit-written :
      (ds : List Derivation) (s : Severity) (content : Content) (args : List String) (c : Console)
      → emit format other_text s (derive ds (new_logger lower level)) content args c
        ≡ written (all_added ds) s content args c
  unfolding new_logger
  emit-written ds s content args c =
      ap (λ l. emit format other_text s l content args c) (derive_lem ds (new_logger lower level))
      ∙ emit_with (all_added ds) s content args c
