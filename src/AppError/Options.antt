-- ===== src/AppError/Options.antt =====
-- What a list of options makes of a new error.
use thiam_api.Base.{
  ◌≡◌, refl, Option, none, some, List, [], ◌∷◌, String, if◌then◌else◌, str_eq, eq_iff, arith,
}
use thiam_api.Errors.{Kind, Error, nil}
use thiam_api.AppError.{
  AppError, Setting, with_op, with_code, with_cause, with_field, with_fields, kind_string,
  set_option, set_options, new_error, put, field, entries,
}

-- The text that the last `WithCode` sets, if there is one; and so on for the other settings.
abbrev pub last_code : List Setting → String → String
last_code [] s = s
last_code (with_code t ∷ os) s = last_code os t
last_code (o ∷ os) s = last_code os s

abbrev pub last_op : List Setting → String → String
last_op [] s = s
last_op (with_op t ∷ os) s = last_op os t
last_op (o ∷ os) s = last_op os s

abbrev pub last_cause : List Setting → Error → Error
last_cause [] e = e
last_cause (with_cause c ∷ os) e = last_cause os c
last_cause (o ∷ os) e = last_cause os e

-- The value under a key after the settings: a field replaces it, a map replaces all.
abbrev pub last_value : String → List Setting → Option String → Option String
last_value k [] v = v
last_value k (with_field j t ∷ os) v = last_value k os (if str_eq j k then some t else v)
last_value k (with_fields m ∷ os) v = last_value k os (field k (entries m))
last_value k (o ∷ os) v = last_value k os v

field-put :
    (k j t : String) (m : List (String × String))
    → field k (put j t m) ≡ (if str_eq j k then some t else field k m)
unfolding field put
field-put k j t [] = refl
field-put k j t ((i, s) ∷ m) = ground (arith, eq_iff i j, eq_iff j k, eq_iff i k, field-put k j t m)

set_options_head :
    (os : List Setting) (a : AppError)
    → ((set_options os a).kind ≡ a.kind)
      × ((set_options os a).message ≡ a.message)
      × ((set_options os a).code ≡ last_code os a.code)
      × ((set_options os a).op ≡ last_op os a.op)
      × ((set_options os a).err ≡ last_cause os a.err)
unfolding set_options set_option
set_options_head [] a = (refl, refl, refl, refl, refl)
set_options_head (with_op s ∷ os) a = set_options_head os (set_option (with_op s) a)
set_options_head (with_code s ∷ os) a = set_options_head os (set_option (with_code s) a)
set_options_head (with_cause c ∷ os) a = set_options_head os (set_option (with_cause c) a)
set_options_head (with_field k v ∷ os) a = set_options_head os (set_option (with_field k v) a)
set_options_head (with_fields m ∷ os) a = set_options_head os (set_option (with_fields m) a)

field-set_options :
    (k : String) (os : List Setting) (a : AppError)
    → field k (entries (set_options os a).fields) ≡ last_value k os (field k (entries a.fields))
unfolding set_options set_option field
field-set_options k [] a = refl
field-set_options k (with_op s ∷ os) a = field-set_options k os (set_option (with_op s) a)
field-set_options k (with_code s ∷ os) a = field-set_options k os (set_option (with_code s) a)
field-set_options k (with_cause c ∷ os) a = field-set_options k os (set_option (with_cause c) a)
field-set_options k (with_field j v ∷ os) a = ground (
  arith,
  field-put k j v (entries a.fields),
  field-set_options k os (set_option (with_field j v) a),
)
field-set_options k (with_fields m ∷ os) a = field-set_options k os (set_option (with_fields m) a)

-- A new error keeps its kind and message whatever options are given. Its code, operation and cause
-- are what the last option for them says, and without one the name of the kind, the empty text
-- and nil. Under every key its details hold what the last option that concerns the key wrote.
pub new_error_options :
    (kind : Kind) (message : String) (os : List Setting) (k : String)
    → let e = new_error kind message os in
      (e.kind ≡ kind)
      × (e.message ≡ message)
      × (e.code ≡ last_code os (kind_string kind))
      × (e.op ≡ last_op os "")
      × (e.err ≡ last_cause os nil)
      × (field k (entries e.fields) ≡ last_value k os none)
unfolding new_error field
new_error_options kind message os k =
    let base : AppError = record {
      head = record {
        kind = kind;
        code = kind_string kind;
        message = message;
        op = "";
        fields = none;
      };
      err = nil;
    } in
    let p = set_options_head os base in (p.0, p.1, p.2, p.3, p.4, field-set_options k os base)
