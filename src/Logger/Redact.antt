-- ===== src/Logger/Redact.antt =====
-- pkg/logger/redact.go. A text is the list of its bytes. `lower` is `strings.ToLower`; the two
-- regular expressions are run by Go's library: `replace_emails` is the email expression's
-- `ReplaceAllStringFunc`, `replace_cards` the card expression's `ReplaceAllString`.
pub mod Masking
pub mod Hiding
use thiam_api.Base.{
  ℕ, Bool, false, ◌||◌, List, [], ◌∷◌, ◌++◌, String, if◌then◌else◌, str_eq, length, leb, ◌==◌,
}

abbrev pub Bytes : Type 0
Bytes = List ℕ

-- A field's value: a string, or something else that stays.
pub data Value : Type 0 where
  text : Bytes → Value
  other : ℕ → Value

-- `sensitiveKeys`
abbrev pub sensitive_keys : List String
sensitive_keys =
    "password" ∷ "secret" ∷ "token" ∷ "authorization" ∷ "api_key" ∷ "apikey" ∷ "credit_card" ∷ "ssn"
    ∷ "cvv" ∷ []

abbrev pub listed : String → List String → Bool
listed k [] = false
listed k (j ∷ js) = str_eq j k || listed k js

-- A byte in front of the first part.
abbrev pub push_front : ℕ → List Bytes → List Bytes
push_front b [] = (b ∷ []) ∷ []
push_front b (part ∷ parts) = (b ∷ part) ∷ parts

-- `strings.Split(email, "@")`
unfoldable pub split_at_sign : Bytes → List Bytes
split_at_sign [] = [] ∷ []
split_at_sign (b ∷ bs) = if b == 64 then [] ∷ split_at_sign bs else push_front b (split_at_sign bs)

-- `local[len(local)-1:]`
abbrev pub last_byte : Bytes → Bytes
last_byte [] = []
last_byte (b ∷ []) = b ∷ []
last_byte (b ∷ c ∷ bs) = last_byte (c ∷ bs)

-- `local[:1]`
abbrev pub first_byte : Bytes → Bytes
first_byte [] = []
first_byte (b ∷ bs) = b ∷ []

-- The local part as it is shown. An asterisk is byte 42.
abbrev pub masked_local : Bytes → Bytes
masked_local local =
    if leb (length local) 2
    then 42 ∷ 42 ∷ []
    else first_byte local ++ (42 ∷ 42 ∷ 42 ∷ []) ++ last_byte local

-- An address of two parts is masked, any other stays.
abbrev pub mask_parts : Bytes → List Bytes → Bytes
mask_parts email (local ∷ domain ∷ []) = masked_local local ++ 64 ∷ domain
mask_parts email _ = email

-- `maskEmail`
unfoldable pub mask_email : Bytes → Bytes
unfolding split_at_sign
mask_email email = mask_parts email (split_at_sign email)

module _ (lower : String → String) (replace_emails : (Bytes → Bytes) → Bytes → Bytes)
    (replace_cards : Bytes → Bytes → Bytes) (redacted : Bytes) where
  -- `isSensitiveKey`
  unfoldable pub is_sensitive_key : String → Bool
  is_sensitive_key key = listed (lower key) sensitive_keys

  -- `redactString`
  unfoldable pub redact_string : Bytes → Bytes
  unfolding mask_email
  redact_string s = replace_cards redacted (replace_emails mask_email s)

  abbrev pub redact_value : Value → Value
  redact_value (text s) = text (redact_string s)
  redact_value (other v) = other v

  -- `RedactFields`
  unfoldable pub redact_fields : List (String × Value) → List (String × Value)
  unfolding is_sensitive_key redact_string
  redact_fields [] = []
  redact_fields ((k, v) ∷ fields) =
      (k, if is_sensitive_key k then text redacted else redact_value v) ∷ redact_fields fields
