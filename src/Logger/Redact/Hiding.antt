-- ===== src/Logger/Redact/Hiding.antt =====
-- What is not in redacted fields, by a list of secret names of its own.
use Prim.Native.Char.{code}
use thiam_api.Base.{
  arith, Bool-cases, ℕ, ◌≡◌, refl, Bool, true, false, ◌&&◌, ◌||◌, ◌+◌, List, [], ◌∷◌, String,
  if◌then◌else◌, leb, ◌==◌,
}
use thiam_api.Logger.Redact.{Bytes, Value, listed, sensitive_keys, is_sensitive_key, redact_fields}

-- The names under which a value is secret.
abbrev pub secret_names : List String
secret_names =
    "api_key" ∷ "apikey" ∷ "authorization" ∷ "credit_card" ∷ "cvv" ∷ "password" ∷ "secret" ∷ "ssn"
    ∷ "token" ∷ []

-- The number of a character, where an ASCII capital letter is read as the small one.
abbrev small_code : ℕ → ℕ
small_code n = if leb 65 n && leb n 90 then n + 32 else n

-- The key is the name, whatever the case of its ASCII letters.
abbrev pub spells : String → String → Bool
spells String.[] String.[] = true
spells String.[] (String.◌∷◌ d name) = false
spells (String.◌∷◌ c key) String.[] = false
spells (String.◌∷◌ c key) (String.◌∷◌ d name) = small_code (code c) == code d && spells key name

abbrev pub spells_any : String → List String → Bool
spells_any key [] = false
spells_any key (name ∷ names) = spells key name || spells_any key names

abbrev pub is_secret : String → Bool
is_secret key = spells_any key secret_names

-- `strings.ToLower` turns every spelling of a secret name into the name.
abbrev pub Lowers : (String → String) → Type 0
Lowers lower =
    (key name : String)
    → listed name secret_names ≡ true
    → spells key name ≡ true
    → lower key ≡ name

abbrev pub all_listed : List String → List String → Bool
all_listed [] js = true
all_listed (name ∷ names) js = listed name js && all_listed names js

spells_any-listed :
    (lower : String → String) (key : String) (names js : List String)
    → Lowers lower
    → all_listed names secret_names ≡ true
    → all_listed names js ≡ true
    → spells_any key names ≡ true
    → listed (lower key) js ≡ true
spells_any-listed lower key [] js l a b h = absurd (ground (arith, h))
spells_any-listed lower key (name ∷ names) js l a b h =
    ground (arith, a, b, h, l key name, spells_any-listed lower key names js l)

-- The fields agree but for values under secret names.
abbrev pub AgreeOutside : List (String × Value) → List (String × Value) → Type 0
AgreeOutside [] [] = Unit {0}
AgreeOutside [] (g ∷ gs) = ⊥
AgreeOutside (f ∷ fs) [] = ⊥
AgreeOutside ((j, v) ∷ fs) ((k, u) ∷ gs) =
    (j ≡ k) × (is_secret j ≡ false → v ≡ u) × AgreeOutside fs gs

module _ (lower : String → String) (replace_emails : (Bytes → Bytes) → Bytes → Bytes)
    (replace_cards : Bytes → Bytes → Bytes) (redacted : Bytes) where
  is_secret-is_sensitive_key :
      (key : String)
      → Lowers lower
      → is_secret key ≡ true
      → is_sensitive_key lower replace_emails replace_cards redacted key ≡ true
  unfolding is_sensitive_key
  is_secret-is_sensitive_key key l h =
      spells_any-listed lower key secret_names sensitive_keys l refl refl h

  -- Nothing of a value under a secret name (password, secret, token, authorization, api_key, apikey,
  -- credit_card, ssn, cvv), in whatever case its letters are written, is in the result: fields that
  -- differ in such values only are redacted to the same fields. `strings.ToLower` turns each spelling of
  -- these names into the name.
  pub redact_fields_hides :
      Lowers lower
      → (fs gs : List (String × Value)) → AgreeOutside fs gs
      → redact_fields lower replace_emails replace_cards redacted fs
        ≡ redact_fields lower replace_emails replace_cards redacted gs
  unfolding redact_fields
  redact_fields_hides l [] [] h = refl
  redact_fields_hides l [] (g ∷ gs) h = absurd h
  redact_fields_hides l (f ∷ fs) [] h = absurd h
  redact_fields_hides l ((j, v) ∷ fs) ((k, u) ∷ gs) h = ground (
    arith,
    h.0,
    h.1,
    redact_fields_hides l fs gs h.2,
    is_secret-is_sensitive_key j l,
    Bool-cases (is_secret j),
  )
