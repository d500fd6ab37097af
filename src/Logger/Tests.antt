-- ===== src/Logger/Tests.antt =====
-- The sampler and the redaction at concrete inputs.
use thiam_api.Base.{
  ap, ◌∙◌, eq_iff, Bool-cases, if◌then◌else◌, length, none, refl, true, false, ℕ, ◌+◌, ◌*◌, ◌≡◌,
  ◌≤◌, List, [], ◌∷◌, String, arith,
}
use thiam_api.Logger.Sampled.Derived.{
  sampled_emits, SampledLogger, Call, sampled_with_request_id, sampled_with_context,
  sampled_with_field, sampled_with_fields, new_sampled_logger,
}
use thiam_api.Logger.Sampler.Overshoot.{AllAt, passed_in_overshoot}
use thiam_api.Base.Int.{pos}
use thiam_api.Exec.{panics}
use thiam_api.Logger.Zerolog.{
  with_request_id, with_fields, with_field, Derivation, by_field, by_context,
  context_with_request_id, derive, warn_level, request_id_from_context, Console, emit, new_logger,
  of_text,
}
use thiam_api.Logger.Sampled.{Severity, warn, fatal, Entry, Output, info}
use thiam_api.Logger.Zerolog.Written.{emit-written}
use thiam_api.Logger.Sampler.{Sampler}
use thiam_api.Logger.Sampler.Threads.{entering, passed_in, resets_in, passed_in_bound}
use Prim.Native.Char.{code}
use package.text.Mathlib.TextEquality.{Char-path}
use thiam_api.Logger.Redact.{text, other, listed, redact_fields}
use thiam_api.Logger.Redact.Hiding.{spells, secret_names, redact_fields_hides}

abbrev sampler : Sampler
sampler = record { rate = 2; counter = 0; interval = 10; last_reset = 100 }

-- Two goroutines in turn, after the interval.
abbrev turns : List (ℕ × ℕ)
turns =
    (0, 120)
    ∷ (1, 121)
    ∷ (0, 120)
    ∷ (1, 121)
    ∷ (0, 122)
    ∷ (1, 122)
    ∷ (1, 122)
    ∷ (0, 123)
    ∷ (0, 123)
    ∷ []

passed_in_bound_example :
    passed_in turns (λ _. entering) sampler ≤ 2 * resets_in turns (λ _. entering) sampler + 2
passed_in_bound_example = passed_in_bound turns (λ _. entering) sampler (omega arith)

abbrev output : Output
output = record { sampler = sampler; entries = [] }

abbrev calls : List (ℕ × Entry)
calls =
    (101, (info, [], "a"))
    ∷ (102, (info, [], "b"))
    ∷ (103, (info, [], "c"))
    ∷ (104, (warn, [], "d"))
    ∷ (105, (fatal, [], "e"))
    ∷ []

abbrev same : String → String
same s = s

spells_unique : (key m n : String) → spells key m ≡ true → spells key n ≡ true → m ≡ n
spells_unique String.[] String.[] String.[] h k = refl
spells_unique String.[] String.[] (String.◌∷◌ e n) h k = absurd (ground (arith, k))
spells_unique String.[] (String.◌∷◌ d m) n h k = absurd (ground (arith, h))
spells_unique (String.◌∷◌ c key) String.[] n h k = absurd (ground (arith, h))
spells_unique (String.◌∷◌ c key) (String.◌∷◌ d m) String.[] h k = absurd (ground (arith, k))
spells_unique (String.◌∷◌ c key) (String.◌∷◌ d m) (String.◌∷◌ e n) h k =
    let same : (code d ≡ code e) × (spells key m ≡ true) × (spells key n ≡ true) =
      ground (arith, h, k) in
    ap (λ x. String.◌∷◌ x m) (Char-path d e same.0)
    ∙ ap (String.◌∷◌ e) (spells_unique key m n same.1 same.2)

-- The name that a key spells; other keys stay.
abbrev spelled : List String → String → String
spelled [] key = key
spelled (name ∷ names) key = if spells key name then name else spelled names key

spelled-spells :
    (names : List String) (key name : String)
    → listed name names ≡ true
    → spells key name ≡ true
    → spelled names key ≡ name
spelled-spells [] key name h k = absurd (ground (arith, h))
spelled-spells (n ∷ names) key name h k = ground (
  arith,
  h,
  k,
  spelled-spells names key name,
  eq_iff n name,
  spells_unique key n name,
  Bool-cases (spells key n),
)

abbrev low : String → String
low = spelled secret_names

redact_fields_hides_example :
    redact_fields low
      (λ f s. s)
      (λ r s. s)
      (42 ∷ [])
      (("Token", text (1 ∷ [])) ∷ ("n", other 1) ∷ [])
    ≡ redact_fields low
        (λ f s. s)
        (λ r s. s)
        (42 ∷ [])
        (("Token", text (2 ∷ [])) ∷ ("n", other 1) ∷ [])
redact_fields_hides_example =
    redact_fields_hides low (λ f s. s) (λ r s. s) (42 ∷ []) (spelled-spells secret_names)
      (("Token", text (1 ∷ [])) ∷ ("n", other 1) ∷ [])
      (("Token", text (2 ∷ [])) ∷ ("n", other 1) ∷ [])
      (refl, (λ h. absurd (ground (arith, h))), (refl, (λ h. refl), tt))

abbrev join_all : String → List String → String
join_all s args = s

abbrev blank : Console
blank = record { lines = []; has_exited = false }

-- The logger of a request, and of one without an id.
abbrev derivations : List Derivation
derivations =
    by_context (context_with_request_id none "r1") ∷ by_field "topic" "user" ∷ by_context none ∷ []

emit-written_example :
    emit join_all
      (λ level v. v)
      warn
      (derive derivations (new_logger same "warn"))
      (of_text "slow")
      []
      blank
    ≡ record {
      lines =
          record {
            level = warn_level;
            fields = ("request_id", "r1") ∷ ("topic", "user") ∷ [];
            text = "slow";
          }
          ∷ [];
      has_exited = false;
    }
unfolding new_logger context_with_request_id request_id_from_context
emit-written_example =
    emit-written join_all (λ level v. v) same "warn" derivations warn (of_text "slow") [] blank

-- At the level error, a fatal entry ends the process and leaves no line.
silent_fatal :
    emit join_all
      (λ level v. v)
      fatal
      (new_logger same "error")
      (of_text "app - Run - postgres.New")
      []
      blank
    ≡ record { lines = []; has_exited = true }
unfolding new_logger
silent_fatal =
    emit-written join_all (λ level v. v) same "error" [] fatal (of_text "app - Run - postgres.New")
      [] blank

-- A logger for the whole program, and those of two requests.
abbrev root : SampledLogger
root = record { logger = new_logger same "debug" }

abbrev by_root : ℕ → Severity → SampledLogger → Call
by_root now severity by = record {
  now = now;
  by = by;
  severity = severity;
  content = of_text "slow";
  args = [];
}

abbrev mixed : List Call
mixed =
    by_root 101 info (sampled_with_request_id "r1" root)
    ∷ by_root 102 info (sampled_with_context (context_with_request_id none "r2") root)
    ∷ by_root 103 info (sampled_with_field "topic" "user" root)
    ∷ by_root 104 warn (sampled_with_fields (("id", "7") ∷ []) root)
    ∷ []

-- `NewSampledLogger` panics on a rate of 0.
new_sampled_logger-root :
    new_sampled_logger (new_logger same "debug") (pos 0) (pos 10) 100
    ≡ panics "sampler rate must be positive"
unfolding new_sampled_logger
new_sampled_logger-root = refl

passed_in_overshoot_example :
    (steps : List (ℕ × ℕ)) × AllAt 111 steps × (passed_in steps (λ i. entering) sampler ≡ 4)
passed_in_overshoot_example =
    passed_in_overshoot sampler 111 (omega arith) (omega arith) (omega arith)

-- Two of the three at info, and the one at warn.
length-mixed :
    length
      (sampled_emits join_all
        (λ level v. v)
        mixed
        (record { sampler = sampler; console = blank })).console.lines
    ≡ 3
unfolding sampled_emits new_logger sampled_with_request_id sampled_with_context sampled_with_field
    sampled_with_fields context_with_request_id with_field with_fields with_request_id
length-mixed = refl
