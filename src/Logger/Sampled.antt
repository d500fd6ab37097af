-- ===== src/Logger/Sampled.antt =====
-- pkg/logger/sampler.go: `SampledLogger`. What the wrapped logger does with an entry is a list here;
-- the loggers that `WithField` and the others derive share one sampler, which is the state.
pub mod Derived
use thiam_api.Base.{
  append_assoc, append_nil, sym, ℕ, ◌≡◌, refl, Bool, true, false, List, [], ◌∷◌, ◌++◌, String,
  if◌then◌else◌, select, arith,
}
use thiam_api.Logger.Sampler.{Sampler, should_log}

pub data Severity : Type 0 where
  debug info warn error fatal : Severity

-- Level, fields of the logger, text.
abbrev pub Entry : Type 0
Entry = Severity × List (String × String) × String

pub record Output : Type 0 where
  pub sampler : Sampler
  pub entries : List Entry

abbrev pub emit : Entry → Output → Output
emit e o = record o { entries = o.entries ++ e ∷ [] }

abbrev pub emit_if : Bool → Entry → Output → Output
emit_if b e o = if b then emit e o else o

-- `if sl.sampler.ShouldLog() { … }`
abbrev pub if_sampled : ℕ → Entry → Output → Output
if_sampled now e o = let (b, s) = should_log now o.sampler in emit_if b e (record o { sampler = s })

-- `SampledLogger.Debug`, `Info`, `Warn`, `Error` and `Fatal`, at a time.
unfoldable pub log : ℕ → Entry → Output → Output
unfolding should_log
log now (debug, fields, text) o = if_sampled now (debug, fields, text) o
log now (info, fields, text) o = if_sampled now (info, fields, text) o
log now (warn, fields, text) o = emit (warn, fields, text) o
log now (error, fields, text) o = emit (error, fields, text) o
log now (fatal, fields, text) o = emit (fatal, fields, text) o

unfoldable pub log_all : List (ℕ × Entry) → Output → Output
unfolding log
log_all [] o = o
log_all ((now, e) ∷ calls) o = log_all calls (log now e o)

abbrev pub is_important : Entry → Bool
is_important (debug, fields, text) = false
is_important (info, fields, text) = false
is_important (warn, fields, text) = true
is_important (error, fields, text) = true
is_important (fatal, fields, text) = true

abbrev pub important : List (ℕ × Entry) → List Entry
important [] = []
important ((now, e) ∷ calls) = if is_important e then e ∷ important calls else important calls

select-append :
    (p : Entry → Bool) (es fs : List Entry) → select p (es ++ fs) ≡ select p es ++ select p fs
select-append p [] fs = refl
select-append p (e ∷ es) fs = ground (arith, select-append p es fs)

emit_if-important :
    (b : Bool) (e : Entry) (o : Output)
    → is_important e ≡ false
    → select is_important (emit_if b e o).entries ≡ select is_important o.entries
emit_if-important true e o h = ground (
  arith,
  select-append is_important o.entries (e ∷ []),
  append_nil (select is_important o.entries),
)
emit_if-important false e o h = refl

log-important :
    (now : ℕ) (e : Entry) (o : Output)
    → select is_important (log now e o).entries ≡ (
        if is_important e
        then select is_important o.entries ++ e ∷ []
        else select is_important o.entries)
unfolding log
log-important now (debug, fields, text) o =
    emit_if-important (should_log now o.sampler).0 (debug, fields, text)
      (record o { sampler = (should_log now o.sampler).1 }) refl
log-important now (info, fields, text) o =
    emit_if-important (should_log now o.sampler).0 (info, fields, text)
      (record o { sampler = (should_log now o.sampler).1 }) refl
log-important now (warn, fields, text) o =
    select-append is_important o.entries ((warn, fields, text) ∷ [])
log-important now (error, fields, text) o =
    select-append is_important o.entries ((error, fields, text) ∷ [])
log-important now (fatal, fields, text) o =
    select-append is_important o.entries ((fatal, fields, text) ∷ [])

-- Warnings, errors and fatal entries are never sampled: whatever else is logged before and between
-- them, and whatever the sampler says, all of them are written, in order, after those before.
log_all-important :
    (calls : List (ℕ × Entry)) (o : Output)
    → select is_important (log_all calls o).entries
      ≡ select is_important o.entries ++ important calls
unfolding log_all
log_all-important [] o = sym (append_nil (select is_important o.entries))
log_all-important ((now, e) ∷ calls) o = ground (
  arith,
  log-important now e o,
  log_all-important calls (log now e o),
  append_assoc (select is_important o.entries) (e ∷ []) (important calls),
)
