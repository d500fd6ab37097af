-- ===== src/Logger/Sampled/Derived.antt =====
-- pkg/logger/sampler.go: `SampledLogger` around a `Logger` of pkg/logger/logger.go. The loggers that are
-- derived from one share its sampler, which is part of the state, as is what was written.
pub mod Written
use thiam_api.Base.{ℕ, Bool, none, some, List, [], ◌∷◌, String, if◌then◌else◌, str_eq}
use thiam_api.Base.Int.{ℤ}
use thiam_api.Exec.{Result, ok, err, panics}
use thiam_api.Logger.Sampler.{Sampler, new_sampler, should_log}
use thiam_api.Logger.Sampled.{Severity, debug, info, warn, error, fatal}
use thiam_api.Logger.Zerolog.{
  Logger, Console, Content, RequestContext, emit, with_field, with_fields, with_request_id,
}

pub record SampledLogger : Type 0 where
  pub logger : Logger

pub record Sink : Type 0 where
  pub sampler : Sampler
  pub console : Console

abbrev pub with_sampler : Logger → Result Sampler → Result (SampledLogger × Sampler)
with_sampler l (ok s) = ok (record { logger = l }, s)
with_sampler l (err e) = err e
with_sampler l (panics t) = panics t

-- `NewSampledLogger`, at a time.
unfoldable pub new_sampled_logger : Logger → ℤ → ℤ → ℕ → Result (SampledLogger × Sampler)
unfolding new_sampler
new_sampled_logger l rate interval now = with_sampler l (new_sampler rate interval now)

-- `WithField`, `WithFields`, `WithRequestID` and `WithContext`
unfoldable pub sampled_with_field : String → String → SampledLogger → SampledLogger
unfolding with_field
sampled_with_field k v sl = record { logger = with_field k v sl.logger }

unfoldable pub sampled_with_fields : List (String × String) → SampledLogger → SampledLogger
unfolding with_fields
sampled_with_fields fs sl = record { logger = with_fields fs sl.logger }

unfoldable pub sampled_with_request_id : String → SampledLogger → SampledLogger
unfolding with_request_id
sampled_with_request_id id sl = record { logger = with_request_id id sl.logger }

unfoldable pub sampled_with_context : RequestContext → SampledLogger → SampledLogger
unfolding sampled_with_request_id
sampled_with_context none sl = sl
sampled_with_context (some id) sl = if str_eq id "" then sl else sampled_with_request_id id sl

-- One call: when, by which logger, and with which arguments.
pub record Call : Type 0 where
  pub now : ℕ
  pub by : SampledLogger
  pub severity : Severity
  pub content : Content
  pub args : List String

module _ (format : String → List String → String) (other_text : String → String → String) where
  abbrev pub pass : Call → Sink → Sink
  pass c s = record s {
    console = emit format other_text c.severity c.by.logger c.content c.args s.console;
  }

  abbrev pub pass_if : Bool → Call → Sink → Sink
  pass_if b c s = if b then pass c s else s

  -- `if sl.sampler.ShouldLog() { … }`
  abbrev pub sampled : Call → Sink → Sink
  sampled c s = let (b, t) = should_log c.now s.sampler in pass_if b c (record s { sampler = t })

  abbrev pub emit_as : Severity → Call → Sink → Sink
  emit_as debug c s = sampled c s
  emit_as info c s = sampled c s
  emit_as warn c s = pass c s
  emit_as error c s = pass c s
  emit_as fatal c s = pass c s

  -- `Debug`, `Info`, `Warn`, `Error` and `Fatal`
  unfoldable pub sampled_emit : Call → Sink → Sink
  unfolding should_log emit
  sampled_emit c s = emit_as c.severity c s

  unfoldable pub sampled_emits : List Call → Sink → Sink
  unfolding sampled_emit
  sampled_emits [] s = s
  sampled_emits (c ∷ cs) s = sampled_emits cs (sampled_emit c s)
