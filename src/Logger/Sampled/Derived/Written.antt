-- ===== src/Logger/Sampled/Derived/Written.antt =====
-- How much is written through loggers that share a sampler.
use thiam_api.Logger.Sampler.Window.{windows, passed_bound, passed}
use thiam_api.Logger.Sampler.{sign_bit, should_log}
use thiam_api.Base.{
  ◌*◌, ◌-◌, ◌<◌, refl, ◌==◌, ◌+◌, subst, All, length-append, arith, ◌≤◌, length, ◌≡◌, String, ℕ,
  Bool, true, false, List, [], ◌∷◌, if◌then◌else◌,
}
use thiam_api.Logger.Zerolog.{
  event_level, formatted, content_text, write, Content, log_event, Console, msg, ZerologLevel, emit,
  Logger, rank,
}
use thiam_api.Logger.Sampled.{debug, info, warn, error, fatal, Severity}
use thiam_api.Logger.Sampled.Derived.{
  sampled_emit, emit_as, sampled, sampled_emits, pass_if, pass, Sink, Call,
}

abbrev pub is_sampled : Severity → Bool
is_sampled debug = true
is_sampled info = true
is_sampled s = false

-- The times of the calls that are sampled, and the number of the others.
abbrev pub sampled_times : List Call → List ℕ
sampled_times [] = []
sampled_times (c ∷ cs) =
    if is_sampled c.severity then c.now ∷ sampled_times cs else sampled_times cs

abbrev pub unsampled : List Call → ℕ
unsampled [] = 0
unsampled (c ∷ cs) = (if is_sampled c.severity then 0 else 1) + unsampled cs

abbrev pub IsPlain : Call → Type 0
IsPlain c = rank c.by.logger.own ≡ 0

module _ (format : String → List String → String) (other_text : String → String → String) where
  length-write :
      (l : Logger) (level : ZerologLevel) (text : String) (c : Console)
      → length (write l level text c).lines ≤ length c.lines + 1
  length-write l level text c =
      ground (
        arith,
        length-append c.lines (record { level = level; fields = l.fields; text = text } ∷ []),
      )

  length-msg :
      (l : Logger) (level : String) (content : Content) (args : List String) (c : Console)
      → length (msg format other_text l level content args c).lines ≤ length c.lines + 1
  unfolding msg log_event
  length-msg l level content args c =
      length-write l (event_level level)
        (formatted format other_text (content_text format other_text level content) args) c

  length-msg_unless :
      (b : Bool) (l : Logger) (content : Content) (args : List String) (d c : Console)
      → b ≡ false
      → length (msg format other_text l "error" content args (if b then d else c)).lines
        ≤ length c.lines + 1
  length-msg_unless true l content args d c h = absurd (ground (arith, h))
  length-msg_unless false l content args d c h = length-msg l "error" content args c

  length-emit :
      (s : Severity) (l : Logger) (content : Content) (args : List String) (c : Console)
      → rank l.own ≡ 0
      → length (emit format other_text s l content args c).lines ≤ length c.lines + 1
  unfolding emit
  length-emit debug l content args c h = length-msg l "debug" content args c
  length-emit info l content args c h = length-msg l "info" content args c
  length-emit warn l content args c h = length-msg l "warn" content args c
  length-emit error l content args c h =
      length-msg_unless (rank l.own == 1) l content args
        (msg format other_text l "debug" content args c) c (ground (arith, h))
  length-emit fatal l content args c h = length-msg l "fatal" content args c

  length-pass :
      (c : Call) (s : Sink)
      → IsPlain c
      → length (pass format other_text c s).console.lines ≤ length s.console.lines + 1
  length-pass c s h = length-emit c.severity c.by.logger c.content c.args s.console h

  length-pass_if :
      (b : Bool) (c : Call) (s : Sink)
      → IsPlain c
      → length (pass_if format other_text b c s).console.lines
        ≤ length s.console.lines + (if b then 1 else 0)
  length-pass_if true c s h = length-pass c s h
  length-pass_if false c s h = omega arith

  sampler-pass_if :
      (b : Bool) (c : Call) (s : Sink) → (pass_if format other_text b c s).sampler ≡ s.sampler
  sampler-pass_if true c s = refl
  sampler-pass_if false c s = refl

  -- The lines after some calls, by those that the sampler lets pass.
  abbrev Bounds : List Call → Sink → Type 0
  Bounds cs s =
      length (sampled_emits format other_text cs s).console.lines
      ≤ length s.console.lines + passed (sampled_times cs) s.sampler + unsampled cs

  Bounds-sampled :
      (c : Call) (cs : List Call) (s : Sink)
      → IsPlain c
      → ((t : Sink) → Bounds cs t)
      → length (sampled_emits format other_text cs (sampled format other_text c s)).console.lines
        ≤ length s.console.lines + passed (c.now ∷ sampled_times cs) s.sampler + unsampled cs
  unfolding passed
  Bounds-sampled c cs s h k =
      let b = (should_log c.now s.sampler).0 in
      let u : Sink = record s { sampler = (should_log c.now s.sampler).1 } in
      let v = pass_if format other_text b c u in
      let q =
        subst
          (λ r.
            length (sampled_emits format other_text cs v).console.lines
            ≤ length v.console.lines + passed (sampled_times cs) r + unsampled cs)
          (sampler-pass_if b c u) (k v) in
      omega (arith, length-pass_if b c u h, q)

  Bounds-pass :
      (c : Call) (cs : List Call) (s : Sink)
      → IsPlain c
      → ((t : Sink) → Bounds cs t)
      → length (sampled_emits format other_text cs (pass format other_text c s)).console.lines
        ≤ length s.console.lines + passed (sampled_times cs) s.sampler + (1 + unsampled cs)
  Bounds-pass c cs s h k = omega (arith, length-pass c s h, k (pass format other_text c s))

  Bounds-emit_as :
      (y : Severity) (c : Call) (cs : List Call) (s : Sink)
      → IsPlain c
      → ((t : Sink) → Bounds cs t)
      → length (sampled_emits format other_text cs (emit_as format other_text y c s)).console.lines
        ≤ length s.console.lines
          + passed (if is_sampled y then c.now ∷ sampled_times cs else sampled_times cs) s.sampler
          + ((if is_sampled y then 0 else 1) + unsampled cs)
  Bounds-emit_as debug c cs s h k = omega (arith, Bounds-sampled c cs s h k)
  Bounds-emit_as info c cs s h k = omega (arith, Bounds-sampled c cs s h k)
  Bounds-emit_as warn c cs s h k = Bounds-pass c cs s h k
  Bounds-emit_as error c cs s h k = Bounds-pass c cs s h k
  Bounds-emit_as fatal c cs s h k = Bounds-pass c cs s h k

  sampled_emits-Bounds : (cs : List Call) (s : Sink) → All IsPlain cs → Bounds cs s
  unfolding sampled_emits sampled_emit passed
  sampled_emits-Bounds [] s h = omega arith
  sampled_emits-Bounds (c ∷ cs) s h =
      Bounds-emit_as c.severity c cs s h.0 (λ t. sampled_emits-Bounds cs t h.1)

  -- Through all loggers that share one sampler, no more lines are written than: the rate for every window
  -- that their calls at debug and info start, what was left of the rate before, and one for each call at
  -- warn, error or fatal. The loggers are at the level at which `New` makes them, and the
  -- counter stays below 2 ^ 63.
  sampled_emits_bound :
      (cs : List Call) (s : Sink)
      → All IsPlain cs
      → s.sampler.counter + length (sampled_times cs) < sign_bit
      → length (sampled_emits format other_text cs s).console.lines
        ≤ length s.console.lines
          + (s.sampler.rate * windows (sampled_times cs) s.sampler
              + (s.sampler.rate - s.sampler.counter))
          + unsampled cs
  sampled_emits_bound cs s h b =
      omega (arith, sampled_emits-Bounds cs s h, passed_bound (sampled_times cs) s.sampler b)
