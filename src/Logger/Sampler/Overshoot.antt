-- ===== src/Logger/Sampler/Overshoot.antt =====
-- Goroutines between which a reset of the counter is interrupted.
use thiam_api.Base.{
  [], ◌<◌, ◌≤◌, ◌-◌, All, zero, suc, ℕ, ◌+◌, ◌≡◌, refl, ap, ◌∙◌, true, false, List, ◌∷◌, ◌==◌,
  ==_iff, arith,
}
use thiam_api.Logger.Sampler.{Sampler, sign_bit}
use thiam_api.Logger.Sampler.Threads.{
  resetting, Place, entering, timed, loaded, counting, answered, step, passes_now, moved_to,
  passed_in,
}

-- A step of a goroutine whose place is known.
step_at :
    (i clock : ℕ) (p q : Place) (t s : Sampler) (threads : ℕ → Place) (rest : List (ℕ × ℕ))
    → threads i ≡ p
    → step clock p s ≡ (q, t)
    → passed_in ((i, clock) ∷ rest) threads s
      ≡ passes_now p s + passed_in rest (moved_to i q threads) t
unfolding passed_in
step_at i clock p q t s threads rest h k =
    ap
      (λ x.
        passes_now x s + passed_in rest (moved_to i (step clock x s).0 threads) (step clock x s).1)
      h
    ∙ ap (λ y. passes_now p s + passed_in rest (moved_to i y.0 threads) y.1) k

silent_at :
    (i clock : ℕ) (p q : Place) (t s : Sampler) (threads : ℕ → Place) (rest : List (ℕ × ℕ))
    → threads i ≡ p
    → step clock p s ≡ (q, t)
    → passes_now p s ≡ 0
    → passed_in ((i, clock) ∷ rest) threads s ≡ passed_in rest (moved_to i q threads) t
silent_at i clock p q t s threads rest h k e =
    omega (arith, step_at i clock p q t s threads rest h k, e)

moved_to_self : (i : ℕ) (q : Place) (threads : ℕ → Place) → moved_to i q threads i ≡ q
moved_to_self i q threads = rw ((==_iff i i).1 refl)

moved_to_other :
    (i j : ℕ) (q : Place) (threads : ℕ → Place)
    → (j == i) ≡ false
    → moved_to i q threads j ≡ threads j
moved_to_other i j q threads h = rw h

-- The four steps of a call that is not due.
abbrev pub call_of : ℕ → ℕ → List (ℕ × ℕ) → List (ℕ × ℕ)
call_of i clock rest = (i, clock) ∷ (i, clock) ∷ (i, clock) ∷ (i, clock) ∷ rest

-- What the goroutines are after it.
abbrev pub called : ℕ → ℕ → Sampler → (ℕ → Place) → ℕ → Place
called i clock s threads = moved_to i (answered true) (
    moved_to i counting (moved_to i (loaded clock s.last_reset) (moved_to i (timed clock) threads)))

called_other :
    (i j clock : ℕ) (s : Sampler) (threads : ℕ → Place)
    → (j == i) ≡ false
    → called i clock s threads j ≡ threads j
called_other i j clock s threads h = rw h

step-loaded :
    (clock : ℕ) (s : Sampler)
    → clock ≤ s.last_reset + s.interval
    → step clock (loaded clock s.last_reset) s ≡ (counting, s)
unfolding step
step-loaded clock s d = ground arith

step-counting :
    (clock : ℕ) (s : Sampler)
    → s.counter + 1 ≤ s.rate
    → s.rate < sign_bit
    → (step clock counting s ≡ (answered true, record s { counter = s.counter + 1 }))
      × (passes_now counting s ≡ 1)
unfolding step
step-counting clock s c b = ground arith

call_passes :
    (i clock : ℕ) (s : Sampler) (threads : ℕ → Place) (rest : List (ℕ × ℕ))
    → threads i ≡ entering
    → clock ≤ s.last_reset + s.interval
    → s.counter + 1 ≤ s.rate
    → s.rate < sign_bit
    → passed_in (call_of i clock rest) threads s
      ≡ 1 + passed_in rest (called i clock s threads) (record s { counter = s.counter + 1 })
unfolding step
call_passes i clock s threads rest h d c b =
    let t = moved_to i (timed clock) threads in
    let u = moved_to i (loaded clock s.last_reset) t in
    let v = moved_to i counting u in
    let e = step-counting clock s c b in
    silent_at i clock entering (timed clock) s s threads _ h refl refl
    ∙ silent_at i clock (timed clock) (loaded clock s.last_reset) s s t _
        (moved_to_self i (timed clock) threads) refl refl
    ∙ silent_at i clock (loaded clock s.last_reset) counting s s u _
        (moved_to_self i (loaded clock s.last_reset) t) (step-loaded clock s d) refl
    ∙ step_at i clock counting (answered true) (record s { counter = s.counter + 1 }) s v rest
        (moved_to_self i counting u) e.0
    ∙ ap
        (λ n.
          n + passed_in rest (moved_to i (answered true) v) (record s { counter = s.counter + 1 }))
        e.1

-- Calls of goroutines with the ids from `b` on.
abbrev pub burst : ℕ → ℕ → ℕ → List (ℕ × ℕ) → List (ℕ × ℕ)
burst b zero clock rest = rest
burst b (suc n) clock rest = call_of b clock (burst (b + 1) n clock rest)

-- What the goroutines are after a burst, and that all of it has passed.
record Passes (b n clock : ℕ) (threads : ℕ → Place) (s : Sampler) : Type 0 where
  after : ℕ → Place
  before_same : (j : ℕ) → j < b → after j ≡ threads j
  rest_entering : (j : ℕ) → b + n ≤ j → after j ≡ entering
  all_pass :
      (rest : List (ℕ × ℕ))
      → passed_in (burst b n clock rest) threads s
        ≡ n + passed_in rest after (record s { counter = s.counter + n })

burst-Passes :
    (b n clock : ℕ) (threads : ℕ → Place) (s : Sampler)
    → ((j : ℕ) → b ≤ j → threads j ≡ entering)
    → clock ≤ s.last_reset + s.interval
    → s.counter + n ≤ s.rate
    → s.rate < sign_bit
    → Passes b n clock threads s
burst-Passes b zero clock threads s h d c w = record {
  after = threads;
  before_same = λ j lt. refl;
  rest_entering = λ j le. h j (omega (arith, le));
  all_pass = λ rest.
      let e : s.counter ≡ s.counter + 0 = omega arith in
      omega (arith, ap (λ k. passed_in rest threads (record s { counter = k })) e);
}
burst-Passes b (suc n) clock threads s h d c w =
    let t = called b clock s threads in
    let u : Sampler = record s { counter = s.counter + 1 } in
    let p =
      burst-Passes (b + 1) n clock t u
        (λ j le. called_other b j clock s threads (ground (arith, le)) ∙ h j (omega (arith, le))) d
        (omega (arith, c)) w in
    record {
      after = p.after;
      before_same = λ j lt.
          p.before_same j (omega (arith, lt))
          ∙ called_other b j clock s threads (ground (arith, lt));
      rest_entering = λ j le. p.rest_entering j (omega (arith, le));
      all_pass = λ rest.
          call_passes b clock s threads (burst (b + 1) n clock rest) (h b (omega arith)) d
            (omega (arith, c)) w
          ∙ ap (λ k. 1 + k) (p.all_pass rest)
          ∙ (let e : s.counter + 1 + n ≡ s.counter + suc n = omega arith in
              omega (arith, ap (λ k. passed_in rest p.after (record s { counter = k })) e));
    }

-- All steps at this reading of the clock.
abbrev pub AllAt : ℕ → List (ℕ × ℕ) → Type 0
AllAt clock steps = All (λ x. x.1 ≡ clock) steps

AllAt-burst :
    (b n clock : ℕ) (rest : List (ℕ × ℕ)) → AllAt clock rest → AllAt clock (burst b n clock rest)
AllAt-burst b zero clock rest h = h
AllAt-burst b (suc n) clock rest h =
    (refl, (refl, (refl, (refl, AllAt-burst (b + 1) n clock rest h))))

step-due :
    (clock : ℕ) (s : Sampler)
    → s.last_reset + s.interval < clock
    → step clock (loaded clock s.last_reset) s ≡ (resetting, record s { last_reset = clock })
unfolding step
step-due clock s d = ground (arith, ==_iff s.last_reset s.last_reset)

-- Between the swap of the time and the reset of the counter, what was left of the rate passes, and after
-- the reset the whole rate once more, without the clock moving: for every sampler whose counter is
-- not over the rate there is an interleaving of calls that are made at one instant after the
-- interval has passed, in which the rate and what was left of it pass.
pub passed_in_overshoot :
    (s : Sampler) (clock : ℕ)
    → s.counter ≤ s.rate
    → s.rate < sign_bit
    → s.last_reset + s.interval < clock
    → (steps : List (ℕ × ℕ)) × AllAt clock steps
      × (passed_in steps (λ i. entering) s ≡ (s.rate - s.counter) + s.rate)
unfolding step passed_in
passed_in_overshoot s clock c w d =
    let all : ℕ → Place = λ i. entering in
    let t = moved_to 0 (timed clock) all in
    let u = moved_to 0 (loaded clock s.last_reset) t in
    let v = moved_to 0 resetting u in
    let n = s.rate - s.counter in
    let q : Sampler = record s { last_reset = clock } in
    let full : Sampler = record q { counter = s.counter + n } in
    let empty : Sampler = record q { counter = zero } in
    let other : (j : ℕ) → 1 ≤ j → (j == 0) ≡ false = λ j le. ground (arith, le) in
    let p =
      burst-Passes 1 n clock v q
        (λ j le.
          moved_to_other 0 j resetting u (other j le)
          ∙ moved_to_other 0 j (loaded clock s.last_reset) t (other j le)
          ∙ moved_to_other 0 j (timed clock) all (other j le))
        (omega arith) (omega (arith, c)) w in
    let x = moved_to 0 counting p.after in
    let r =
      burst-Passes (1 + n) s.rate clock x empty
        (λ j le.
          moved_to_other 0 j counting p.after (other j (omega (arith, le))) ∙ p.rest_entering j le)
        (omega arith) (omega arith) w in
    let second = burst (1 + n) s.rate clock [] in
    let first = burst 1 n clock ((0, clock) ∷ second) in
    let swapped =
      silent_at 0 clock entering (timed clock) s s all ((0, clock) ∷ (0, clock) ∷ first) refl refl
        refl
      ∙ silent_at 0 clock (timed clock) (loaded clock s.last_reset) s s t ((0, clock) ∷ first)
          (moved_to_self 0 (timed clock) all) refl refl
      ∙ silent_at 0 clock (loaded clock s.last_reset) resetting q s u first
          (moved_to_self 0 (loaded clock s.last_reset) t) (step-due clock s d) refl
      ∙ p.all_pass ((0, clock) ∷ second) in
    let reset =
      silent_at 0 clock resetting counting empty full p.after second
        (p.before_same 0 (omega arith) ∙ moved_to_self 0 resetting u) refl refl
      ∙ r.all_pass [] in
    (
      (0, clock) ∷ (0, clock) ∷ (0, clock) ∷ first,
      (
        refl,
        (refl, (refl, AllAt-burst 1 n clock _ (refl, AllAt-burst (1 + n) s.rate clock [] tt))),
      ),
      omega (arith, swapped, reset),
    )
