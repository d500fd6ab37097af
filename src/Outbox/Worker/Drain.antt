-- ===== src/Outbox/Worker/Drain.antt =====
-- Ticks without faults publish every row in the end.
use thiam_api.Base.{
  ℕ, zero, suc, ◌-◌, ◌≤◌, dec_lt, ◌<◌, ◌≡◌, refl, ap, ◌∙◌, subst, Bool, true, ◌&&◌, List, [], ◌∷◌,
  arith, ◌==◌, count, select, take,
}
use thiam_api.Base.Int.{pos}
use thiam_api.Exec.{World}
use thiam_api.Exec.Faults.{NoFaults}
use thiam_api.Event.{OutboxEvent}
use thiam_api.Outbox.{safe_limit, Outbox, unpublished}
use thiam_api.Outbox.Rows.{left, is_unpublished, OrderLaws, count-select, count-and_le}
use thiam_api.Outbox.Worker.{Site, Worker, Signal, tick, waiting, run, is_exhausted}
use thiam_api.Outbox.Worker.Progress.{
  after_events, left-after_events, left-after_events_lt, NoneExhausted, exhausted-after_events,
  fetched, batch,
}

count-true-left : (rows : List OutboxEvent) → count (λ r. is_unpublished r && true) rows ≡ left rows
count-true-left [] = refl
count-true-left (r ∷ rows) = ground (arith, count-true-left rows)

-- `k` ticks, one after the other.
abbrev pub ticks : ℕ → List Signal
ticks zero = []
ticks (suc k) = tick ∷ ticks k

safe_limit-suc : (n : ℕ) → safe_limit (pos (suc n)) ≡ suc n
safe_limit-suc n = ground arith

module _ (site : Site) (w : Worker) (h : NoFaults site.env) (laws : OrderLaws site.order) where
  -- The counts of the ordered unpublished rows, by those of the table.
  ordered_count :
      (p : OutboxEvent → Bool) (rows : List OutboxEvent)
      → count p (site.order (select is_unpublished rows))
        ≡ count (λ r. is_unpublished r && p r) rows
  ordered_count p rows = laws.same_rows p _ ∙ count-select is_unpublished p rows

  reduces_from :
      (n : ℕ) (u : World Outbox) (o : List OutboxEvent)
      → ((p : OutboxEvent → Bool) → count p o ≡ count (λ r. is_unpublished r && p r) u.state.rows)
      → NoneExhausted w u.state.rows
      → 0 < left u.state.rows
      → left (after_events site w h (take (suc n) o) u).state.rows < left u.state.rows
  reduces_from n u [] same x more =
      absurd (omega (arith, same (λ _. true), count-true-left u.state.rows))
  reduces_from n u (e ∷ o) same x more =
      left-after_events_lt site w h e (take n o) u
        (ground
          (arith, same (is_exhausted w), count-and_le is_unpublished (is_exhausted w) u.state.rows))
        (ground (arith, same (λ r. r.id == e.id)))

  batch-suc :
      (n : ℕ) (v : World Outbox)
      → batch site (suc n) v ≡ take (suc n) (site.order (select is_unpublished v.state.rows))
  unfolding unpublished
  batch-suc n v =
      ap (λ (k : ℕ). take k (site.order (select is_unpublished v.state.rows))) (safe_limit-suc n)

  -- The batch over the state that the fetch leaves.
  reduces_same :
      (n : ℕ) (u : World Outbox)
      → NoneExhausted w u.state.rows
      → left
          (after_events site w h
            (take (suc n) (site.order (select is_unpublished u.state.rows)))
            u).state.rows
        ≤ left u.state.rows - 1
  reduces_same n u x = elim (dec_lt 0 (left u.state.rows)) [
    | yes more ↦ omega (
      arith,
      reduces_from n u (site.order (select is_unpublished u.state.rows))
          (λ p. ordered_count p u.state.rows) x more,
    )
    | no idle ↦ omega (
      arith,
      left-after_events site w h (take (suc n) (site.order (select is_unpublished u.state.rows))) u,
    )
  ]

  reduces :
      (n : ℕ) (v u : World Outbox)
      → u.state ≡ v.state
      → NoneExhausted w v.state.rows
      → left (after_events site w h (batch site (suc n) v) u).state.rows ≤ left v.state.rows - 1
  reduces n v u e x = rw batch-suc (
      subst
        (λ (s : Outbox).
          left
            (after_events site w h (take (suc n) (site.order (select is_unpublished s.rows)))
              u).state.rows
          ≤ left s.rows - 1)
        e (reduces_same n u (ap (λ (s : Outbox). count (is_exhausted w) s.rows) e ∙ x)))

  -- With no faults, a positive batch size and no exhausted rows, as many ticks as there are rows
  -- left to publish leave none: the worker still waits, and every row is published.
  pub run_drains :
      (n k : ℕ) (v : World Outbox)
      → w.batch_size ≡ pos (suc n)
      → NoneExhausted w v.state.rows
      → left v.state.rows ≤ k
      → let r = run site w (ticks k) v in (r.0 ≡ waiting) × (left r.1.state.rows ≡ 0)
  unfolding run
  run_drains n zero v b x m = (refl, omega arith)
  run_drains n (suc k) v b x m =
      let (u, same, steps) = fetched site w h (suc n) b v in
      let v' = after_events site w h (batch site (suc n) v) u in
      rw steps (
        run_drains n k v' b
          (exhausted-after_events site w h (batch site (suc n) v) u
            ∙ ap (λ (s : Outbox). count (is_exhausted w) s.rows) same
            ∙ x)
          (omega (arith, reduces n v u same x)))
