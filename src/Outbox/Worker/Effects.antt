-- ===== src/Outbox/Worker/Effects.antt =====
-- What handling one event does to the table: nothing, or one update at its id.
use thiam_api.Base.{
  ℕ, ◌+◌, ◌≡◌, refl, ap, ◌∙◌, Bool, true, false, ◌⊎◌, inl, inr, List, Option, none, some, arith,
  if◌then◌else◌, String,
}
use thiam_api.Errors.{Error, error_text}
use thiam_api.Exec.{
  continue, failure, pure, Env, Outcome, done, refused, lost, World, Result, ok, err, panics, call,
  settle, try, ◌>>=◌,
}
use thiam_api.Event.{OutboxEvent}
use thiam_api.Outbox.{Outbox, update_id, published, failed, mark_published, mark_failed}
use thiam_api.Outbox.Worker.{Site, Worker, mark, deliver, publish, process_event, is_exhausted}

module _ (env : Env) where
  mark_published_rows :
      (i : ℕ) (v : World Outbox)
      → ((mark_published env i v).1.state.rows ≡ v.state.rows)
        ⊎ ((mark_published env i v).1.state.rows
            ≡ update_id i (published (env.now v.calls)) v.state.rows)
  unfolding mark_published call
  mark_published_rows i v = ground arith

  mark_failed_rows :
      (i : ℕ) (e : Error) (v : World Outbox)
      → ((mark_failed env i e v).1.state.rows ≡ v.state.rows)
        ⊎ ((mark_failed env i e v).1.state.rows ≡ update_id i (failed (error_text e)) v.state.rows)
  unfolding mark_failed call
  mark_failed_rows i e v = ground arith

-- The rows after one event: as they were, or updated at its id.
pub data Updated (exhausted : Bool) (i : ℕ) (rows rows' : List OutboxEvent) : Type 0 where
  same : rows' ≡ rows → Updated exhausted i rows rows'
  to_published :
      exhausted ≡ false
      → (now : ℕ) → rows' ≡ update_id i (published now) rows
      → Updated exhausted i rows rows'
  to_failed :
      exhausted ≡ false
      → (t : String) → rows' ≡ update_id i (failed t) rows
      → Updated exhausted i rows rows'

ignored :
    (r : Result (Unit {0})) (v : World Outbox)
    → (continue (failure r v).0 (λ _. pure tt) (failure r v).1).1 ≡ v
ignored (ok a) v = refl
ignored (err e) v = refl
ignored (panics t) v = refl

rows_of : World Outbox → List OutboxEvent
rows_of v = v.state.rows

module _ (site : Site) where
  open site use {env}

  -- What `mark` leaves, by the error of the publish.
  mark_rows :
      (e : OutboxEvent) (o : Option Error) (v : World Outbox)
      → Updated false e.id v.state.rows (mark site e o v).1.state.rows
  unfolding rows_of
  mark_rows e none v =
      let m = mark_published env e.id v in
      elim (mark_published_rows env e.id v) [
        | inl p ↦ same (ap rows_of (ignored m.0 m.1) ∙ p)
        | inr p ↦ to_published refl (env.now v.calls) (ap rows_of (ignored m.0 m.1) ∙ p)
      ]
  mark_rows e (some x) v =
      let m = mark_failed env e.id x v in
      elim (mark_failed_rows env e.id x v) [
        | inl p ↦ same (ap rows_of (ignored m.0 m.1) ∙ p)
        | inr p ↦ to_failed refl (error_text x) (ap rows_of (ignored m.0 m.1) ∙ p)
      ]

  published_rows :
      (e : OutboxEvent) (now : ℕ) (o : Outcome) (v : World Outbox)
      → Updated false e.id v.state.rows
          ((try (settle env o (deliver site now e)) >>= mark site e) v).1.state.rows
  published_rows e now done v =
      mark_rows e none (record { calls = v.calls + 1; state = deliver site now e v.state })
  published_rows e now (refused x) v =
      mark_rows e (some x) (record { calls = v.calls + 1; state = v.state })
  published_rows e now (lost x) v =
      mark_rows e (some x) (record { calls = v.calls + 1; state = deliver site now e v.state })

  pub process_event_rows :
      (w : Worker) (e : OutboxEvent) (v : World Outbox)
      → Updated (is_exhausted w e) e.id v.state.rows (process_event site w e v).1.state.rows
  unfolding process_event call
  process_event_rows w e v = choose (is_exhausted w e)
    where
      choose :
          (b : Bool)
          → Updated b e.id v.state.rows
              ((if b then pure tt else (try (publish site e) >>= mark site e)) v).1.state.rows
      choose true = same refl
      choose false = published_rows e (env.now v.calls) (env.outcome v.calls) v
