-- ===== src/Outbox/Worker/Frame.antt =====
-- What the worker can do to the table and the channel at all, and what it leaves alone.
use thiam_api.Base.{ℕ, ◌≡◌, refl, ◌∙◌, List, [], ◌∷◌, map, Option, none, some, String, arith}
use thiam_api.Errors.{Error, error_text}
use thiam_api.Exec.{World}
use thiam_api.Exec.Preserves.{
  Preserves, preserving, Preserves-pure, Preserves-if, Preserves-bind, Preserves-try,
  Preserves-wrapping, Preserves-call, Preserves-gets,
}
use thiam_api.Event.{OutboxEvent}
use thiam_api.Outbox.{Outbox, stored, update_id, published, failed, mark_published, mark_failed}
use thiam_api.Outbox.Fetch.{Preserves-fetch_unpublished}
use thiam_api.Outbox.Worker.{
  Site, Worker, Signal, ctx_done, stop, tick, deliver, mark, publish, process_event, process_events,
  process_outbox, run, is_exhausted,
}
use thiam_api.Outbox.Worker.Delivery.{after_tick-preserved}

-- `P` is kept by each effect that the worker can have.
pub record IsClosed (site : Site) (P : Outbox → Type 0) : Type 0 where
  pub delivers : (now : ℕ) (e : OutboxEvent) (s : Outbox) → P s → P (deliver site now e s)
  pub publishes :
      (i now : ℕ) (s : Outbox) → P s → P (record s { rows = update_id i (published now) s.rows })
  pub fails :
      (i : ℕ) (text : String) (s : Outbox)
      → P s
      → P (record s { rows = update_id i (failed text) s.rows })

module _ (site : Site) (w : Worker) (P : Outbox → Type 0) (c : IsClosed site P) where
  mark_published-closed : (i : ℕ) → Preserves P (mark_published site.env i)
  unfolding mark_published
  mark_published-closed i = search (preserving, c.publishes)

  mark_failed-closed : (i : ℕ) (e : Error) → Preserves P (mark_failed site.env i e)
  unfolding mark_failed
  mark_failed-closed i e = search (preserving, c.fails i (error_text e))

  publish-closed : (e : OutboxEvent) → Preserves P (publish site e)
  unfolding publish
  publish-closed e =
      Preserves-bind _ _ (Preserves-gets _) (λ now. Preserves-call site.env _ (c.delivers now e))

  mark-closed : (e : OutboxEvent) (o : Option Error) → Preserves P (mark site e o)
  mark-closed e none =
      Preserves-bind _ _ (Preserves-try _ (mark_published-closed e.id)) (λ _. Preserves-pure tt)
  mark-closed e (some x) =
      Preserves-bind _ _ (Preserves-try _ (mark_failed-closed e.id x)) (λ _. Preserves-pure tt)

  pub process_event-closed : (e : OutboxEvent) → Preserves P (process_event site w e)
  unfolding process_event
  process_event-closed e =
      Preserves-if (is_exhausted w e) _ _ (Preserves-pure tt)
        (Preserves-bind _ _ (Preserves-try _ (publish-closed e)) (mark-closed e))

  process_events-closed : (es : List OutboxEvent) → Preserves P (process_events site w es)
  unfolding process_events
  process_events-closed [] = Preserves-pure tt
  process_events-closed (e ∷ es) =
      Preserves-bind _ _ (process_event-closed e) (λ _. process_events-closed es)

  process_outbox-closed : Preserves P (process_outbox site w)
  unfolding process_outbox
  process_outbox-closed =
      Preserves-bind _ _
        (Preserves-wrapping _ _ (Preserves-fetch_unpublished site.env site.order w.batch_size))
        process_events-closed

  pub run_closed :
      (signals : List Signal) (v : World Outbox) → P v.state → P (run site w signals v).1.state
  unfolding run
  run_closed [] v h = h
  run_closed (ctx_done ∷ signals) v h = h
  run_closed (stop ∷ signals) v h = h
  run_closed (tick ∷ signals) v h =
      after_tick-preserved site w P (process_outbox site w v) (run site w signals)
        (process_outbox-closed.holds v h) (run_closed signals)

-- An update that touches only the delivery columns.
map-stored-update_id :
    (i : ℕ) (f : OutboxEvent → OutboxEvent) (rows : List OutboxEvent)
    → ((r : OutboxEvent) → stored (f r) ≡ stored r)
    → map stored (update_id i f rows) ≡ map stored rows
unfolding update_id
map-stored-update_id i f [] h = refl
map-stored-update_id i f (r ∷ rows) h = ground (arith, map-stored-update_id i f rows h, h r)

SameContents : List OutboxEvent → Outbox → Type 0
SameContents contents s = map stored s.rows ≡ contents

SameContents-IsClosed :
    (site : Site) (contents : List OutboxEvent) → IsClosed site (SameContents contents)
unfolding SameContents
SameContents-IsClosed site contents = record {
  delivers = λ now e s h. h;
  publishes = λ i now s h. map-stored-update_id i (published now) s.rows (λ r. refl) ∙ h;
  fails = λ i text s h. map-stored-update_id i (failed text) s.rows (λ r. refl) ∙ h;
}

-- No run of the worker adds, drops or reorders rows, or changes what was stored in one: all but the
-- columns published_at, retry_count and last_error is the same after it, whatever calls fail.
pub run_contents :
    (site : Site) (w : Worker) (signals : List Signal) (v : World Outbox)
    → map stored (run site w signals v).1.state.rows ≡ map stored v.state.rows
unfolding SameContents
run_contents site w signals v =
    run_closed site w (SameContents (map stored v.state.rows)) (SameContents-IsClosed site _)
      signals v refl
