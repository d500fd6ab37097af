-- ===== src/Outbox/Worker/Starvation.antt =====
-- Rows that used up their retries stay in the batch: `FetchUnpublished` does not leave them out.
use thiam_api.Base.{◌≡◌, refl, ap, ◌∙◌, String, List, [], ◌∷◌, true, All, arith, subst, sym}
use thiam_api.Errors.{wrap}
use thiam_api.Exec.{World, Result, ok, err, panics, fail, wrapping, continue, recover}
use thiam_api.Exec.Faults.{Returns}
use thiam_api.Exec.Preserves.{Preserves-wrapping}
use thiam_api.Event.{OutboxEvent}
use thiam_api.Outbox.{Outbox, unpublished, fetch_unpublished}
use thiam_api.Outbox.Fetch.{Preserves-fetch_unpublished, fetch_unpublished_lem}
use thiam_api.Outbox.Worker.{
  Site, Worker, Signal, ctx_done, stop, tick, process_event, process_events, process_outbox, run,
  is_exhausted,
}
use thiam_api.Outbox.Worker.Delivery.{after_tick-preserved}

module _ (site : Site) (w : Worker) where
  open site use {env, order}

  abbrev pub AllExhausted : List OutboxEvent → Type 0
  AllExhausted es = All (λ e. is_exhausted w e ≡ true) es

  process_events_exhausted :
      (es : List OutboxEvent) (v : World Outbox)
      → AllExhausted es
      → process_events site w es v ≡ (ok tt, v)
  unfolding process_events process_event
  process_events_exhausted [] v h = refl
  process_events_exhausted (e ∷ es) v h = ground (arith, process_events_exhausted es v h.1)

  after_fetch :
      (r : Result (List OutboxEvent)) (v : World Outbox)
      → Returns AllExhausted r
      → (continue r (process_events site w) v).1.state ≡ v.state
  after_fetch (ok es) v h =
      ap (λ (x : Result (Unit {0}) × World Outbox). x.1.state) (process_events_exhausted es v h)
  after_fetch (err e) v h = refl
  after_fetch (panics t) v h = refl

  wrapped-Returns :
      {A : Type 0} (Q : A → Type 0) (before : String) (r : Result A) (v : World Outbox)
      → Returns Q r
      → Returns Q (recover r (λ e. fail (wrap before "" e)) v).0
  wrapped-Returns Q before (ok a) v h = h
  wrapped-Returns Q before (err e) v h = tt
  wrapped-Returns Q before (panics t) v h = tt

  exhausted-Returns :
      (r : Result (List OutboxEvent)) (es : List OutboxEvent)
      → Returns (λ x. x ≡ es) r
      → AllExhausted es
      → Returns AllExhausted r
  exhausted-Returns (ok x) es q h = subst AllExhausted (sym q) h
  exhausted-Returns (err e) es q h = tt
  exhausted-Returns (panics t) es q h = tt

  -- A batch of exhausted rows: the tick ends with nothing sent and nothing written.
  process_outbox_starved :
      (v : World Outbox)
      → AllExhausted (unpublished order w.batch_size v.state)
      → (process_outbox site w v).1.state ≡ v.state
  unfolding process_outbox
  process_outbox_starved v h =
      let m = fetch_unpublished env order w.batch_size in
      after_fetch (wrapping "fetch unpublished: " m v).0 (wrapping "fetch unpublished: " m v).1 (
        wrapped-Returns AllExhausted "fetch unpublished: " (m v).0 (m v).1
          (exhausted-Returns (m v).0 _ (fetch_unpublished_lem env order w.batch_size v) h))
      ∙ (Preserves-wrapping {P = λ s. s ≡ v.state} "fetch unpublished: " m
            (Preserves-fetch_unpublished env order w.batch_size)).holds
          v refl

  run_starved_from :
      (s : Outbox)
      → AllExhausted (unpublished order w.batch_size s)
      → (signals : List Signal) (v : World Outbox) → v.state ≡ s
      → (run site w signals v).1.state ≡ s
  unfolding run
  run_starved_from s h [] v e = e
  run_starved_from s h (ctx_done ∷ signals) v e = e
  run_starved_from s h (stop ∷ signals) v e = e
  run_starved_from s h (tick ∷ signals) v e =
      after_tick-preserved site w (λ x. x ≡ s) (process_outbox site w v) (run site w signals)
        (process_outbox_starved v
            (subst (λ x. AllExhausted (unpublished order w.batch_size x)) (sym e) h)
          ∙ e)
        (run_starved_from s h signals)

  -- If each event of the oldest unpublished batch has used up its retries, no run of the worker, of
  -- whatever length and with whatever faults or none, sends anything or changes the table: newer
  -- events behind the batch are never published.
  pub run_starved :
      (signals : List Signal) (v : World Outbox)
      → AllExhausted (unpublished order w.batch_size v.state)
      → (run site w signals v).1.state ≡ v.state
  run_starved signals v h = run_starved_from v.state h signals v refl
