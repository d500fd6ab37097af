-- ===== src/Outbox/Worker/Retries.antt =====
-- The counter of retries in a row stays within the setting.
use thiam_api.Base.{
  ℕ, ◌≤◌, ◌<◌, ◌≡◌, refl, sym, subst, Bool, false, List, [], ◌∷◌, arith, count, select, All, String,
}
use thiam_api.Base.Int.{pos}
use thiam_api.Errors.{wrap}
use thiam_api.Exec.{World, Result, ok, err, panics, continue, recover, fail}
use thiam_api.Exec.Faults.{Returns}
use thiam_api.Event.{OutboxEvent}
use thiam_api.Outbox.{
  Outbox, unpublished, update_id, published, failed, fetch_unpublished, safe_limit,
}
use thiam_api.Outbox.Fetch.{fetch_unpublished_lem, Preserves-fetch_unpublished}
use thiam_api.Outbox.Rows.{is_unpublished, OrderLaws, count-select, count-and_le, count-take_le}
use thiam_api.Outbox.InSync.{
  with_id, UniqueIds, Tried, InSync, Distinct, Retries, count-update_id, InSync-update_id-All,
  Tried-update_id, Distinct-of_count, InSync-All,
}
use thiam_api.Outbox.Worker.{
  Site, Worker, Signal, ctx_done, stop, tick, process_event, process_events, process_outbox, run,
  is_exhausted,
}
use thiam_api.Outbox.Worker.Effects.{Updated, same, to_published, to_failed, process_event_rows}
use thiam_api.Outbox.Worker.Delivery.{after_tick-preserved}

-- What the loop needs of the table and the events that are still to come.
record Ready (m : ℕ) (es : List OutboxEvent) (s : Outbox) : Type 0 where
  unique : UniqueIds s.rows
  tried : Tried m s.rows
  distinct : Distinct es
  in_sync : All (InSync s.rows) es

abbrev pub Kept : ℕ → Outbox → Type 0
Kept m s = UniqueIds s.rows × Tried m s.rows

module _ (site : Site) (w : Worker) (m : ℕ) (limit : w.max_retries ≡ pos m) where
  not_exhausted : (e : OutboxEvent) → is_exhausted w e ≡ false → e.retry_count < m
  not_exhausted e h = ground arith

  Ready-update :
      (f : OutboxEvent → OutboxEvent)
      → Retries f
      → (e : OutboxEvent) (es : List OutboxEvent) (s t : Outbox) → is_exhausted w e ≡ false
      → t.rows ≡ update_id e.id f s.rows
      → Ready m (e ∷ es) s
      → Ready m es t
  Ready-update f k e es s t x q r = record {
    unique = λ i.
        subst (λ rows. count (with_id i) rows ≤ 1) (sym q)
          (omega (arith, count-update_id e.id f k i s.rows, r.unique i));
    tried =
        subst (Tried m) (sym q)
          (Tried-update_id e.id f k m e s.rows refl (not_exhausted e x) r.in_sync.0 r.tried);
    distinct = r.distinct.1;
    in_sync =
        subst (λ rows. All (InSync rows) es) (sym q)
          (InSync-update_id-All e.id f k es s.rows r.distinct.0 r.in_sync.1);
  }

  Ready-event :
      (e : OutboxEvent) (es : List OutboxEvent) (s t : Outbox)
      → Updated (is_exhausted w e) e.id s.rows t.rows
      → Ready m (e ∷ es) s
      → Ready m es t
  Ready-event e es s t (same q) r = record {
    unique = subst UniqueIds (sym q) r.unique;
    tried = subst (Tried m) (sym q) r.tried;
    distinct = r.distinct.1;
    in_sync = subst (λ rows. All (InSync rows) es) (sym q) r.in_sync.1;
  }
  Ready-event e es s t (to_published x now q) r =
      Ready-update (published now) (λ r'. (refl, omega arith)) e es s t x q r
  Ready-event e es s t (to_failed x text q) r =
      Ready-update (failed text) (λ r'. (refl, omega arith)) e es s t x q r

  Kept-of_Ready : (es : List OutboxEvent) (s : Outbox) → Ready m es s → Kept m s
  Kept-of_Ready es s r = (r.unique, r.tried)

  continue-Kept :
      (es : List OutboxEvent) (r : Result (Unit {0})) (v : World Outbox)
      → ((u : World Outbox) → Ready m es u.state → Kept m (process_events site w es u).1.state)
      → Ready m es v.state
      → Kept m (continue r (λ _. process_events site w es) v).1.state
  continue-Kept es (ok a) v k h = k v h
  continue-Kept es (err e) v k h = Kept-of_Ready es v.state h
  continue-Kept es (panics t) v k h = Kept-of_Ready es v.state h

  process_events-Kept :
      (es : List OutboxEvent) (v : World Outbox)
      → Ready m es v.state
      → Kept m (process_events site w es v).1.state
  unfolding process_events
  process_events-Kept [] v h = Kept-of_Ready [] v.state h
  process_events-Kept (e ∷ es) v h =
      let r = process_event site w e v in
      continue-Kept es r.0 r.1 (process_events-Kept es)
        (Ready-event e es v.state r.1.state (process_event_rows site w e v) h)

  batch_count_le :
      (laws : OrderLaws site.order) (s : Outbox) (p : OutboxEvent → Bool)
      → count p (unpublished site.order w.batch_size s) ≤ count p s.rows
  unfolding unpublished
  batch_count_le laws s p = omega (
    arith,
    count-take_le p (safe_limit w.batch_size) (site.order (select is_unpublished s.rows)),
    laws.same_rows p (select is_unpublished s.rows),
    count-select is_unpublished p s.rows,
    count-and_le is_unpublished p s.rows,
  )

  Ready-batch :
      (laws : OrderLaws site.order) (s : Outbox)
      → Kept m s
      → Ready m (unpublished site.order w.batch_size s) s
  Ready-batch laws s k = record {
    unique = k.0;
    tried = k.1;
    distinct = Distinct-of_count _ (λ i. omega (arith, batch_count_le laws s (with_id i), k.0 i));
    in_sync = InSync-All _ s.rows k.0 (batch_count_le laws s);
  }

  after_fetch-Kept :
      (before : String) (es : List OutboxEvent) (r : Result (List OutboxEvent)) (v : World Outbox)
      → Returns (λ x. x ≡ es) r
      → Ready m es v.state
      → Kept m
          (continue
            (recover r (λ e. fail (wrap before "" e)) v).0
            (process_events site w)
            (recover r (λ e. fail (wrap before "" e)) v).1).1.state
  after_fetch-Kept before es (ok x) v q h =
      process_events-Kept x v (subst (λ y. Ready m y v.state) (sym q) h)
  after_fetch-Kept before es (err e) v q h = Kept-of_Ready es v.state h
  after_fetch-Kept before es (panics t) v q h = Kept-of_Ready es v.state h

  process_outbox-Kept :
      (laws : OrderLaws site.order) (v : World Outbox)
      → Kept m v.state
      → Kept m (process_outbox site w v).1.state
  unfolding process_outbox
  process_outbox-Kept laws v k =
      let f = fetch_unpublished site.env site.order w.batch_size in
      after_fetch-Kept "fetch unpublished: " (unpublished site.order w.batch_size v.state) (f v).0
        (f v).1 (fetch_unpublished_lem site.env site.order w.batch_size v)
        (subst (Ready m (unpublished site.order w.batch_size v.state))
          (sym (
            (Preserves-fetch_unpublished site.env site.order {P = λ s. s ≡ v.state}
                w.batch_size).holds
              v refl))
          (Ready-batch laws v.state k))

  -- If ids are unique in the table and the column retry_count of no row exceeds max_retries, that is
  -- so after any run of the worker, whatever calls fail. The column counts the failures that
  -- MarkFailed has recorded: nothing is said of the tries that were not recorded.
  pub run_retries :
      (laws : OrderLaws site.order) (signals : List Signal) (v : World Outbox)
      → Kept m v.state
      → Kept m (run site w signals v).1.state
  unfolding run
  run_retries laws [] v k = k
  run_retries laws (ctx_done ∷ signals) v k = k
  run_retries laws (stop ∷ signals) v k = k
  run_retries laws (tick ∷ signals) v k =
      after_tick-preserved site w (Kept m) (process_outbox site w v) (run site w signals)
        (process_outbox-Kept laws v k) (run_retries laws signals)
