-- ===== src/Outbox/Worker/Progress.antt =====
-- What a tick does when no call fails, and that ticks then drain the table.
use thiam_api.Base.{
  ℕ, ◌+◌, ◌≤◌, ◌<◌, ◌≡◌, refl, sym, ap, ◌∙◌, false, not, inl, inr, List, [], ◌∷◌, ◌++◌, map, none,
  some, arith, if◌then◌else◌, count, select, Bool-cases,
}
use mathlib.Core.List.{append-nil, append_assoc, map-append}
use thiam_api.Base.Int.{pos}
use thiam_api.Exec.{World, ok, call}
use thiam_api.Exec.Faults.{NoFaults}
use thiam_api.Event.{OutboxEvent}
use thiam_api.Outbox.{Message, Outbox, update_id, published, has_id, unpublished, fetch_unpublished}
use thiam_api.Outbox.Fetch.{Preserves-fetch_unpublished, fetch_unpublished_all}
use thiam_api.Outbox.Rows.{left, left-published, matches}
use thiam_api.Outbox.Worker.{
  Site, Worker, message, process_event, process_events, process_outbox, is_exhausted,
}

abbrev pub live : Worker → List OutboxEvent → List OutboxEvent
live w = select (λ e. not (is_exhausted w e))

-- Messages and rows, without the clock's readings.
abbrev pub untimed : Message → Message
untimed m = record m { timestamp = 0 }

abbrev pub untimed_row : OutboxEvent → OutboxEvent
untimed_row r = record r { published_at = elim r.published_at [ none ↦ none | some t ↦ some 0 ] }

-- A row after the events `es` were published.
abbrev pub publish_row : List OutboxEvent → OutboxEvent → OutboxEvent
publish_row es r = if has_id r.id es then published 0 r else untimed_row r

abbrev pub batch : Site → ℕ → World Outbox → List OutboxEvent
batch site n v = unpublished site.order (pos n) v.state

abbrev pub NoneExhausted : Worker → List OutboxEvent → Type 0
NoneExhausted w rows = count (is_exhausted w) rows ≡ 0

module _ (site : Site) (w : Worker) (h : NoFaults site.env) where
  abbrev pub step_state : OutboxEvent → World Outbox → World Outbox
  step_state e v = record {
    calls = v.calls + 3;
    state = record {
      rows = update_id e.id (published (site.env.now (v.calls + 1))) v.state.rows;
      sent = v.state.sent ++ message site (site.env.now v.calls) e ∷ [];
    };
  }

  process_event_step :
      (e : OutboxEvent) (v : World Outbox)
      → process_event site w e v
        ≡ (if is_exhausted w e then (ok tt, v) else (ok tt, step_state e v))
  unfolding process_event call
  process_event_step e v = ground (arith, h v.calls, h (v.calls + 1), h (v.calls + 1 + 1))

  pub after_event : OutboxEvent → World Outbox → World Outbox
  after_event e v = if is_exhausted w e then v else step_state e v

  pub after_events : List OutboxEvent → World Outbox → World Outbox
  unfolding after_event
  after_events [] v = v
  after_events (e ∷ es) v = after_events es (after_event e v)

  process_events_steps :
      (es : List OutboxEvent) (v : World Outbox)
      → process_events site w es v ≡ (ok tt, after_events es v)
  unfolding process_events after_events
  process_events_steps [] v = refl
  process_events_steps (e ∷ es) v =
      ground (arith, process_event_step e v, process_events_steps es (after_event e v))

  sent-after_events :
      (es : List OutboxEvent) (v : World Outbox)
      → map untimed (after_events es v).state.sent
        ≡ map untimed v.state.sent ++ map (message site 0) (live w es)
  unfolding after_events
  sent-after_events [] v = sym (append-nil _)
  sent-after_events (e ∷ es) v = elim (Bool-cases (is_exhausted w e)) [
    | inl old ↦ rw (sent-after_events es (after_event e v)) (ground arith)
    | inr new ↦ rw (sent-after_events es (after_event e v)) (
        ground (
          arith,
          map-append untimed v.state.sent (message site (site.env.now v.calls) e ∷ []),
          append_assoc (map untimed v.state.sent) (message site 0 e ∷ [])
              (map (message site 0) (live w es)),
        ))
  ]

  rows-publish_row :
      (e : OutboxEvent) (now : ℕ) (es rows : List OutboxEvent)
      → map (publish_row es) (update_id e.id (published now) rows) ≡ map (publish_row (e ∷ es)) rows
  unfolding update_id
  rows-publish_row e now es [] = refl
  rows-publish_row e now es (r ∷ rows) = ground (arith, rows-publish_row e now es rows)

  rows-after_events :
      (es : List OutboxEvent) (v : World Outbox)
      → map untimed_row (after_events es v).state.rows ≡ map (publish_row (live w es)) v.state.rows
  unfolding after_events
  rows-after_events [] v = refl
  rows-after_events (e ∷ es) v = elim (Bool-cases (is_exhausted w e)) [
    | inl old ↦ rows-after_events es (after_event e v) ∙ ground arith
    | inr new ↦
        rows-after_events es (after_event e v)
        ∙ ground (arith, rows-publish_row e (site.env.now (v.calls + 1)) (live w es) v.state.rows)
  ]

  -- The fetch of a tick, whose calls are counted but change nothing.
  pub fetched :
      (n : ℕ)
      → w.batch_size ≡ pos n
      → (v : World Outbox)
      → (u : World Outbox) × (u.state ≡ v.state)
        × (process_outbox site w v ≡ (ok tt, after_events (batch site n v) u))
  unfolding process_outbox
  fetched n e v =
      let u = (fetch_unpublished site.env site.order w.batch_size v).1 in
      (
        u,
        (Preserves-fetch_unpublished site.env site.order {P = λ s. s ≡ v.state} w.batch_size).holds
            v refl,
        ground (
          arith,
          fetch_unpublished_all site.env site.order n v h,
          process_events_steps (batch site n v) u,
        ),
      )

  -- A tick in which no call fails publishes exactly the events of its batch that have retries
  -- left, in the order of the batch, marks every row with one of their ids, and changes no other
  -- row (clock readings apart).
  pub process_outbox_progress :
      (n : ℕ) (v : World Outbox)
      → w.batch_size ≡ pos n
      → let es = live w (batch site n v) in
        let r = process_outbox site w v in
        (r.0 ≡ ok tt)
        × (map untimed r.1.state.sent ≡ map untimed v.state.sent ++ map (message site 0) es)
        × (map untimed_row r.1.state.rows ≡ map (publish_row es) v.state.rows)
  process_outbox_progress n v e =
      let (u, same, steps) = fetched n e v in
      rw steps (
        refl,
        sent-after_events (batch site n v) u
            ∙ ap
                (λ (s : Outbox).
                  map untimed s.sent ++ map (message site 0) (live w (batch site n v)))
                same,
        rows-after_events (batch site n v) u
            ∙ ap (λ (s : Outbox). map (publish_row (live w (batch site n v))) s.rows) same,
      )

  -- Publishing never adds a row that is left, and takes the rows of its first live event off.
  pub left-after_events :
      (es : List OutboxEvent) (v : World Outbox)
      → left (after_events es v).state.rows ≤ left v.state.rows
  unfolding after_events after_event
  left-after_events [] v = omega arith
  left-after_events (e ∷ es) v = ground (
    arith,
    left-after_events es (after_event e v),
    left-published e.id (site.env.now (v.calls + 1)) v.state.rows,
  )

  pub left-after_events_lt :
      (e : OutboxEvent) (es : List OutboxEvent) (v : World Outbox)
      → is_exhausted w e ≡ false
      → 0 < count (matches e.id) v.state.rows
      → left (after_events (e ∷ es) v).state.rows < left v.state.rows
  unfolding after_events after_event
  left-after_events_lt e es v x m = ground (
    arith,
    left-after_events es (step_state e v),
    left-published e.id (site.env.now (v.calls + 1)) v.state.rows,
  )

  exhausted-update_id :
      (i now : ℕ) (rows : List OutboxEvent)
      → count (is_exhausted w) (update_id i (published now) rows) ≡ count (is_exhausted w) rows
  unfolding update_id
  exhausted-update_id i now [] = refl
  exhausted-update_id i now (r ∷ rows) = ground (arith, exhausted-update_id i now rows)

  pub exhausted-after_events :
      (es : List OutboxEvent) (v : World Outbox)
      → count (is_exhausted w) (after_events es v).state.rows ≡ count (is_exhausted w) v.state.rows
  unfolding after_events after_event
  exhausted-after_events [] v = refl
  exhausted-after_events (e ∷ es) v = ground (
    arith,
    exhausted-after_events es (after_event e v),
    exhausted-update_id e.id (site.env.now (v.calls + 1)) v.state.rows,
  )
