-- ===== src/Outbox/Worker/Delivery.antt =====
-- A row that counts as published was handed to the channel, whatever calls fail.
use thiam_api.Base.{
  ℕ, ◌+◌, Bool, true, false, ◌||◌, ◌≡◌, List, [], ◌∷◌, ◌++◌, String, str_eq, eq_iff, All, arith,
}
use thiam_api.Errors.{Error, error_text}
use thiam_api.Exec.{
  Outcome, done, refused, lost, World, Result, ok, err, panics, try, call, ◌>>=◌, settle,
}
use thiam_api.Exec.Preserves.{
  Preserves, preserving, Preserves-pure, Preserves-if, Preserves-bind, Preserves-try,
  Preserves-wrapping,
}
use thiam_api.Event.{OutboxEvent}
use thiam_api.Outbox.{
  Message, Outbox, update_id, published, failed, is_none, mark_published, mark_failed,
}
use thiam_api.Outbox.Fetch.{Preserves-fetch_unpublished}
use thiam_api.Outbox.Worker.{
  Site, Worker, Signal, deliver, ctx_done, stop, tick, Loop, message, mark, process_event,
  process_events, process_outbox, run, is_exhausted, after_tick,
}

-- Whether the channel was handed a message with this id.
abbrev pub was_sent : String → List Message → Bool
was_sent i [] = false
was_sent i (m ∷ ms) = str_eq m.message_id i || was_sent i ms

was_sent-append :
    (i : String) (ms ns : List Message) → was_sent i ms ≡ true → was_sent i (ms ++ ns) ≡ true
was_sent-append i [] ns h = ground arith
was_sent-append i (m ∷ ms) ns h = ground (arith, was_sent-append i ms ns)

was_sent_last : (m : Message) (ms : List Message) → was_sent m.message_id (ms ++ m ∷ []) ≡ true
was_sent_last m [] = ground (arith, eq_iff m.message_id m.message_id)
was_sent_last m (n ∷ ms) = ground (arith, was_sent_last m ms)

module _ (uuid_string : ℕ → String) where
  abbrev pub RowHanded : List Message → OutboxEvent → Type 0
  RowHanded ms r = (is_none r.published_at || was_sent (uuid_string r.id) ms) ≡ true

  -- Every row that is marked as published was sent.
  abbrev pub IsHanded : Outbox → Type 0
  IsHanded s = All (RowHanded s.sent) s.rows

  sent-IsHanded :
      (rows : List OutboxEvent) (ms : List Message) (m : Message)
      → All (RowHanded ms) rows
      → All (RowHanded (ms ++ m ∷ [])) rows
  sent-IsHanded [] ms m h = tt
  sent-IsHanded (r ∷ rows) ms m h =
      (ground (arith, was_sent-append (uuid_string r.id) ms (m ∷ [])), sent-IsHanded rows ms m h.1)

  published-IsHanded :
      (i now : ℕ) (rows : List OutboxEvent) (ms : List Message)
      → was_sent (uuid_string i) ms ≡ true
      → All (RowHanded ms) rows
      → All (RowHanded ms) (update_id i (published now) rows)
  unfolding update_id
  published-IsHanded i now [] ms sent h = tt
  published-IsHanded i now (r ∷ rows) ms sent h =
      (ground arith, published-IsHanded i now rows ms sent h.1)

  failed-IsHanded :
      (i : ℕ) (text : String) (rows : List OutboxEvent) (ms : List Message)
      → All (RowHanded ms) rows
      → All (RowHanded ms) (update_id i (failed text) rows)
  unfolding update_id
  failed-IsHanded i text [] ms h = tt
  failed-IsHanded i text (r ∷ rows) ms h = (ground arith, failed-IsHanded i text rows ms h.1)

-- One round of `run` keeps what its tick and its rest keep.
pub after_tick-preserved :
    (site : Site) (w : Worker) (P : Outbox → Type 0) (r : Result (Unit {0}) × World Outbox)
    (k : World Outbox → Loop × World Outbox)
    → P r.1.state
    → ((v : World Outbox) → P v.state → P (k v).1.state)
    → P (after_tick site w r k).1.state
after_tick-preserved site w P (ok a, v) k h kk = kk v h
after_tick-preserved site w P (err e, v) k h kk = kk v h
after_tick-preserved site w P (panics t, v) k h kk = h

module _ (site : Site) where
  open site use {env, uuid_string}

  abbrev Sent : ℕ → Outbox → Type 0
  Sent i s = IsHanded uuid_string s × (was_sent (uuid_string i) s.sent ≡ true)

  published-Sent :
      (i now : ℕ) (s : Outbox)
      → Sent i s
      → Sent i (record s { rows = update_id i (published now) s.rows })
  published-Sent i now s h = (published-IsHanded uuid_string i now s.rows s.sent h.1 h.0, h.1)

  mark_published-Sent : (i : ℕ) → Preserves (Sent i) (mark_published env i)
  unfolding mark_published
  mark_published-Sent i = search (preserving, published-Sent)

  mark_failed-IsHanded :
      (i : ℕ) (e : Error) → Preserves (IsHanded uuid_string) (mark_failed env i e)
  unfolding mark_failed
  mark_failed-IsHanded i e =
      search
        (preserving, λ (s : Outbox). failed-IsHanded uuid_string i (error_text e) s.rows s.sent)

  deliver-Sent :
      (e : OutboxEvent) (now : ℕ) (s : Outbox)
      → IsHanded uuid_string s
      → Sent e.id (deliver site now e s)
  deliver-Sent e now s h = (
    sent-IsHanded uuid_string s.rows s.sent (message site now e) h,
    was_sent_last (message site now e) s.sent,
  )

  -- An event is marked as published only after the channel was handed its message.
  marked-IsHanded :
      (e : OutboxEvent) (now : ℕ) (o : Outcome) (v : World Outbox)
      → IsHanded uuid_string v.state
      → IsHanded uuid_string ((try (settle env o (deliver site now e)) >>= mark site e) v).1.state
  marked-IsHanded e now done v h =
      ((Preserves-bind _ _ (Preserves-try _ (mark_published-Sent e.id))
          (λ _. Preserves-pure tt)).holds
        (record { calls = v.calls + 1; state = deliver site now e v.state })
        (deliver-Sent e now v.state h)).0
  marked-IsHanded e now (refused x) v h =
      (Preserves-bind _ _ (Preserves-try _ (mark_failed-IsHanded e.id x))
          (λ _. Preserves-pure tt)).holds
        (record { calls = v.calls + 1; state = v.state }) h
  marked-IsHanded e now (lost x) v h =
      (Preserves-bind _ _ (Preserves-try _ (mark_failed-IsHanded e.id x))
          (λ _. Preserves-pure tt)).holds
        (record { calls = v.calls + 1; state = deliver site now e v.state })
        (deliver-Sent e now v.state h).0

module _ (site : Site) (w : Worker) where
  open site use {env, uuid_string}

  process_event-IsHanded :
      (e : OutboxEvent) → Preserves (IsHanded uuid_string) (process_event site w e)
  unfolding process_event call
  process_event-IsHanded e =
      Preserves-if (is_exhausted w e) _ _ (Preserves-pure tt) (record {
        holds = λ v h. marked-IsHanded site e (env.now v.calls) (env.outcome v.calls) v h;
      })

  process_events-IsHanded :
      (es : List OutboxEvent) → Preserves (IsHanded uuid_string) (process_events site w es)
  unfolding process_events
  process_events-IsHanded [] = Preserves-pure tt
  process_events-IsHanded (e ∷ es) =
      Preserves-bind _ _ (process_event-IsHanded e) (λ _. process_events-IsHanded es)

  process_outbox-IsHanded : Preserves (IsHanded uuid_string) (process_outbox site w)
  unfolding process_outbox
  process_outbox-IsHanded =
      Preserves-bind _ _
        (Preserves-wrapping _ _ (Preserves-fetch_unpublished env site.order w.batch_size))
        process_events-IsHanded

  -- Whatever calls report an error in a run of the worker, every row that is marked as published was
  -- handed to the AMQP channel under its id, if that was so at the start. Nothing is said of the
  -- way from the channel to the exchange, which is not confirmed: a message can be lost there.
  pub run-IsHanded :
      (signals : List Signal) (v : World Outbox)
      → IsHanded uuid_string v.state
      → IsHanded uuid_string (run site w signals v).1.state
  unfolding run
  run-IsHanded [] v h = h
  run-IsHanded (ctx_done ∷ signals) v h = h
  run-IsHanded (stop ∷ signals) v h = h
  run-IsHanded (tick ∷ signals) v h =
      after_tick-preserved site w (IsHanded uuid_string) (process_outbox site w v)
        (run site w signals) (process_outbox-IsHanded.holds v h) (run-IsHanded signals)
