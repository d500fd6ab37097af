-- ===== src/Outbox/Worker/Raised.antt =====
-- Events from an aggregate through the outbox to the channel: internal/entity/event with
-- OutboxRepo.Store and a tick of the worker.
use thiam_api.Outbox.Worker.Progress.{live, untimed, batch, process_outbox_progress}
use thiam_api.Outbox.Worker.{Site, Worker, message, process_outbox}
use thiam_api.Exec.{Result, continue, ◌>>◌, ok, World, call, call_if}
use thiam_api.Base.{
  subst, sym, ap, ◌∙◌, true, arith, take, take_all, length, suc, ◌+◌, ◌≤◌, ℕ, ◌≡◌, refl, false,
  Option, some, List, [], ◌∷◌, ◌++◌, map, select, append_nil, append_assoc,
}
use thiam_api.Outbox.{
  safe_limit, store, written, are_json, is_none, fresh_ids, Outbox, unpublished, Message,
}
use thiam_api.Exec.Faults.{NoFaults}
use thiam_api.Base.Int.{pos, leb_ℤ}
use thiam_api.Event.{EventBase, RaisesEvents, raise, OutboxEvent, new_outbox_event}

-- Events that are raised one after the other.
abbrev pub raise_all : List EventBase → RaisesEvents → RaisesEvents
raise_all [] r = r
raise_all (e ∷ es) r = raise_all es (raise e r)

abbrev pub no_events : RaisesEvents
no_events = record { events = [] }

events-raise_all :
    (es : List EventBase) (r : RaisesEvents) → (raise_all es r).events ≡ r.events ++ es
unfolding raise
events-raise_all [] r = sym (append_nil r.events)
events-raise_all (e ∷ es) r = events-raise_all es (raise e r) ∙ append_assoc r.events (e ∷ []) es

-- The outbox rows of raised events, with what they carry.
abbrev pub outbox_rows : (EventBase → List ℕ) → RaisesEvents → List OutboxEvent
outbox_rows payload r = map (λ e. new_outbox_event e (payload e)) r.events

-- The payloads, what the JSONB column makes of bytes, and the payloads that are read back.
module _ (site : Site) (payload : EventBase → List ℕ) (jsonb : List ℕ → Option (List ℕ))
    (body : EventBase → List ℕ) where
  abbrev pub ReadsBack : Type 0
  ReadsBack = (e : EventBase) → jsonb (payload e) ≡ some (body e)

  -- What consumers get of an event.
  abbrev pub event_message : EventBase → Message
  event_message e = record {
    exchange = site.exchange;
    routing_key = e.type;
    content_type = "application/json";
    persistent = true;
    message_id = site.uuid_string e.id;
    timestamp = 0;
    type = e.type;
    body = body e;
  }

  abbrev row_of : (EventBase → List ℕ) → EventBase → OutboxEvent
  row_of text e = new_outbox_event e (text e)

  written-rows :
      (es : List EventBase)
      → ReadsBack
      → map (written jsonb) (map (row_of payload) es) ≡ map (row_of body) es
  unfolding new_outbox_event
  written-rows [] j = refl
  written-rows (e ∷ es) j = rw (j e, written-rows es j)

  are_json-rows :
      (es : List EventBase) → ReadsBack → are_json jsonb (map (row_of payload) es) ≡ true
  unfolding new_outbox_event
  are_json-rows [] j = refl
  are_json-rows (e ∷ es) j = rw (j e, are_json-rows es j)

  unpublished-rows :
      (es : List EventBase)
      → select (λ r. is_none r.published_at) (map (row_of body) es) ≡ map (row_of body) es
  unfolding new_outbox_event
  unpublished-rows [] = refl
  unpublished-rows (e ∷ es) = ap (◌∷◌ (row_of body e)) (unpublished-rows es)

  live-rows :
      (w : Worker) (es : List EventBase)
      → leb_ℤ w.max_retries (pos 0) ≡ false
      → live w (map (row_of body) es) ≡ map (row_of body) es
  unfolding new_outbox_event
  live-rows w [] h = refl
  live-rows w (e ∷ es) h = ground (arith, h, live-rows w es h)

  message-rows :
      (es : List EventBase) → map (message site 0) (map (row_of body) es) ≡ map event_message es
  unfolding new_outbox_event
  message-rows [] = refl
  message-rows (e ∷ es) = ap (◌∷◌ (event_message e)) (message-rows es)

  length-rows : (es : List EventBase) → length (map (row_of body) es) ≡ length es
  length-rows [] = refl
  length-rows (e ∷ es) = ap suc (length-rows es)

  store-rows :
      (es : List EventBase) (v : World Outbox)
      → NoFaults site.env
      → ReadsBack
      → v.state.rows ≡ []
      → fresh_ids (map (row_of payload) es) v.state.rows ≡ true
      → (u : World Outbox) × (store site.env site.order jsonb (map (row_of payload) es) v
          ≡ (ok tt, u))
        × (u.state ≡ record v.state { rows = map (written jsonb) (map (row_of payload) es) })
  unfolding store call call_if
  store-rows [] v f j r h = (v, refl, ap (λ rs. record v.state { rows = rs }) r)
  store-rows (e ∷ es) v f j r h = (
    record {
      calls = v.calls + 1 + 1;
      state = record v.state {
        rows = v.state.rows ++ map (written jsonb) (map (row_of payload) (e ∷ es));
      };
    },
    ground (arith, h, are_json-rows (e ∷ es) j, f v.calls, f (v.calls + 1)),
    ap (λ rs. record v.state { rows = rs ++ map (written jsonb) (map (row_of payload) (e ∷ es)) })
        r,
  )

  batch-rows :
      (n : ℕ) (es : List EventBase) (u : World Outbox)
      → u.state.rows ≡ map (row_of body) es
      → site.order (map (row_of body) es) ≡ map (row_of body) es
      → length es ≤ suc n
      → batch site (suc n) u ≡ map (row_of body) es
  unfolding unpublished
  batch-rows n es u r o l =
      let m = safe_limit (pos (suc n)) in
      let fits : length (map (row_of body) es) ≤ m = ground (arith, l, length-rows es) in
      ap (λ rs. take m (site.order (select (λ r. is_none r.published_at) rs))) r
      ∙ ap (λ rs. take m (site.order rs)) (unpublished-rows es)
      ∙ ap (take m) o
      ∙ take_all m (map (row_of body) es) fits

  -- The result of storing rows and then a tick.
  abbrev pub ticked : Worker → List OutboxEvent → World Outbox → Result (Unit {0}) × World Outbox
  ticked w rows v = (store site.env site.order jsonb rows >> process_outbox site w) v

  abbrev pub Publishes : List EventBase → World Outbox → Result (Unit {0}) × World Outbox → Type 0
  Publishes es v r =
      (r.0 ≡ ok tt)
      × (map untimed r.1.state.sent ≡ map untimed v.state.sent ++ map event_message es)

  ticked-Publishes :
      (w : Worker) (es : List EventBase) (n : ℕ) (v : World Outbox)
      → NoFaults site.env
      → ReadsBack
      → v.state.rows ≡ []
      → fresh_ids (map (row_of payload) es) v.state.rows ≡ true
      → site.order (map (row_of body) es) ≡ map (row_of body) es
      → w.batch_size ≡ pos (suc n)
      → length es ≤ suc n
      → leb_ℤ w.max_retries (pos 0) ≡ false
      → Publishes es v (ticked w (map (row_of payload) es) v)
  ticked-Publishes w es n v f j e h o b l k =
      let (u, s, t) = store-rows es v f j e h in
      let p = process_outbox_progress site w f (suc n) u b in
      let step = ap (λ x. continue x.0 (λ a. process_outbox site w) x.1) s in
      let rows = ap (λ x. x.rows) t ∙ written-rows es j in
      let lived = ap (live w) (batch-rows n es u rows o l) ∙ live-rows w es k in
      (
        ap (λ x. x.0) step ∙ p.0,
        ap (λ x. map untimed x.1.state.sent) step
            ∙ p.1
            ∙ ap (λ x. map untimed x.sent ++ map (message site 0) (live w (batch site (suc n) u))) t
            ∙ ap (λ es'. map untimed v.state.sent ++ map (message site 0) es') lived
            ∙ ap (λ ms. map untimed v.state.sent ++ ms) (message-rows es),
      )

  -- What an aggregate raises is handed to the channel: if the outbox table is empty, the ids of the events
  -- are distinct, no call fails, and the batch has room for all of them, then after they were stored
  -- one tick of the worker publishes exactly their messages, in the order in which they were raised,
  -- which is that of their rows in the query (clock readings apart). The retries allowed are positive, and the
  -- bodies are the payloads as the JSONB column gives them back.
  pub raised_published :
      (w : Worker) (es : List EventBase) (n : ℕ) (v : World Outbox)
      → NoFaults site.env
      → ReadsBack
      → v.state.rows ≡ []
      → fresh_ids (outbox_rows payload (raise_all es no_events)) v.state.rows ≡ true
      → site.order (outbox_rows body (raise_all es no_events))
        ≡ outbox_rows body (raise_all es no_events)
      → w.batch_size ≡ pos (suc n)
      → length es ≤ suc n
      → leb_ℤ w.max_retries (pos 0) ≡ false
      → let r =
          (store site.env site.order jsonb (outbox_rows payload (raise_all es no_events))
              >> process_outbox site w)
            v in
        (r.0 ≡ ok tt)
        × (map untimed r.1.state.sent ≡ map untimed v.state.sent ++ map event_message es)
  raised_published w es n v f j e h o b l k =
      let q = ap (map (row_of payload)) (events-raise_all es no_events) in
      let q' = ap (map (row_of body)) (events-raise_all es no_events) in
      let c =
        ticked-Publishes w es n v f j e (subst (λ rs. fresh_ids rs v.state.rows ≡ true) q h)
          (subst (λ rs. site.order rs ≡ rs) q' o) b l k in
      subst (λ rs. Publishes es v (ticked w rs v)) (sym q) c
