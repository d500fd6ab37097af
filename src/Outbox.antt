-- ===== src/Outbox.antt =====
-- internal/repo/persistent/outbox_postgres.go, over the table `outbox_events` and the broker's
-- exchange. Building a statement is a call of its own, since it can fail.
pub mod Fetch
pub mod Rows
pub mod InSync
mod Tests
pub mod Worker
use thiam_api.Base.{
  ℕ, ◌+◌, Bool, true, false, not, ◌&&◌, ◌||◌, Option, none, some, List, [], ◌∷◌, ◌++◌, map, String,
  ltb, ◌==◌, if◌then◌else◌, take, select,
}
use thiam_api.Base.Int.{ℤ, pos, negsuc}
use thiam_api.Errors.{Error, wrap, error_text}
use thiam_api.Exec.{
  Env, Exec, pure, fail, panic, gets, ◌>>=◌, ◌>>◌, wrapping, call, call_if, attempt, scan_rows,
}
use thiam_api.Event.{OutboxEvent}

-- A message that `PublishWithContext` handed to the channel (`amqp.Publishing` with its routing key).
pub record Message : Type 0 where
  pub exchange : String
  pub routing_key : String
  pub content_type : String
  pub persistent : Bool
  pub message_id : String
  pub timestamp : ℕ
  pub type : String
  pub body : List ℕ

-- The rows of the table, and what was handed to the channel, oldest first. The channel is not in
-- confirm mode: what it was handed may be lost on the way to the exchange, without an error.
pub record Outbox : Type 0 where
  pub rows : List OutboxEvent
  pub sent : List Message

abbrev pub is_none {ℓ} : {A : Type ℓ} → Option A → Bool
is_none none = true
is_none (some a) = false

abbrev pub has_id : ℕ → List OutboxEvent → Bool
has_id i [] = false
has_id i (r ∷ rs) = r.id == i || has_id i rs

-- The primary key: no id of the new rows is in the table or comes twice.
abbrev pub fresh_ids : List OutboxEvent → List OutboxEvent → Bool
fresh_ids [] rows = true
fresh_ids (e ∷ es) rows = not (has_id e.id rows) && not (has_id e.id es) && fresh_ids es rows

-- A row without what the worker writes into it.
abbrev pub stored : OutboxEvent → OutboxEvent
stored e = record e { published_at = none; retry_count = 0; last_error = none }

-- payload is a JSONB column: `jsonb` gives the bytes that are read back for those that were written, and
-- none where these are no JSON, which the server refuses.
abbrev pub payload_or : List ℕ → Option (List ℕ) → List ℕ
payload_or bytes none = bytes
payload_or bytes (some json) = json

abbrev pub is_json : Option (List ℕ) → Bool
is_json none = false
is_json (some json) = true

abbrev pub are_json : (List ℕ → Option (List ℕ)) → List OutboxEvent → Bool
are_json jsonb [] = true
are_json jsonb (e ∷ es) = is_json (jsonb e.payload) && are_json jsonb es

-- The columns that `Store` writes; the others get their defaults.
abbrev pub written : (List ℕ → Option (List ℕ)) → OutboxEvent → OutboxEvent
written jsonb e = record (stored e) { payload = payload_or e.payload (jsonb e.payload) }

-- `UPDATE outbox_events SET … WHERE id = ?`
unfoldable pub update_id : ℕ → (OutboxEvent → OutboxEvent) → List OutboxEvent → List OutboxEvent
update_id i f [] = []
update_id i f (r ∷ rs) = (if r.id == i then f r else r) ∷ update_id i f rs

abbrev pub published : ℕ → OutboxEvent → OutboxEvent
published now r = record r { published_at = some now }

abbrev pub failed : String → OutboxEvent → OutboxEvent
failed text r = record r { retry_count = r.retry_count + 1; last_error = some text }

abbrev pub default_limit : ℕ
default_limit = 100

-- `safeLimit`
abbrev pub safe_limit : ℤ → ℕ
safe_limit (pos n) = if ltb 0 n then n else default_limit
safe_limit (negsuc n) = default_limit

-- `make([]event.OutboxEvent, 0, limit)` panics on a negative capacity. One that no memory can hold is not
-- modelled.
abbrev pub make_slice : ℤ → Exec Outbox (Unit {0})
make_slice (pos n) = pure tt
make_slice (negsuc n) = panic "makeslice: cap out of range"

-- `rows.Err()` after the loop.
abbrev pub rows_err : {A : Type 0} → String → A → Option Error → Exec Outbox A
rows_err before a none = pure a
rows_err before a (some e) = fail (wrap before "" e)

-- The rows that the `SELECT` of `FetchUnpublished` yields.
unfoldable pub unpublished : (List OutboxEvent → List OutboxEvent) → ℤ → Outbox → List OutboxEvent
unpublished order limit s =
    take (safe_limit limit) (order (select (λ r. is_none r.published_at) s.rows))

-- `order` is the server's `ORDER BY created_at ASC`.
module _ (env : Env) (order : List OutboxEvent → List OutboxEvent) where
  -- `OutboxRepo.Store`
  unfoldable pub store : (List ℕ → Option (List ℕ)) → List OutboxEvent → Exec Outbox (Unit {0})
  unfolding call call_if
  store jsonb [] = pure tt
  store jsonb (e ∷ es) = do
    wrapping "OutboxRepo.Store - build query: " (attempt env)
    wrapping "OutboxRepo.Store - exec: " (
        call_if env (λ s. fresh_ids (e ∷ es) s.rows && are_json jsonb (e ∷ es))
          (λ s. record s { rows = s.rows ++ map (written jsonb) (e ∷ es) }))

  -- `OutboxRepo.FetchUnpublished`
  unfoldable pub fetch_unpublished : ℤ → Exec Outbox (List OutboxEvent)
  unfolding call scan_rows unpublished
  fetch_unpublished limit = do
    wrapping "OutboxRepo.FetchUnpublished - build query: " (attempt env)
    found ← gets (λ w. unpublished order limit w.state)
    wrapping "OutboxRepo.FetchUnpublished - query: " (attempt env)
    make_slice limit
    read ← scan_rows env "OutboxRepo.FetchUnpublished - scan: " found
    rows_err "OutboxRepo.FetchUnpublished - rows: " read.0 read.1

module _ (env : Env) where
  -- `OutboxRepo.MarkPublished`
  unfoldable pub mark_published : ℕ → Exec Outbox (Unit {0})
  unfolding call update_id
  mark_published id = do
    now ← gets (λ w. env.now w.calls)
    wrapping "OutboxRepo.MarkPublished - build query: " (attempt env)
    wrapping "OutboxRepo.MarkPublished - exec: "
        (call env (λ s. record s { rows = update_id id (published now) s.rows }))

  -- `OutboxRepo.MarkFailed`
  unfoldable pub mark_failed : ℕ → Error → Exec Outbox (Unit {0})
  unfolding call update_id error_text
  mark_failed id publish_err = do
    wrapping "OutboxRepo.MarkFailed - build query: " (attempt env)
    wrapping "OutboxRepo.MarkFailed - exec: "
        (call env (λ s. record s { rows = update_id id (failed (error_text publish_err)) s.rows }))
