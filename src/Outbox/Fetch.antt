-- ===== src/Outbox/Fetch.antt =====
-- What `FetchUnpublished` returns, on every branch.
use thiam_api.Base.{ℕ, ◌+◌, ◌≡◌, List, Option, String, none, some, arith}
use thiam_api.Base.Int.{ℤ, pos, negsuc}
use thiam_api.Errors.{Error, wrap}
use thiam_api.Exec.{Env, World, ok, panics, call}
use thiam_api.Exec.Preserves.{
  Preserves, Preserves-pure, Preserves-fail, Preserves-panic, Preserves-scan_rows, preserving,
}
use thiam_api.Exec.Faults.{Returns, scan_rows_complete, NoFaults, scan_rows_all}
use thiam_api.Event.{OutboxEvent}
use thiam_api.Outbox.{Outbox, unpublished, fetch_unpublished, make_slice, rows_err}

module _ (env : Env) (order : List OutboxEvent → List OutboxEvent) where
  -- Whatever `fetch_unpublished` returns without error is the whole answer of its query.
  pub fetch_unpublished_lem :
      (limit : ℤ) (w : World Outbox)
      → Returns (λ es. es ≡ unpublished order limit w.state) (fetch_unpublished env order limit w).0
  unfolding fetch_unpublished call
  fetch_unpublished_lem (pos n) w = ground (
    arith,
    scan_rows_complete env "OutboxRepo.FetchUnpublished - scan: "
        (unpublished order (pos n) w.state) (record { calls = w.calls + 1 + 1; state = w.state }),
  )
  fetch_unpublished_lem (negsuc n) w = ground arith

  Preserves-make_slice : {P : Outbox → Type 0} (limit : ℤ) → Preserves P (make_slice limit)
  Preserves-make_slice (pos n) = Preserves-pure tt
  Preserves-make_slice (negsuc n) = Preserves-panic "makeslice: cap out of range"

  Preserves-rows_err :
      {P : Outbox → Type 0} {A : Type 0} (before : String) (a : A) (o : Option Error)
      → Preserves P (rows_err before a o)
  Preserves-rows_err before a none = Preserves-pure a
  Preserves-rows_err before a (some e) = Preserves-fail (wrap before "" e)

  -- Fetching changes neither the table nor the channel.
  pub Preserves-fetch_unpublished :
      {P : Outbox → Type 0} (limit : ℤ) → Preserves P (fetch_unpublished env order limit)
  unfolding fetch_unpublished
  Preserves-fetch_unpublished limit =
      search (preserving, Preserves-make_slice, Preserves-rows_err, Preserves-scan_rows) depth 9

  -- Without faults a limit of 0 or more yields the whole answer.
  pub fetch_unpublished_all :
      (n : ℕ) (w : World Outbox)
      → NoFaults env
      → (fetch_unpublished env order (pos n) w).0 ≡ ok (unpublished order (pos n) w.state)
  unfolding fetch_unpublished call
  fetch_unpublished_all n w h = ground (
    arith,
    h w.calls,
    h (w.calls + 1),
    scan_rows_all env "OutboxRepo.FetchUnpublished - scan: " (unpublished order (pos n) w.state)
        (record { calls = w.calls + 1 + 1; state = w.state }) h,
  )

  -- Without faults, fetching with a negative limit panics after the query.
  fetch_unpublished_negative :
      (n : ℕ) (w : World Outbox)
      → NoFaults env
      → (fetch_unpublished env order (negsuc n) w).0 ≡ panics "makeslice: cap out of range"
  unfolding fetch_unpublished call
  fetch_unpublished_negative n w h = ground (arith, h w.calls, h (w.calls + 1))
