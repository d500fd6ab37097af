-- ===== src/Notification/Inbox/RoundTrip.antt =====
-- A stored notification is found again, and marking one as read concerns that one.
use thiam_api.Base.{
  ℕ, ◌+◌, ◌≡◌, refl, false, List, [], ◌∷◌, ◌++◌, Option, none, some, arith, ◌==◌, if◌then◌else◌,
}
use thiam_api.Exec.{Env, World, Result, ok, err, ◌>>◌, call, call_if}
use thiam_api.Exec.Faults.{NoFaults}
use thiam_api.Notification.{InAppNotification, Tables, taken, find}
use thiam_api.Notification.Inbox.{
  notification_id, stamp, mark_read, update_where, store, get_by_id, mark_as_read,
  notification_not_found,
}

find-append :
    (i : ℕ) (n : InAppNotification) (ns : List InAppNotification)
    → taken notification_id i ns ≡ false
    → n.id ≡ i
    → find notification_id i (ns ++ n ∷ []) ≡ some n
find-append i n [] t e = ground arith
find-append i n (m ∷ ns) t e = ground (arith, find-append i n ns)

-- The row of an id, after one id was marked.
abbrev pub marked : ℕ → ℕ → ℕ → Option InAppNotification → Option InAppNotification
marked i now j none = none
marked i now j (some n) = some (if j == i then mark_read now n else n)

find-update_where :
    (i now j : ℕ) (ns : List InAppNotification)
    → find notification_id j (update_where (λ n. n.id == i) (mark_read now) ns)
      ≡ marked i now j (find notification_id j ns)
unfolding update_where
find-update_where i now j [] = refl
find-update_where i now j (n ∷ ns) = ground (arith, find-update_where i now j ns)

module _ (env : Env) (faultless : NoFaults env) where
  -- Without faults, a notification that was stored under an id that is not in the table, its own or
  -- a fresh one, is what `get_by_id` returns for that id.
  get_by_id-store :
      (n : InAppNotification) (w : World Tables)
      → let row = stamp (env.fresh w.calls) (env.now w.calls) n in
        taken notification_id row.id w.state.notifications ≡ false
        → ((store env n >> get_by_id env row.id) w).0 ≡ ok row
  unfolding store get_by_id call call_if
  get_by_id-store n w t = ground (
    arith,
    faultless w.calls,
    faultless (w.calls + 1),
    faultless (w.calls + 1 + 1),
    faultless (w.calls + 1 + 1 + 1),
    find-append (stamp (env.fresh w.calls) (env.now w.calls) n).id
        (stamp (env.fresh w.calls) (env.now w.calls) n) w.state.notifications t refl,
  )

  -- A notification that is not in the table is reported as not found, and not as a failed query.
  get_by_id_missing :
      (i : ℕ) (w : World Tables)
      → find notification_id i w.state.notifications ≡ none
      → (get_by_id env i w).0 ≡ err notification_not_found
  unfolding get_by_id call
  get_by_id_missing i w t = ground (arith, faultless w.calls, faultless (w.calls + 1))

  abbrev pub found_or_missing : Option InAppNotification → Result InAppNotification
  found_or_missing none = err notification_not_found
  found_or_missing (some n) = ok n

  -- Without faults, after `mark_as_read` of an id, `get_by_id` of that id returns the row marked as
  -- read at the time of the call, and of any other id the row that was there; an id that is not in
  -- the table is not found before and after, and marking it reports no error.
  get_by_id-mark_as_read :
      (i j : ℕ) (w : World Tables)
      → ((mark_as_read env i w).0 ≡ ok tt)
        × (((mark_as_read env i >> get_by_id env j) w).0
            ≡ found_or_missing
                (marked i (env.now w.calls) j (find notification_id j w.state.notifications)))
  unfolding mark_as_read get_by_id call
  get_by_id-mark_as_read i j w = ground (
    arith,
    faultless w.calls,
    faultless (w.calls + 1),
    faultless (w.calls + 1 + 1),
    faultless (w.calls + 1 + 1 + 1),
    find-update_where i (env.now w.calls) j w.state.notifications,
  )
