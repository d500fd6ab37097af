-- ===== src/Notification/Inbox/Unread.antt =====
-- Reading notifications and counting the unread ones.
use thiam_api.Base.{ℕ, ◌+◌, ◌≡◌, refl, List, [], ◌∷◌, arith, ◌==◌, if◌then◌else◌, count}
use thiam_api.Exec.{Env, World, ok, ◌>>◌, call}
use thiam_api.Exec.Faults.{Returns}
use thiam_api.Notification.{InAppNotification, Tables}
use thiam_api.Notification.Inbox.{
  is_unread_of, mark_read, update_where, mark_all_as_read, get_unread_count,
}

-- Marking the unread ones of a user leaves none of them unread, and keeps all others.
count-update_where :
    (user now v : ℕ) (ns : List InAppNotification)
    → count (is_unread_of v) (update_where (is_unread_of user) (mark_read now) ns)
      ≡ (if v == user then 0 else count (is_unread_of v) ns)
unfolding update_where
count-update_where user now v [] = ground arith
count-update_where user now v (n ∷ ns) = ground (arith, count-update_where user now v ns)

-- Nothing is left to update the second time.
update_where_again :
    (user now later : ℕ) (ns : List InAppNotification)
    → update_where
        (is_unread_of user)
        (mark_read later)
        (update_where (is_unread_of user) (mark_read now) ns)
      ≡ update_where (is_unread_of user) (mark_read now) ns
unfolding update_where
update_where_again user now later [] = refl
update_where_again user now later (n ∷ ns) = ground (arith, update_where_again user now later ns)

module _ (env : Env) where
  -- After `mark_all_as_read` returned without error, an unread count that is returned is 0 for that
  -- user, and for any other user it is the number of unread notifications from before, whatever
  -- calls fail.
  mark_all_as_read_unread :
      (user v : ℕ) (w : World Tables)
      → Returns
          (λ n. n ≡ (if v == user then 0 else count (is_unread_of v) w.state.notifications))
          ((mark_all_as_read env user >> get_unread_count env v) w).0
  unfolding mark_all_as_read get_unread_count call
  mark_all_as_read_unread user v w =
      ground (arith, count-update_where user (env.now w.calls) v w.state.notifications)

  -- Marking all as read a second time, after a first time without error, changes no row, so that
  -- the times at which notifications were read stay.
  mark_all_as_read_twice :
      (user : ℕ) (w : World Tables)
      → (mark_all_as_read env user w).0 ≡ ok tt
      → (mark_all_as_read env user (mark_all_as_read env user w).1).1.state.notifications
        ≡ (mark_all_as_read env user w).1.state.notifications
  unfolding mark_all_as_read call
  mark_all_as_read_twice user w h = ground (
    arith,
    update_where_again user (env.now w.calls) (env.now (w.calls + 1 + 1)) w.state.notifications,
  )
