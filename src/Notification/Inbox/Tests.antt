-- ===== src/Notification/Inbox/Tests.antt =====
-- An inbox read page by page.
use thiam_api.Base.{
  ℕ, ◌≤◌, ◌≡◌, refl, arith, Bool, true, false, none, [], ◌∷◌, List, leb, if◌then◌else◌,
}
use thiam_api.Errors.{leaf}
use thiam_api.Exec.{Env, World, ok, done}
use thiam_api.Notification.{InAppNotification, Tables}
use thiam_api.Notification.Inbox.Pages.{rows_of, read_pages, read_pages_all}
use thiam_api.Notification.Inbox.Order.{
  OrderLaws, Untied, Rearranged, same, swap, keep, and_then, is_below, is_descending,
}

abbrev env : Env
env = record {
  outcome = λ n. done;
  now = λ n. n;
  violation = leaf 2 "duplicate key";
  fresh = λ n. n;
}

abbrev notification : ℕ → ℕ → InAppNotification
notification id user = record {
  id = id;
  user_id = user;
  type = "welcome";
  title = "Hello";
  body = "";
  data_map = [];
  action_url = none;
  image_url = none;
  read = false;
  read_at = none;
  created_at = id;
}

abbrev tables : World Tables
tables = record {
  calls = 0;
  state = record {
    notifications = notification 3 1 ∷ notification 4 2 ∷ notification 5 1 ∷ notification 2 1 ∷ [];
    preferences = [];
    push_tokens = [];
    delivery_logs = [];
    emails = [];
    pushes = [];
  };
}

insert : InAppNotification → List InAppNotification → List InAppNotification
insert n [] = n ∷ []
insert n (m ∷ ms) = if leb m.created_at n.created_at then n ∷ m ∷ ms else m ∷ insert n ms

-- A sort by creation time, for the server's `ORDER BY`.
by_time : List InAppNotification → List InAppNotification
unfolding insert
by_time [] = []
by_time (n ∷ ns) = insert n (by_time ns)

Rearranged-if :
    (b : Bool) (n m : InAppNotification) (ms ns : List InAppNotification)
    → Rearranged (n ∷ ms) ns
    → Rearranged (n ∷ m ∷ ms) (if b then n ∷ m ∷ ms else m ∷ ns)
Rearranged-if true n m ms ns r = same
Rearranged-if false n m ms ns r = and_then swap (keep r)

Rearranged-insert :
    (n : InAppNotification) (ms : List InAppNotification) → Rearranged (n ∷ ms) (insert n ms)
unfolding insert
Rearranged-insert n [] = same
Rearranged-insert n (m ∷ ms) =
    Rearranged-if (leb m.created_at n.created_at) n m ms (insert n ms) (Rearranged-insert n ms)

Rearranged-by_time : (ns : List InAppNotification) → Rearranged ns (by_time ns)
unfolding by_time
Rearranged-by_time [] = same
Rearranged-by_time (n ∷ ns) =
    and_then (keep (Rearranged-by_time ns)) (Rearranged-insert n (by_time ns))

is_below-insert :
    (t : ℕ) (n : InAppNotification) (ms : List InAppNotification)
    → n.created_at ≤ t
    → is_below t ms ≡ true
    → is_below t (insert n ms) ≡ true
unfolding insert
is_below-insert t n [] l h = ground (arith, l)
is_below-insert t n (m ∷ ms) l h = ground (arith, l, h, is_below-insert m.created_at n ms)

is_descending-insert :
    (n : InAppNotification) (ms : List InAppNotification)
    → is_descending ms ≡ true
    → is_descending (insert n ms) ≡ true
unfolding insert
is_descending-insert n [] h = refl
is_descending-insert n (m ∷ ms) h = ground (arith, h, is_below-insert m.created_at n ms)

is_descending-by_time : (ns : List InAppNotification) → is_descending (by_time ns) ≡ true
unfolding by_time
is_descending-by_time [] = refl
is_descending-by_time (n ∷ ns) = is_descending-insert n (by_time ns) (is_descending-by_time ns)

abbrev order : ℕ → List InAppNotification → List InAppNotification
order call = by_time

order-OrderLaws : OrderLaws order
order-OrderLaws = record {
  rearranges = λ n rows. Rearranged-by_time rows;
  sorts = λ n rows. is_descending-by_time rows;
}

rows-Untied : Untied (rows_of 1 tables.state)
rows-Untied t = ground arith

read_pages_all_example :
    (read_pages env order 1 2 2 0 tables).0
    ≡ ok (notification 5 1 ∷ notification 3 1 ∷ notification 2 1 ∷ [])
unfolding by_time insert
read_pages_all_example =
    read_pages_all env order 1 (λ n. refl) order-OrderLaws
      (notification 5 1 ∷ notification 3 1 ∷ notification 2 1 ∷ []) refl 2 2 tables rows-Untied
      (Rearranged-by_time (rows_of 1 tables.state))
