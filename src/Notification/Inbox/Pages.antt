-- ===== src/Notification/Inbox/Pages.antt =====
-- The pages of an inbox, put together.
use thiam_api.Exec.{Result, ok, err, panics, continue, pure, Exec, Env, World, ◌>>=◌, call}
use thiam_api.Base.{
  zero, suc, ◌*◌, ap, refl, sym, ◌∙◌, ◌+◌, [], ◌∷◌, length, arith, true, ℕ, ◌≡◌, List, ◌++◌, take,
  drop, select, ◌==◌,
}
use thiam_api.Exec.Faults.{scan_rows_all, NoFaults}
use thiam_api.Notification.{InAppNotification, Tables}
use thiam_api.Notification.Inbox.{get_by_user_id}
use thiam_api.Notification.Inbox.Order.{OrderLaws, Untied, Rearranged, is_descending, order_unique}
use thiam_api.Notification.UseCases.{inbox_list}

take-drop :
    {A : Type 0} (n m i : ℕ) (xs : List A) → i ≡ n + m → take n xs ++ take m (drop n xs) ≡ take i xs
take-drop zero m i xs h = let e : m ≡ i = omega (arith, h) in ap (λ j. take j xs) e
take-drop (suc n) m zero xs h = absurd (omega (arith, h))
take-drop (suc n) zero (suc i) [] h = refl
take-drop (suc n) (suc m) (suc i) [] h = refl
take-drop (suc n) m (suc i) (x ∷ xs) h = ap (◌∷◌ x) (take-drop n m i xs (omega (arith, h)))

drop-drop : {A : Type 0} (n m i : ℕ) (xs : List A) → i ≡ n + m → drop m (drop n xs) ≡ drop i xs
drop-drop zero m i xs h = let e : m ≡ i = omega (arith, h) in ap (λ j. drop j xs) e
drop-drop (suc n) m zero xs h = absurd (omega (arith, h))
drop-drop (suc n) zero (suc i) [] h = refl
drop-drop (suc n) (suc m) (suc i) [] h = refl
drop-drop (suc n) m (suc i) (x ∷ xs) h = drop-drop n m i xs (omega (arith, h))

module _ (env : Env) (order : ℕ → List InAppNotification → List InAppNotification) (user : ℕ) where
  -- `k` pages of `n` notifications, from an offset on.
  unfoldable pub read_pages : ℕ → ℕ → ℕ → Exec Tables (List InAppNotification)
  read_pages n zero offset = pure []
  read_pages n (suc k) offset = do
    page ← inbox_list env order user n offset
    rest ← read_pages n k (offset + n)
    pure (page ++ rest)

-- The rows of a user.
abbrev pub rows_of : ℕ → Tables → List InAppNotification
rows_of user s = select (λ n. n.user_id == user) s.notifications

module _ (env : Env) (order : ℕ → List InAppNotification → List InAppNotification) (user : ℕ)
    (faultless : NoFaults env) (laws : OrderLaws order) (inbox : List InAppNotification)
    (descends : is_descending inbox ≡ true) where
  abbrev page : ℕ → ℕ → List InAppNotification
  page n offset = take n (drop offset inbox)

  abbrev after_page : ℕ → ℕ → World Tables → World Tables
  after_page n offset w = record {
    calls = w.calls + 1 + 1 + 2 * length (page n offset) + 1;
    state = w.state;
  }

  inbox_list_all :
      (n offset : ℕ) (w : World Tables)
      → order (w.calls + 1) (rows_of user w.state) ≡ inbox
      → inbox_list env order user n offset w ≡ (ok (page n offset), after_page n offset w)
  unfolding inbox_list get_by_user_id call
  inbox_list_all n offset w q = ground (
    arith,
    q,
    faultless w.calls,
    faultless (w.calls + 1),
    scan_rows_all env "NotificationRepo - GetByUserID - rows.Scan: " (page n offset)
        (record { calls = w.calls + 1 + 1; state = w.state }) faultless,
  )

  -- A page in front of what the pages after it come to.
  in_front :
      (p q : List InAppNotification) (r : Result (List InAppNotification)) (v : World Tables)
      → r ≡ ok q
      → (continue r (λ rest. pure {S = Tables} (p ++ rest)) v).0 ≡ ok (p ++ q)
  in_front p q (ok x) v h = ground (arith, h)
  in_front p q (err e) v h = absurd (ground (arith, h))
  in_front p q (panics t) v h = absurd (ground (arith, h))

  pages :
      (n k offset : ℕ) (w : World Tables)
      → Untied (rows_of user w.state)
      → Rearranged (rows_of user w.state) inbox
      → (read_pages env order user n k offset w).0 ≡ ok (take (k * n) (drop offset inbox))
  unfolding read_pages
  pages n zero offset w u r =
      let e : 0 ≡ 0 * n = omega arith in ap (λ i. ok (take i (drop offset inbox))) e
  pages n (suc k) offset w u r =
      let v = after_page n offset w in
      let e : suc k * n ≡ n + k * n = omega arith in
      let t = take-drop n (k * n) (suc k * n) (drop offset inbox) e in
      let d = drop-drop offset n (offset + n) inbox refl in
      ap
        (λ x.
          (continue x.0
            (λ p. read_pages env order user n k (offset + n) >>= λ rest. pure (p ++ rest)) x.1).0)
        (inbox_list_all n offset w
          (order_unique order laws (w.calls + 1) (rows_of user w.state) inbox u r descends))
      ∙ in_front (page n offset) (take (k * n) (drop n (drop offset inbox)))
          (read_pages env order user n k (offset + n) v).0
          (read_pages env order user n k (offset + n) v).1
          (pages n k (offset + n) v u r ∙ ap (λ l. ok (take (k * n) l)) (sym d))
      ∙ ap ok t

  -- Without faults, and if no two notifications of the user have the same creation time, `k` pages of `n`
  -- notifications, each read by a query of its own at the offset where the one before ends, are the first
  -- `k * n` of the user's notifications, newest first (`inbox`): none twice, and none left out. The table
  -- does not change meanwhile.
  pub read_pages_all :
      (n k : ℕ) (w : World Tables)
      → Untied (rows_of user w.state)
      → Rearranged (rows_of user w.state) inbox
      → (read_pages env order user n k 0 w).0 ≡ ok (take (k * n) inbox)
  read_pages_all n k w u r = pages n k 0 w u r
