-- ===== src/Notification/Inbox/Order.antt =====
-- The order of an inbox, `ORDER BY created_at DESC`: where no two rows have the same time there is only
-- one.
use thiam_api.Base.{
  ℕ, ◌==◌, ◌≤◌, ◌<◌, ◌≡◌, refl, sym, ap, ◌∙◌, arith, Bool, true, false, ◌&&◌, List, [], ◌∷◌, leb,
  count, select, if◌then◌else◌,
}
use thiam_api.Notification.{InAppNotification}

-- The same entries in another order.
pub data Rearranged {A : Type 0} : List A → List A → Type 0 where
  same : {xs : List A} → Rearranged xs xs
  swap : {x y : A} {xs : List A} → Rearranged (x ∷ y ∷ xs) (y ∷ x ∷ xs)
  keep : {x : A} {xs ys : List A} → Rearranged xs ys → Rearranged (x ∷ xs) (x ∷ ys)
  and_then : {xs ys zs : List A} → Rearranged xs ys → Rearranged ys zs → Rearranged xs zs

module _ {A : Type 0} (p : A → Bool) where
  pub count-Rearranged : {xs ys : List A} → Rearranged xs ys → count p xs ≡ count p ys
  count-Rearranged same = refl
  count-Rearranged swap = ground arith
  count-Rearranged (keep r) = ground (arith, count-Rearranged r)
  count-Rearranged (and_then r s) = count-Rearranged r ∙ count-Rearranged s

  -- An entry that is the only one to pass a test is still there.
  select-Rearranged :
      {xs ys : List A} → Rearranged xs ys → count p xs ≤ 1 → select p xs ≡ select p ys
  select-Rearranged same h = refl
  select-Rearranged swap h = ground (arith, h)
  select-Rearranged (keep r) h = ground (arith, h, select-Rearranged r)
  select-Rearranged (and_then r s) h =
      select-Rearranged r h ∙ select-Rearranged s (omega (arith, h, count-Rearranged r))

abbrev pub is_at : ℕ → InAppNotification → Bool
is_at t n = n.created_at == t

abbrev pub is_below : ℕ → List InAppNotification → Bool
is_below t [] = true
is_below t (n ∷ ns) = leb n.created_at t && is_below n.created_at ns

abbrev pub is_descending : List InAppNotification → Bool
is_descending [] = true
is_descending (n ∷ ns) = is_below n.created_at ns

-- What the server promises of `ORDER BY created_at DESC`, in the query of each call number.
pub record OrderLaws (order : ℕ → List InAppNotification → List InAppNotification) : Type 0 where
  pub rearranges : (n : ℕ) (rows : List InAppNotification) → Rearranged rows (order n rows)
  pub sorts : (n : ℕ) (rows : List InAppNotification) → is_descending (order n rows) ≡ true

-- No two rows have the same time.
abbrev pub Untied : List InAppNotification → Type 0
Untied rows = (t : ℕ) → count (is_at t) rows ≤ 1

select-is_below :
    (t u : ℕ) (ns : List InAppNotification)
    → t < u
    → is_below t ns ≡ true
    → select (is_at u) ns ≡ []
select-is_below t u [] l h = refl
select-is_below t u (n ∷ ns) l h = ground (arith, h, l, select-is_below n.created_at u ns)

head_le :
    (x y : InAppNotification) (xs ys : List InAppNotification)
    → is_below x.created_at xs ≡ true
    → select (is_at y.created_at) (x ∷ xs) ≡ select (is_at y.created_at) (y ∷ ys)
    → y.created_at ≤ x.created_at
head_le x y xs ys b h = ground (arith, h, select-is_below x.created_at y.created_at xs, b)

module _ {A : Type 0} where
  head_or : A → List A → A
  head_or d [] = d
  head_or d (x ∷ xs) = x

  tail : List A → List A
  tail [] = []
  tail (x ∷ xs) = xs

  heads :
      (x y : A) (xs ys : List A) (b c : Bool)
      → b ≡ true
      → c ≡ true
      → (if b then x ∷ xs else xs) ≡ (if c then y ∷ ys else ys)
      → x ≡ y
  unfolding head_or
  heads x y xs ys true true e f h = ap (head_or x) h
  heads x y xs ys true false e f h = absurd (ground (arith, f))
  heads x y xs ys false c e f h = absurd (ground (arith, e))

  tails :
      (x y : A) (xs ys : List A) (b c : Bool)
      → b ≡ c
      → (if b then x ∷ xs else xs) ≡ (if c then y ∷ ys else ys)
      → xs ≡ ys
  unfolding tail
  tails x y xs ys true true e h = ap tail h
  tails x y xs ys true false e h = absurd (ground (arith, e))
  tails x y xs ys false true e h = absurd (ground (arith, e))
  tails x y xs ys false false e h = h

is_below-is_descending :
    (t : ℕ) (ns : List InAppNotification) → is_below t ns ≡ true → is_descending ns ≡ true
is_below-is_descending t [] h = refl
is_below-is_descending t (n ∷ ns) h = ground (arith, h)

sorted_unique :
    (xs ys : List InAppNotification)
    → is_descending xs ≡ true
    → is_descending ys ≡ true
    → ((t : ℕ) → select (is_at t) xs ≡ select (is_at t) ys)
    → xs ≡ ys
sorted_unique [] [] a b h = refl
sorted_unique [] (y ∷ ys) a b h = absurd (ground (arith, h y.created_at))
sorted_unique (x ∷ xs) [] a b h = absurd (ground (arith, h x.created_at))
sorted_unique (x ∷ xs) (y ∷ ys) a b h =
    let l = head_le x y xs ys a (h y.created_at) in
    let m = head_le y x ys xs b (sym (h x.created_at)) in
    let e : x.created_at ≡ y.created_at = omega (arith, l, m) in
    let first =
      heads x y (select (is_at x.created_at) xs) (select (is_at x.created_at) ys)
        (is_at x.created_at x) (is_at x.created_at y) (ground (arith)) (ground (arith, e))
        (h x.created_at) in
    let rest =
      sorted_unique xs ys (is_below-is_descending x.created_at xs a)
        (is_below-is_descending y.created_at ys b)
        (λ t.
          tails x y (select (is_at t) xs) (select (is_at t) ys) (is_at t x) (is_at t y)
            (ap (λ i. i == t) e) (h t)) in
    ap (λ z. z ∷ xs) first ∙ ap (◌∷◌ y) rest

-- Every query gives the rows in the same order, that of any descending arrangement of them.
pub order_unique :
    (order : ℕ → List InAppNotification → List InAppNotification)
    → OrderLaws order
    → (n : ℕ) (rows inbox : List InAppNotification) → Untied rows
    → Rearranged rows inbox
    → is_descending inbox ≡ true
    → order n rows ≡ inbox
order_unique order laws n rows inbox u r d =
    sorted_unique (order n rows) inbox (laws.sorts n rows) d (λ t.
      sym (select-Rearranged (is_at t) (laws.rearranges n rows) (u t))
      ∙ select-Rearranged (is_at t) r (u t))
