-- ===== src/Outbox/Rows.antt =====
-- Counting rows: what `UPDATE … WHERE id = ?` does to the rows that are left to publish, and what
-- `ORDER BY` may do to a batch.
use thiam_api.Base.{
  zero, leb, ℕ, zero, leb, suc, ◌+◌, ◌≤◌, ◌≡◌, refl, Bool, true, false, ◌&&◌, List, [], ◌∷◌, arith,
  ◌==◌, count, select, take, All, length,
}
use thiam_api.Event.{OutboxEvent}
use thiam_api.Outbox.{update_id, published, is_none}

-- `ORDER BY` returns each row as often as it is there, by creation time.
abbrev pub in_order : ℕ → List OutboxEvent → Bool
in_order t [] = true
in_order t (e ∷ es) = leb t e.created_at && in_order e.created_at es

pub record OrderLaws (order : List OutboxEvent → List OutboxEvent) : Type 0 where
  pub same_rows :
      (p : OutboxEvent → Bool) (rows : List OutboxEvent) → count p (order rows) ≡ count p rows
  pub sorted : (rows : List OutboxEvent) → in_order 0 (order rows) ≡ true

abbrev pub is_unpublished : OutboxEvent → Bool
is_unpublished r = is_none r.published_at

abbrev pub left : List OutboxEvent → ℕ
left rows = count is_unpublished rows

abbrev pub matches : ℕ → OutboxEvent → Bool
matches i r = is_unpublished r && r.id == i

-- Publishing an id takes exactly the rows with that id off the rows that are left.
pub left-published :
    (i now : ℕ) (rows : List OutboxEvent)
    → left (update_id i (published now) rows) + count (matches i) rows ≡ left rows
unfolding update_id
left-published i now [] = omega arith
left-published i now (r ∷ rows) = ground (arith, left-published i now rows)

pub count-select :
    (p q : OutboxEvent → Bool) (rows : List OutboxEvent)
    → count q (select p rows) ≡ count (λ r. p r && q r) rows
count-select p q [] = refl
count-select p q (r ∷ rows) = ground (arith, count-select p q rows)

pub count-take_le :
    (p : OutboxEvent → Bool) (n : ℕ) (rows : List OutboxEvent)
    → count p (take n rows) ≤ count p rows
count-take_le p zero rows = omega arith
count-take_le p (suc n) [] = omega arith
count-take_le p (suc n) (r ∷ rows) = omega (arith, count-take_le p n rows)

pub count-true : (rows : List OutboxEvent) → count (λ _. true) rows ≡ length rows
count-true [] = refl
count-true (r ∷ rows) = omega (arith, count-true rows)

-- A test that no row passes fails on each.
pub All-of_count :
    (p : OutboxEvent → Bool) (rows : List OutboxEvent)
    → count p rows ≡ 0
    → All (λ r. p r ≡ false) rows
All-of_count p [] h = tt
All-of_count p (r ∷ rows) h = (ground arith, All-of_count p rows (ground arith))

pub count-of_All :
    (p : OutboxEvent → Bool) (rows : List OutboxEvent)
    → All (λ r. p r ≡ false) rows
    → count p rows ≡ 0
count-of_All p [] h = refl
count-of_All p (r ∷ rows) h = ground (arith, count-of_All p rows h.1)

pub count-and_le :
    (p q : OutboxEvent → Bool) (rows : List OutboxEvent)
    → count (λ r. p r && q r) rows ≤ count q rows
count-and_le p q [] = omega arith
count-and_le p q (r ∷ rows) = ground (arith, count-and_le p q rows)
