-- ===== src/Outbox/InSync.antt =====
-- Fetched events against the rows of the table: under unique ids an event knows its row, and an
-- update at another id does not disturb it.
use thiam_api.Base.{
  ℕ, ◌+◌, ◌≤◌, ◌<◌, ◌≡◌, refl, Bool, true, false, ◌&&◌, inl, inr, List, [], ◌∷◌, arith, ◌==◌, count,
  Bool-cases, All,
}
use thiam_api.Event.{OutboxEvent}
use thiam_api.Outbox.{update_id, has_id}

abbrev pub with_id : ℕ → OutboxEvent → Bool
with_id i r = r.id == i

abbrev pub with_key : OutboxEvent → OutboxEvent → Bool
with_key e r = r.id == e.id && r.retry_count == e.retry_count

-- The primary key of the table.
abbrev pub UniqueIds : List OutboxEvent → Type 0
UniqueIds rows = (i : ℕ) → count (with_id i) rows ≤ 1

abbrev pub Tried : ℕ → List OutboxEvent → Type 0
Tried m rows = All (λ r. r.retry_count ≤ m) rows

-- The rows of an event have been tried no more often than the fetched event says.
abbrev pub InSync : List OutboxEvent → OutboxEvent → Type 0
InSync rows e = All (λ r. (r.id == e.id) ≡ true → r.retry_count ≤ e.retry_count) rows

abbrev pub Distinct : List OutboxEvent → Type 0
Distinct [] = Unit
Distinct (e ∷ es) = (has_id e.id es ≡ false) × Distinct es

-- An update that keeps ids, and raises the count of retries by one at most.
abbrev pub Retries : (OutboxEvent → OutboxEvent) → Type 0
Retries f = (r : OutboxEvent) → ((f r).id ≡ r.id) × ((f r).retry_count ≤ r.retry_count + 1)

module _ (i : ℕ) (f : OutboxEvent → OutboxEvent) (k : Retries f) where
  pub count-update_id :
      (j : ℕ) (rows : List OutboxEvent)
      → count (with_id j) (update_id i f rows) ≡ count (with_id j) rows
  unfolding update_id
  count-update_id j [] = refl
  count-update_id j (r ∷ rows) = ground (arith, count-update_id j rows, k r)

  InSync-update_id :
      (e : OutboxEvent) (rows : List OutboxEvent)
      → (e.id == i) ≡ false
      → InSync rows e
      → InSync (update_id i f rows) e
  unfolding update_id
  InSync-update_id e [] n s = tt
  InSync-update_id e (r ∷ rows) n s = (λ q. ground (arith, k r, s.0), InSync-update_id e rows n s.1)

  pub InSync-update_id-All :
      (es rows : List OutboxEvent)
      → has_id i es ≡ false
      → All (InSync rows) es
      → All (InSync (update_id i f rows)) es
  InSync-update_id-All [] rows n s = tt
  InSync-update_id-All (e ∷ es) rows n s =
      (InSync-update_id e rows (ground arith) s.0, InSync-update_id-All es rows (ground arith) s.1)

  pub Tried-update_id :
      (m : ℕ) (e : OutboxEvent) (rows : List OutboxEvent)
      → e.id ≡ i
      → e.retry_count < m
      → InSync rows e
      → Tried m rows
      → Tried m (update_id i f rows)
  unfolding update_id
  Tried-update_id m e [] q l s t = tt
  Tried-update_id m e (r ∷ rows) q l s t =
      (ground (arith, k r, s.0), Tried-update_id m e rows q l s.1 t.1)

count-with_key_le :
    (e : OutboxEvent) (rows : List OutboxEvent)
    → count (with_key e) rows ≤ count (with_id e.id) rows
count-with_key_le e [] = omega arith
count-with_key_le e (r ∷ rows) = ground (arith, count-with_key_le e rows)

InSync-none :
    (e : OutboxEvent) (rows : List OutboxEvent) → count (with_id e.id) rows ≡ 0 → InSync rows e
InSync-none e [] z = tt
InSync-none e (r ∷ rows) z = (λ q. ground arith, InSync-none e rows (ground arith))

-- In a table with unique ids, a row that agrees with an event is the only one with its id.
InSync-of_count :
    (e : OutboxEvent) (rows : List OutboxEvent)
    → count (with_id e.id) rows ≤ 1
    → 0 < count (with_key e) rows
    → InSync rows e
InSync-of_count e [] u c = tt
InSync-of_count e (r ∷ rows) u c = elim (Bool-cases (r.id == e.id)) [
  | inl mine ↦ (λ q. ground (arith, count-with_key_le e rows), InSync-none e rows (ground arith))
  | inr other ↦ (λ q. ground arith, InSync-of_count e rows (ground arith) (ground arith))
]

has_id_of_count : (i : ℕ) (es : List OutboxEvent) → count (with_id i) es ≡ 0 → has_id i es ≡ false
has_id_of_count i [] z = refl
has_id_of_count i (e ∷ es) z = ground (arith, has_id_of_count i es)

pub Distinct-of_count : (es : List OutboxEvent) → UniqueIds es → Distinct es
Distinct-of_count [] u = tt
Distinct-of_count (e ∷ es) u = (
  has_id_of_count e.id es (ground (arith, u e.id)),
  Distinct-of_count es (λ i. ground (arith, u i)),
)

-- Events that are counted among the rows are in sync with them.
pub InSync-All :
    (es rows : List OutboxEvent)
    → UniqueIds rows
    → ((p : OutboxEvent → Bool) → count p es ≤ count p rows)
    → All (InSync rows) es
InSync-All [] rows u c = tt
InSync-All (e ∷ es) rows u c = (
  InSync-of_count e rows (u e.id) (ground (arith, c (with_key e))),
  InSync-All es rows u (λ p. ground (arith, c p)),
)
