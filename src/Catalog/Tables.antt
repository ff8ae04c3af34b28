-- ===== src/Catalog/Tables.antt =====
-- Tables whose rows belong to an id: what a query by that id finds, and what writes do to it.
use mathlib.Core.List.{append-nil}
use xret.Prelude.{
  some, none, Option, ◌≢◌, true, false, ◌≤◌, ◌==◌, ◌++◌, ℕ, refl, leb, inr, inl, if◌then◌else◌,
  arith, [], List, Bool-cases, ◌∷◌, ◌≡◌,
}

pub same_id : (i : ℕ) → (i == i) ≡ true
same_id i = ground arith

pub other_id : (i j : ℕ) → i ≢ j → (i == j) ≡ false
other_id i j ne = ground arith

module _ {ℓ} {A : Type ℓ} where
  -- `SELECT … WHERE id = ?`
  unfoldable pub rows_of : ℕ → List (ℕ × A) → List A
  rows_of i [] = []
  rows_of i ((j, a) ∷ rows) = let rest = rows_of i rows in if i == j then a ∷ rest else rest

  -- The same where there may be no such id.
  abbrev pub rows_at : Option ℕ → List (ℕ × A) → List A
  rows_at none rows = []
  rows_at (some i) rows = rows_of i rows

  -- `DELETE … WHERE id = ?`
  unfoldable pub without : ℕ → List (ℕ × A) → List (ℕ × A)
  without i [] = []
  without i ((j, a) ∷ rows) = let rest = without i rows in if i == j then rest else (j, a) ∷ rest

  -- The rows of an `executemany` of inserts.
  unfoldable pub tagged : ℕ → List A → List (ℕ × A)
  tagged i [] = []
  tagged i (a ∷ xs) = (i, a) ∷ tagged i xs

  -- `ORDER BY`, with equal rows in the order of the table.
  insert_by : (A → ℕ) → A → List A → List A
  insert_by f a [] = a ∷ []
  insert_by f a (b ∷ xs) = if leb (f a) (f b) then a ∷ b ∷ xs else b ∷ insert_by f a xs

  unfoldable pub sort_by : (A → ℕ) → List A → List A
  unfolding insert_by
  sort_by f [] = []
  sort_by f (a ∷ xs) = insert_by f a (sort_by f xs)

  pub rows_of-append :
      (i : ℕ) (xs ys : List (ℕ × A)) → rows_of i (xs ++ ys) ≡ rows_of i xs ++ rows_of i ys
  unfolding rows_of
  rows_of-append i [] ys = refl
  rows_of-append i ((j, a) ∷ xs) ys = ground (arith, rows_of-append i xs ys)

  pub rows_of-without :
      (i j : ℕ) (xs : List (ℕ × A))
      → rows_of i (without j xs) ≡ (if i == j then [] else rows_of i xs)
  unfolding rows_of without
  rows_of-without i j [] = ground arith
  rows_of-without i j ((k, a) ∷ xs) = ground (arith, rows_of-without i j xs)

  pub rows_of-tagged :
      (i j : ℕ) (xs : List A) → rows_of i (tagged j xs) ≡ (if i == j then xs else [])
  unfolding rows_of tagged
  rows_of-tagged i j [] = ground arith
  rows_of-tagged i j (a ∷ xs) = ground (arith, rows_of-tagged i j xs)

  -- Replacing the rows of one id.
  pub rows_of-replaced :
      (i j : ℕ) (new : List A) (xs : List (ℕ × A))
      → rows_of i (tagged j new ++ without j xs) ≡ (if i == j then new else rows_of i xs)
  rows_of-replaced i j new xs =
      rw
        (
          rows_of-append i (tagged j new) (without j xs),
          rows_of-tagged i j new,
          rows_of-without i j xs,
        )
        (elim (Bool-cases (i == j)) [ inl e ↦ rw e (append-nil new) | inr e ↦ rw e refl ])

  -- No row has the id.
  abbrev pub Lacks : ℕ → List (ℕ × A) → Type ℓ
  Lacks i xs = rows_of i xs ≡ []

-- Ascending by `f`, so that sorting changes nothing.
module _ {ℓ} {A : Type ℓ} (f : A → ℕ) where
  abbrev pub IsSortedBy : List A → Type 0
  IsSortedBy [] = Unit
  IsSortedBy (a ∷ []) = Unit
  IsSortedBy (a ∷ b ∷ xs) = (f a ≤ f b) × IsSortedBy (b ∷ xs)

  pub sort_by-sorted : (xs : List A) → IsSortedBy xs → sort_by f xs ≡ xs
  unfolding sort_by
  sort_by-sorted [] h = refl
  sort_by-sorted (a ∷ []) h = refl
  sort_by-sorted (a ∷ b ∷ xs) h = rw (sort_by-sorted (b ∷ xs) h.1) (ground arith)
