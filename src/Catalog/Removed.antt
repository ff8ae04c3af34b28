-- ===== src/Catalog/Removed.antt =====
-- The row of `datasets` that a deletion takes, and the rows that stay.
use mathlib.Core.Path.{subst}
use mathlib.Core.Option.{none-ne-some}
use xret.Catalog.Owners.{delete_row}
use xret.Identity.Keys.{same_row→eq, same_row, IdentityRow}
use xret.Catalog.Keys.{same_row-ne, ne-same_row, IsKeyed, HasNoId, HasId}
use xret.Catalog.{find_dataset, DatasetRow}
use xret.Prelude.{◌≢◌, ◌∙◌, ℕ, sym, some, refl, none, inr, inl, [], List, Bool-cases, ◌∷◌, ◌≡◌}

delete_row-HasNoId :
    (key : IdentityRow) (i : ℕ) (rows : List DatasetRow)
    → HasNoId i rows
    → HasNoId i (delete_row key rows)
unfolding delete_row
delete_row-HasNoId key i [] h = tt
delete_row-HasNoId key i (r ∷ rows) h = elim (Bool-cases (same_row r.identity key)) [
  | inl e ↦ rw e (delete_row-HasNoId key i rows h.1)
  | inr e ↦ rw e (h.0, delete_row-HasNoId key i rows h.1)
]

pub delete_row-own :
    (key : IdentityRow) (rows : List DatasetRow) → find_dataset key (delete_row key rows) ≡ none
unfolding find_dataset delete_row
delete_row-own key [] = refl
delete_row-own key (r ∷ rows) = elim (Bool-cases (same_row r.identity key)) [
  | inl e ↦ rw e (delete_row-own key rows)
  | inr e ↦ rw (e, e) (delete_row-own key rows)
]

pub delete_row-other :
    (key other : IdentityRow) (rows : List DatasetRow)
    → key ≢ other
    → find_dataset other (delete_row key rows) ≡ find_dataset other rows
unfolding find_dataset delete_row
delete_row-other key other [] ne = refl
delete_row-other key other (r ∷ rows) ne = elim (Bool-cases (same_row r.identity key)) [
  | inl e ↦
      rw (e, ne-same_row r.identity other (λ p. ne (sym (same_row→eq r.identity key e) ∙ p)))
        (delete_row-other key other rows ne)
  | inr e ↦ elim (Bool-cases (same_row r.identity other)) [
    | inl f ↦ rw (e, f) refl
    | inr f ↦ rw (e, f) (delete_row-other key other rows ne)
  ]
]

delete_row-none :
    (key k : IdentityRow) (rows : List DatasetRow)
    → find_dataset k rows ≡ none
    → find_dataset k (delete_row key rows) ≡ none
delete_row-none key k rows h = elim (Bool-cases (same_row key k)) [
  | inl e ↦
      subst (λ x. find_dataset x (delete_row key rows) ≡ none) (same_row→eq key k e)
        (delete_row-own key rows)
  | inr e ↦ delete_row-other key k rows (same_row-ne key k e) ∙ h
]

kept_row :
    (key : IdentityRow) (r : DatasetRow) (rows : List DatasetRow)
    → HasNoId r.id (delete_row key rows)
    → find_dataset r.identity (delete_row key rows) ≡ none
    → IsKeyed (delete_row key rows)
    → IsKeyed (delete_row key (r ∷ rows))
unfolding delete_row
kept_row key r rows h n k = elim (Bool-cases (same_row r.identity key)) [
  | inl e ↦ rw e k
  | inr e ↦ rw e (h, n, k)
]

pub delete_row-IsKeyed :
    (key : IdentityRow) (rows : List DatasetRow) → IsKeyed rows → IsKeyed (delete_row key rows)
delete_row-IsKeyed key [] k = unfold delete_row in tt
delete_row-IsKeyed key (r ∷ rows) k =
    kept_row key r rows (delete_row-HasNoId key r.id rows k.0)
      (delete_row-none key r.identity rows k.1) (delete_row-IsKeyed key rows k.2)

later :
    (j : ℕ) (r : DatasetRow) (rows : List DatasetRow) → HasId j (r ∷ rows) → r.id ≢ j → HasId j rows
later j r rows (inl e) ne = absurd (ne e)
later j r rows (inr h) ne = h

pub delete_row-HasId :
    (key : IdentityRow) (j : ℕ) (rows : List DatasetRow)
    → IsKeyed rows
    → HasId j rows
    → ((r : DatasetRow) → find_dataset key rows ≡ some r → r.id ≢ j)
    → HasId j (delete_row key rows)
unfolding delete_row find_dataset
delete_row-HasId key j [] k h ne = h
delete_row-HasId key j (r ∷ rows) k h ne = elim (Bool-cases (same_row r.identity key)) [
  | inl e ↦
      let no_more : find_dataset key rows ≡ none =
        subst (λ x. find_dataset x rows ≡ none) (same_row→eq r.identity key e) k.1 in
      rw e (
        delete_row-HasId key j rows k.2 (later j r rows h (ne r (rw e refl)))
          (λ s f. absurd (none-ne-some s (sym no_more ∙ f))))
  | inr e ↦ elim h [
    | inl i ↦ rw e (inl i)
    | inr i ↦ rw e (inr (delete_row-HasId key j rows k.2 i (λ s f. ne s (rw e f))))
  ]
]
