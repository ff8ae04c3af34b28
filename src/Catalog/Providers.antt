-- ===== src/Catalog/Providers.antt =====
-- The row that a provider is written to, and the rows that it leaves.
use mathlib.Core.Path.{subst}
use xret.Identity.Keys.{same_row, IdentityRow}
use xret.Catalog.{set_provider, find_dataset, DatasetRow}
use xret.Prelude.{
  ◌≢◌, ◌==◌, ℕ, true, some_injective, some, refl, inr, inl, false, arith, [], Text, List,
  Bool-cases, ◌∷◌, ◌≡◌,
}

-- What `set_provider` does to the row that a key finds.
set_first :
    (key : IdentityRow) (name : Text) (x : DatasetRow) (rows : List DatasetRow)
    → same_row x.identity key ≡ true
    → find_dataset key (set_provider x.id name (x ∷ rows))
      ≡ some (record x { provider_name = some name })
unfolding find_dataset set_provider
set_first key name x rows e = elim (Bool-cases (x.id == x.id)) [
  | inl a ↦ rw (a, e) refl
  | inr a ↦ absurd (ground arith)
]

set_later :
    (key : IdentityRow) (name : Text) (x : DatasetRow) (rows : List DatasetRow) (r : DatasetRow)
    → same_row x.identity key ≡ false
    → find_dataset key (set_provider r.id name rows) ≡ some (record r { provider_name = some name })
    → find_dataset key (set_provider r.id name (x ∷ rows))
      ≡ some (record r { provider_name = some name })
unfolding find_dataset set_provider
set_later key name x rows r e h = elim (Bool-cases (x.id == r.id)) [
  | inl a ↦ rw (a, e) h
  | inr a ↦ rw (a, e) h
]

pub set_provider-own :
    (key : IdentityRow) (name : Text) (rows : List DatasetRow) (r : DatasetRow)
    → find_dataset key rows ≡ some r
    → find_dataset key (set_provider r.id name rows) ≡ some (record r { provider_name = some name })
unfolding find_dataset
set_provider-own key name [] r h = cc
set_provider-own key name (x ∷ rows) r h = elim (Bool-cases (same_row x.identity key)) [
  | inl e ↦
      subst
        (λ (y : DatasetRow).
          find_dataset key (set_provider y.id name (x ∷ rows))
          ≡ some (record y { provider_name = some name }))
        (some_injective (rw e at h)) (set_first key name x rows e)
  | inr e ↦ set_later key name x rows r e (set_provider-own key name rows r (rw e at h))
]

pub set_provider-others :
    (key : IdentityRow) (i : ℕ) (name : Text) (rows : List DatasetRow)
    → ((r : DatasetRow) → find_dataset key rows ≡ some r → r.id ≢ i)
    → find_dataset key (set_provider i name rows) ≡ find_dataset key rows
unfolding find_dataset set_provider
set_provider-others key i name [] h = refl
set_provider-others key i name (x ∷ rows) h = elim (Bool-cases (same_row x.identity key)) [
  | inl e ↦ elim (Bool-cases (x.id == i)) [
    | inl a ↦ absurd (h x (rw e refl) (ground arith))
    | inr a ↦ rw (a, e) refl
  ]
  | inr e ↦ elim (Bool-cases (x.id == i)) [
    | inl a ↦ rw (a, e) (set_provider-others key i name rows (λ r f. h r (rw e f)))
    | inr a ↦ rw (a, e) (set_provider-others key i name rows (λ r f. h r (rw e f)))
  ]
]
