-- ===== src/Catalog/Framed.antt =====
-- Reading the rows of a key from a table that `ensure_dataset` does not write.
use xret.Catalog.Tables.{rows_of, rows_at}
use xret.Catalog.Keys.{ensure_dataset-IsEnsured, IsKeyed}
use xret.Identity.Keys.{IdentityRow}
use xret.Catalog.{largest, get_dataset_id, ensure_dataset, Catalog}
use xret.Catalog.Valid.{Belongs-Lacks, Belongs}
use xret.Prelude.{◌≢◌, ℕ, suc, refl, inr, inl, arith, Option-cases, List, ◌≡◌}

-- The tables that `ensure_dataset` leaves alone.
pub record IsKept (c after : Catalog) : Type 0 where
  pub ownership : after.ownership ≡ c.ownership
  pub coverage : after.coverage ≡ c.coverage
  pub files : after.files ≡ c.files
  pub contributors : after.contributors ≡ c.contributors
  pub runs : after.runs ≡ c.runs
  pub file_runs : after.file_runs ≡ c.file_runs
  pub events : after.events ≡ c.events

pub ensure_dataset-IsKept : (key : IdentityRow) (c : Catalog) → IsKept c (ensure_dataset key c).0
unfolding ensure_dataset
ensure_dataset-IsKept key c = elim (Option-cases (get_dataset_id key c)) [
  | inl e ↦
      rw (e, ensure_dataset)
        (record {
          ownership = refl;
          coverage = refl;
          files = refl;
          contributors = refl;
          runs = refl;
          file_runs = refl;
          events = refl;
        })
  | inr (i, e) ↦
      rw (e, ensure_dataset)
        (record {
          ownership = refl;
          coverage = refl;
          files = refl;
          contributors = refl;
          runs = refl;
          file_runs = refl;
          events = refl;
        })
]

-- The rows of the id that was ensured are those of the key.
pub ensured_rows {ℓ} :
    {A : Type ℓ} (key : IdentityRow) (c : Catalog) (table : List (ℕ × A))
    → Belongs c.datasets table
    → rows_of (ensure_dataset key c).1 table ≡ rows_at (get_dataset_id key c) table
unfolding ensure_dataset
ensured_rows key c table b = elim (Option-cases (get_dataset_id key c)) [
  | inl e ↦
      rw (e, ensure_dataset)
        (Belongs-Lacks c.datasets (suc (largest c.datasets)) table b (omega arith))
  | inr (i, e) ↦ rw (e, ensure_dataset) refl
]

-- Reading a table behind a write to the rows of the ensured id only.
module _ {ℓ} {A : Type ℓ} (key : IdentityRow) (c : Catalog) (k : IsKeyed c.datasets) where
  pub ensured_own :
      (after : List (ℕ × A))
      → rows_at (get_dataset_id key (ensure_dataset key c).0) after
        ≡ rows_of (ensure_dataset key c).1 after
  ensured_own after = rw (ensure_dataset-IsEnsured key c k).found refl

  pub ensured_other :
      (other : IdentityRow) (table after : List (ℕ × A))
      → key ≢ other
      → ((j : ℕ) → j ≢ (ensure_dataset key c).1 → rows_of j after ≡ rows_of j table)
      → rows_at (get_dataset_id other (ensure_dataset key c).0) after
        ≡ rows_at (get_dataset_id other c) table
  ensured_other other table after ne same =
      let h = ensure_dataset-IsEnsured key c k in
      elim (Option-cases (get_dataset_id other c)) [
        | inl e ↦ rw (h.others other ne, e) refl
        | inr (j, e) ↦ rw (h.others other ne, e) (same j (h.apart other j ne e))
      ]
