-- ===== src/Catalog/Listing.antt =====
-- The listing of files (storage/catalog.py).
use mathlib.Core.List.{Perm}
use xret.Catalog.Sorting.{
  sort_paths-Perm, sort_paths-IsByPath, sort_paths-AllIds, sort_paths, IsByPath,
}
use xret.Catalog.Tables.{tagged, rows_of}
use xret.Identity.Rows.{key_from_row-identity_values}
use xret.Catalog.Committed.{identity_of-found}
use xret.Catalog.Runs.{identity_of}
use xret.Catalog.Keys.{id_of}
use xret.Identity.{StorageKey}
use xret.Identity.Components.{IsIdempotent}
use xret.Identity.Keys.{key_from_row, identity_values, IdentityRow}
use xret.Catalog.{get_dataset_id, FileRow, DatasetRow, Catalog}
use xret.Identity.RoundTrip.{Built}
use xret.Catalog.Valid.{IsCatalog, AllIds-tagged, AllIds}
use xret.Prelude.{
  ◌∙◌, ◌>>=◌, ℕ, sym, some, refl, ok_injective, ok, none, ap, [], Text, Result, Option, List, ◌∷◌,
  ◌≡◌,
}

-- `FileRow` as it is read back.
pub record ListedFile : Type 0 where
  pub dataset_key : StorageKey
  pub row : FileRow

abbrev pub listed : StorageKey → FileRow → ListedFile
listed k f = record { dataset_key = k; row = f }

module _ (nfc : Text → Text) where
  -- The rows with the keys of their data sets; the join drops a row that has none.
  unfoldable pub with_keys : List DatasetRow → List (ℕ × FileRow) → Result (List ListedFile)
  with_keys datasets [] = ok []
  with_keys datasets ((d, f) ∷ rows) = elim (identity_of d datasets) [
    | none ↦ with_keys datasets rows
    | some identity ↦ (do
      k ← key_from_row nfc identity
      rest ← with_keys datasets rows
      ok (listed k f ∷ rest))
  ]

  -- `list_files`
  unfoldable pub list_files : Option IdentityRow → Catalog → Result (List ListedFile)
  list_files none c = with_keys c.datasets (sort_paths c.files)
  list_files (some key) c = elim (get_dataset_id key c) [
    | none ↦ ok []
    | some i ↦ with_keys c.datasets (sort_paths (tagged i (rows_of i c.files)))
  ]

-- The rows under one key.
pub all_listed : StorageKey → List (ℕ × FileRow) → List ListedFile
all_listed k [] = []
all_listed k ((d, f) ∷ rows) = listed k f ∷ all_listed k rows

module _ (nfc : Text → Text) where
  with_keys-all_listed :
      (k : StorageKey) (key : IdentityRow) (i : ℕ) (datasets : List DatasetRow)
      (rows : List (ℕ × FileRow))
      → identity_of i datasets ≡ some key
      → key_from_row nfc key ≡ ok k
      → AllIds (λ j. j ≡ i) rows
      → with_keys nfc datasets rows ≡ ok (all_listed k rows)
  unfolding with_keys all_listed
  with_keys-all_listed k key i datasets [] e g h = refl
  with_keys-all_listed k key i datasets ((d, f) ∷ rows) e g h =
      rw
        (
          ap (λ n. identity_of n datasets) h.0 ∙ e,
          g,
          with_keys-all_listed k key i datasets rows e g h.1,
          with_keys,
        )
        refl

  -- For a key that was built, whose data set is there, listing its files over consistent tables is
  -- no error. It gives each row of the data set just once and no other, in ascending order of their
  -- paths, each with the key itself, read back from the columns of the data set.
  pub list_files-key :
      IsIdempotent nfc
      → (k : StorageKey) (key : IdentityRow) (c : Catalog) (i : ℕ) → Built nfc k
      → identity_values k ≡ ok key
      → IsCatalog c
      → get_dataset_id key c ≡ some i
      → (rows : List (ℕ × FileRow)) × (list_files nfc (some key) c ≡ ok (all_listed k rows))
        × Perm rows (tagged i (rows_of i c.files))
        × IsByPath rows
  unfolding list_files
  list_files-key idempotent k key c i built values v e =
      let back = key_from_row-identity_values nfc idempotent k built in
      let same : back.0 ≡ key = ok_injective (sym back.1 ∙ values) in
      let r = id_of key c i e in
      let rows = tagged i (rows_of i c.files) in
      (
        sort_paths rows,
        rw (e, list_files)
            (with_keys-all_listed k key i c.datasets (sort_paths rows)
              (ap (λ n. identity_of n c.datasets) (sym r.2)
                ∙ identity_of-found key c.datasets r.0 v.keyed r.1)
              (ap (key_from_row nfc) (sym same) ∙ back.2)
              (sort_paths-AllIds (λ j. j ≡ i) rows
                (AllIds-tagged (λ j. j ≡ i) i (rows_of i c.files) refl))),
        sort_paths-Perm rows,
        sort_paths-IsByPath rows,
      )
