-- ===== src/Catalog/Valid.antt =====
-- The keys of the schema: unique data sets, files and runs, and no row that refers to a
-- missing data set or file.
use xret.Catalog.RunTable.{IsRunTable}
use xret.Catalog.Uniques.{IsFileTable}
use xret.Catalog.Tables.{without, tagged, rows_of}
use xret.Identity.Keys.{IdentityRow}
use xret.Catalog.Keys.{new_row, ensure_dataset-IsEnsured, IsKeyed, HasId-le-largest, HasId}
use xret.Catalog.{largest, get_dataset_id, ensure_dataset, FileRow, DatasetRow, Catalog}
use xret.Prelude.{
  ◌⊎◌, ◌==◌, ◌<◌, ◌++◌, ℕ, refl, inr, inl, arith, [], Option-cases, List, Bool-cases, ◌∷◌, ◌≡◌,
}

-- All rows have an id with the property.
abbrev pub AllIds {ℓ} : {A : Type ℓ} → (ℕ → Type 0) → List (ℕ × A) → Type 0
AllIds P [] = Unit
AllIds P ((i, a) ∷ rows) = P i × AllIds P rows

-- Every row belongs to a data set.
abbrev pub Belongs {ℓ} : {A : Type ℓ} → List DatasetRow → List (ℕ × A) → Type 0
Belongs datasets rows = AllIds (λ i. HasId i datasets) rows

-- Some file has the id.
abbrev pub HasFile : ℕ → List (ℕ × FileRow) → Type 0
HasFile f [] = ⊥
HasFile f ((i, r) ∷ rows) = (r.id ≡ f) ⊎ HasFile f rows

abbrev pub OfFiles {ℓ} : {A : Type ℓ} → List (ℕ × FileRow) → List (ℕ × A) → Type 0
OfFiles files rows = AllIds (λ f. HasFile f files) rows

-- Each data set has its own id and identity, each file its own id and path, each run its own id and
-- run id; the rows of coverage, ownership, files, runs and events belong to a data set, those of
-- contributors and links to a file.
pub record IsCatalog (c : Catalog) : Type 0 where
  pub keyed : IsKeyed c.datasets
  pub file_table : IsFileTable c.files
  pub run_table : IsRunTable c.runs
  pub of_coverage : Belongs c.datasets c.coverage
  pub of_ownership : Belongs c.datasets c.ownership
  pub of_files : Belongs c.datasets c.files
  pub of_runs : Belongs c.datasets c.runs
  pub of_events : Belongs c.datasets c.events
  pub of_contributors : OfFiles c.files c.contributors
  pub of_file_runs : OfFiles c.files c.file_runs

pub Belongs-cons {ℓ} :
    {A : Type ℓ} (r : DatasetRow) (datasets : List DatasetRow) (rows : List (ℕ × A))
    → Belongs datasets rows
    → Belongs (r ∷ datasets) rows
Belongs-cons r datasets [] h = tt
Belongs-cons r datasets ((i, a) ∷ rows) h = (inr h.0, Belongs-cons r datasets rows h.1)

pub AllIds-append {ℓ} :
    {A : Type ℓ} (P : ℕ → Type 0) (xs ys : List (ℕ × A))
    → AllIds P xs
    → AllIds P ys
    → AllIds P (xs ++ ys)
AllIds-append P [] ys h k = k
AllIds-append P ((i, a) ∷ xs) ys h k = (h.0, AllIds-append P xs ys h.1 k)

pub AllIds-tagged {ℓ} :
    {A : Type ℓ} (P : ℕ → Type 0) (i : ℕ) (xs : List A) → P i → AllIds P (tagged i xs)
unfolding tagged
AllIds-tagged P i [] h = tt
AllIds-tagged P i (a ∷ xs) h = (h, AllIds-tagged P i xs h)

pub Belongs-without {ℓ} :
    {A : Type ℓ} (datasets : List DatasetRow) (i : ℕ) (rows : List (ℕ × A))
    → Belongs datasets rows
    → Belongs datasets (without i rows)
unfolding without
Belongs-without datasets i [] h = tt
Belongs-without datasets i ((j, a) ∷ rows) h = elim (Bool-cases (i == j)) [
  | inl e ↦ rw e (Belongs-without datasets i rows h.1)
  | inr e ↦ rw e (h.0, Belongs-without datasets i rows h.1)
]

-- An id above all others has no rows.
pub Belongs-Lacks {ℓ} :
    {A : Type ℓ} (datasets : List DatasetRow) (i : ℕ) (rows : List (ℕ × A))
    → Belongs datasets rows
    → largest datasets < i
    → rows_of i rows ≡ []
unfolding rows_of
Belongs-Lacks datasets i [] h lt = refl
Belongs-Lacks datasets i ((j, a) ∷ rows) h lt =
    ground (arith, HasId-le-largest j datasets h.0, Belongs-Lacks datasets i rows h.1 lt)

-- `ensure_dataset` touches only `datasets`, and keeps the invariant.
pub ensure_dataset-IsCatalog :
    (key : IdentityRow) (c : Catalog) → IsCatalog c → IsCatalog (ensure_dataset key c).0
unfolding ensure_dataset
ensure_dataset-IsCatalog key c v = elim (Option-cases (get_dataset_id key c)) [
  | inr (i, e) ↦ rw (e, ensure_dataset) v
  | inl e ↦
      let k : IsKeyed (ensure_dataset key c).0.datasets =
        (ensure_dataset-IsEnsured key c v.keyed).keyed in
      rw (e, ensure_dataset)
        (record {
          keyed = (rw (e, ensure_dataset) at k);
          file_table = v.file_table;
          run_table = v.run_table;
          of_coverage = Belongs-cons (new_row key c) c.datasets c.coverage v.of_coverage;
          of_ownership = Belongs-cons (new_row key c) c.datasets c.ownership v.of_ownership;
          of_files = Belongs-cons (new_row key c) c.datasets c.files v.of_files;
          of_runs = Belongs-cons (new_row key c) c.datasets c.runs v.of_runs;
          of_events = Belongs-cons (new_row key c) c.datasets c.events v.of_events;
          of_contributors = v.of_contributors;
          of_file_runs = v.of_file_runs;
        })
]
