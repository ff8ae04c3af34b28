-- ===== src/Catalog/Owners.antt =====
-- Which provider owns which range of a data set, and what goes when a data set is deleted
-- (storage/catalog.py). Times in ISO text at UTC are in the order of the instants they name.
use xret.Catalog.Tables.{rows_at, without, sort_by, rows_of}
use xret.Evidence.{ProviderEvidence}
use xret.Identity.Keys.{same_row, IdentityRow}
use xret.Timeframe.{Datetime}
use xret.Catalog.{
  get_dataset_id, ensure_dataset, RunRow, Ownership, FileRow, EventRow, DatasetRow, Catalog,
}
use xret.Prelude.{
  ◌||◌, ◌>>=◌, ◌==◌, ◌&&◌, ℕ, some, same_text, ok, not, none, ltb, if◌then◌else◌, false, err,
  catalog_error, [], Text, Result, Option, List, Bool, ◌∷◌,
}

-- `WHERE start_ts < ? AND end_ts > ?`
unfoldable pub overlaps : Datetime → Datetime → Ownership → Bool
overlaps start end o = ltb o.start end && ltb start o.end

-- The rows that make `validate_source_ownership` refuse a contributor.
unfoldable pub clashes : Ownership → List Ownership → Bool
unfolding overlaps
clashes o [] = false
clashes o (r ∷ rows) =
    (overlaps o.start o.end r
      && not (same_text r.provider_name o.provider_name && r.start == o.start && r.end == o.end))
    || clashes o rows

unfoldable pub is_before : Datetime → Option Datetime → Bool
is_before start none = false
is_before start (some previous) = ltb start previous

abbrev pub owner : Datetime → Datetime → Text → Ownership
owner start end name = record { start = start; end = end; provider_name = name }

-- The loop of `validate_source_ownership` over the rows of the data set, none if there is none.
unfoldable pub validate_from :
    Option Datetime → List Ownership → List ProviderEvidence → Result (Unit {0})
unfolding clashes is_before
validate_from previous rows [] = ok tt
validate_from previous rows (e ∷ es) = elim e.contributed_start [
  | none ↦ err catalog_error
  | some start ↦ elim e.contributed_end [
    | none ↦ err catalog_error
    | some end ↦
        if is_before start previous || clashes (owner start end e.provider_name) rows
        then err catalog_error
        else validate_from (some end) rows es
  ]
]

abbrev pub ownership_rows : IdentityRow → Catalog → List Ownership
ownership_rows key c = rows_at (get_dataset_id key c) c.ownership

-- `validate_source_ownership`
unfoldable pub validate_source_ownership :
    IdentityRow → List ProviderEvidence → Catalog → Result (Unit {0})
validate_source_ownership key es c = validate_from none (ownership_rows key c) es

-- The test of `validate_provider_request`: a row that overlaps and is of another provider.
unfoldable pub owned_by_another : Datetime → Datetime → Text → List Ownership → Bool
unfolding overlaps
owned_by_another start end name [] = false
owned_by_another start end name (r ∷ rows) =
    (overlaps start end r && not (same_text r.provider_name name))
    || owned_by_another start end name rows

-- `validate_provider_request`
unfoldable pub validate_provider_request :
    IdentityRow → Datetime → Datetime → Text → Catalog → Result (Unit {0})
unfolding owned_by_another
validate_provider_request key start end name c =
    if owned_by_another start end name (ownership_rows key c) then err catalog_error else ok tt

-- `UNIQUE (dataset_id, start_ts, end_ts)`, which `INSERT OR IGNORE` obeys.
unfoldable pub has_range : Ownership → List Ownership → Bool
has_range o [] = false
has_range o (r ∷ rows) = (r.start == o.start && r.end == o.end) || has_range o rows

unfoldable pub insert_owner : ℕ → Ownership → List (ℕ × Ownership) → List (ℕ × Ownership)
unfolding has_range
insert_owner i o rows = if has_range o (rows_of i rows) then rows else (i, o) ∷ rows

unfoldable pub insert_owners :
    ℕ → List ProviderEvidence → List (ℕ × Ownership) → List (ℕ × Ownership)
unfolding insert_owner
insert_owners i [] rows = rows
insert_owners i (e ∷ es) rows = elim e.contributed_start [
  | none ↦ insert_owners i es rows
  | some start ↦ elim e.contributed_end [
    | none ↦ insert_owners i es rows
    | some end ↦ insert_owners i es (insert_owner i (owner start end e.provider_name) rows)
  ]
]

-- `record_source_ownership`
unfoldable pub record_source_ownership :
    IdentityRow → List ProviderEvidence → Catalog → Result Catalog
record_source_ownership key es c = do
  _ ← validate_source_ownership key es c
  let e = ensure_dataset key c
  ok (record (e.0) { ownership = insert_owners e.1 es e.0.ownership })

-- `list_source_ownership`
unfoldable pub list_source_ownership : IdentityRow → Catalog → List Ownership
list_source_ownership key c = sort_by (λ (o : Ownership). o.start) (ownership_rows key c)

-- `ON DELETE CASCADE`: the rows of several ids, and links by their second column.
unfoldable pub without_all {ℓ} : {A : Type ℓ} → List ℕ → List (ℕ × A) → List (ℕ × A)
without_all [] rows = rows
without_all (i ∷ ids) rows = without i (without_all ids rows)

unfoldable pub unlink : ℕ → List (ℕ × ℕ) → List (ℕ × ℕ)
unlink run [] = []
unlink run ((f, r) ∷ rows) = let rest = unlink run rows in if r == run then rest else (f, r) ∷ rest

unfoldable pub unlink_all : List ℕ → List (ℕ × ℕ) → List (ℕ × ℕ)
unlink_all [] rows = rows
unlink_all (run ∷ ids) rows = unlink run (unlink_all ids rows)

-- `ON DELETE SET NULL`
unfoldable pub forget_run : ℕ → List (ℕ × EventRow) → List (ℕ × EventRow)
forget_run run [] = []
forget_run run ((i, v) ∷ rows) =
    elim v.run [
      | none ↦ (i, v)
      | some r ↦ if r == run then (i, record v { run = none }) else (i, v)
    ]
    ∷ forget_run run rows

unfoldable pub forget_runs : List ℕ → List (ℕ × EventRow) → List (ℕ × EventRow)
forget_runs [] rows = rows
forget_runs (run ∷ ids) rows = forget_run run (forget_runs ids rows)

abbrev pub file_ids : List FileRow → List ℕ
file_ids [] = []
file_ids (f ∷ files) = f.id ∷ file_ids files

abbrev pub run_ids : List RunRow → List ℕ
run_ids [] = []
run_ids (r ∷ runs) = r.id ∷ run_ids runs

unfoldable pub delete_row : IdentityRow → List DatasetRow → List DatasetRow
delete_row key [] = []
delete_row key (r ∷ rows) =
    let rest = delete_row key rows in if same_row r.identity key then rest else r ∷ rest

-- The row of the key, which has the id, and all that the schema deletes with it.
unfoldable pub delete_with : IdentityRow → ℕ → Catalog → Catalog
delete_with key i c =
    let gone_files = file_ids (rows_of i c.files) in
    let gone_runs = run_ids (rows_of i c.runs) in
    record {
      datasets = delete_row key c.datasets;
      ownership = without i c.ownership;
      coverage = without i c.coverage;
      files = without i c.files;
      contributors = without_all gone_files c.contributors;
      runs = without i c.runs;
      file_runs = unlink_all gone_runs (without_all gone_files c.file_runs);
      events = forget_runs gone_runs (without i c.events);
    }

-- `delete_dataset`
unfoldable pub delete_dataset : IdentityRow → Catalog → Catalog
delete_dataset key c = elim (get_dataset_id key c) [ none ↦ c | some i ↦ delete_with key i c ]
