-- ===== src/Catalog/Files.antt =====
-- Files and their contributors, ingestion runs and quality events (storage/catalog.py).
use xret.Catalog.Tables.{without, tagged, sort_by, rows_of}
use xret.Catalog.Owners.{without_all, record_source_ownership}
use xret.Evidence.{ProviderEvidence}
use xret.Identity.Keys.{IdentityRow}
use xret.Timeframe.{Datetime}
use xret.Catalog.{get_dataset_id, ensure_dataset, RunRow, FileRow, Contributor, Catalog}
use xret.Prelude.{
  ◌||◌, ◌>>=◌, ◌==◌, ◌++◌, ◌&&◌, ℕ, true, suc, some, same_text, ok, not, none, max, map, is_some,
  if◌then◌else◌, false, err, catalog_error, [], Text, Result, Option, List, Bool, ◌∷◌,
}

-- `FileMetadata` but for its key.
pub record FileMetadata : Type 0 where
  pub relative_path : Text
  pub year : ℕ
  pub month : ℕ
  pub row_count : ℕ
  pub min_timestamp : Datetime
  pub max_timestamp : Datetime
  pub physical_hash : Text
  pub schema_version : ℕ
  pub contributors : List ProviderEvidence

abbrev pub file_row : ℕ → FileMetadata → FileRow
file_row i m = record {
  id = i;
  relative_path = m.relative_path;
  year = m.year;
  month = m.month;
  row_count = m.row_count;
  min_timestamp = m.min_timestamp;
  max_timestamp = m.max_timestamp;
  physical_hash = m.physical_hash;
  schema_version = m.schema_version;
}

-- `SELECT … FROM files WHERE relative_path = ?`
unfoldable pub find_file : Text → List (ℕ × FileRow) → Option (ℕ × FileRow)
find_file path [] = none
find_file path ((d, f) ∷ files) =
    let rest = find_file path files in if same_text f.relative_path path then some (d, f) else rest

unfoldable pub find_run : Text → List (ℕ × RunRow) → Option (ℕ × RunRow)
find_run run_id [] = none
find_run run_id ((d, r) ∷ runs) =
    let rest = find_run run_id runs in if same_text r.run_id run_id then some (d, r) else rest

abbrev pub largest_file : List (ℕ × FileRow) → ℕ
largest_file [] = 0
largest_file ((d, f) ∷ files) = max f.id (largest_file files)

-- `UPDATE files … WHERE id = ?`, which leaves the path.
unfoldable pub update_file : ℕ → ℕ → FileMetadata → List (ℕ × FileRow) → List (ℕ × FileRow)
update_file i dataset m [] = []
update_file i dataset m ((d, f) ∷ files) =
    (if f.id == i
      then (dataset, record (file_row i m) { relative_path = f.relative_path })
      else (d, f))
    ∷ update_file i dataset m files

-- `existing["dataset_id"] != self._get_dataset_id(…)`
unfoldable pub is_of_another : ℕ → Option ℕ → Bool
is_of_another d none = true
is_of_another d (some i) = not (d == i)

-- The run to link, which must be of the data set.
unfoldable pub run_to_link : Option Text → ℕ → List (ℕ × RunRow) → Result (Option ℕ)
run_to_link none dataset runs = ok none
run_to_link (some run_id) dataset runs = elim (find_run run_id runs) [
  | none ↦ err catalog_error
  | some (d, r) ↦ if d == dataset then ok (some r.id) else err catalog_error
]

abbrev pub is_written : ProviderEvidence → Bool
is_written e = is_some e.contributed_start && is_some e.contributed_end && is_some e.source_revision

-- The contributors that are written, numbered by their place among all.
unfoldable pub numbered : ℕ → List ProviderEvidence → List Contributor
numbered n [] = []
numbered n (e ∷ es) =
    let rest = numbered (suc n) es in
    if is_written e then record { ordinal = n; evidence = e } ∷ rest else rest

unfoldable pub has_link : ℕ → ℕ → List (ℕ × ℕ) → Bool
has_link file run [] = false
has_link file run ((f, r) ∷ rows) = f == file && r == run || has_link file run rows

-- `INSERT OR IGNORE INTO file_runs`
unfoldable pub link : ℕ → Option ℕ → List (ℕ × ℕ) → List (ℕ × ℕ)
unfolding has_link
link file none rows = rows
link file (some run) rows = if has_link file run rows then rows else (file, run) ∷ rows

-- The upsert of the row itself: its id and the table.
unfoldable pub upsert_file :
    ℕ → FileMetadata → Option (ℕ × FileRow) → List (ℕ × FileRow) → ℕ × List (ℕ × FileRow)
upsert_file dataset m none files =
    (suc (largest_file files), (dataset, file_row (suc (largest_file files)) m) ∷ files)
upsert_file dataset m (some (d, f)) files = (f.id, update_file f.id dataset m files)

unfoldable pub is_reparented : Option (ℕ × FileRow) → Option ℕ → Bool
unfolding is_of_another
is_reparented none dataset = false
is_reparented (some (d, f)) dataset = is_of_another d dataset

-- What `record_file` does once nothing refuses it.
unfoldable pub write_file : IdentityRow → FileMetadata → ℕ → Option ℕ → Catalog → Result Catalog
write_file key m dataset run c =
    let up = upsert_file dataset m (find_file m.relative_path c.files) c.files in
    do
      owned ← record_source_ownership key m.contributors (record c { files = up.1 })
      ok (record owned {
        contributors = tagged up.0 (numbered 0 m.contributors) ++ without up.0 owned.contributors;
        file_runs = link up.0 run owned.file_runs;
      })

-- `record_file`
unfoldable pub record_file : IdentityRow → FileMetadata → Option Text → Catalog → Result Catalog
record_file key m run_id c =
    if is_reparented (find_file m.relative_path c.files) (get_dataset_id key c)
    then err catalog_error
    else let e = ensure_dataset key c in
      do run ← run_to_link run_id e.1 e.0.runs; write_file key m e.1 run e.0

-- `file_contributor_evidence`
unfoldable pub file_contributor_evidence : Text → Catalog → List ProviderEvidence
file_contributor_evidence path c = elim (find_file path c.files) [
  | none ↦ []
  | some (d, f) ↦
      map (λ (r : Contributor). r.evidence)
        (sort_by (λ (r : Contributor). r.ordinal) (rows_of f.id c.contributors))
]

unfoldable pub drop_file : Text → List (ℕ × FileRow) → List (ℕ × FileRow)
drop_file path [] = []
drop_file path ((d, f) ∷ files) =
    let rest = drop_file path files in
    if same_text f.relative_path path then rest else (d, f) ∷ rest

unfoldable pub dropped_ids : Text → List (ℕ × FileRow) → List ℕ
dropped_ids path [] = []
dropped_ids path ((d, f) ∷ files) =
    let rest = dropped_ids path files in
    if same_text f.relative_path path then f.id ∷ rest else rest

-- `remove_file`, with the cascade to what refers to the file.
unfoldable pub remove_file : Text → Catalog → Catalog
remove_file path c =
    let gone = dropped_ids path c.files in
    record c {
      files = drop_file path c.files;
      contributors = without_all gone c.contributors;
      file_runs = without_all gone c.file_runs;
    }
