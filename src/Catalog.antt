-- ===== src/Catalog.antt =====
-- The tables of the SQLite catalog and the operations of `Catalog` on data sets, source lineage,
-- ownership and coverage (storage/catalog.py). A key stands here by its identity columns.
use xret.Catalog.Tables.{without, tagged, sort_by, rows_of}
use xret.Identity.{StorageKey}
use xret.Coverage.{
  replace_range, normalize_segments, covered_and_gaps, apply_update, Split, Segment,
}
use xret.Evidence.{ProviderEvidence}
use xret.Identity.Keys.{same_row, key_from_row, IdentityRow}
use xret.Timeframe.{Datetime}
use xret.Prelude.{
  ◌>>=◌, ◌==◌, ◌++◌, ℕ, suc, some, same_text, ok, none, max, if◌then◌else◌, err, catalog_error, [],
  Text, Result, Option, List, ◌∷◌, ◌≡◌,
}
pub mod Tables
pub mod Files
pub mod Upserted
pub mod Linked
pub mod Filed
pub mod Runs
pub mod RunRows
pub mod Ran
pub mod Frames
pub mod Bound
pub mod Evented
pub mod Committed
pub mod Sorting
pub mod Listing
pub mod Answers
pub mod Sound
pub mod Steps
pub mod Keys
pub mod Uniques
pub mod RunTable
pub mod Valid
pub mod Coverages
pub mod Written
pub mod Providers
pub mod Lineage
pub mod Owners
pub mod Ranges
pub mod Owned
pub mod Framed
pub mod Recorded
pub mod Repeated
pub mod Deleted
pub mod Removed
pub mod Spared
pub mod Cascade

-- A row of `datasets`; the two times of writing are left out of every table.
pub record DatasetRow : Type 0 where
  pub id : ℕ
  pub identity : IdentityRow
  pub provider_name : Option Text

-- A row of `source_ownership`.
pub record Ownership : Type 0 where
  pub start : Datetime
  pub end : Datetime
  pub provider_name : Text

-- A row of `files`, of `file_contributors`, of `ingestion_runs` and of `quality_events`.
pub record FileRow : Type 0 where
  pub id : ℕ
  pub relative_path : Text
  pub year : ℕ
  pub month : ℕ
  pub row_count : ℕ
  pub min_timestamp : Datetime
  pub max_timestamp : Datetime
  pub physical_hash : Text
  pub schema_version : ℕ

pub record Contributor : Type 0 where
  pub ordinal : ℕ
  pub evidence : ProviderEvidence

-- `IngestionRunMetadata`: what identifies a run for good, and what an update may change.
pub record RunIdentity : Type 0 where
  pub requested_start : Datetime
  pub requested_end : Datetime
  pub started_at : Datetime
  pub schema_version : ℕ

pub record RunDetails : Type 0 where
  pub status : Text
  pub provider_name : Option Text
  pub provider_version : Option Text
  pub provider_api_version : Option ℕ
  pub provider_market_id : Option Text
  pub native_symbol : Option Text
  pub actual_start : Option Datetime
  pub actual_end : Option Datetime
  pub retrieved_at : Option Datetime
  pub completed_at : Option Datetime
  pub row_count : ℕ

pub record RunRow : Type 0 where
  pub id : ℕ
  pub run_id : Text
  pub identity : RunIdentity
  pub details : RunDetails

pub data QualitySeverity : Type 0 where
  fatal warning : QualitySeverity

pub record EventRow : Type 0 where
  pub id : ℕ
  pub run : Option ℕ
  pub severity : QualitySeverity
  pub code : Text
  pub message : Text
  pub created_at : Datetime

-- The database. All tables but the first pair a row with the id of what it belongs to: the data
-- set, or the file for `contributors` and `file_runs`. The order of a table means nothing.
pub record Catalog : Type 0 where
  pub datasets : List DatasetRow
  pub ownership : List (ℕ × Ownership)
  pub coverage : List (ℕ × Segment)
  pub files : List (ℕ × FileRow)
  pub contributors : List (ℕ × Contributor)
  pub runs : List (ℕ × RunRow)
  pub file_runs : List (ℕ × ℕ)
  pub events : List (ℕ × EventRow)

unfoldable pub find_dataset : IdentityRow → List DatasetRow → Option DatasetRow
find_dataset key [] = none
find_dataset key (r ∷ rows) = if same_row r.identity key then some r else find_dataset key rows

-- The id that SQLite gives to a new row: one more than the largest.
abbrev pub largest : List DatasetRow → ℕ
largest [] = 0
largest (r ∷ rows) = max r.id (largest rows)

-- `get_dataset_id`
unfoldable pub get_dataset_id : IdentityRow → Catalog → Option ℕ
get_dataset_id key c = elim (find_dataset key c.datasets) [ none ↦ none | some r ↦ some r.id ]

-- `ensure_dataset`
unfoldable pub ensure_dataset : IdentityRow → Catalog → Catalog × ℕ
ensure_dataset key c = elim (get_dataset_id key c) [
  | some i ↦ (c, i)
  | none ↦ (
    record c {
      datasets =
          record { id = suc (largest c.datasets); identity = key; provider_name = none }
          ∷ c.datasets;
    },
    suc (largest c.datasets),
  )
]

-- `list_datasets`
unfoldable pub list_datasets : (Text → Text) → Catalog → Result (List StorageKey)
list_datasets nfc c = keys (sort_by (λ (r : DatasetRow). r.id) c.datasets)
  where
    keys : List DatasetRow → Result (List StorageKey)
    keys [] = ok []
    keys (r ∷ rows) = do k ← key_from_row nfc r.identity; ks ← keys rows; ok (k ∷ ks)

-- `get_source_lineage`
unfoldable pub get_source_lineage : IdentityRow → Catalog → Option Text
get_source_lineage key c = elim (find_dataset key c.datasets) [
  | none ↦ none
  | some r ↦ r.provider_name
]

unfoldable pub set_provider : ℕ → Text → List DatasetRow → List DatasetRow
set_provider i name [] = []
set_provider i name (r ∷ rows) =
    (if r.id == i then record r { provider_name = some name } else r) ∷ set_provider i name rows

-- `bind_source_lineage`; `SELECT provider_name` by the id that was ensured is the row of the key.
unfoldable pub bind_source_lineage : IdentityRow → Text → Catalog → Result Catalog
bind_source_lineage key name c =
    if same_text name []
    then err catalog_error
    else let e = ensure_dataset key c in
      elim (get_source_lineage key e.0) [
        | none ↦ ok (record (e.0) { datasets = set_provider e.1 name e.0.datasets })
        | some existing ↦ if same_text existing name then ok e.0 else err catalog_error
      ]

-- `get_coverage_segments`
unfoldable pub get_coverage_segments : IdentityRow → Catalog → List Segment
unfolding get_dataset_id
get_coverage_segments key c = elim (get_dataset_id key c) [
  | none ↦ []
  | some i ↦ sort_by (λ (s : Segment). s.start) (rows_of i c.coverage)
]

-- `_replace_coverage`
unfoldable pub replace_coverage : ℕ → List Segment → Catalog → Catalog
replace_coverage i segments c = record c { coverage = tagged i segments ++ without i c.coverage }

-- `apply_coverage`
unfoldable pub apply_coverage : IdentityRow → Segment → Catalog → Catalog × List Segment
unfolding ensure_dataset get_coverage_segments replace_coverage
apply_coverage key s c =
    let e = ensure_dataset key c in
    let normalized = apply_update (get_coverage_segments key e.0) s in
    (replace_coverage e.1 normalized e.0, normalized)

-- `apply_coverage_batch`
unfoldable pub apply_coverage_batch : IdentityRow → List Segment → Catalog → Catalog × List Segment
unfolding ensure_dataset get_coverage_segments replace_coverage
apply_coverage_batch key [] c = (c, get_coverage_segments key c)
apply_coverage_batch key (s ∷ segments) c =
    let e = ensure_dataset key c in
    let normalized = normalize_segments (get_coverage_segments key e.0 ++ s ∷ segments) in
    (replace_coverage e.1 normalized e.0, normalized)

-- `set_coverage`
unfoldable pub set_coverage : IdentityRow → List Segment → Catalog → Catalog
unfolding ensure_dataset replace_coverage
set_coverage key segments c =
    let e = ensure_dataset key c in replace_coverage e.1 (normalize_segments segments) e.0

-- `replace_coverage_range`
unfoldable pub replace_coverage_range :
    IdentityRow → Datetime → Datetime → List Segment → Catalog → Result Catalog
unfolding ensure_dataset get_coverage_segments replace_coverage
replace_coverage_range key start end replacements c =
    let e = ensure_dataset key c in
    do
      segments ← replace_range start end replacements (get_coverage_segments key e.0)
      ok (replace_coverage e.1 segments e.0)

-- `coverage_and_gaps`
unfoldable pub coverage_and_gaps : IdentityRow → Datetime → Datetime → Catalog → Result Split
unfolding get_coverage_segments
coverage_and_gaps key start end c = covered_and_gaps (get_coverage_segments key c) start end
