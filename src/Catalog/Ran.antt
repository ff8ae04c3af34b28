-- ===== src/Catalog/Ran.antt =====
-- What identifies a run stays, whatever is recorded of it.
use xret.Catalog.RunTable.{IsRunTable}
use xret.Catalog.RunRows.{write_run-IsWrittenRun, IsWrittenRun}
use xret.Catalog.Framed.{ensure_dataset-IsKept}
use xret.Catalog.Keys.{ensure_dataset-IsEnsured}
use mathlib.Core.Path.{subst}
use xret.Catalog.Files.{find_run}
use xret.Catalog.Runs.{record_ingestion_run, write_run, run_row, RunMetadata}
use xret.Identity.Keys.{IdentityRow}
use xret.Catalog.{ensure_dataset, get_dataset_id, RunRow, Catalog}
use xret.Catalog.Valid.{ensure_dataset-IsCatalog, Belongs, IsCatalog}
use xret.Prelude.{◌∙◌, ok_injective, after_ok, ◌≢◌, ℕ, some, refl, ok, Text, List, ◌≡◌}

-- The run reads back as given, under the key's data set; if it was known, under the same data set
-- and with the same identity and row; all other runs are unchanged and the tables consistent.
pub record IsRun (key : IdentityRow) (run : RunMetadata) (before after : Catalog) : Type 0 where
  pub dataset : ℕ
  pub id : ℕ
  pub of_key : get_dataset_id key after ≡ some dataset
  pub stored : find_run run.run_id after.runs ≡ some (dataset, run_row id run)
  pub immutable :
      (d : ℕ) (r : RunRow)
      → find_run run.run_id before.runs ≡ some (d, r)
      → (d ≡ dataset) × (r.identity ≡ run.identity) × (r.id ≡ id)
  pub others :
      (other : Text) → run.run_id ≢ other → find_run other after.runs ≡ find_run other before.runs
  pub valid : IsCatalog after

unfoldable pub with_runs : List (ℕ × RunRow) → Catalog → Catalog
with_runs runs c = record c { runs = runs }

with_runs-id :
    (key : IdentityRow) (runs : List (ℕ × RunRow)) (c : Catalog)
    → get_dataset_id key (with_runs runs c) ≡ get_dataset_id key c
unfolding with_runs get_dataset_id
with_runs-id key runs c = refl

with_runs-IsCatalog :
    (runs : List (ℕ × RunRow)) (c : Catalog)
    → IsCatalog c
    → Belongs c.datasets runs
    → IsRunTable runs
    → IsCatalog (with_runs runs c)
unfolding with_runs
with_runs-IsCatalog runs c v b t = record {
  keyed = v.keyed;
  of_coverage = v.of_coverage;
  of_ownership = v.of_ownership;
  of_files = v.of_files;
  of_runs = b;
  of_events = v.of_events;
  of_contributors = v.of_contributors;
  of_file_runs = v.of_file_runs;
  file_table = v.file_table;
  run_table = t;
}

pub record_ingestion_run-ok :
    (key : IdentityRow) (run : RunMetadata) (c after : Catalog)
    → record_ingestion_run key run c ≡ ok after
    → (runs : List (ℕ × RunRow)) × (write_run
          (ensure_dataset key c).1
          run
          (ensure_dataset key c).0.runs
        ≡ ok runs)
      × (with_runs runs (ensure_dataset key c).0 ≡ after)
unfolding record_ingestion_run with_runs
record_ingestion_run-ok key run c after h =
    let e = ensure_dataset key c in
    let got = after_ok (write_run e.1 run e.0.runs) (λ runs. ok (record (e.0) { runs = runs })) h in
    (got.0, got.1, ok_injective got.2)

ensured-IsRun :
    (key : IdentityRow) (run : RunMetadata) (c : Catalog) (runs : List (ℕ × RunRow))
    → IsCatalog c
    → IsWrittenRun (ensure_dataset key c).1 run c.runs runs
    → IsRun key run c (with_runs runs (ensure_dataset key c).0)
unfolding with_runs
ensured-IsRun key run c runs v w =
    let e = ensure_dataset key c in
    let f = ensure_dataset-IsEnsured key c v.keyed in
    let valid = ensure_dataset-IsCatalog key c v in
    let kept = (ensure_dataset-IsKept key c).runs in
    record {
      dataset = e.1;
      id = w.id;
      of_key = with_runs-id key runs e.0 ∙ f.found;
      stored = w.stored;
      immutable = w.immutable;
      others = w.others;
      valid =
          with_runs-IsCatalog runs e.0 valid
            (w.belongs e.0.datasets f.has_id (subst (Belongs e.0.datasets) kept valid.of_runs))
            (w.table v.run_table);
    }

-- A run that `record_ingestion_run` accepts, over consistent tables: it reads back as given, under
-- the key's data set; if its id was known, it was of the same data set, with the same requested
-- range, start and schema version, and stays the same row; all other runs are unchanged, and the
-- tables are consistent.
pub record_ingestion_run-IsRun :
    (key : IdentityRow) (run : RunMetadata) (c after : Catalog)
    → IsCatalog c
    → record_ingestion_run key run c ≡ ok after
    → IsRun key run c after
record_ingestion_run-IsRun key run c after v h =
    let got = record_ingestion_run-ok key run c after h in
    let kept = (ensure_dataset-IsKept key c).runs in
    subst (IsRun key run c) got.2 (
      ensured-IsRun key run c got.0 v (
        subst (λ runs. IsWrittenRun (ensure_dataset key c).1 run runs got.0) kept
          (write_run-IsWrittenRun (ensure_dataset key c).1 run (ensure_dataset key c).0.runs got.0
            got.1)))
