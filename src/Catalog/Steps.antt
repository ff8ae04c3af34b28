-- ===== src/Catalog/Steps.antt =====
-- The catalog from an empty database on, write after write.
use mathlib.Core.Path.{subst}
use xret.Catalog.Recorded.{record_source_ownership-IsRecorded}
use xret.Catalog.Ran.{record_ingestion_run-IsRun}
use xret.Catalog.Evented.{
  remove_file-IsFramed, record_quality_event-IsFramed, record_ingestion_run-IsFramed,
}
use xret.Catalog.Filed.{record_file-IsFiled}
use xret.Catalog.Frames.{ensure_dataset-IsFramed}
use xret.Catalog.Valid.{ensure_dataset-IsCatalog}
use xret.Catalog.Deleted.{delete_dataset-IsDeleted}
use xret.Catalog.Owners.{record_source_ownership, delete_dataset}
use xret.Catalog.Bound.{bind_source_lineage-IsFramed}
use xret.Catalog.Written.{
  set_coverage-IsWritten, replace_coverage_range-IsWritten, apply_coverage_batch-IsWritten,
}
use xret.Coverage.{normalize_segments, Segment}
use xret.Catalog.Runs.{
  record_quality_event, record_ingestion_run, RunMetadata, QualityEventMetadata,
}
use xret.Catalog.Sound.{
  written-IsSound, set_coverage-ownership, replace_coverage_range-ownership,
  record_source_ownership-coverage, owned-IsSound, framed-IsSound, deleted-IsSound,
  apply_coverage_batch-ownership, apply_coverage-batch, IsSound,
}
use xret.Coverage.Normal.{IsProper}
use xret.Evidence.{ProviderEvidence, IsEvidence}
use xret.Identity.Keys.{IdentityRow}
use xret.Catalog.Files.{remove_file, record_file, FileMetadata}
use xret.Timeframe.{Datetime}
use xret.Catalog.{
  get_dataset_id, find_dataset, set_coverage, replace_coverage_range, get_coverage_segments,
  ensure_dataset, bind_source_lineage, apply_coverage_batch, apply_coverage, Catalog,
}
use xret.Prelude.{sym, ok, [], Text, Option, List, All, ◌∷◌, ◌≡◌}

abbrev pub empty_catalog : Catalog
empty_catalog = record {
  datasets = [];
  ownership = [];
  coverage = [];
  files = [];
  contributors = [];
  runs = [];
  file_runs = [];
  events = [];
}

-- One write that succeeds; a refused one is rolled back.
pub data Step : Catalog → Catalog → Type 0 where
  ensuring : (key : IdentityRow) (c : Catalog) → Step c (ensure_dataset key c).0
  binding :
      (key : IdentityRow) (name : Text) (c after : Catalog)
      → bind_source_lineage key name c ≡ ok after
      → Step c after
  applying :
      (key : IdentityRow) (s : Segment) (c : Catalog)
      → IsProper s
      → Step c (apply_coverage key s c).0
  batching :
      (key : IdentityRow) (segments : List Segment) (c : Catalog)
      → All IsProper segments
      → Step c (apply_coverage_batch key segments c).0
  setting :
      (key : IdentityRow) (segments : List Segment) (c : Catalog)
      → All IsProper segments
      → Step c (set_coverage key segments c)
  replacing :
      (key : IdentityRow) (start end : Datetime) (replacements : List Segment) (c after : Catalog)
      → All IsProper replacements
      → replace_coverage_range key start end replacements c ≡ ok after
      → Step c after
  owning :
      (key : IdentityRow) (es : List ProviderEvidence) (c after : Catalog)
      → All IsEvidence es
      → record_source_ownership key es c ≡ ok after
      → Step c after
  filing :
      (key : IdentityRow) (m : FileMetadata) (run_id : Option Text) (c after : Catalog)
      → All IsEvidence m.contributors
      → record_file key m run_id c ≡ ok after
      → Step c after
  removing : (path : Text) (c : Catalog) → Step c (remove_file path c)
  running :
      (key : IdentityRow) (run : RunMetadata) (c after : Catalog)
      → record_ingestion_run key run c ≡ ok after
      → Step c after
  noting :
      (key : IdentityRow) (event : QualityEventMetadata) (now : Datetime) (c after : Catalog)
      → record_quality_event key event now c ≡ ok after
      → Step c after
  deleting : (key : IdentityRow) (c : Catalog) → Step c (delete_dataset key c)

pub data IsReached : Catalog → Type 0 where
  fresh : IsReached empty_catalog
  written : (c after : Catalog) → IsReached c → Step c after → IsReached after

batch-IsSound :
    (key : IdentityRow) (segments : List Segment) (c : Catalog)
    → All IsProper segments
    → IsSound c
    → IsSound (apply_coverage_batch key segments c).0
batch-IsSound key segments c p s =
    let w = apply_coverage_batch-IsWritten key segments c s.valid (s.normal key) p in
    written-IsSound key c (apply_coverage_batch key segments c).0
      (apply_coverage_batch key segments c).1 s w.0 w.1
      (λ k. apply_coverage_batch-ownership key segments c k s.valid)

Step-IsSound : (c after : Catalog) → Step c after → IsSound c → IsSound after
Step-IsSound c after (ensuring key _) s =
    framed-IsSound c after s (ensure_dataset-IsFramed key c s.valid)
      (ensure_dataset-IsCatalog key c s.valid)
Step-IsSound c after (binding key name _ _ h) s =
    let f = bind_source_lineage-IsFramed key name c after s.valid h in
    framed-IsSound c after s f.0 f.1
Step-IsSound c after (applying key x _ p) s =
    subst (λ d. IsSound d.0) (sym (apply_coverage-batch key x c))
      (batch-IsSound key (x ∷ []) c (p, tt) s)
Step-IsSound c after (batching key segments _ p) s = batch-IsSound key segments c p s
Step-IsSound c after (setting key segments _ p) s =
    let w = set_coverage-IsWritten key segments c s.valid p in
    written-IsSound key c after (normalize_segments segments) s w.0 w.1
      (λ k. set_coverage-ownership key segments c k s.valid)
Step-IsSound c after (replacing key start end replacements _ _ p h) s =
    let w =
      replace_coverage_range-IsWritten key start end replacements c after s.valid (s.normal key) p
        h in
    written-IsSound key c after (get_coverage_segments key after) s w.0 w.1
      (λ k. replace_coverage_range-ownership key start end replacements c after k s.valid h)
Step-IsSound c after (owning key es _ _ p h) s =
    let r = record_source_ownership-IsRecorded key es c after s.valid p (s.separate key) h in
    owned-IsSound key c after s r.grown.separate r.others
      (λ k. record_source_ownership-coverage key es c after k s.valid h) r.valid
Step-IsSound c after (filing key m run_id _ _ p h) s =
    let f = record_file-IsFiled key m run_id c after s.valid p (s.separate key) h in
    owned-IsSound key c after s f.separate f.others f.coverage f.valid
Step-IsSound c after (removing path _) s =
    let f = remove_file-IsFramed path c s.valid in framed-IsSound c after s f.1 f.2
Step-IsSound c after (running key run _ _ h) s =
    framed-IsSound c after s (record_ingestion_run-IsFramed key run c after s.valid h)
      (record_ingestion_run-IsRun key run c after s.valid h).valid
Step-IsSound c after (noting key event now _ _ h) s =
    let f = record_quality_event-IsFramed key event now c after s.valid h in
    framed-IsSound c after s f.0 f.1
Step-IsSound c after (deleting key _) s =
    deleted-IsSound key c after s (delete_dataset-IsDeleted key c s.valid)

empty-IsSound : IsSound empty_catalog
unfolding get_coverage_segments get_dataset_id find_dataset
empty-IsSound = record {
  valid = record {
    keyed = tt;
    file_table = tt;
    run_table = tt;
    of_coverage = tt;
    of_ownership = tt;
    of_files = tt;
    of_runs = tt;
    of_events = tt;
    of_contributors = tt;
    of_file_runs = tt;
  };
  normal = λ k. tt;
  separate = λ k. tt;
}

-- A catalog that any sequence of successful writes has made of an empty one, with nonempty segments
-- and well-formed contributors, is sound. Each data set has its own id and identity, each file its
-- own id and path, each run its own id and run id. The rows of coverage, ownership, files, runs and
-- events belong to a data set, those of contributors and links to a file. Every key's coverage is
-- in normal form, and no two ownership ranges of a key overlap.
pub IsReached-IsSound : (c : Catalog) → IsReached c → IsSound c
IsReached-IsSound c fresh = empty-IsSound
IsReached-IsSound c (written d _ r s) = Step-IsSound d c s (IsReached-IsSound d r)
