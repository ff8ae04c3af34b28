-- ===== src/Tests/Catalogs.antt =====
-- A catalog with one data set, its coverage, a file of one contributor and a run.
use xret.Catalog.Answers.{recorded_coverage_answers}
use xret.Coverage.Gaps.{Divides}
use xret.Catalog.Committed.{committed_file_visible}
use xret.Catalog.Repeated.{record_source_ownership-again}
use xret.Catalog.Filed.{record_file-IsFiled}
use mathlib.Core.Bool.{false≢true}
use xret.Catalog.Lineage.{bind_source_lineage-accepted}
use xret.Catalog.Written.{replace_coverage_range-IsWritten, apply_coverage_batch-IsWritten}
use xret.Catalog.Runs.{
  write_run, terminal_commit_is_visible, same_identity, run_row, record_ingestion_run, is_identity,
  identity_of, has_hashes, has_hash, RunMetadata,
}
use xret.Catalog.Coverages.{IsWritten}
use xret.Catalog.Ran.{record_ingestion_run-IsRun, IsRun}
use xret.Catalog.Recorded.{recorded_request-refused, record_source_ownership-IsRecorded, IsRecorded}
use xret.Catalog.Deleted.{delete_dataset-IsDeleted, IsDeleted}
use xret.Catalog.Valid.{IsCatalog}
use xret.Catalog.Files.{
  write_file, upsert_file, run_to_link, record_file, numbered, link, is_reparented, find_run,
  find_file, file_row, FileMetadata,
}
use mathlib.Core.Path.{subst}
use xret.Catalog.Tables.{without, tagged, sort_by, rows_of}
use xret.Catalog.Owners.{
  without_all, validate_provider_request, unlink_all, forget_runs, delete_with, delete_row,
  delete_dataset, validate_source_ownership, validate_from, record_source_ownership, owner,
  insert_owners, insert_owner, has_range,
}
use xret.Coverage.{Split, replace_range, seg, normalize_segments, StoredStatus, Segment}
use xret.Catalog.Sound.{IsSound}
use xret.Catalog.Steps.{empty_catalog, Step, IsReached-IsSound, IsReached}
use xret.Coverage.Normal.{IsProper}
use xret.Evidence.{provider_evidence-IsEvidence, provider_evidence, ProviderEvidence, IsEvidence}
use xret.Identity.Keys.{same_row, IdentityRow}
use xret.Catalog.{
  coverage_and_gaps, replace_coverage_range, set_provider, replace_coverage, get_source_lineage,
  get_dataset_id, get_coverage_segments, find_dataset, ensure_dataset, bind_source_lineage,
  apply_coverage_batch, DatasetRow, Catalog,
}
use xret.Prelude.{
  ◌&&◌, inl, ◌++◌, ◌≢◌, ◌<◌, true, sym, some_injective, false, err, catalog_error, ap, some,
  same_text, refl, ok, none, codes, arith, [], List, All, ◌∷◌, ◌≡◌,
}

abbrev bars : IdentityRow
bars = record {
  family = codes "ohlcv";
  variant = codes "";
  exchange = codes "okx";
  symbol = codes "BTC/USDT";
  market = codes "spot";
  settle = codes "";
  timeframe = codes "1h";
}

abbrev pub archive : ProviderEvidence
archive = record {
  provider_name = codes "archive";
  provider_version = codes "1";
  provider_api_version = 1;
  native_market_id = codes "BTCUSDT";
  native_symbol = codes "BTCUSDT";
  normalizations = [];
  reference_target_scope = none;
  derivative_linear = none;
  derivative_inverse = none;
  contract_size = none;
  source_field_mapping = none;
  contributed_start = some 10;
  contributed_end = some 20;
  source_route = none;
  object_key = none;
  checksum_algorithm = none;
  checksum_value = none;
  source_revision = some (codes "r1");
  retrieved_at = none;
  source_rows = none;
  canonical_rows = none;
  duplicate_rows = none;
}

archive_evidence : provider_evidence archive ≡ ok archive
unfolding provider_evidence
archive_evidence = refl

archive-IsEvidence : All IsEvidence (archive ∷ [])
archive-IsEvidence = ((provider_evidence-IsEvidence archive archive archive_evidence).1, tt)

abbrev hours : List Segment
hours = seg 10 15 StoredStatus.available ∷ seg 15 20 StoredStatus.available ∷ []

hours-IsProper : All IsProper hours
hours-IsProper = (omega arith, (omega arith, tt))

abbrev bound_row : DatasetRow
bound_row = record { id = 1; identity = bars; provider_name = some (codes "archive") }

abbrev bound_catalog : Catalog
bound_catalog = record empty_catalog { datasets = bound_row ∷ [] }

abbrev covered : Catalog
covered = record bound_catalog { coverage = (1, seg 10 20 StoredStatus.available) ∷ [] }

abbrev owned_catalog : Catalog
owned_catalog = record covered { ownership = (1, owner 10 20 (codes "archive")) ∷ [] }

binds : bind_source_lineage bars (codes "archive") empty_catalog ≡ ok bound_catalog
unfolding bind_source_lineage ensure_dataset get_dataset_id find_dataset get_source_lineage
    set_provider same_row same_text
binds = refl

records : record_source_ownership bars (archive ∷ []) covered ≡ ok owned_catalog
unfolding record_source_ownership validate_source_ownership validate_from insert_owners insert_owner
    ensure_dataset get_dataset_id find_dataset same_row same_text rows_of has_range
records = refl

batches : (apply_coverage_batch bars hours bound_catalog).0 ≡ covered
unfolding apply_coverage_batch ensure_dataset get_dataset_id find_dataset same_row same_text rows_of
    get_coverage_segments replace_coverage sort_by normalize_segments tagged without
batches = refl

bound-IsReached : IsReached bound_catalog
bound-IsReached =
    IsReached.written empty_catalog bound_catalog IsReached.fresh
      (Step.binding bars (codes "archive") empty_catalog bound_catalog binds)

covered-IsReached : IsReached covered
covered-IsReached =
    IsReached.written bound_catalog covered bound-IsReached
      (subst (Step bound_catalog) batches (Step.batching bars hours bound_catalog hours-IsProper))

owned-IsReached : IsReached owned_catalog
owned-IsReached =
    IsReached.written covered owned_catalog covered-IsReached
      (Step.owning bars (archive ∷ []) covered owned_catalog archive-IsEvidence records)

IsReached-IsSound_example : IsSound owned_catalog
IsReached-IsSound_example = IsReached-IsSound owned_catalog owned-IsReached

covered-IsSound : IsSound covered
covered-IsSound = IsReached-IsSound covered covered-IsReached

owned-IsSound : IsSound owned_catalog
owned-IsSound = IsReached-IsSound owned_catalog owned-IsReached

record_source_ownership-IsRecorded_example : IsRecorded bars (archive ∷ []) covered owned_catalog
record_source_ownership-IsRecorded_example =
    record_source_ownership-IsRecorded bars (archive ∷ []) covered owned_catalog
      covered-IsSound.valid archive-IsEvidence (covered-IsSound.separate bars) records

record_source_ownership-again_example :
    record_source_ownership bars (archive ∷ []) owned_catalog ≡ ok owned_catalog
record_source_ownership-again_example =
    record_source_ownership-again bars (archive ∷ []) covered owned_catalog covered-IsSound.valid
      archive-IsEvidence (covered-IsSound.separate bars) records

other_name : codes "archive" ≢ codes "live"
unfolding same_text
other_name e = false≢true (ap (same_text (codes "archive")) (sym e))

recorded_request-refused_example :
    validate_provider_request bars 15 25 (codes "live") owned_catalog ≡ err catalog_error
recorded_request-refused_example =
    recorded_request-refused bars (archive ∷ []) archive covered owned_catalog 15 25 (codes "live")
      covered-IsSound.valid archive-IsEvidence (covered-IsSound.separate bars) records (inl refl)
      other_name (λ a e. subst (λ n. n < 25) (some_injective e) (omega arith))
      (λ b e. subst (λ n. 15 < n) (some_injective e) (omega arith))

abbrev pub january : FileMetadata
january = record {
  relative_path = codes "ohlcv/okx/2024/01.parquet";
  year = 2024;
  month = 1;
  row_count = 10;
  min_timestamp = 10;
  max_timestamp = 19;
  physical_hash = codes "abc";
  schema_version = 1;
  contributors = archive ∷ [];
}

abbrev filed : Catalog
filed = record owned_catalog {
  files = (1, file_row 1 january) ∷ [];
  contributors = (1, record { ordinal = 0; evidence = archive }) ∷ [];
}

files_it : record_file bars january none covered ≡ ok filed
unfolding record_file write_file upsert_file find_file is_reparented run_to_link link numbered
    without tagged record_source_ownership validate_source_ownership validate_from insert_owners
    insert_owner ensure_dataset get_dataset_id find_dataset same_row same_text rows_of has_range
files_it = refl

abbrev finished : RunMetadata
finished = record {
  run_id = codes "run-1";
  identity = record {
    requested_start = 10;
    requested_end = 20;
    started_at = 30;
    schema_version = 1;
  };
  details = record {
    status = codes "completed";
    provider_name = some (codes "archive");
    provider_version = none;
    provider_api_version = none;
    provider_market_id = none;
    native_symbol = none;
    actual_start = none;
    actual_end = none;
    retrieved_at = none;
    completed_at = some 40;
    row_count = 10;
  };
}

abbrev ran : Catalog
ran = record filed { runs = (1, run_row 1 finished) ∷ [] }

runs_it : record_ingestion_run bars finished filed ≡ ok ran
unfolding record_ingestion_run write_run find_run ensure_dataset get_dataset_id find_dataset
    same_row same_text
runs_it = refl

filed-IsCatalog : IsCatalog filed
filed-IsCatalog =
    (record_file-IsFiled bars january none covered filed covered-IsSound.valid archive-IsEvidence
      (covered-IsSound.separate bars) files_it).valid

record_ingestion_run-IsRun_example : IsRun bars finished filed ran
record_ingestion_run-IsRun_example =
    record_ingestion_run-IsRun bars finished filed ran filed-IsCatalog runs_it

-- The terminal commit of the run is seen with its file, and not with another hash.
commit_seen :
    terminal_commit_is_visible bars finished ((january.relative_path, codes "abc") ∷ []) ran ≡ true
unfolding terminal_commit_is_visible find_run find_file same_identity is_identity identity_of
    has_hashes has_hash same_row same_text
commit_seen = refl

commit_unseen :
    terminal_commit_is_visible bars finished ((january.relative_path, codes "abd") ∷ []) ran ≡ false
unfolding terminal_commit_is_visible find_run find_file same_identity is_identity identity_of
    has_hashes has_hash same_row same_text
commit_unseen = refl

delete_dataset-IsDeleted_example : IsDeleted bars filed (delete_dataset bars filed)
delete_dataset-IsDeleted_example = delete_dataset-IsDeleted bars filed filed-IsCatalog

deletes : delete_dataset bars filed ≡ empty_catalog
unfolding delete_dataset delete_with delete_row without without_all unlink_all forget_runs rows_of
    get_dataset_id find_dataset same_row same_text
deletes = refl

bind_source_lineage-accepted_example :
    get_source_lineage bars bound_catalog ≡ some (codes "archive")
bind_source_lineage-accepted_example =
    (bind_source_lineage-accepted bars (codes "archive") empty_catalog bound_catalog tt binds).2

apply_coverage_batch-IsWritten_example :
    IsWritten bars bound_catalog
      (apply_coverage_batch bars hours bound_catalog).0
      (apply_coverage_batch bars hours bound_catalog).1
apply_coverage_batch-IsWritten_example =
    (apply_coverage_batch-IsWritten bars hours bound_catalog
      (IsReached-IsSound bound_catalog bound-IsReached).valid
      ((IsReached-IsSound bound_catalog bound-IsReached).normal bars) hours-IsProper).0

abbrev cut_catalog : Catalog
cut_catalog = record bound_catalog {
  coverage =
      (1, seg 10 12 StoredStatus.available)
      ∷ (1, seg 12 18 StoredStatus.unavailable)
      ∷ (1, seg 18 20 StoredStatus.available)
      ∷ [];
}

abbrev outage : List Segment
outage = seg 12 18 StoredStatus.unavailable ∷ []

replaces : replace_coverage_range bars 12 18 outage covered ≡ ok cut_catalog
unfolding replace_coverage_range replace_range replace_coverage ensure_dataset get_dataset_id
    find_dataset same_row same_text rows_of get_coverage_segments sort_by normalize_segments tagged
    without
replaces = refl

replace_coverage_range-IsWritten_example :
    IsWritten bars covered cut_catalog (get_coverage_segments bars cut_catalog)
replace_coverage_range-IsWritten_example =
    (replace_coverage_range-IsWritten bars 12 18 outage covered cut_catalog covered-IsSound.valid
      (covered-IsSound.normal bars) (omega arith, tt) replaces).0

committed_file_visible_example :
    terminal_commit_is_visible bars finished ((january.relative_path, codes "abd") ∷ []) ran ≡ (
      same_text finished.details.status (codes "completed")
      && same_identity finished.identity finished.identity
      && same_row bars bars
      && same_text january.physical_hash (codes "abd"))
committed_file_visible_example =
    committed_file_visible bars bars january (codes "abd") none finished finished covered filed ran
      covered-IsSound.valid archive-IsEvidence (covered-IsSound.separate bars) files_it runs_it refl

recorded_coverage_answers_example :
    (s : Split) × (coverage_and_gaps bars 5 25 (apply_coverage_batch bars hours bound_catalog).0
      ≡ ok s)
    × Divides 5 25 (get_coverage_segments bars bound_catalog ++ hours) s
recorded_coverage_answers_example =
    recorded_coverage_answers bars hours 5 25 bound_catalog
      (IsReached-IsSound bound_catalog bound-IsReached).valid
      ((IsReached-IsSound bound_catalog bound-IsReached).normal bars) hours-IsProper (omega arith)
