-- ===== src/Catalog/Committed.antt =====
-- When the terminal commit of a run is seen, once the run and its file are recorded.
use xret.Catalog.Repeated.{found_again}
use mathlib.Core.Path.{subst}
use xret.Catalog.Ran.{record_ingestion_run-ok, with_runs, record_ingestion_run-IsRun}
use xret.Catalog.Filed.{record_file-IsFiled}
use xret.Catalog.Owners.{ownership_rows}
use xret.Catalog.Tables.{same_id, other_id}
use xret.Catalog.Runs.{
  terminal_commit_is_visible, same_identity, run_row, record_ingestion_run, is_identity,
  identity_of, has_hashes, has_hash, RunMetadata,
}
use xret.Catalog.Ranges.{IsSeparate}
use xret.Evidence.{IsEvidence}
use xret.Catalog.Valid.{IsCatalog}
use xret.Identity.Keys.{same_row→eq, same_row, IdentityRow}
use xret.Catalog.Keys.{id_of, find_dataset-HasId, IsKeyed, HasNoId-ne}
use xret.Catalog.Files.{record_file, find_run, find_file, file_row, FileMetadata}
use xret.Catalog.{RunRow, get_dataset_id, find_dataset, DatasetRow, Catalog}
use xret.Prelude.{
  ◌&&◌, same_text, Bool, ◌∙◌, ◌==◌, ℕ, true, sym, some_injective, some, refl, ok, inr, inl,
  if◌then◌else◌, codes, arith, ap, [], Text, Option, List, Bool-cases, All, ◌∷◌, ◌≡◌,
}

-- The data set that a key finds has the identity of the key.
pub identity_of-found :
    (key : IdentityRow) (rows : List DatasetRow) (r : DatasetRow)
    → IsKeyed rows
    → find_dataset key rows ≡ some r
    → identity_of r.id rows ≡ some key
unfolding find_dataset identity_of
identity_of-found key [] r k h = cc
identity_of-found key (x ∷ rows) r k h = elim (Bool-cases (same_row x.identity key)) [
  | inl e ↦
      let x_r : x ≡ r = some_injective (rw e at h) in
      subst
        (λ (y : DatasetRow).
          (if x.id == y.id then some x.identity else identity_of y.id rows) ≡ some key)
        x_r (rw (same_id x.id) (ap some (same_row→eq x.identity key e)))
  | inr e ↦
      let f : find_dataset key rows ≡ some r = (rw e at h) in
      rw
        (other_id x.id r.id
          (λ p. HasNoId-ne x.id r.id rows k.0 (find_dataset-HasId key rows r f) (sym p)))
        (identity_of-found key rows r k.2 f)
]

is_identity-of :
    (key other : IdentityRow) (c : Catalog) (d : ℕ)
    → IsKeyed c.datasets
    → get_dataset_id key c ≡ some d
    → is_identity (identity_of d c.datasets) other ≡ same_row key other
unfolding is_identity
is_identity-of key other c d k h =
    let r = id_of key c d h in
    subst (λ n. is_identity (identity_of n c.datasets) other ≡ same_row key other) r.2
      (rw (identity_of-found key c.datasets r.0 k r.1) refl)

-- The four tests of the check, of the row that was stored for the run.
seen :
    (key other : IdentityRow) (run asked : RunMetadata) (expected : List (Text × Text))
    (c : Catalog) (d i : ℕ)
    → IsKeyed c.datasets
    → get_dataset_id key c ≡ some d
    → find_run asked.run_id c.runs ≡ some (d, run_row i run)
    → terminal_commit_is_visible other asked expected c ≡ (
        same_text run.details.status (codes "completed")
        && same_identity run.identity asked.identity
        && same_row key other
        && has_hashes other expected c)
unfolding terminal_commit_is_visible
seen key other run asked expected c d i k h f =
    rw (f, terminal_commit_is_visible) (rw (is_identity-of key other c d k h) refl)

hash_of :
    (key other : IdentityRow) (m : FileMetadata) (hash : Text) (c : Catalog) (d i : ℕ)
    → IsKeyed c.datasets
    → get_dataset_id key c ≡ some d
    → find_file m.relative_path c.files ≡ some (d, file_row i m)
    → has_hashes other ((m.relative_path, hash) ∷ []) c
      ≡ ((same_row key other && same_text m.physical_hash hash) && true)
unfolding has_hashes has_hash
hash_of key other m hash c d i k h f = rw (f, has_hash) (rw (is_identity-of key other c d k h) refl)

four_tests : (a b r h : Bool) → (a && b && r && ((r && h) && true)) ≡ (a && b && r && h)
four_tests a b r h = ground arith

table_kept :
    (key : IdentityRow) (runs : List (ℕ × RunRow)) (c : Catalog) (d : ℕ)
    → get_dataset_id key c ≡ some d
    → ((with_runs runs c).files ≡ c.files) × (get_dataset_id key (with_runs runs c) ≡ some d)
unfolding with_runs get_dataset_id
table_kept key runs c d e = (refl, e)

-- The run leaves the files and, where the data set is there, the data sets.
run_kept :
    (key : IdentityRow) (run : RunMetadata) (c after : Catalog) (d : ℕ)
    → get_dataset_id key c ≡ some d
    → record_ingestion_run key run c ≡ ok after
    → (after.files ≡ c.files) × (get_dataset_id key after ≡ some d)
run_kept key run c after d e h =
    let got = record_ingestion_run-ok key run c after h in
    let same : with_runs got.0 c ≡ after =
      ap (λ (x : Catalog × ℕ). with_runs got.0 x.0) (sym (found_again key c d e)) ∙ got.2 in
    subst (λ (x : Catalog). (x.files ≡ c.files) × (get_dataset_id key x ≡ some d)) same
      (table_kept key got.0 c d e)

-- A file that is recorded, and then a run for the same key, over consistent tables with well-formed
-- contributors and ownership without overlaps. The terminal commit of a run with the same run id is
-- visible under a key, with the path of the file and a hash, just if four things hold: the run was
-- recorded as completed, its identity is the one asked for, the key is the one that was recorded,
-- and the hash is the one of the file.
pub committed_file_visible :
    (key other : IdentityRow) (m : FileMetadata) (hash : Text) (run_id : Option Text)
    (run asked : RunMetadata) (c between after : Catalog)
    → IsCatalog c
    → All IsEvidence m.contributors
    → IsSeparate (ownership_rows key c)
    → record_file key m run_id c ≡ ok between
    → record_ingestion_run key run between ≡ ok after
    → asked.run_id ≡ run.run_id
    → terminal_commit_is_visible other asked ((m.relative_path, hash) ∷ []) after ≡ (
        same_text run.details.status (codes "completed")
        && same_identity run.identity asked.identity
        && same_row key other
        && same_text m.physical_hash hash)
committed_file_visible key other m hash run_id run asked c between after v p o f h same =
    let filed = record_file-IsFiled key m run_id c between v p o f in
    let r = record_ingestion_run-IsRun key run between after filed.valid h in
    let kept = run_kept key run between after filed.dataset filed.of_key h in
    let stored : find_run asked.run_id after.runs ≡ some (r.dataset, run_row r.id run) =
      ap (λ name. find_run name after.runs) same ∙ r.stored in
    seen key other run asked ((m.relative_path, hash) ∷ []) after r.dataset r.id r.valid.keyed
      r.of_key stored
    ∙ ap
        (λ b.
          same_text run.details.status (codes "completed")
          && same_identity run.identity asked.identity
          && same_row key other
          && b)
        (hash_of key other m hash after filed.dataset filed.id r.valid.keyed kept.1
          (ap (find_file m.relative_path) kept.0 ∙ filed.file))
    ∙ four_tests (same_text run.details.status (codes "completed"))
        (same_identity run.identity asked.identity) (same_row key other)
        (same_text m.physical_hash hash)
