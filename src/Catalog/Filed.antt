-- ===== src/Catalog/Filed.antt =====
-- What recording a published file leaves in the catalog.
use xret.Catalog.Tables.{rows_of}
use xret.Catalog.Framed.{ensure_dataset-IsKept}
use xret.Catalog.Frames.{ensure_dataset-IsFramed}
use xret.Catalog.Linked.{
  write_file-linked, with_files-rows, with_files-IsCatalog, with_files, owned, linked-IsFiled,
  IsFiled,
}
use mathlib.Core.Path.{subst}
use xret.Catalog.Recorded.{ensured_ownership, record_source_ownership-IsRecorded}
use xret.Catalog.Owners.{ownership_rows}
use xret.Catalog.Upserted.{upserted}
use xret.Catalog.Ranges.{IsSeparate}
use xret.Evidence.{IsEvidence}
use xret.Identity.Keys.{IdentityRow}
use xret.Catalog.Keys.{ensure_dataset-IsEnsured, HasId}
use xret.Catalog.Valid.{ensure_dataset-IsCatalog, IsCatalog}
use xret.Catalog.Files.{
  run_to_link, is_reparented, write_file, record_file, find_file, FileMetadata,
}
use xret.Catalog.{ensure_dataset, get_dataset_id, Catalog}
use xret.Prelude.{
  ap, ◌>>=◌, past_guard, catalog_error, ◌∙◌, after_ok, ℕ, some, ok, Text, Option, All, ◌≡◌,
}

write_file-IsFiled :
    (key : IdentityRow) (m : FileMetadata) (d : ℕ) (run : Option ℕ) (c after : Catalog)
    → IsCatalog c
    → get_dataset_id key c ≡ some d
    → HasId d c.datasets
    → All IsEvidence m.contributors
    → IsSeparate (ownership_rows key c)
    → write_file key m d run c ≡ ok after
    → IsFiled key m c after
write_file-IsFiled key m d run c after v e i p s h =
    let files = (upserted d m c.files).1 in
    let got = write_file-linked key m d run c after e h in
    let r =
      record_source_ownership-IsRecorded key m.contributors (with_files files c)
        (owned key m d run c) (with_files-IsCatalog key m d run c v i) p
        (rw (with_files-rows key files c) s) got.0 in
    subst (IsFiled key m c) got.1
      (linked-IsFiled key m d run c e v.file_table r.grown.separate r.others r.valid)

-- From behind `ensure_dataset`, which changes the coverage and the ownership of no key.
ensured-IsFiled :
    (key : IdentityRow) (m : FileMetadata) (c after : Catalog)
    → IsCatalog c
    → IsFiled key m (ensure_dataset key c).0 after
    → IsFiled key m c after
ensured-IsFiled key m c after v f =
    let e = ensure_dataset-IsFramed key c v in
    let k = ensure_dataset-IsKept key c in
    record {
      dataset = f.dataset;
      id = f.id;
      of_key = f.of_key;
      file = f.file;
      evidence = f.evidence;
      separate = f.separate;
      others = λ other ne. f.others other ne ∙ e.ownership other;
      coverage = λ k. f.coverage k ∙ e.coverage k;
      files = λ path ne. f.files path ne ∙ ap (find_file path) k.files;
      contributors = λ i ne. f.contributors i ne ∙ ap (rows_of i) k.contributors;
      links = λ i ne. f.links i ne ∙ ap (rows_of i) k.file_runs;
      runs = f.runs ∙ k.runs;
      events = f.events ∙ k.events;
      valid = f.valid;
    }

-- The run that was linked, if any.
record_file-ok :
    (key : IdentityRow) (m : FileMetadata) (run_id : Option Text) (c after : Catalog)
    → record_file key m run_id c ≡ ok after
    → (run : Option ℕ) × (write_file key m (ensure_dataset key c).1 run (ensure_dataset key c).0
        ≡ ok after)
unfolding record_file
record_file-ok key m run_id c after h =
    let e = ensure_dataset key c in
    let passed =
      past_guard catalog_error
        (is_reparented (find_file m.relative_path c.files) (get_dataset_id key c))
        (run_to_link run_id e.1 e.0.runs >>= λ run. write_file key m e.1 run e.0) after h in
    let got =
      after_ok (run_to_link run_id e.1 e.0.runs) (λ run. write_file key m e.1 run e.0) passed in
    (got.0, got.2)

pub record_file-IsFiled :
    (key : IdentityRow) (m : FileMetadata) (run_id : Option Text) (c after : Catalog)
    → IsCatalog c
    → All IsEvidence m.contributors
    → IsSeparate (ownership_rows key c)
    → record_file key m run_id c ≡ ok after
    → IsFiled key m c after
record_file-IsFiled key m run_id c after v p s h =
    let e = ensure_dataset key c in
    let f = ensure_dataset-IsEnsured key c v.keyed in
    let got = record_file-ok key m run_id c after h in
    ensured-IsFiled key m c after v (
      write_file-IsFiled key m e.1 got.0 e.0 after (ensure_dataset-IsCatalog key c v) f.found
        f.has_id p (rw (ensured_ownership key c v) s) got.1)
