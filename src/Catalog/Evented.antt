-- ===== src/Catalog/Evented.antt =====
-- Runs, quality events and the removal of files change no coverage and no ownership.
use xret.Catalog.Uniques.{drop_file-IsFileTable}
use xret.Catalog.Owners.{without_all}
use mathlib.Core.Path.{subst}
use xret.Catalog.Ran.{with_runs, record_ingestion_run-ok}
use xret.Catalog.Files.{run_to_link, remove_file, find_file, dropped_ids, drop_file}
use xret.Catalog.Runs.{
  record_quality_event, record_ingestion_run, largest_event, created, RunMetadata,
  QualityEventMetadata,
}
use xret.Catalog.Frames.{with_other-IsFramed, ensure_dataset-IsFramed, IsFramed-trans, IsFramed}
use xret.Identity.Keys.{IdentityRow}
use xret.Catalog.Keys.{ensure_dataset-IsEnsured, HasId}
use xret.Timeframe.{Datetime}
use xret.Catalog.{ensure_dataset, FileRow, EventRow, Catalog}
use xret.Catalog.Cascade.{NotIn, AllIds-without_all, AllIds-map}
use xret.Catalog.Valid.{ensure_dataset-IsCatalog, OfFiles, IsCatalog, HasFile, Belongs, AllIds}
use xret.Prelude.{
  ℕ, sym, suc, same_text, refl, ok_injective, ok, none, inr, inl, [], Text, Option, List,
  Bool-cases, after_ok, ◌∷◌, ◌≡◌,
}

pub record_ingestion_run-IsFramed :
    (key : IdentityRow) (run : RunMetadata) (c after : Catalog)
    → IsCatalog c
    → record_ingestion_run key run c ≡ ok after
    → IsFramed c after
record_ingestion_run-IsFramed key run c after v h =
    let e = (ensure_dataset key c).0 in
    let got = record_ingestion_run-ok key run c after h in
    subst (IsFramed c) got.2 (
      IsFramed-trans c e (with_runs got.0 e) (ensure_dataset-IsFramed key c v) (
        unfold with_runs in
        with_other-IsFramed e.files e.contributors got.0 e.file_runs e.events e))

with_events : List (ℕ × EventRow) → Catalog → Catalog
with_events events c = record c { events = events }

with_events-IsFramed :
    (events : List (ℕ × EventRow)) (c : Catalog) → IsFramed c (with_events events c)
unfolding with_events
with_events-IsFramed events c =
    with_other-IsFramed c.files c.contributors c.runs c.file_runs events c

with_events-IsCatalog :
    (events : List (ℕ × EventRow)) (c : Catalog)
    → IsCatalog c
    → Belongs c.datasets events
    → IsCatalog (with_events events c)
unfolding with_events
with_events-IsCatalog events c v b = record {
  keyed = v.keyed;
  of_coverage = v.of_coverage;
  of_ownership = v.of_ownership;
  of_files = v.of_files;
  of_runs = v.of_runs;
  of_events = b;
  of_contributors = v.of_contributors;
  of_file_runs = v.of_file_runs;
  file_table = v.file_table;
  run_table = v.run_table;
}

record_quality_event-ok :
    (key : IdentityRow) (event : QualityEventMetadata) (now : Datetime) (c after : Catalog)
    → record_quality_event key event now c ≡ ok after
    → (v : EventRow) × (with_events
          (((ensure_dataset key c).1, v) ∷ (ensure_dataset key c).0.events)
          (ensure_dataset key c).0
        ≡ after)
unfolding record_quality_event with_events
record_quality_event-ok key event now c after h =
    let e = ensure_dataset key c in
    let row : Option ℕ → EventRow = λ run. record {
      id = suc (largest_event e.0.events);
      run = run;
      severity = event.severity;
      code = event.code;
      message = event.message;
      created_at = created event.created_at now;
    } in
    let got =
      after_ok (run_to_link event.run_id e.1 e.0.runs)
        (λ run. ok (record (e.0) { events = (e.1, row run) ∷ e.0.events })) h in
    (row got.0, ok_injective got.2)

pub record_quality_event-IsFramed :
    (key : IdentityRow) (event : QualityEventMetadata) (now : Datetime) (c after : Catalog)
    → IsCatalog c
    → record_quality_event key event now c ≡ ok after
    → IsFramed c after × IsCatalog after
record_quality_event-IsFramed key event now c after v h =
    let e = ensure_dataset key c in
    let got = record_quality_event-ok key event now c after h in
    let events = (e.1, got.0) ∷ e.0.events in
    let valid = ensure_dataset-IsCatalog key c v in
    subst (λ x. IsFramed c x × IsCatalog x) got.1
      (
        IsFramed-trans c e.0 (with_events events e.0) (ensure_dataset-IsFramed key c v)
            (with_events-IsFramed events e.0),
        with_events-IsCatalog events e.0 valid
            ((ensure_dataset-IsEnsured key c v.keyed).has_id, valid.of_events),
      )

-- Files that stay when those at a path go.
drop_file-AllIds :
    (P : ℕ → Type 0) (path : Text) (files : List (ℕ × FileRow))
    → AllIds P files
    → AllIds P (drop_file path files)
unfolding drop_file
drop_file-AllIds P path [] h = tt
drop_file-AllIds P path ((d, f) ∷ files) h = elim (Bool-cases (same_text f.relative_path path)) [
  | inl e ↦ rw e (drop_file-AllIds P path files h.1)
  | inr e ↦ rw e (h.0, drop_file-AllIds P path files h.1)
]

drop_file-HasFile :
    (path : Text) (i : ℕ) (files : List (ℕ × FileRow))
    → HasFile i files
    → NotIn i (dropped_ids path files)
    → HasFile i (drop_file path files)
unfolding drop_file dropped_ids
drop_file-HasFile path i [] h n = h
drop_file-HasFile path i ((d, f) ∷ files) h n = elim (Bool-cases (same_text f.relative_path path)) [
  | inl e ↦
      let out : NotIn i (f.id ∷ dropped_ids path files) = (rw e at n) in
      elim h [
        | inl p ↦ absurd (out.0 (sym p))
        | inr k ↦ rw e (drop_file-HasFile path i files k out.1)
      ]
  | inr e ↦ elim h [
    | inl p ↦ rw e (inl p)
    | inr k ↦ rw e (inr (drop_file-HasFile path i files k (rw e at n)))
  ]
]

drop_file-OfFiles {ℓ} :
    {A : Type ℓ} (path : Text) (files : List (ℕ × FileRow)) (rows : List (ℕ × A))
    → OfFiles files rows
    → OfFiles (drop_file path files) (without_all (dropped_ids path files) rows)
drop_file-OfFiles path files rows b =
    let gone = dropped_ids path files in
    AllIds-map (λ f. HasFile f files × NotIn f gone) (λ f. HasFile f (drop_file path files))
      (without_all gone rows) (λ f h. drop_file-HasFile path f files h.0 h.1)
      (AllIds-without_all (λ f. HasFile f files) gone rows b)

drop_file-none :
    (path : Text) (files : List (ℕ × FileRow)) → find_file path (drop_file path files) ≡ none
unfolding drop_file find_file
drop_file-none path [] = refl
drop_file-none path ((d, f) ∷ files) = elim (Bool-cases (same_text f.relative_path path)) [
  | inl e ↦ rw e (drop_file-none path files)
  | inr e ↦ rw (e, e) (drop_file-none path files)
]

-- Removing the file at a path, if there is one, from consistent tables: none is found there, no
-- key's coverage or ownership changes, and the tables are consistent, so that no contributor and no
-- link of the file is left.
pub remove_file-IsFramed :
    (path : Text) (c : Catalog)
    → IsCatalog c
    → (find_file path (remove_file path c).files ≡ none)
      × IsFramed c (remove_file path c)
      × IsCatalog (remove_file path c)
unfolding remove_file
remove_file-IsFramed path c v = (
  drop_file-none path c.files,
  with_other-IsFramed (drop_file path c.files)
      (without_all (dropped_ids path c.files) c.contributors) c.runs
      (without_all (dropped_ids path c.files) c.file_runs) c.events c,
  record {
    keyed = v.keyed;
    of_coverage = v.of_coverage;
    of_ownership = v.of_ownership;
    of_files = drop_file-AllIds (λ j. HasId j c.datasets) path c.files v.of_files;
    of_runs = v.of_runs;
    of_events = v.of_events;
    of_contributors = drop_file-OfFiles path c.files c.contributors v.of_contributors;
    of_file_runs = drop_file-OfFiles path c.files c.file_runs v.of_file_runs;
    file_table = drop_file-IsFileTable path c.files v.file_table;
    run_table = v.run_table;
  },
)
