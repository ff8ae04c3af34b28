-- ===== src/Catalog/Runs.antt =====
-- Ingestion runs, quality events and the check of a terminal commit (storage/catalog.py).
use xret.Catalog.Tables.{sort_by, rows_at}
use xret.Evidence.{has_text}
use xret.Catalog.Files.{run_to_link, find_run, find_file}
use xret.Identity.Keys.{same_row, IdentityRow}
use xret.Timeframe.{Datetime}
use xret.Catalog.{
  get_dataset_id, ensure_dataset, RunRow, RunIdentity, RunDetails, QualitySeverity, EventRow,
  DatasetRow, Catalog,
}
use xret.Prelude.{
  ◌>>=◌, ◌==◌, ◌&&◌, ℕ, true, suc, some, same_text, ok, none, max, map, ltb, if◌then◌else◌, false,
  err, codes, catalog_error, [], Text, Result, Option, List, Bool, ◌∷◌,
}

-- `IngestionRunMetadata` but for its key.
pub record RunMetadata : Type 0 where
  pub run_id : Text
  pub identity : RunIdentity
  pub details : RunDetails

pub record QualityEventMetadata : Type 0 where
  pub severity : QualitySeverity
  pub code : Text
  pub message : Text
  pub run_id : Option Text
  pub created_at : Option Datetime

unfoldable pub same_identity : RunIdentity → RunIdentity → Bool
same_identity a b =
    a.requested_start == b.requested_start
    && a.requested_end == b.requested_end
    && a.started_at == b.started_at
    && a.schema_version == b.schema_version

abbrev pub largest_run : List (ℕ × RunRow) → ℕ
largest_run [] = 0
largest_run ((d, r) ∷ runs) = max r.id (largest_run runs)

-- `UPDATE ingestion_runs … WHERE run_id = ?`
unfoldable pub update_run : Text → RunDetails → List (ℕ × RunRow) → List (ℕ × RunRow)
update_run run_id details [] = []
update_run run_id details ((d, r) ∷ runs) =
    (d, if same_text r.run_id run_id then record r { details = details } else r)
    ∷ update_run run_id details runs

abbrev pub run_row : ℕ → RunMetadata → RunRow
run_row i run = record {
  id = i;
  run_id = run.run_id;
  identity = run.identity;
  details = run.details;
}

-- The upsert behind `record_ingestion_run`, for the id of the data set.
unfoldable pub write_run : ℕ → RunMetadata → List (ℕ × RunRow) → Result (List (ℕ × RunRow))
write_run dataset run runs = elim (find_run run.run_id runs) [
  | none ↦ ok ((dataset, run_row (suc (largest_run runs)) run) ∷ runs)
  | some (d, r) ↦
      if d == dataset && same_identity r.identity run.identity
      then ok (update_run run.run_id run.details runs)
      else err catalog_error
]

-- `record_ingestion_run`
unfoldable pub record_ingestion_run : IdentityRow → RunMetadata → Catalog → Result Catalog
record_ingestion_run key run c =
    let e = ensure_dataset key c in
    do runs ← write_run e.1 run e.0.runs; ok (record (e.0) { runs = runs })

-- Texts in the order of their code points, as SQLite compares them.
unfoldable pub text_before : Text → Text → Bool
text_before [] t = true
text_before (a ∷ s) [] = false
text_before (a ∷ s) (b ∷ t) = let rest = text_before s t in if a == b then rest else ltb a b

unfoldable pub insert_text : Text → List Text → List Text
insert_text t [] = t ∷ []
insert_text t (u ∷ us) =
    let rest = insert_text t us in if text_before t u then t ∷ u ∷ us else u ∷ rest

unfoldable pub sort_texts : List Text → List Text
sort_texts [] = []
sort_texts (t ∷ ts) = insert_text t (sort_texts ts)

-- `list_ingestion_run_ids`
unfoldable pub list_ingestion_run_ids : IdentityRow → Catalog → List Text
list_ingestion_run_ids key c =
    sort_texts (map (λ (r : RunRow). r.run_id) (rows_at (get_dataset_id key c) c.runs))

abbrev pub largest_event : List (ℕ × EventRow) → ℕ
largest_event [] = 0
largest_event ((d, v) ∷ events) = max v.id (largest_event events)

pub created : Option Datetime → Datetime → Datetime
created none now = now
created (some t) now = t

-- `record_quality_event`
unfoldable pub record_quality_event :
    IdentityRow → QualityEventMetadata → Datetime → Catalog → Result Catalog
unfolding created
record_quality_event key event now c =
    let e = ensure_dataset key c in
    do
      run ← run_to_link event.run_id e.1 e.0.runs
      ok (record (e.0) {
        events =
            (
              e.1,
              record {
                id = suc (largest_event e.0.events);
                run = run;
                severity = event.severity;
                code = event.code;
                message = event.message;
                created_at = created event.created_at now;
              },
            )
            ∷ e.0.events;
      })

-- `LEFT JOIN ingestion_runs ir ON ir.id = qe.run_id`
unfoldable pub run_id_of : ℕ → List (ℕ × RunRow) → Option Text
run_id_of i [] = none
run_id_of i ((d, r) ∷ runs) =
    let rest = run_id_of i runs in if r.id == i then some r.run_id else rest

joined_run : Option ℕ → List (ℕ × RunRow) → Option Text
joined_run none runs = none
joined_run (some i) runs = run_id_of i runs

read_event : List (ℕ × RunRow) → EventRow → QualityEventMetadata
unfolding joined_run
read_event runs v = record {
  severity = v.severity;
  code = v.code;
  message = v.message;
  run_id = joined_run v.run runs;
  created_at = some v.created_at;
}

-- `list_quality_events`
unfoldable pub list_quality_events : IdentityRow → Catalog → List QualityEventMetadata
unfolding read_event
list_quality_events key c =
    map (read_event c.runs)
      (sort_by (λ (v : EventRow). v.id) (rows_at (get_dataset_id key c) c.events))

-- `checkpoint`: whether the mode is one that is passed on to SQLite.
unfoldable pub checkpoint_mode : Text → Result Text
checkpoint_mode mode =
    if has_text mode (codes "PASSIVE" ∷ codes "FULL" ∷ codes "RESTART" ∷ codes "TRUNCATE" ∷ [])
    then ok mode
    else err catalog_error

-- `JOIN datasets d ON d.id = …` and `d.family = ? AND …`. A path is unique in `files`, so that the
-- dictionary of paths and hashes has for each path the one row that is found by it.
unfoldable pub identity_of : ℕ → List DatasetRow → Option IdentityRow
identity_of i [] = none
identity_of i (r ∷ rows) =
    let rest = identity_of i rows in if r.id == i then some r.identity else rest

unfoldable pub is_identity : Option IdentityRow → IdentityRow → Bool
is_identity none key = false
is_identity (some k) key = same_row k key

unfoldable pub has_hash : IdentityRow → Text → Text → Catalog → Bool
has_hash key path hash c = elim (find_file path c.files) [
  | none ↦ false
  | some (d, f) ↦ is_identity (identity_of d c.datasets) key && same_text f.physical_hash hash
]

unfoldable pub has_hashes : IdentityRow → List (Text × Text) → Catalog → Bool
has_hashes key [] c = true
has_hashes key ((path, hash) ∷ files) c = has_hash key path hash c && has_hashes key files c

-- `terminal_commit_is_visible`, over a database that can be read.
unfoldable pub terminal_commit_is_visible :
    IdentityRow → RunMetadata → List (Text × Text) → Catalog → Bool
terminal_commit_is_visible key run expected c = elim (find_run run.run_id c.runs) [
  | none ↦ false
  | some (d, r) ↦
      same_text r.details.status (codes "completed")
      && same_identity r.identity run.identity
      && is_identity (identity_of d c.datasets) key
      && has_hashes key expected c
]
