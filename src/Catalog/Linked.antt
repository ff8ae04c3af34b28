-- ===== src/Catalog/Linked.antt =====
-- The steps of `record_file` behind its checks, for a data set that is there.
use xret.Catalog.Uniques.{upsert_file-other, upsert_file-IsFileTable, IsFileTable}
use xret.Catalog.Tables.{
  other_id, without, tagged, sort_by-sorted, sort_by, same_id, rows_of-replaced, rows_of,
}
use xret.Catalog.Recorded.{with_ownership, record_source_ownership-ok}
use xret.Catalog.Owners.{record_source_ownership, ownership_rows, insert_owners}
use xret.Catalog.Repeated.{found_again}
use xret.Catalog.Upserted.{
  upserted_found, upserted-HasFile, upserted-Belongs, upserted, numbered-evidence,
  numbered-IsSortedBy, link-AllIds, find_file-HasFile, complete,
}
use xret.Evidence.{ProviderEvidence}
use xret.Catalog.Ranges.{IsSeparate}
use xret.Identity.Keys.{IdentityRow}
use xret.Catalog.Keys.{HasId}
use xret.Catalog.Files.{
  has_link, write_file, numbered, link, find_file, file_row, file_contributor_evidence,
  FileMetadata,
}
use xret.Catalog.{get_coverage_segments, get_dataset_id, FileRow, Contributor, Catalog}
use xret.Catalog.Cascade.{AllIds-without, AllIds-map}
use xret.Catalog.Valid.{OfFiles, IsCatalog, HasFile, AllIds-tagged, AllIds-append}
use xret.Prelude.{
  none, inr, inl, Bool-cases, ◌≢◌, ◌∙◌, ◌++◌, ℕ, sym, some, refl, ok_injective, ok, map, ap, Text,
  Option, List, after_ok, ◌≡◌,
}

-- The file is found by its path with what was recorded, under the key's data set; its contributors
-- read back in order; the key's ownership has no overlaps; no other key's ownership, no coverage, no
-- run, no event, no other path's file and no other file's contributors and links have changed; the
-- tables are consistent, with one row for the path.
pub record IsFiled (key : IdentityRow) (m : FileMetadata) (before after : Catalog) : Type 0 where
  pub dataset : ℕ
  pub id : ℕ
  pub of_key : get_dataset_id key after ≡ some dataset
  pub file : find_file m.relative_path after.files ≡ some (dataset, file_row id m)
  pub evidence : file_contributor_evidence m.relative_path after ≡ complete m.contributors
  pub separate : IsSeparate (ownership_rows key after)
  pub others :
      (other : IdentityRow) → key ≢ other → ownership_rows other after ≡ ownership_rows other before
  pub coverage : (k : IdentityRow) → get_coverage_segments k after ≡ get_coverage_segments k before
  pub files :
      (path : Text)
      → path ≢ m.relative_path
      → find_file path after.files ≡ find_file path before.files
  pub contributors : (f : ℕ) → f ≢ id → rows_of f after.contributors ≡ rows_of f before.contributors
  pub links : (f : ℕ) → f ≢ id → rows_of f after.file_runs ≡ rows_of f before.file_runs
  pub runs : after.runs ≡ before.runs
  pub events : after.events ≡ before.events
  pub valid : IsCatalog after

-- Recording ownership for a key whose data set is there.
recorded_same :
    (key : IdentityRow) (es : List ProviderEvidence) (c after : Catalog) (i : ℕ)
    → get_dataset_id key c ≡ some i
    → record_source_ownership key es c ≡ ok after
    → with_ownership (insert_owners i es c.ownership) c ≡ after
recorded_same key es c after i e h =
    let got = record_source_ownership-ok key es c after h in (rw (found_again key c i e) at got.1)

read_evidence :
    (path : Text) (c : Catalog) (d : ℕ) (f : FileRow)
    → find_file path c.files ≡ some (d, f)
    → file_contributor_evidence path c
      ≡ map
          (λ (r : Contributor). r.evidence)
          (sort_by (λ (r : Contributor). r.ordinal) (rows_of f.id c.contributors))
unfolding file_contributor_evidence
read_evidence path c d f e = rw (e, file_contributor_evidence) refl

unfoldable pub with_files : List (ℕ × FileRow) → Catalog → Catalog
with_files files c = record c { files = files }

pub with_links : List (ℕ × Contributor) → List (ℕ × ℕ) → Catalog → Catalog
with_links contributors file_runs c = record c {
  contributors = contributors;
  file_runs = file_runs;
}

with_links-IsCatalog :
    (contributors : List (ℕ × Contributor)) (file_runs : List (ℕ × ℕ)) (c : Catalog)
    → IsCatalog c
    → OfFiles c.files contributors
    → OfFiles c.files file_runs
    → IsCatalog (with_links contributors file_runs c)
unfolding with_links
with_links-IsCatalog contributors file_runs c v h k = record {
  keyed = v.keyed;
  of_coverage = v.of_coverage;
  of_ownership = v.of_ownership;
  of_files = v.of_files;
  of_runs = v.of_runs;
  of_events = v.of_events;
  file_table = v.file_table;
  run_table = v.run_table;
  of_contributors = h;
  of_file_runs = k;
}

with_files-id :
    (key : IdentityRow) (files : List (ℕ × FileRow)) (c : Catalog)
    → get_dataset_id key (with_files files c) ≡ get_dataset_id key c
unfolding with_files get_dataset_id
with_files-id key files c = refl

pub with_files-rows :
    (key : IdentityRow) (files : List (ℕ × FileRow)) (c : Catalog)
    → ownership_rows key (with_files files c) ≡ ownership_rows key c
unfolding with_files get_dataset_id
with_files-rows key files c = refl

link-other :
    (f i : ℕ) (run : Option ℕ) (rows : List (ℕ × ℕ))
    → f ≢ i
    → rows_of f (link i run rows) ≡ rows_of f rows
unfolding link rows_of
link-other f i none rows ne = refl
link-other f i (some r) rows ne = elim (Bool-cases (has_link i r rows)) [
  | inl e ↦ rw e refl
  | inr e ↦ rw (e, other_id f i ne) refl
]

-- The steps of `write_file`, for a data set that is there.
module _ (key : IdentityRow) (m : FileMetadata) (d : ℕ) (run : Option ℕ) (c : Catalog) where
  abbrev up : ℕ × List (ℕ × FileRow)
  up = upserted d m c.files

  abbrev pub owned : Catalog
  owned = with_ownership (insert_owners d m.contributors c.ownership) (with_files up.1 c)

  abbrev linked : Catalog
  linked =
      with_links (tagged up.0 (numbered 0 m.contributors) ++ without up.0 c.contributors)
        (link up.0 run c.file_runs) owned

  pub write_file-linked :
      (after : Catalog)
      → get_dataset_id key c ≡ some d
      → write_file key m d run c ≡ ok after
      → (record_source_ownership key m.contributors (with_files up.1 c) ≡ ok owned)
        × (linked ≡ after)
  unfolding write_file with_files with_links with_ownership
  write_file-linked after e h =
      let finish : Catalog → Catalog = λ x. record x {
        contributors = tagged up.0 (numbered 0 m.contributors) ++ without up.0 x.contributors;
        file_runs = link up.0 run x.file_runs;
      } in
      let got =
        after_ok (record_source_ownership key m.contributors (with_files up.1 c))
          (λ x. ok (finish x)) h in
      let same =
        recorded_same key m.contributors (with_files up.1 c) got.0 d (with_files-id key up.1 c ∙ e)
          got.1 in
      (got.1 ∙ ap ok (sym same), ap finish same ∙ ok_injective got.2)

  pub with_files-IsCatalog : IsCatalog c → HasId d c.datasets → IsCatalog (with_files up.1 c)
  unfolding with_files
  with_files-IsCatalog v h = record {
    keyed = v.keyed;
    file_table = upsert_file-IsFileTable d m c.files v.file_table;
    run_table = v.run_table;
    of_coverage = v.of_coverage;
    of_ownership = v.of_ownership;
    of_files = upserted-Belongs d m c.files c.datasets h v.of_files;
    of_runs = v.of_runs;
    of_events = v.of_events;
    of_contributors =
        AllIds-map (λ f. HasFile f c.files) (λ f. HasFile f up.1) c.contributors
          (upserted-HasFile d m c.files) v.of_contributors;
    of_file_runs =
        AllIds-map (λ f. HasFile f c.files) (λ f. HasFile f up.1) c.file_runs
          (upserted-HasFile d m c.files) v.of_file_runs;
  }

  up-HasFile : HasFile up.0 up.1
  up-HasFile =
      find_file-HasFile m.relative_path up.1 d (file_row up.0 m) (upserted_found d m c.files)

  linked-IsCatalog : IsCatalog owned → IsCatalog linked
  unfolding with_ownership with_files
  linked-IsCatalog v =
      let P : ℕ → Type 0 = λ f. HasFile f up.1 in
      let kept = tagged up.0 (numbered 0 m.contributors) in
      with_links-IsCatalog (kept ++ without up.0 c.contributors) (link up.0 run c.file_runs) owned v
        (AllIds-append P kept (without up.0 c.contributors)
          (AllIds-tagged P up.0 (numbered 0 m.contributors) up-HasFile)
          (AllIds-map (λ f. P f × (f ≢ up.0)) P (without up.0 c.contributors) (λ f h. h.0)
            (AllIds-without P up.0 c.contributors v.of_contributors)))
        (link-AllIds P up.0 run c.file_runs up-HasFile v.of_file_runs)

  linked-evidence : file_contributor_evidence m.relative_path linked ≡ complete m.contributors
  unfolding with_links with_ownership with_files
  linked-evidence =
      let rows = numbered 0 m.contributors in
      read_evidence m.relative_path linked d (file_row up.0 m) (upserted_found d m c.files)
      ∙ rw (rows_of-replaced up.0 up.0 rows c.contributors, same_id up.0)
          (ap (map (λ (r : Contributor). r.evidence)) (
              sort_by-sorted (λ (r : Contributor). r.ordinal) rows
                (numbered-IsSortedBy 0 m.contributors))
            ∙ numbered-evidence 0 m.contributors)

  linked_id : get_dataset_id key linked ≡ get_dataset_id key c
  unfolding with_links with_ownership with_files get_dataset_id
  linked_id = refl

  linked_rows : ownership_rows key linked ≡ ownership_rows key owned
  unfolding with_links with_ownership with_files get_dataset_id
  linked_rows = refl

  linked_coverage : (k : IdentityRow) → get_coverage_segments k linked ≡ get_coverage_segments k c
  unfolding with_links with_ownership with_files get_coverage_segments get_dataset_id
  linked_coverage k = refl

  linked_others :
      (other : IdentityRow)
      → ownership_rows other owned ≡ ownership_rows other (with_files up.1 c)
      → ownership_rows other linked ≡ ownership_rows other c
  unfolding with_links with_ownership with_files get_dataset_id
  linked_others other h = h

  linked_files :
      (path : Text)
      → IsFileTable c.files
      → path ≢ m.relative_path
      → find_file path linked.files ≡ find_file path c.files
  unfolding with_links with_ownership with_files
  linked_files path t ne = upsert_file-other d m path c.files t ne

  linked_contributors :
      (f : ℕ) → f ≢ up.0 → rows_of f linked.contributors ≡ rows_of f c.contributors
  unfolding with_links with_ownership with_files
  linked_contributors f ne =
      rw (rows_of-replaced f up.0 (numbered 0 m.contributors) c.contributors, other_id f up.0 ne)
        refl

  linked_links : (f : ℕ) → f ≢ up.0 → rows_of f linked.file_runs ≡ rows_of f c.file_runs
  unfolding with_links with_ownership with_files
  linked_links f ne = link-other f up.0 run c.file_runs ne

  pub linked-IsFiled :
      get_dataset_id key c ≡ some d
      → IsFileTable c.files
      → IsSeparate (ownership_rows key owned)
      → ((other : IdentityRow)
          → key ≢ other
          → ownership_rows other owned ≡ ownership_rows other (with_files up.1 c))
      → IsCatalog owned
      → IsFiled key m c linked
  unfolding with_links with_ownership with_files
  linked-IsFiled e t s o v = record {
    dataset = d;
    id = up.0;
    of_key = linked_id ∙ e;
    file = upserted_found d m c.files;
    evidence = linked-evidence;
    separate = rw linked_rows s;
    others = λ other ne. linked_others other (o other ne);
    coverage = linked_coverage;
    files = λ path ne. linked_files path t ne;
    contributors = linked_contributors;
    links = linked_links;
    runs = refl;
    events = refl;
    valid = linked-IsCatalog v;
  }
