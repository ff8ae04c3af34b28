-- ===== src/Catalog/Deleted.antt =====
-- Deleting a data set: what goes with it, and what stays.
use xret.Catalog.RunTable.{without-IsRunTable}
use xret.Catalog.Files.{has_link}
use xret.Catalog.Spared.{seen_from, rows_of-without_all, has_link-spared, forget_runs-rows_at}
use xret.Catalog.Uniques.{without-IsFileTable}
use xret.Catalog.Removed.{delete_row-own, delete_row-other, delete_row-IsKeyed, delete_row-HasId}
use xret.Catalog.Coverages.{no_coverage, coverage_of}
use xret.Coverage.{Segment}
use xret.Catalog.Cascade.{
  NotIn, HasFile-without, AllIds-without_all, AllIds-without, AllIds-unlink_all, AllIds-map,
  AllIds-forget_runs,
}
use xret.Catalog.Tables.{rows_at, sort_by, rows_of-without, other_id, without, rows_of}
use xret.Catalog.Valid.{OfFiles, Belongs, IsCatalog, HasFile}
use xret.Catalog.Owners.{
  run_ids, delete_with, ownership_rows, delete_dataset, without_all, file_ids, delete_row,
}
use xret.Identity.Keys.{IdentityRow}
use xret.Catalog.Keys.{ids_apart, id_of, HasId}
use xret.Catalog.{find_dataset, get_dataset_id, get_coverage_segments, Catalog, DatasetRow}
use xret.Prelude.{
  map, some_injective, ap, some, Option-cases, ◌≢◌, ◌∙◌, ℕ, sym, refl, none, inr, inl, List, ◌≡◌,
}

-- The files and the runs of the data set, which go with it.
abbrev pub gone_files : IdentityRow → Catalog → List ℕ
gone_files key c = file_ids (rows_at (get_dataset_id key c) c.files)

abbrev pub gone_runs : IdentityRow → Catalog → List ℕ
gone_runs key c = run_ids (rows_at (get_dataset_id key c) c.runs)

-- The key is gone. Every other key keeps the row of its data set, its coverage, its ownership, its
-- files, its runs, and its events but for the link to a run that goes. The other files keep their
-- contributors, and their links to the other runs. The tables are consistent.
pub record IsDeleted (key : IdentityRow) (before after : Catalog) : Type 0 where
  pub gone : get_dataset_id key after ≡ none
  pub others :
      (other : IdentityRow) → key ≢ other → get_dataset_id other after ≡ get_dataset_id other before
  pub datasets :
      (other : IdentityRow)
      → key ≢ other
      → find_dataset other after.datasets ≡ find_dataset other before.datasets
  pub coverage :
      (other : IdentityRow)
      → key ≢ other
      → get_coverage_segments other after ≡ get_coverage_segments other before
  pub ownership :
      (other : IdentityRow) → key ≢ other → ownership_rows other after ≡ ownership_rows other before
  pub files :
      (other : IdentityRow)
      → key ≢ other
      → rows_at (get_dataset_id other after) after.files
        ≡ rows_at (get_dataset_id other before) before.files
  pub runs :
      (other : IdentityRow)
      → key ≢ other
      → rows_at (get_dataset_id other after) after.runs
        ≡ rows_at (get_dataset_id other before) before.runs
  pub events :
      (other : IdentityRow) (r : ℕ)
      → key ≢ other
      → NotIn r (gone_runs key before)
      → map (seen_from r) (rows_at (get_dataset_id other after) after.events)
        ≡ map (seen_from r) (rows_at (get_dataset_id other before) before.events)
  pub contributors :
      (f : ℕ)
      → NotIn f (gone_files key before)
      → rows_of f after.contributors ≡ rows_of f before.contributors
  pub links :
      (f r : ℕ)
      → NotIn f (gone_files key before)
      → NotIn r (gone_runs key before)
      → has_link f r after.file_runs ≡ has_link f r before.file_runs
  pub valid : IsCatalog after

module _ (key : IdentityRow) (c : Catalog) (i : ℕ) where
  delete_with-own : get_dataset_id key (delete_with key i c) ≡ none
  unfolding delete_with get_dataset_id
  delete_with-own = rw (delete_row-own key c.datasets, get_dataset_id) refl

  delete_with-other :
      (other : IdentityRow)
      → key ≢ other
      → get_dataset_id other (delete_with key i c) ≡ get_dataset_id other c
  unfolding delete_with get_dataset_id
  delete_with-other other ne = rw (delete_row-other key other c.datasets ne, get_dataset_id) refl

  delete_with-datasets :
      (other : IdentityRow)
      → key ≢ other
      → find_dataset other (delete_with key i c).datasets ≡ find_dataset other c.datasets
  unfolding delete_with
  delete_with-datasets other ne = delete_row-other key other c.datasets ne

  without-other {ℓ} :
      {A : Type ℓ} (j : ℕ) (rows : List (ℕ × A))
      → j ≢ i
      → rows_of j (without i rows) ≡ rows_of j rows
  without-other j rows ne = rw (rows_of-without j i rows, other_id j i ne) refl

  module _ (v : IsCatalog c) (e : get_dataset_id key c ≡ some i) where
    stays : (j : ℕ) → HasId j c.datasets × (j ≢ i) → HasId j (delete_row key c.datasets)
    stays j h =
        let own = id_of key c i e in
        delete_row-HasId key j c.datasets v.keyed h.0 (λ r f p.
          h.1 (sym p ∙ ap (λ (x : DatasetRow). x.id) (some_injective (sym f ∙ own.1)) ∙ own.2))

    kept_rows {ℓ} :
        {A : Type ℓ} (rows : List (ℕ × A))
        → Belongs c.datasets rows
        → Belongs (delete_row key c.datasets) (without i rows)
    kept_rows rows b =
        AllIds-map (λ j. HasId j c.datasets × (j ≢ i)) (λ j. HasId j (delete_row key c.datasets))
          (without i rows) stays (AllIds-without (λ j. HasId j c.datasets) i rows b)

    kept-OfFiles {ℓ} :
        {A : Type ℓ} (rows : List (ℕ × A))
        → OfFiles c.files rows
        → OfFiles (without i c.files) (without_all (file_ids (rows_of i c.files)) rows)
    kept-OfFiles rows b =
        let ids = file_ids (rows_of i c.files) in
        AllIds-map (λ f. HasFile f c.files × NotIn f ids) (λ f. HasFile f (without i c.files))
          (without_all ids rows) (λ f h. HasFile-without i f c.files h.0 h.1)
          (AllIds-without_all (λ f. HasFile f c.files) ids rows b)

    delete_with-IsCatalog : IsCatalog (delete_with key i c)
    unfolding delete_with
    delete_with-IsCatalog =
        let files_gone = file_ids (rows_of i c.files) in
        let runs_gone = run_ids (rows_of i c.runs) in
        record {
          keyed = delete_row-IsKeyed key c.datasets v.keyed;
          file_table = without-IsFileTable i c.files v.file_table;
          run_table = without-IsRunTable i c.runs v.run_table;
          of_coverage = kept_rows c.coverage v.of_coverage;
          of_ownership = kept_rows c.ownership v.of_ownership;
          of_files = kept_rows c.files v.of_files;
          of_runs = kept_rows c.runs v.of_runs;
          of_events =
              AllIds-forget_runs (λ j. HasId j (delete_row key c.datasets)) runs_gone
                (without i c.events) (kept_rows c.events v.of_events);
          of_contributors = kept-OfFiles c.contributors v.of_contributors;
          of_file_runs =
              AllIds-unlink_all (λ f. HasFile f (without i c.files)) runs_gone
                (without_all files_gone c.file_runs) (kept-OfFiles c.file_runs v.of_file_runs);
        }

    apart_from_gone :
        (other : IdentityRow) (j : ℕ) → key ≢ other → get_dataset_id other c ≡ some j → j ≢ i
    apart_from_gone other j ne h =
        let r = id_of key c i e in
        let s = id_of other c j h in
        λ p. ids_apart key other c.datasets r.0 s.0 v.keyed r.1 s.1 ne (s.2 ∙ p ∙ sym r.2)

    delete_with-rows {ℓ} :
        {A : Type ℓ} (rows : List (ℕ × A)) (other : IdentityRow)
        → key ≢ other
        → rows_at (get_dataset_id other (delete_with key i c)) (without i rows)
          ≡ rows_at (get_dataset_id other c) rows
    delete_with-rows rows other ne = elim (Option-cases (get_dataset_id other c)) [
      | inl p ↦ rw (delete_with-other other ne, p) refl
      | inr (j, p) ↦
          rw (delete_with-other other ne, p) (without-other j rows (apart_from_gone other j ne p))
    ]

    delete_with-ownership :
        (other : IdentityRow)
        → key ≢ other
        → ownership_rows other (delete_with key i c) ≡ ownership_rows other c
    unfolding delete_with
    delete_with-ownership other ne = delete_with-rows c.ownership other ne

    delete_with-files :
        (other : IdentityRow)
        → key ≢ other
        → rows_at (get_dataset_id other (delete_with key i c)) (delete_with key i c).files
          ≡ rows_at (get_dataset_id other c) c.files
    unfolding delete_with
    delete_with-files other ne = delete_with-rows c.files other ne

    delete_with-runs :
        (other : IdentityRow)
        → key ≢ other
        → rows_at (get_dataset_id other (delete_with key i c)) (delete_with key i c).runs
          ≡ rows_at (get_dataset_id other c) c.runs
    unfolding delete_with
    delete_with-runs other ne = delete_with-rows c.runs other ne

    delete_with-events :
        (other : IdentityRow) (r : ℕ)
        → key ≢ other
        → NotIn r (run_ids (rows_of i c.runs))
        → map
            (seen_from r)
            (rows_at (get_dataset_id other (delete_with key i c)) (delete_with key i c).events)
          ≡ map (seen_from r) (rows_at (get_dataset_id other c) c.events)
    unfolding delete_with
    delete_with-events other r ne h =
        forget_runs-rows_at r (get_dataset_id other (delete_with key i c))
          (run_ids (rows_of i c.runs)) (without i c.events) h
        ∙ ap (map (seen_from r)) (delete_with-rows c.events other ne)

    delete_with-contributors :
        (f : ℕ)
        → NotIn f (file_ids (rows_of i c.files))
        → rows_of f (delete_with key i c).contributors ≡ rows_of f c.contributors
    unfolding delete_with
    delete_with-contributors f h =
        rows_of-without_all f (file_ids (rows_of i c.files)) c.contributors h

    delete_with-links :
        (f r : ℕ)
        → NotIn f (file_ids (rows_of i c.files))
        → NotIn r (run_ids (rows_of i c.runs))
        → has_link f r (delete_with key i c).file_runs ≡ has_link f r c.file_runs
    unfolding delete_with
    delete_with-links f r h k =
        has_link-spared f r (file_ids (rows_of i c.files)) (run_ids (rows_of i c.runs)) c.file_runs
          h k

    delete_with-coverage :
        (other : IdentityRow)
        → key ≢ other
        → get_coverage_segments other (delete_with key i c) ≡ get_coverage_segments other c
    unfolding delete_with
    delete_with-coverage other ne = elim (Option-cases (get_dataset_id other c)) [
      | inl p ↦
          no_coverage other (delete_with key i c) (delete_with-other other ne ∙ p)
          ∙ sym (no_coverage other c p)
      | inr (j, p) ↦
          coverage_of other (delete_with key i c) j (delete_with-other other ne ∙ p)
          ∙ ap (sort_by (λ (s : Segment). s.start))
              (without-other j c.coverage (apart_from_gone other j ne p))
          ∙ sym (coverage_of other c j p)
    ]

-- Deleting a data set, found or not, from consistent tables: its key is gone, and the tables are
-- consistent again. Every other key keeps the row of its data set with its coverage, its ownership,
-- its files, its runs and its events, which lose at most the link to a run that goes. The files that
-- do not go keep their contributors, and their links to the runs that do not go.
pub delete_dataset-IsDeleted :
    (key : IdentityRow) (c : Catalog) → IsCatalog c → IsDeleted key c (delete_dataset key c)
unfolding delete_dataset
delete_dataset-IsDeleted key c v = elim (Option-cases (get_dataset_id key c)) [
  | inl e ↦
      rw (e, delete_dataset)
        (record {
          gone = e;
          others = λ other ne. refl;
          datasets = λ other ne. refl;
          coverage = λ other ne. refl;
          ownership = λ other ne. refl;
          files = λ other ne. refl;
          runs = λ other ne. refl;
          events = λ other r ne h. refl;
          contributors = λ f h. refl;
          links = λ f r h k. refl;
          valid = v;
        })
  | inr (i, e) ↦
      rw (e, delete_dataset)
        (record {
          gone = delete_with-own key c i;
          others = λ other ne. delete_with-other key c i other ne;
          datasets = λ other ne. delete_with-datasets key c i other ne;
          coverage = λ other ne. delete_with-coverage key c i v e other ne;
          ownership = λ other ne. delete_with-ownership key c i v e other ne;
          files = λ other ne. delete_with-files key c i v e other ne;
          runs = λ other ne. delete_with-runs key c i v e other ne;
          events = λ other r ne h. delete_with-events key c i v e other r ne (rw e at h);
          contributors = λ f h. delete_with-contributors key c i v e f (rw e at h);
          links = λ f r h k. delete_with-links key c i v e f r (rw e at h) (rw e at k);
          valid = delete_with-IsCatalog key c i v e;
        })
]
