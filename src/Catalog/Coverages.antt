-- ===== src/Catalog/Coverages.antt =====
-- What the coverage operations of the catalog write, and that they touch only their own key.
use xret.Catalog.Keys.{HasId, ensure_dataset-IsEnsured}
use xret.Coverage.{Segment}
use xret.Catalog.Tables.{
  same_id, other_id, without, tagged, sort_by-sorted, rows_of-replaced, sort_by, rows_of,
  IsSortedBy,
}
use xret.Coverage.Normal.{IsNormal}
use xret.Identity.Keys.{IdentityRow}
use xret.Catalog.{
  replace_coverage, largest, get_dataset_id, get_coverage_segments, ensure_dataset, Catalog,
}
use xret.Catalog.Valid.{
  AllIds-tagged, AllIds-append, ensure_dataset-IsCatalog, Belongs-without, IsCatalog, Belongs-Lacks,
}
use xret.Prelude.{
  ◌∙◌, sym, ap, ◌≢◌, ℕ, suc, some, refl, none, inr, inl, arith, [], Option-cases, List, ◌∷◌, ◌≡◌,
}

-- The segments of a normal list ascend, so that reading does not reorder them.
IsNormal-IsSortedBy :
    (segs : List Segment) → IsNormal segs → IsSortedBy (λ (s : Segment). s.start) segs
IsNormal-IsSortedBy [] h = tt
IsNormal-IsSortedBy (s ∷ []) h = tt
IsNormal-IsSortedBy (s ∷ r ∷ rest) h = (ground arith, IsNormal-IsSortedBy (r ∷ rest) h.2)

-- The key's coverage is now `segments`, every other key's is what it was, and the schema is kept.
pub record IsWritten (key : IdentityRow) (before after : Catalog) (segments : List Segment)
    : Type 0 where
  pub own : get_coverage_segments key after ≡ segments
  pub others :
      (other : IdentityRow)
      → key ≢ other
      → get_coverage_segments other after ≡ get_coverage_segments other before
  pub valid : IsCatalog after

pub coverage_of :
    (key : IdentityRow) (c : Catalog) (i : ℕ)
    → get_dataset_id key c ≡ some i
    → get_coverage_segments key c ≡ sort_by (λ (s : Segment). s.start) (rows_of i c.coverage)
unfolding get_coverage_segments
coverage_of key c i e = rw (e, get_coverage_segments) refl

pub no_coverage :
    (key : IdentityRow) (c : Catalog)
    → get_dataset_id key c ≡ none
    → get_coverage_segments key c ≡ []
unfolding get_coverage_segments
no_coverage key c e = rw (e, get_coverage_segments) refl

ensure_dataset-coverage :
    (key : IdentityRow) (c : Catalog) → (ensure_dataset key c).0.coverage ≡ c.coverage
unfolding ensure_dataset
ensure_dataset-coverage key c = elim (Option-cases (get_dataset_id key c)) [
  | inl e ↦ rw (e, ensure_dataset) refl
  | inr (i, e) ↦ rw (e, ensure_dataset) refl
]

new_id-Lacks :
    (key : IdentityRow) (c : Catalog)
    → IsCatalog c
    → get_dataset_id key c ≡ none
    → rows_of (ensure_dataset key c).1 c.coverage ≡ []
unfolding ensure_dataset
new_id-Lacks key c v e =
    rw (e, ensure_dataset)
      (Belongs-Lacks c.datasets (suc (largest c.datasets)) c.coverage v.of_coverage (omega arith))

found_id :
    (key : IdentityRow) (c : Catalog) (i : ℕ)
    → get_dataset_id key c ≡ some i
    → (ensure_dataset key c).1 ≡ i
unfolding ensure_dataset
found_id key c i e = rw (e, ensure_dataset) refl

-- Ensuring a data set changes no coverage.
pub ensure_dataset-get_coverage_segments :
    (key : IdentityRow) (c : Catalog)
    → IsCatalog c
    → get_coverage_segments key (ensure_dataset key c).0 ≡ get_coverage_segments key c
ensure_dataset-get_coverage_segments key c v =
    let e = ensure_dataset key c in
    let h = ensure_dataset-IsEnsured key c v.keyed in
    elim (Option-cases (get_dataset_id key c)) [
      | inl n ↦
          rw
            (
              coverage_of key e.0 e.1 h.found,
              no_coverage key c n,
              ensure_dataset-coverage key c,
              new_id-Lacks key c v n,
            )
            (unfold sort_by in refl)
      | inr (i, p) ↦
          rw (coverage_of key e.0 e.1 h.found, coverage_of key c i p, ensure_dataset-coverage key c)
            (ap (λ n. sort_by (λ (s : Segment). s.start) (rows_of n c.coverage))
              (found_id key c i p))
    ]

-- Reading a key behind a write to an id.
module _ (c : Catalog) (i : ℕ) (segments : List Segment) where
  own_coverage :
      (key : IdentityRow)
      → get_dataset_id key c ≡ some i
      → IsNormal segments
      → get_coverage_segments key (replace_coverage i segments c) ≡ segments
  unfolding replace_coverage get_dataset_id
  own_coverage key e n =
      coverage_of key (replace_coverage i segments c) i e
      ∙ rw (rows_of-replaced i i segments c.coverage, same_id i)
          (sort_by-sorted (λ (s : Segment). s.start) segments (IsNormal-IsSortedBy segments n))

  other_coverage :
      (other : IdentityRow)
      → ((j : ℕ) → get_dataset_id other c ≡ some j → j ≢ i)
      → get_coverage_segments other (replace_coverage i segments c) ≡ get_coverage_segments other c
  unfolding replace_coverage get_dataset_id
  other_coverage other ne = elim (Option-cases (get_dataset_id other c)) [
    | inl e ↦ no_coverage other (replace_coverage i segments c) e ∙ sym (no_coverage other c e)
    | inr (j, e) ↦
        coverage_of other (replace_coverage i segments c) j e
        ∙ rw (rows_of-replaced j i segments c.coverage, other_id j i (ne j e))
            (sym (coverage_of other c j e))
  ]

pub ensured_frame :
    (key other : IdentityRow) (c : Catalog)
    → IsCatalog c
    → key ≢ other
    → get_coverage_segments other (ensure_dataset key c).0 ≡ get_coverage_segments other c
ensured_frame key other c v ne =
    let e = ensure_dataset key c in
    let same = (ensure_dataset-IsEnsured key c v.keyed).others other ne in
    elim (Option-cases (get_dataset_id other c)) [
      | inl n ↦ no_coverage other e.0 (same ∙ n) ∙ sym (no_coverage other c n)
      | inr (i, p) ↦
          rw (coverage_of other e.0 i (same ∙ p), ensure_dataset-coverage key c)
            (sym (coverage_of other c i p))
    ]

replace_coverage-IsCatalog :
    (i : ℕ) (segments : List Segment) (c : Catalog)
    → IsCatalog c
    → HasId i c.datasets
    → IsCatalog (replace_coverage i segments c)
unfolding replace_coverage
replace_coverage-IsCatalog i segments c v h = record {
  keyed = v.keyed;
  of_coverage =
      AllIds-append (λ j. HasId j c.datasets) (tagged i segments) (without i c.coverage)
        (AllIds-tagged (λ j. HasId j c.datasets) i segments h)
        (Belongs-without c.datasets i c.coverage v.of_coverage);
  of_ownership = v.of_ownership;
  of_files = v.of_files;
  of_runs = v.of_runs;
  of_events = v.of_events;
  of_contributors = v.of_contributors;
  of_file_runs = v.of_file_runs;
  file_table = v.file_table;
  run_table = v.run_table;
}

-- What every writer of coverage does once it has its segments.
pub replace_coverage-IsWritten :
    (key : IdentityRow) (c : Catalog) (segments : List Segment)
    → IsCatalog c
    → IsNormal segments
    → IsWritten key c
        (replace_coverage (ensure_dataset key c).1 segments (ensure_dataset key c).0)
        segments
replace_coverage-IsWritten key c segments v n =
    let e = ensure_dataset key c in
    let h = ensure_dataset-IsEnsured key c v.keyed in
    record {
      own = own_coverage e.0 e.1 segments key h.found n;
      others = λ other ne.
          other_coverage e.0 e.1 segments other
            (λ j g. h.apart other j ne (sym (h.others other ne) ∙ g))
          ∙ ensured_frame key other c v ne;
      valid =
          replace_coverage-IsCatalog e.1 segments e.0 (ensure_dataset-IsCatalog key c v) h.has_id;
    }
