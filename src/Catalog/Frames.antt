-- ===== src/Catalog/Frames.antt =====
-- Operations that change the coverage and the ownership of no key.
use xret.Catalog.Recorded.{ensured_ownership, with_ownership}
use mathlib.Core.Path.{subst}
use xret.Catalog.Keys.{same_row-ne}
use xret.Catalog.Tables.{rows_of}
use xret.Catalog.Owners.{ownership_rows}
use xret.Catalog.Coverages.{ensured_frame, ensure_dataset-get_coverage_segments}
use xret.Catalog.Framed.{ensured_other, ensure_dataset-IsKept}
use xret.Coverage.{Segment}
use xret.Catalog.Valid.{IsCatalog}
use xret.Identity.Keys.{same_row→eq, same_row, IdentityRow}
use xret.Catalog.{
  replace_coverage, get_dataset_id, get_coverage_segments, ensure_dataset, RunRow, Ownership,
  FileRow, EventRow, Contributor, Catalog,
}
use xret.Prelude.{◌∙◌, ℕ, refl, inr, inl, ap, List, Bool-cases, ◌≡◌}

pub record IsFramed (before after : Catalog) : Type 0 where
  pub coverage : (k : IdentityRow) → get_coverage_segments k after ≡ get_coverage_segments k before
  pub ownership : (k : IdentityRow) → ownership_rows k after ≡ ownership_rows k before

pub IsFramed-trans : (a b c : Catalog) → IsFramed a b → IsFramed b c → IsFramed a c
IsFramed-trans a b c h k = record {
  coverage = λ key. k.coverage key ∙ h.coverage key;
  ownership = λ key. k.ownership key ∙ h.ownership key;
}

pub ensure_dataset-IsFramed :
    (key : IdentityRow) (c : Catalog) → IsCatalog c → IsFramed c (ensure_dataset key c).0
ensure_dataset-IsFramed key c v = record {
  coverage = λ k. elim (Bool-cases (same_row key k)) [
    | inl e ↦
        subst (λ x. get_coverage_segments x (ensure_dataset key c).0 ≡ get_coverage_segments x c)
          (same_row→eq key k e) (ensure_dataset-get_coverage_segments key c v)
    | inr e ↦ ensured_frame key k c v (same_row-ne key k e)
  ];
  ownership = λ k. elim (Bool-cases (same_row key k)) [
    | inl e ↦
        subst (λ x. ownership_rows x (ensure_dataset key c).0 ≡ ownership_rows x c)
          (same_row→eq key k e) (ensured_ownership key c v)
    | inr e ↦
        ensured_other key c v.keyed k c.ownership (ensure_dataset key c).0.ownership
          (same_row-ne key k e) (λ j ne. ap (rows_of j) (ensure_dataset-IsKept key c).ownership)
  ];
}

-- Tables that neither coverage nor ownership is read from.
abbrev pub with_other :
    List (ℕ × FileRow)
    → List (ℕ × Contributor)
    → List (ℕ × RunRow)
    → List (ℕ × ℕ)
    → List (ℕ × EventRow)
    → Catalog
    → Catalog
with_other files contributors runs file_runs events c = record c {
  files = files;
  contributors = contributors;
  runs = runs;
  file_runs = file_runs;
  events = events;
}

pub with_other-IsFramed :
    (files : List (ℕ × FileRow)) (contributors : List (ℕ × Contributor)) (runs : List (ℕ × RunRow))
    (file_runs : List (ℕ × ℕ)) (events : List (ℕ × EventRow)) (c : Catalog)
    → IsFramed c (with_other files contributors runs file_runs events c)
unfolding get_coverage_segments get_dataset_id
with_other-IsFramed files contributors runs file_runs events c = record {
  coverage = λ k. refl;
  ownership = λ k. refl;
}

-- A write of coverage leaves ownership, and a write of ownership leaves coverage.
pub replace_coverage-ownership :
    (key : IdentityRow) (c : Catalog) (segments : List Segment) (k : IdentityRow)
    → IsCatalog c
    → ownership_rows k (replace_coverage (ensure_dataset key c).1 segments (ensure_dataset key c).0)
      ≡ ownership_rows k c
replace_coverage-ownership key c segments k v =
    kept (ensure_dataset key c).1 (ensure_dataset key c).0
    ∙ (ensure_dataset-IsFramed key c v).ownership k
  where
    kept :
        (i : ℕ) (d : Catalog)
        → ownership_rows k (replace_coverage i segments d) ≡ ownership_rows k d
    kept i d = unfold replace_coverage get_dataset_id in refl

pub with_ownership-coverage :
    (rows : List (ℕ × Ownership)) (c : Catalog) (k : IdentityRow)
    → get_coverage_segments k (with_ownership rows c) ≡ get_coverage_segments k c
unfolding with_ownership get_coverage_segments get_dataset_id
with_ownership-coverage rows c k = refl
