-- ===== src/Catalog/Sound.antt =====
-- What all writes to the catalog keep, and why each does.
use mathlib.Core.Path.{subst}
use xret.Catalog.Keys.{same_row-ne}
use xret.Catalog.Written.{replace_coverage_range-ok}
use xret.Catalog.Recorded.{record_source_ownership-ok}
use xret.Catalog.Owners.{record_source_ownership, ownership_rows, insert_owners}
use xret.Coverage.{normalize_segments, apply_update, Segment}
use xret.Evidence.{ProviderEvidence}
use xret.Catalog.Coverages.{no_coverage, IsWritten}
use xret.Catalog.Ranges.{IsSeparate}
use xret.Coverage.Normal.{IsNormal}
use xret.Catalog.Frames.{
  with_ownership-coverage, replace_coverage-ownership, ensure_dataset-IsFramed, IsFramed,
}
use xret.Catalog.Deleted.{IsDeleted}
use xret.Catalog.Valid.{IsCatalog}
use xret.Identity.Keys.{same_row→eq, same_row, IdentityRow}
use xret.Timeframe.{Datetime}
use xret.Catalog.{
  set_coverage, replace_coverage_range, get_coverage_segments, ensure_dataset, apply_coverage_batch,
  apply_coverage, Catalog,
}
use xret.Prelude.{◌≢◌, ◌∙◌, ◌++◌, sym, refl, ok, inr, inl, [], List, Bool-cases, ◌∷◌, ◌≡◌}

-- The tables are consistent, every key's coverage is in normal form, and no two of its ownership
-- ranges overlap.
pub record IsSound (c : Catalog) : Type 0 where
  pub valid : IsCatalog c
  pub normal : (k : IdentityRow) → IsNormal (get_coverage_segments k c)
  pub separate : (k : IdentityRow) → IsSeparate (ownership_rows k c)

pub framed-IsSound :
    (c after : Catalog) → IsSound c → IsFramed c after → IsCatalog after → IsSound after
framed-IsSound c after s f v = record {
  valid = v;
  normal = λ k. subst IsNormal (sym (f.coverage k)) (s.normal k);
  separate = λ k. subst IsSeparate (sym (f.ownership k)) (s.separate k);
}

-- A property of all keys, from the one that was written and the others, which were not.
at_key {ℓ} :
    {A : Type ℓ} (P : A → Type 0) (key : IdentityRow) (before after : IdentityRow → A)
    → P (after key)
    → ((other : IdentityRow) → key ≢ other → after other ≡ before other)
    → ((k : IdentityRow) → P (before k))
    → (k : IdentityRow) → P (after k)
at_key P key before after own others h k = elim (Bool-cases (same_row key k)) [
  | inl e ↦ subst (λ x. P (after x)) (same_row→eq key k e) own
  | inr e ↦ subst P (sym (others k (same_row-ne key k e))) (h k)
]

pub written-IsSound :
    (key : IdentityRow) (c after : Catalog) (segments : List Segment)
    → IsSound c
    → IsWritten key c after segments
    → IsNormal segments
    → ((k : IdentityRow) → ownership_rows k after ≡ ownership_rows k c)
    → IsSound after
written-IsSound key c after segments s w n o = record {
  valid = w.valid;
  normal =
      at_key IsNormal key (λ k. get_coverage_segments k c) (λ k. get_coverage_segments k after)
        (subst IsNormal (sym w.own) n) w.others s.normal;
  separate = λ k. subst IsSeparate (sym (o k)) (s.separate k);
}

pub owned-IsSound :
    (key : IdentityRow) (c after : Catalog)
    → IsSound c
    → IsSeparate (ownership_rows key after)
    → ((other : IdentityRow) → key ≢ other → ownership_rows other after ≡ ownership_rows other c)
    → ((k : IdentityRow) → get_coverage_segments k after ≡ get_coverage_segments k c)
    → IsCatalog after
    → IsSound after
owned-IsSound key c after s own others same v = record {
  valid = v;
  normal = λ k. subst IsNormal (sym (same k)) (s.normal k);
  separate =
      at_key IsSeparate key (λ k. ownership_rows k c) (λ k. ownership_rows k after) own others
        s.separate;
}

-- What is left of the deleted key is nothing.
pub deleted-IsSound :
    (key : IdentityRow) (c after : Catalog) → IsSound c → IsDeleted key c after → IsSound after
deleted-IsSound key c after s d = record {
  valid = d.valid;
  normal =
      at_key IsNormal key (λ k. get_coverage_segments k c) (λ k. get_coverage_segments k after)
        (subst IsNormal (sym (no_coverage key after d.gone)) tt) d.coverage s.normal;
  separate =
      at_key IsSeparate key (λ k. ownership_rows k c) (λ k. ownership_rows k after) (rw d.gone tt)
        d.ownership s.separate;
}

-- Coverage writes leave ownership, and ownership writes coverage.
pub apply_coverage_batch-ownership :
    (key : IdentityRow) (segments : List Segment) (c : Catalog) (k : IdentityRow)
    → IsCatalog c
    → ownership_rows k (apply_coverage_batch key segments c).0 ≡ ownership_rows k c
unfolding apply_coverage_batch
apply_coverage_batch-ownership key [] c k v = refl
apply_coverage_batch-ownership key (s ∷ segments) c k v =
    replace_coverage-ownership key c
      (normalize_segments (get_coverage_segments key (ensure_dataset key c).0 ++ s ∷ segments)) k v

pub apply_coverage-batch :
    (key : IdentityRow) (s : Segment) (c : Catalog)
    → apply_coverage key s c ≡ apply_coverage_batch key (s ∷ []) c
unfolding apply_coverage apply_coverage_batch apply_update
apply_coverage-batch key s c = refl

pub set_coverage-ownership :
    (key : IdentityRow) (segments : List Segment) (c : Catalog) (k : IdentityRow)
    → IsCatalog c
    → ownership_rows k (set_coverage key segments c) ≡ ownership_rows k c
unfolding set_coverage
set_coverage-ownership key segments c k v =
    replace_coverage-ownership key c (normalize_segments segments) k v

pub replace_coverage_range-ownership :
    (key : IdentityRow) (start end : Datetime) (replacements : List Segment) (c after : Catalog)
    (k : IdentityRow)
    → IsCatalog c
    → replace_coverage_range key start end replacements c ≡ ok after
    → ownership_rows k after ≡ ownership_rows k c
replace_coverage_range-ownership key start end replacements c after k v h =
    let got = replace_coverage_range-ok key start end replacements c after h in
    subst (λ x. ownership_rows k x ≡ ownership_rows k c) got.2
      (replace_coverage-ownership key c got.0 k v)

pub record_source_ownership-coverage :
    (key : IdentityRow) (es : List ProviderEvidence) (c after : Catalog) (k : IdentityRow)
    → IsCatalog c
    → record_source_ownership key es c ≡ ok after
    → get_coverage_segments k after ≡ get_coverage_segments k c
record_source_ownership-coverage key es c after k v h =
    let e = ensure_dataset key c in
    let got = record_source_ownership-ok key es c after h in
    subst (λ x. get_coverage_segments k x ≡ get_coverage_segments k c) got.1
      (with_ownership-coverage (insert_owners e.1 es e.0.ownership) e.0 k
        ∙ (ensure_dataset-IsFramed key c v).coverage k)
