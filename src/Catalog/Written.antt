-- ===== src/Catalog/Written.antt =====
-- The coverage that each write to the catalog leaves, instant by instant.
use mathlib.Core.Path.{subst}
use xret.Coverage.Replace.{replace_range-status}
use xret.Coverage.Status.{stronger_none-status, stronger, status_at-append, status_at, contains}
use xret.Coverage.{replace_range, normalize_segments, Segment}
use xret.Catalog.Coverages.{
  replace_coverage-IsWritten, ensure_dataset-get_coverage_segments, IsWritten,
}
use xret.Coverage.Normalize.{
  normalize_segments-status, normalize_segments-IsNormal, IsNormal-IsProper,
}
use xret.Coverage.Normal.{IsProper, IsNormal}
use xret.Catalog.Valid.{IsCatalog}
use xret.Identity.Keys.{
  IdentityRow, IdentityRow, IdentityRow, IdentityRow, IdentityRow, IdentityRow, IdentityRow,
  IdentityRow, IdentityRow, IdentityRow, IdentityRow, IdentityRow, IdentityRow,
}
use xret.Timeframe.{Datetime}
use xret.Catalog.{
  set_coverage, apply_coverage_batch, Catalog, set_coverage, apply_coverage_batch, Catalog,
  set_coverage, apply_coverage_batch, Catalog, set_coverage, apply_coverage_batch, Catalog,
  set_coverage, apply_coverage_batch, Catalog, set_coverage, apply_coverage_batch, Catalog,
  set_coverage, apply_coverage_batch, Catalog, set_coverage, apply_coverage_batch, Catalog,
  set_coverage, apply_coverage_batch, Catalog, set_coverage, apply_coverage_batch, Catalog,
  set_coverage, apply_coverage_batch, Catalog, Catalog, set_coverage, replace_coverage_range,
  replace_coverage, get_coverage_segments, ensure_dataset, apply_coverage_batch, Catalog,
}
use xret.Prelude.{
  ok_injective, ◌∙◌, ◌++◌, ℕ, sym, refl, ok, if◌then◌else◌, [], List, All-append, All, after_ok,
  ◌∷◌, ◌≡◌,
}

-- A batch of nonempty segments over stored coverage in normal form: what it returns is what is then
-- stored for the key, in normal form, and says of each instant the stronger of the old status and
-- the batch's; all other keys keep their coverage, and the tables stay consistent.
pub apply_coverage_batch-IsWritten :
    (key : IdentityRow) (segments : List Segment) (c : Catalog)
    → IsCatalog c
    → IsNormal (get_coverage_segments key c)
    → All IsProper segments
    → IsWritten key c
        (apply_coverage_batch key segments c).0
        (apply_coverage_batch key segments c).1
      × IsNormal (apply_coverage_batch key segments c).1
      × ((t : ℕ)
          → status_at (apply_coverage_batch key segments c).1 t
            ≡ stronger (status_at (get_coverage_segments key c) t) (status_at segments t))
unfolding apply_coverage_batch
apply_coverage_batch-IsWritten key [] c v n p = (
  record { own = refl; others = λ other ne. refl; valid = v },
  n,
  λ t. sym (stronger_none-status (get_coverage_segments key c) t),
)
apply_coverage_batch-IsWritten key (s ∷ segments) c v n p =
    let old = get_coverage_segments key c in
    let proper = All-append IsProper old (s ∷ segments) (IsNormal-IsProper old n) p in
    let normal = normalize_segments-IsNormal (old ++ s ∷ segments) proper in
    rw (ensure_dataset-get_coverage_segments key c v) (
      replace_coverage-IsWritten key c (normalize_segments (old ++ s ∷ segments)) v normal,
      normal,
      λ t.
          normalize_segments-status (old ++ s ∷ segments) t proper
          ∙ status_at-append old (s ∷ segments) t,
    )

-- Setting a key's coverage to nonempty segments stores one normalized list that says the same of
-- each instant; all other keys keep their coverage, and the tables stay consistent.
pub set_coverage-IsWritten :
    (key : IdentityRow) (segments : List Segment) (c : Catalog)
    → IsCatalog c
    → All IsProper segments
    → IsWritten key c (set_coverage key segments c) (normalize_segments segments)
      × IsNormal (normalize_segments segments)
      × ((t : ℕ) → status_at (normalize_segments segments) t ≡ status_at segments t)
unfolding set_coverage
set_coverage-IsWritten key segments c v p = (
  replace_coverage-IsWritten key c (normalize_segments segments) v
      (normalize_segments-IsNormal segments p),
  normalize_segments-IsNormal segments p,
  λ t. normalize_segments-status segments t p,
)

pub replace_coverage_range-ok :
    (key : IdentityRow) (start end : Datetime) (replacements : List Segment) (c after : Catalog)
    → replace_coverage_range key start end replacements c ≡ ok after
    → (segments : List Segment) × (replace_range start end replacements
          (get_coverage_segments key (ensure_dataset key c).0)
        ≡ ok segments)
      × (replace_coverage (ensure_dataset key c).1 segments (ensure_dataset key c).0 ≡ after)
unfolding replace_coverage_range
replace_coverage_range-ok key start end replacements c after h =
    let e = ensure_dataset key c in
    let got =
      after_ok (replace_range start end replacements (get_coverage_segments key e.0))
        (λ segments. ok (replace_coverage e.1 segments e.0)) h in
    (got.0, got.1, ok_injective got.2)

-- Where a nonempty range of stored coverage in normal form is replaced, and that is not refused: the
-- key's coverage is in normal form, inside the range it says of each instant what the replacements
-- say, outside what it said before; all other keys keep theirs, and the tables stay consistent.
pub replace_coverage_range-IsWritten :
    (key : IdentityRow) (start end : Datetime) (replacements : List Segment) (c after : Catalog)
    → IsCatalog c
    → IsNormal (get_coverage_segments key c)
    → All IsProper replacements
    → replace_coverage_range key start end replacements c ≡ ok after
    → IsWritten key c after (get_coverage_segments key after)
      × IsNormal (get_coverage_segments key after)
      × ((t : ℕ)
          → status_at (get_coverage_segments key after) t ≡ (
              if contains start end t
              then status_at replacements t
              else status_at (get_coverage_segments key c) t))
replace_coverage_range-IsWritten key start end replacements c after v n p h =
    let got = replace_coverage_range-ok key start end replacements c after h in
    let same = ensure_dataset-get_coverage_segments key c v in
    let existing = get_coverage_segments key c in
    let facts =
      replace_range-status start end replacements existing p (IsNormal-IsProper existing n)
        (rw same at got.1) in
    let written : IsWritten key c after got.0 =
      subst (λ d. IsWritten key c d got.0) got.2
        (replace_coverage-IsWritten key c got.0 v facts.0) in
    rw written.own (written, facts.0, facts.1)
