-- ===== src/Catalog/Answers.antt =====
-- What the catalog answers of a request is what was recorded.
use xret.Coverage.Status.{status_at-append, status_at, contains}
use xret.Catalog.Written.{apply_coverage_batch-IsWritten}
use xret.Coverage.{Split, Segment}
use xret.Coverage.Normalize.{IsNormal-IsProper}
use xret.Coverage.Normal.{IsProper, IsNormal}
use xret.Catalog.Valid.{IsCatalog}
use xret.Identity.Keys.{IdentityRow}
use xret.Coverage.Gaps.{covered_and_gaps_exact, as_gap, as_covered, Divides}
use xret.Timeframe.{Datetime}
use xret.Catalog.{get_coverage_segments, coverage_and_gaps, apply_coverage_batch, Catalog}
use xret.Prelude.{◌∙◌, ◌<◌, ◌++◌, ℕ, sym, ok, none, if◌then◌else◌, ap, List, All, ◌≡◌}

Divides-status :
    (start end : Datetime) (xs ys : List Segment) (s : Split)
    → ((t : ℕ) → status_at xs t ≡ status_at ys t)
    → Divides start end xs s
    → Divides start end ys s
Divides-status start end xs ys s same d = record {
  covered_at =
      λ t. d.covered_at t ∙ ap (λ o. if contains start end t then as_covered o else none) (same t);
  gaps_at = λ t. d.gaps_at t ∙ ap (λ o. if contains start end t then as_gap o else none) (same t);
  covered_ascending = d.covered_ascending;
  gaps_ascending = d.gaps_ascending;
}

stored_split :
    (key : IdentityRow) (start end : Datetime) (c : Catalog) (segments : List Segment)
    → get_coverage_segments key c ≡ segments
    → All IsProper segments
    → start < end
    → (s : Split) × (coverage_and_gaps key start end c ≡ ok s) × Divides start end segments s
unfolding coverage_and_gaps
stored_split key start end c segments e p lt =
    let d = covered_and_gaps_exact segments start end p lt in
    (d.0, rw (e, coverage_and_gaps) d.1, d.2)

-- After a batch of nonempty segments is recorded in a sound catalog, a request for the key from
-- `start` to a later `end` is answered with two lists of nonempty ascending intervals that do not
-- overlap, and at every instant inside it as the old coverage and the
-- batch together say: covered just where one of them is available, a gap that is `unavailable` where
-- one of them is and none is available, and a gap that is `missing` elsewhere.
pub recorded_coverage_answers :
    (key : IdentityRow) (segments : List Segment) (start end : Datetime) (c : Catalog)
    → IsCatalog c
    → IsNormal (get_coverage_segments key c)
    → All IsProper segments
    → start < end
    → (s : Split) × (coverage_and_gaps key start end (apply_coverage_batch key segments c).0 ≡ ok s)
      × Divides start end (get_coverage_segments key c ++ segments) s
recorded_coverage_answers key segments start end c v n p lt =
    let old = get_coverage_segments key c in
    let stored = (apply_coverage_batch key segments c).1 in
    let w = apply_coverage_batch-IsWritten key segments c v n p in
    let d =
      stored_split key start end (apply_coverage_batch key segments c).0 stored w.0.own
        (IsNormal-IsProper stored w.1) lt in
    (
      d.0,
      d.1,
      Divides-status start end stored (old ++ segments) d.0
          (λ t. w.2 t ∙ sym (status_at-append old segments t)) d.2,
    )
