-- ===== src/Tests/Coverages.antt =====
-- Coverage with overlaps: the theorems of Coverage at concrete segments.
use xret.Coverage.Replace.{replace_range-status}
use xret.Coverage.Status.{stronger, contains, at_segment, status_at}
use xret.Coverage.Normalize.{
  apply_update-status, normalize_segments-status, normalize_segments-canonical,
  normalize_segments-IsNormal, batch-eq-apply_all, apply_all,
}
use xret.Coverage.{
  replace_range, apply_update, seg, normalize_segments, covered_and_gaps, StoredStatus, Split,
  Segment,
}
use xret.Coverage.Normal.{IsNormal}
use xret.Coverage.Gaps.{covered_and_gaps_exact, Divides}
use xret.Prelude.{ℕ, if◌then◌else◌, ◌++◌, refl, ok, inr, arith, [], List, ◌∷◌, ◌≡◌}

abbrev stored_segments : List Segment
stored_segments = seg 10 20 StoredStatus.available ∷ seg 20 30 StoredStatus.unavailable ∷ []

abbrev new_segments : List Segment
new_segments = seg 25 40 StoredStatus.available ∷ seg 5 12 StoredStatus.unavailable ∷ []

stored-IsNormal : IsNormal stored_segments
stored-IsNormal = (omega arith, inr (refl, λ e. cc), (omega arith, tt, tt))

normalized :
    normalize_segments (stored_segments ++ new_segments)
    ≡ seg 5 10 StoredStatus.unavailable
      ∷ seg 10 20 StoredStatus.available
      ∷ seg 20 25 StoredStatus.unavailable
      ∷ seg 25 40 StoredStatus.available
      ∷ []
unfolding normalize_segments
normalized = refl

normalize_segments-status_example :
    status_at (normalize_segments (stored_segments ++ new_segments)) 27
    ≡ status_at (stored_segments ++ new_segments) 27
normalize_segments-status_example =
    normalize_segments-status (stored_segments ++ new_segments) 27 (omega arith)

normalize_segments-IsNormal_example :
    IsNormal (normalize_segments (stored_segments ++ new_segments))
normalize_segments-IsNormal_example =
    normalize_segments-IsNormal (stored_segments ++ new_segments) (omega arith)

batch-eq-apply_all_example :
    normalize_segments (stored_segments ++ new_segments) ≡ apply_all stored_segments new_segments
batch-eq-apply_all_example =
    batch-eq-apply_all stored_segments new_segments stored-IsNormal (omega arith)

-- The stored segments, and the same in overlapping pieces.
abbrev piecewise : List Segment
piecewise =
    seg 15 20 StoredStatus.available
    ∷ seg 18 30 StoredStatus.unavailable
    ∷ seg 10 16 StoredStatus.available
    ∷ []

pieces_agree : (t : ℕ) → status_at stored_segments t ≡ status_at piecewise t
unfolding status_at stronger at_segment contains
pieces_agree t = ground arith

normalize_segments-canonical_example :
    normalize_segments stored_segments ≡ normalize_segments piecewise
normalize_segments-canonical_example =
    normalize_segments-canonical stored_segments piecewise (omega arith) (omega arith) pieces_agree

covered_and_gaps_exact_example :
    (s : Split) × (covered_and_gaps new_segments 8 50 ≡ ok s) × Divides 8 50 new_segments s
covered_and_gaps_exact_example =
    covered_and_gaps_exact new_segments 8 50 (omega arith) (omega arith)

apply_update-status_example :
    status_at (apply_update stored_segments (seg 25 40 StoredStatus.available)) 27
    ≡ stronger (status_at stored_segments 27) (at_segment (seg 25 40 StoredStatus.available) 27)
apply_update-status_example =
    apply_update-status stored_segments (seg 25 40 StoredStatus.available) 27 stored-IsNormal
      (omega arith)

replaced :
    replace_range 15 35 (seg 25 30 StoredStatus.available ∷ []) stored_segments
    ≡ ok (seg 10 15 StoredStatus.available ∷ seg 25 30 StoredStatus.available ∷ [])
unfolding replace_range normalize_segments
replaced = refl

replace_range-status_example :
    IsNormal (seg 10 15 StoredStatus.available ∷ seg 25 30 StoredStatus.available ∷ [])
    × ((t : ℕ)
        → status_at (seg 10 15 StoredStatus.available ∷ seg 25 30 StoredStatus.available ∷ []) t ≡ (
            if contains 15 35 t
            then status_at (seg 25 30 StoredStatus.available ∷ []) t
            else status_at stored_segments t))
replace_range-status_example =
    replace_range-status 15 35 (seg 25 30 StoredStatus.available ∷ []) stored_segments (omega arith)
      (omega arith) replaced
