-- ===== src/Coverage/Replace.antt =====
-- `replace_coverage_range` exchanges the statuses inside the range, and no other.
use xret.Coverage.Normalize.{normalize_segments-status, normalize_segments-IsNormal}
use xret.Coverage.Status.{
  at_segment, stronger-none, stronger, status_at-append, status_at, contains,
}
use xret.Coverage.{
  cut, retain, all_within, replace_range, normalize_segments, StoredStatus, Segment,
}
use xret.Coverage.Normal.{IsProper, IsNormal}
use xret.Prelude.{
  ◌∙◌, ◌<◌, ◌++◌, ℕ, true, refl, ok, none, inr, inl, if◌then◌else◌, false, arith, [], Option, List,
  Bool-cases, All-append, All, ◌∷◌, ◌≡◌,
}

cut-status :
    (start end : ℕ) (s : Segment) (kept : List Segment) (t : ℕ)
    → start < end
    → IsProper s
    → status_at (cut start end s kept) t
      ≡ stronger (if contains start end t then none else at_segment s t) (status_at kept t)
unfolding cut status_at contains
cut-status start end s kept t lt p = ground arith

retain-status :
    (start end : ℕ) (segs : List Segment) (t : ℕ)
    → start < end
    → All IsProper segs
    → status_at (retain start end segs) t
      ≡ (if contains start end t then none else status_at segs t)
unfolding retain status_at
retain-status start end [] t lt h = ground arith
retain-status start end (s ∷ rest) t lt h =
    rw
      (
        cut-status start end s (retain start end rest) t lt h.0,
        retain-status start end rest t lt h.1,
      )
      (ground arith)

cut-IsProper :
    (start end : ℕ) (s : Segment) (kept : List Segment)
    → IsProper s
    → All IsProper kept
    → All IsProper (cut start end s kept)
unfolding cut
cut-IsProper start end s kept p h = ground arith

retain-IsProper :
    (start end : ℕ) (segs : List Segment) → All IsProper segs → All IsProper (retain start end segs)
unfolding retain
retain-IsProper start end [] h = tt
retain-IsProper start end (s ∷ rest) h =
    cut-IsProper start end s (retain start end rest) h.0 (retain-IsProper start end rest h.1)

outside_status :
    (start end : ℕ) (segs : List Segment) (t : ℕ)
    → all_within start end segs ≡ true
    → contains start end t ≡ false
    → status_at segs t ≡ none
unfolding all_within status_at contains
outside_status start end [] t h out = refl
outside_status start end (s ∷ rest) t h out = ground (arith, outside_status start end rest t)

replace_range-ok :
    (start end : ℕ) (replacements existing : List Segment) {result : List Segment}
    → replace_range start end replacements existing ≡ ok result
    → (start < end)
      × (all_within start end replacements ≡ true)
      × (normalize_segments (retain start end existing ++ replacements) ≡ result)
unfolding replace_range
replace_range-ok start end replacements existing e = ground arith

none-stronger : (x : Option StoredStatus) → stronger none x ≡ x
unfolding stronger
none-stronger x = refl

-- A replacement that is accepted, over nonempty segments: inside the range the new coverage has
-- the strongest status of the replacements, outside it what was stored, and it is in normal form.
pub replace_range-status :
    (start end : ℕ) (replacements existing : List Segment) {result : List Segment}
    → All IsProper replacements
    → All IsProper existing
    → replace_range start end replacements existing ≡ ok result
    → IsNormal result
      × ((t : ℕ)
          → status_at result t
            ≡ (if contains start end t then status_at replacements t else status_at existing t))
replace_range-status start end replacements existing {result} h k e = (
  rw (← is_result) (normalize_segments-IsNormal (retain start end existing ++ replacements) proper),
  λ t. rw (← is_result) (
      normalize_segments-status (retain start end existing ++ replacements) t proper
      ∙ status_at-append (retain start end existing) replacements t
      ∙ merged t),
)
  where
    proper : All IsProper (retain start end existing ++ replacements)
    proper =
        All-append IsProper (retain start end existing) replacements
          (retain-IsProper start end existing k) h

    accepted :
        (start < end)
        × (all_within start end replacements ≡ true)
        × (normalize_segments (retain start end existing ++ replacements) ≡ result)
    accepted = replace_range-ok start end replacements existing e

    is_result : normalize_segments (retain start end existing ++ replacements) ≡ result
    is_result = accepted.2

    merged :
        (t : ℕ)
        → stronger (status_at (retain start end existing) t) (status_at replacements t)
          ≡ (if contains start end t then status_at replacements t else status_at existing t)
    merged t =
        rw (retain-status start end existing t accepted.0 k)
          (elim (Bool-cases (contains start end t)) [
            | inl i ↦ rw i (none-stronger (status_at replacements t))
            | inr o ↦
                rw (o, outside_status start end replacements t accepted.1 o)
                  (stronger-none (status_at existing t))
          ])
