-- ===== src/Coverage/Normal.antt =====
-- The normal form of coverage, and that it is determined by the status at each instant.
use xret.Prelude.{ℕ, ◌≤◌, ◌<◌, ◌≡◌, ◌≢◌, refl, sym, ap, ◌⊎◌, none, some, List, [], ◌∷◌, arith, ◌∙◌}
use mathlib.Core.Path.{subst}
use native.Mathlib.Decide.{dec_lt}
use xret.Coverage.{Segment}
use xret.Coverage.Status.{status_at}

-- Nonempty, as `CoverageSegment.__post_init__` demands.
abbrev pub IsProper : Segment → Type 0
IsProper s = s.start < s.end

-- `r` may follow `l`: a hole between them, or they touch and differ.
abbrev pub Apart : Segment → Segment → Type 0
Apart l r = (l.end < r.start) ⊎ ((l.end ≡ r.start) × (l.status ≢ r.status))

abbrev pub ApartFirst : Segment → List Segment → Type 0
ApartFirst s [] = Unit
ApartFirst s (r ∷ rest) = Apart s r

-- Ascending, disjoint, and no two neighbours that could be one segment.
abbrev pub IsNormal : List Segment → Type 0
IsNormal [] = Unit
IsNormal (s ∷ rest) = IsProper s × ApartFirst s rest × IsNormal rest

pub status_at-before :
    (x : Segment) (xs : List Segment) (t : ℕ)
    → IsNormal (x ∷ xs)
    → t < x.start
    → status_at (x ∷ xs) t ≡ none
unfolding status_at
status_at-before x [] t h lt = ground arith
status_at-before x (y ∷ ys) t h lt = ground (arith, status_at-before y ys t h.2)

-- Behind the first segment the rest says nothing before that segment's end.
pub rest-before :
    (x : Segment) (xs : List Segment) (t : ℕ)
    → IsNormal (x ∷ xs)
    → t < x.end
    → status_at xs t ≡ none
rest-before x [] t h lt = unfold status_at in refl
rest-before x (y ∷ ys) t h lt = status_at-before y ys t h.2 (ground arith)

pub status_at-first :
    (x : Segment) (xs : List Segment) (t : ℕ)
    → IsNormal (x ∷ xs)
    → x.start ≤ t
    → t < x.end
    → status_at (x ∷ xs) t ≡ some x.status
status_at-first x xs t h lo hi = unfold status_at in ground (arith, rest-before x xs t h hi)

pub status_at-later :
    (x : Segment) (xs : List Segment) (t : ℕ) → x.end ≤ t → status_at (x ∷ xs) t ≡ status_at xs t
unfolding status_at
status_at-later x xs t h = ground arith

-- At its end a segment's status does not go on.
pub status_at-end :
    (x : Segment) (xs : List Segment) → IsNormal (x ∷ xs) → status_at xs x.end ≢ some x.status
unfolding status_at
status_at-end x [] h e = cc
status_at-end x (y ∷ ys) h e = ground (arith, rest-before y ys x.end h.2)

-- The tails of lists that agree everywhere agree, where the first segments are equal.
tails-agree :
    (x : Segment) (xs ys : List Segment)
    → IsNormal (x ∷ xs)
    → IsNormal (x ∷ ys)
    → ((t : ℕ) → status_at (x ∷ xs) t ≡ status_at (x ∷ ys) t)
    → (t : ℕ) → status_at xs t ≡ status_at ys t
tails-agree x xs ys h k same t = elim (dec_lt t x.end) [
  | yes p ↦ rest-before x xs t h p ∙ sym (rest-before x ys t k p)
  | no p ↦
      sym (status_at-later x xs t (omega arith)) ∙ same t ∙ status_at-later x ys t (omega arith)
]

-- Of two first segments neither begins before the other, if the lists agree.
start-le :
    (x y : Segment) (xs ys : List Segment)
    → IsNormal (x ∷ xs)
    → IsNormal (y ∷ ys)
    → status_at (x ∷ xs) x.start ≡ status_at (y ∷ ys) x.start
    → y.start ≤ x.start
start-le x y xs ys h k same = elim (dec_lt x.start y.start) [
  | yes p ↦ absurd (
      cc
        (same, status_at-first x xs x.start h (omega arith) h.0, status_at-before y ys x.start k p))
  | no p ↦ omega arith
]

same_start_status :
    (x y : Segment) (xs ys : List Segment)
    → IsNormal (x ∷ xs)
    → IsNormal (y ∷ ys)
    → x.start ≡ y.start
    → status_at (x ∷ xs) x.start ≡ status_at (y ∷ ys) x.start
    → x.status ≡ y.status
same_start_status x y xs ys h k e same =
    ground (arith, status_at-first x xs x.start h, status_at-first y ys x.start k)

end-le :
    (x y : Segment) (xs ys : List Segment)
    → IsNormal (x ∷ xs)
    → IsNormal (y ∷ ys)
    → x.start ≡ y.start
    → x.status ≡ y.status
    → status_at (x ∷ xs) x.end ≡ status_at (y ∷ ys) x.end
    → y.end ≤ x.end
end-le x y xs ys h k e es same = elim (dec_lt x.end y.end) [
  | yes p ↦ absurd (
      status_at-end x xs h (
        sym (status_at-later x xs x.end (omega arith))
        ∙ same
        ∙ status_at-first y ys x.end k (omega arith) p
        ∙ ap some (sym es)))
  | no p ↦ omega arith
]

same_first :
    (x y : Segment) (xs ys : List Segment)
    → IsNormal (x ∷ xs)
    → IsNormal (y ∷ ys)
    → ((t : ℕ) → status_at (x ∷ xs) t ≡ status_at (y ∷ ys) t)
    → x ≡ y
same_first x y xs ys h k same =
    let starts : x.start ≡ y.start =
      omega (
        arith,
        start-le x y xs ys h k (same x.start),
        start-le y x ys xs k h (sym (same y.start)),
      ) in
    let statuses : x.status ≡ y.status = same_start_status x y xs ys h k starts (same x.start) in
    let ends : x.end ≡ y.end = omega (
      arith,
      end-le x y xs ys h k starts statuses (same x.end),
      end-le y x ys xs k h (sym starts) (sym statuses) (sym (same y.end)),
    ) in
    cc (starts, statuses, ends)

-- Two normal lists that agree at every instant are the same list.
pub IsNormal-unique :
    (xs ys : List Segment)
    → IsNormal xs
    → IsNormal ys
    → ((t : ℕ) → status_at xs t ≡ status_at ys t)
    → xs ≡ ys
IsNormal-unique [] [] h k same = refl
IsNormal-unique [] (y ∷ ys) h k same =
    absurd (unfold status_at in cc (same y.start, status_at-first y ys y.start k (omega arith) k.0))
IsNormal-unique (x ∷ xs) [] h k same =
    absurd (unfold status_at in cc (same x.start, status_at-first x xs x.start h (omega arith) h.0))
IsNormal-unique (x ∷ xs) (y ∷ ys) h k same =
    let e : x ≡ y = same_first x y xs ys h k same in
    let k' : IsNormal (x ∷ ys) = subst (λ z. IsNormal (z ∷ ys)) (sym e) k in
    let same' : (t : ℕ) → status_at (x ∷ xs) t ≡ status_at (x ∷ ys) t =
      λ t. subst (λ z. status_at (x ∷ xs) t ≡ status_at (z ∷ ys) t) (sym e) (same t) in
    cc (e, IsNormal-unique xs ys h.2 k.2 (tails-agree x xs ys h k' same'))
