-- ===== src/Coverage/Points.antt =====
-- The points of `normalize_segments` ascend and hold both ends of every candidate.
use xret.Prelude.{ℕ, ◌<◌, ◌≡◌, ◌⊎◌, inl, List, [], ◌∷◌, arith, All}
use mathlib.Core.Path.{refl}
use xret.Coverage.{Segment, insert_point, points}

-- `e` is among the points, or behind the first of them.
abbrev pub In : ℕ → List ℕ → Type 0
In e [] = ⊥
In e (p ∷ ps) = (e ≡ p) ⊎ In e ps

abbrev pub Below : ℕ → List ℕ → Type 0
Below p [] = Unit
Below p (q ∷ qs) = p < q

abbrev pub Ascending : List ℕ → Type 0
Ascending [] = Unit
Ascending (p ∷ ps) = Below p ps × Ascending ps

insert_point-Below : (p q : ℕ) (qs : List ℕ) → q < p → Below q qs → Below q (insert_point p qs)
unfolding insert_point
insert_point-Below p q [] lt h = lt
insert_point-Below p q (r ∷ rs) lt h = ground arith

insert_point-Ascending : (p : ℕ) (qs : List ℕ) → Ascending qs → Ascending (insert_point p qs)
unfolding insert_point
insert_point-Ascending p [] h = (tt, tt)
insert_point-Ascending p (q ∷ qs) h =
    ground (arith, insert_point-Ascending p qs, insert_point-Below p q qs)

insert_point_self : (p : ℕ) (qs : List ℕ) → In p (insert_point p qs)
unfolding insert_point
insert_point_self p [] = inl refl
insert_point_self p (q ∷ qs) = ground (arith, insert_point_self p qs)

insert_point-In : (e p : ℕ) (qs : List ℕ) → In e qs → In e (insert_point p qs)
unfolding insert_point
insert_point-In e p [] h = absurd h
insert_point-In e p (q ∷ qs) h = ground (arith, insert_point-In e p qs)

pub points-Ascending : (segs : List Segment) → Ascending (points segs)
unfolding points
points-Ascending [] = tt
points-Ascending (s ∷ rest) =
    insert_point-Ascending s.start _ (insert_point-Ascending s.end _ (points-Ascending rest))

-- Both ends of `s` are points.
abbrev pub EndsIn : List ℕ → Segment → Type 0
EndsIn ps s = In s.start ps × In s.end ps

EndsIn-insert :
    (p : ℕ) (ps : List ℕ) (segs : List Segment)
    → All (EndsIn ps) segs
    → All (EndsIn (insert_point p ps)) segs
EndsIn-insert p ps [] h = tt
EndsIn-insert p ps (s ∷ rest) h = (
  (insert_point-In s.start p ps h.0.0, insert_point-In s.end p ps h.0.1),
  EndsIn-insert p ps rest h.1,
)

pub points-EndsIn : (segs : List Segment) → All (EndsIn (points segs)) segs
unfolding points
points-EndsIn [] = tt
points-EndsIn (s ∷ rest) = (
  (insert_point_self s.start _, insert_point-In s.end s.start _ (insert_point_self s.end _)),
  EndsIn-insert s.start _ rest (EndsIn-insert s.end _ rest (points-EndsIn rest)),
)
