-- ===== src/Coverage/Status.antt =====
-- What a list of segments says of one instant, whatever its order and overlaps.
use xret.Prelude.{
  ℕ, ◌≡◌, refl, Bool, ◌&&◌, Option, none, some, List, [], ◌∷◌, ◌++◌, arith, ltb, leb, if◌then◌else◌,
}
use xret.Coverage.{Segment, StoredStatus, Interval, CoverageStatus}

unfoldable pub contains : ℕ → ℕ → ℕ → Bool
contains a b t = leb a t && ltb t b

-- `available` wins over `unavailable`, and either over nothing.
unfoldable pub stronger : Option StoredStatus → Option StoredStatus → Option StoredStatus
stronger none y = y
stronger (some StoredStatus.available) y = some StoredStatus.available
stronger (some StoredStatus.unavailable) none = some StoredStatus.unavailable
stronger (some StoredStatus.unavailable) (some y) = some y

-- The status of `s` at `t`, if `t` lies in it.
unfoldable pub at_segment : Segment → ℕ → Option StoredStatus
unfolding contains
at_segment s t = if contains s.start s.end t then some s.status else none

-- The strongest status among the segments that contain `t`.
unfoldable pub status_at : List Segment → ℕ → Option StoredStatus
unfolding at_segment stronger
status_at [] t = none
status_at (s ∷ rest) t = stronger (at_segment s t) (status_at rest t)

-- The status of the first interval that contains `t`.
unfoldable pub interval_at : List Interval → ℕ → Option CoverageStatus
unfolding contains
interval_at [] t = none
interval_at (i ∷ rest) t =
    let later = interval_at rest t in if contains i.start i.end t then some i.status else later

pub stronger-none : (x : Option StoredStatus) → stronger x none ≡ x
unfolding stronger
stronger-none x = ground arith

pub stronger_comm : (x y : Option StoredStatus) → stronger x y ≡ stronger y x
unfolding stronger
stronger_comm x y = ground arith

pub stronger_assoc :
    (x y z : Option StoredStatus) → stronger (stronger x y) z ≡ stronger x (stronger y z)
unfolding stronger
stronger_assoc x y z = ground arith

pub status_at-append :
    (xs ys : List Segment) (t : ℕ)
    → status_at (xs ++ ys) t ≡ stronger (status_at xs t) (status_at ys t)
unfolding status_at
status_at-append [] ys t = unfold stronger in refl
status_at-append (x ∷ xs) ys t = ground (
  arith,
  status_at-append xs ys t,
  stronger_assoc (at_segment x t) (status_at xs t) (status_at ys t),
)

pub status_at-one : (s : Segment) (t : ℕ) → status_at (s ∷ []) t ≡ at_segment s t
unfolding status_at
status_at-one s t = ground arith

pub status_at-cons :
    (s : Segment) (rest : List Segment) (t : ℕ)
    → stronger (at_segment s t) (status_at rest t) ≡ status_at (s ∷ rest) t
unfolding status_at
status_at-cons s rest t = refl

pub stronger_none-status :
    (segs : List Segment) (t : ℕ) → stronger (status_at segs t) (status_at [] t) ≡ status_at segs t
unfolding status_at
stronger_none-status segs t = stronger-none (status_at segs t)
