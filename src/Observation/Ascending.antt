-- ===== src/Observation/Ascending.antt =====
-- Ascending lists of intervals, and that `_coalesce` keeps what they say.
use xret.Observation.Plain.{plain_join_from, plain_coalesce}
use xret.Coverage.Ascending.{IsAscending-later, IsAscending}
use xret.Observation.{joins}
use xret.Coverage.Status.{interval_at, contains}
use xret.Timeframe.{Datetime}
use xret.Coverage.{interval, Interval, CoverageStatus}
use xret.Prelude.{
  ◌≤◌, ◌∙◌, ◌<◌, ◌++◌, true, some, refl, none, inr, inl, if◌then◌else◌, arith, ap, [], Option, List,
  Bool-cases, ◌∷◌, ◌≡◌,
}

abbrev pub EndsBy : Datetime → List Interval → Type 0
EndsBy e [] = Unit
EndsBy e (i ∷ rest) = (i.end ≤ e) × EndsBy e rest

pub interval_at-before :
    (p v : Datetime) (is : List Interval) → IsAscending p is → v < p → interval_at is v ≡ none
unfolding interval_at
interval_at-before p v [] h lt = refl
interval_at-before p v (i ∷ rest) h lt =
    ground (arith, interval_at-before i.end v rest h.2 (omega arith))

pub IsAscending-append :
    (p q : Datetime) (xs ys : List Interval)
    → p ≤ q
    → IsAscending p xs
    → EndsBy q xs
    → IsAscending q ys
    → IsAscending p (xs ++ ys)
IsAscending-append p q [] ys le h e k = IsAscending-later p q ys le k
IsAscending-append p q (x ∷ xs) ys le h e k =
    (h.0, h.1, IsAscending-append x.end q xs ys e.0 h.2 e.1 k)

pub EndsBy-append :
    (e : Datetime) (xs ys : List Interval) → EndsBy e xs → EndsBy e ys → EndsBy e (xs ++ ys)
EndsBy-append e [] ys h k = k
EndsBy-append e (x ∷ xs) ys h k = (h.0, EndsBy-append e xs ys h.1 k)

pub EndsBy-later : (d e : Datetime) (is : List Interval) → d ≤ e → EndsBy d is → EndsBy e is
EndsBy-later d e [] le h = tt
EndsBy-later d e (i ∷ rest) le h = (omega arith, EndsBy-later d e rest le h.1)

abbrev pub first_of_two : Option CoverageStatus → Option CoverageStatus → Option CoverageStatus
first_of_two none y = y
first_of_two (some x) y = some x

pub interval_at-append :
    (xs ys : List Interval) (v : Datetime)
    → interval_at (xs ++ ys) v ≡ first_of_two (interval_at xs v) (interval_at ys v)
unfolding interval_at
interval_at-append [] ys v = refl
interval_at-append (x ∷ xs) ys v = ground (arith, interval_at-append xs ys v)

joins→eq : (l i : Interval) → joins l i ≡ true → (l.end ≡ i.start) × (l.status ≡ i.status)
unfolding joins
joins→eq l i h = ground arith

plain_join_from-cons :
    (l i : Interval) (rest : List Interval)
    → plain_join_from l (i ∷ rest) ≡ (
        if joins l i
        then plain_join_from (interval l.start i.end l.status) rest
        else l ∷ plain_join_from i rest)
unfolding plain_join_from
plain_join_from-cons l i rest = refl

join_two :
    (l i : Interval) (rest : List Interval) (v : Datetime)
    → l.start < l.end
    → i.start < i.end
    → l.end ≡ i.start
    → l.status ≡ i.status
    → interval_at (interval l.start i.end l.status ∷ rest) v ≡ interval_at (l ∷ i ∷ rest) v
unfolding interval_at contains
join_two l i rest v p q e es = ground arith

interval_at-cons :
    (l : Interval) (xs ys : List Interval) (v : Datetime)
    → interval_at xs v ≡ interval_at ys v
    → interval_at (l ∷ xs) v ≡ interval_at (l ∷ ys) v
unfolding interval_at
interval_at-cons l xs ys v e = ap (λ o. if contains l.start l.end v then some l.status else o) e

plain_join_from-at :
    (p : Datetime) (l : Interval) (is : List Interval) (v : Datetime)
    → IsAscending p (l ∷ is)
    → interval_at (plain_join_from l is) v ≡ interval_at (l ∷ is) v
plain_join_from-at p l [] v h = unfold plain_join_from in refl
plain_join_from-at p l (i ∷ rest) v h = elim (Bool-cases (joins l i)) [
  | inl e ↦
      rw (plain_join_from-cons, e)
        (plain_join_from-at p (interval l.start i.end l.status) rest v
            (h.0, omega (arith, joins→eq l i e), h.2.2)
          ∙ join_two l i rest v h.1 h.2.1 (joins→eq l i e).0 (joins→eq l i e).1)
  | inr e ↦
      rw (plain_join_from-cons, e)
        (interval_at-cons l (plain_join_from i rest) (i ∷ rest) v
          (plain_join_from-at l.end i rest v h.2))
]

plain_join_from-IsAscending :
    (p : Datetime) (l : Interval) (is : List Interval)
    → IsAscending p (l ∷ is)
    → IsAscending p (plain_join_from l is)
plain_join_from-IsAscending p l [] h = unfold plain_join_from in h
plain_join_from-IsAscending p l (i ∷ rest) h = elim (Bool-cases (joins l i)) [
  | inl e ↦
      rw (plain_join_from-cons, e)
        (plain_join_from-IsAscending p (interval l.start i.end l.status) rest
          (h.0, omega (arith, joins→eq l i e), h.2.2))
  | inr e ↦ rw (plain_join_from-cons, e) (h.0, h.1, plain_join_from-IsAscending l.end i rest h.2)
]

plain_join_from-EndsBy :
    (e : Datetime) (l : Interval) (is : List Interval)
    → EndsBy e (l ∷ is)
    → EndsBy e (plain_join_from l is)
plain_join_from-EndsBy e l [] h = unfold plain_join_from in h
plain_join_from-EndsBy e l (i ∷ rest) h = elim (Bool-cases (joins l i)) [
  | inl q ↦
      rw (plain_join_from-cons, q)
        (plain_join_from-EndsBy e (interval l.start i.end l.status) rest h.1)
  | inr q ↦ rw (plain_join_from-cons, q) (h.0, plain_join_from-EndsBy e i rest h.1)
]

pub plain_coalesce-IsAscending :
    (p : Datetime) (is : List Interval) → IsAscending p is → IsAscending p (plain_coalesce is)
unfolding plain_coalesce
plain_coalesce-IsAscending p [] h = tt
plain_coalesce-IsAscending p (i ∷ rest) h = plain_join_from-IsAscending p i rest h

pub plain_coalesce-EndsBy :
    (e : Datetime) (is : List Interval) → EndsBy e is → EndsBy e (plain_coalesce is)
unfolding plain_coalesce
plain_coalesce-EndsBy e [] h = tt
plain_coalesce-EndsBy e (i ∷ rest) h = plain_join_from-EndsBy e i rest h

-- `_coalesce` says of each instant what the ascending list says.
pub plain_coalesce-at :
    (p : Datetime) (is : List Interval) (v : Datetime)
    → IsAscending p is
    → interval_at (plain_coalesce is) v ≡ interval_at is v
unfolding plain_coalesce
plain_coalesce-at p [] v h = refl
plain_coalesce-at p (i ∷ rest) v h = plain_join_from-at p i rest v h
