-- ===== src/Coverage/Coalesce.antt =====
-- `_coalesce` keeps the status at every instant and ends in the normal form.
use xret.Coverage.Normal.{IsNormal, IsProper, ApartFirst, Apart}
use xret.Coverage.Pieces.{IsDisjoint}
use xret.Coverage.{same_status, seg, coalesce_from, Segment}
use xret.Coverage.Status.{stronger, at_segment, status_at}
use xret.Prelude.{
  ◌≤◌, ◌∙◌, ◌==◌, ◌&&◌, refl, inr, inl, if◌then◌else◌, false, ap, [], Bool-cases, arith, ℕ, true,
  Bool, List, ◌∷◌, ◌≡◌,
}

-- Two touching segments of one status are one segment.
joined-at :
    (l s : Segment) (rest : List Segment) (t : ℕ)
    → IsDisjoint (l ∷ s ∷ rest)
    → l.end ≡ s.start
    → l.status ≡ s.status
    → status_at (seg l.start s.end l.status ∷ rest) t ≡ status_at (l ∷ s ∷ rest) t
unfolding status_at
joined-at l s [] t h e es = ground arith
joined-at l s (r ∷ rest) t h e es = ground arith

joined-IsDisjoint :
    (l s : Segment) (rest : List Segment)
    → IsDisjoint (l ∷ s ∷ rest)
    → IsDisjoint (seg l.start s.end l.status ∷ rest)
joined-IsDisjoint l s [] h = omega arith
joined-IsDisjoint l s (r ∷ rest) h = (omega arith, h.2.1, h.2.2)

-- `last.end == segment.start and last.status is segment.status`
unfoldable pub touches : Segment → Segment → Bool
touches l s = l.end == s.start && same_status l.status s.status

touches→eq : (l s : Segment) → touches l s ≡ true → (l.end ≡ s.start) × (l.status ≡ s.status)
unfolding touches
touches→eq l s h = ground arith

not_touches→Apart : (l s : Segment) → l.end ≤ s.start → touches l s ≡ false → Apart l s
unfolding touches
not_touches→Apart l s le h = ground arith

pub coalesce_from-cons :
    (l s : Segment) (rest : List Segment)
    → coalesce_from l (s ∷ rest) ≡ (
        if touches l s
        then coalesce_from (seg l.start s.end l.status) rest
        else l ∷ coalesce_from s rest)
unfolding coalesce_from touches
coalesce_from-cons l s rest = refl

pub coalesce_from-status :
    (l : Segment) (segs : List Segment) (t : ℕ)
    → IsDisjoint (l ∷ segs)
    → status_at (coalesce_from l segs) t ≡ status_at (l ∷ segs) t
unfolding status_at
coalesce_from-status l [] t h = unfold coalesce_from in refl
coalesce_from-status l (s ∷ rest) t h = elim (Bool-cases (touches l s)) [
  | inl e ↦
      rw (coalesce_from-cons, e)
        (coalesce_from-status (seg l.start s.end l.status) rest t (joined-IsDisjoint l s rest h)
          ∙ joined-at l s rest t h (touches→eq l s e).0 (touches→eq l s e).1)
  | inr e ↦
      rw (coalesce_from-cons, e)
        (ap (stronger (at_segment l t)) (coalesce_from-status s rest t h.2))
]

coalesce_from-ApartFirst :
    (x s : Segment) (rest : List Segment) → Apart x s → ApartFirst x (coalesce_from s rest)
coalesce_from-ApartFirst x s [] h = unfold coalesce_from in h
coalesce_from-ApartFirst x s (r ∷ rest) h = elim (Bool-cases (touches s r)) [
  | inl e ↦
      rw (coalesce_from-cons, e) (coalesce_from-ApartFirst x (seg s.start r.end s.status) rest h)
  | inr e ↦ rw (coalesce_from-cons, e) h
]

IsDisjoint-IsProper : (s : Segment) (rest : List Segment) → IsDisjoint (s ∷ rest) → IsProper s
IsDisjoint-IsProper s [] h = h
IsDisjoint-IsProper s (r ∷ rest) h = h.0

pub coalesce_from-IsNormal :
    (l : Segment) (segs : List Segment) → IsDisjoint (l ∷ segs) → IsNormal (coalesce_from l segs)
coalesce_from-IsNormal l [] h = unfold coalesce_from in (h, tt, tt)
coalesce_from-IsNormal l (s ∷ rest) h = elim (Bool-cases (touches l s)) [
  | inl e ↦
      rw (coalesce_from-cons, e)
        (coalesce_from-IsNormal (seg l.start s.end l.status) rest (joined-IsDisjoint l s rest h))
  | inr e ↦
      rw (coalesce_from-cons, e)
        (
          h.0,
          coalesce_from-ApartFirst l s rest (not_touches→Apart l s h.1 e),
          coalesce_from-IsNormal s rest h.2,
        )
]
