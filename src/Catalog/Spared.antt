-- ===== src/Catalog/Spared.antt =====
-- The rows that a deletion spares: those of other files and runs.
use xret.Catalog.Tables.{without, rows_of-without, rows_of, rows_at, other_id}
use xret.Catalog.Files.{has_link}
use xret.Catalog.Owners.{without_all, unlink_all, unlink, forget_runs, forget_run}
use mathlib.Core.Path.{ap₂}
use xret.Catalog.Cascade.{NotIn}
use xret.Catalog.{EventRow}
use xret.Prelude.{
  ap, ◌≢◌, ◌∙◌, ◌==◌, ℕ, some, refl, none, map, inr, inl, if◌then◌else◌, false, arith, [], Option,
  List, Bool-cases, Bool, ◌∷◌, ◌≡◌,
}

pub rows_of-without_all {ℓ} :
    {A : Type ℓ} (f : ℕ) (ids : List ℕ) (rows : List (ℕ × A))
    → NotIn f ids
    → rows_of f (without_all ids rows) ≡ rows_of f rows
unfolding without_all
rows_of-without_all f [] rows h = refl
rows_of-without_all f (i ∷ ids) rows h =
    rw (rows_of-without f i (without_all ids rows), other_id f i h.0)
      (rows_of-without_all f ids rows h.1)

has_link-without :
    (f r i : ℕ) (rows : List (ℕ × ℕ)) → f ≢ i → has_link f r (without i rows) ≡ has_link f r rows
unfolding has_link without
has_link-without f r i [] h = refl
has_link-without f r i ((j, q) ∷ rows) h = ground (arith, has_link-without f r i rows h)

has_link-without_all :
    (f r : ℕ) (ids : List ℕ) (rows : List (ℕ × ℕ))
    → NotIn f ids
    → has_link f r (without_all ids rows) ≡ has_link f r rows
unfolding without_all
has_link-without_all f r [] rows h = refl
has_link-without_all f r (i ∷ ids) rows h =
    has_link-without f r i (without_all ids rows) h.0 ∙ has_link-without_all f r ids rows h.1

has_link-unlink :
    (f r i : ℕ) (rows : List (ℕ × ℕ)) → r ≢ i → has_link f r (unlink i rows) ≡ has_link f r rows
unfolding has_link unlink
has_link-unlink f r i [] h = refl
has_link-unlink f r i ((j, q) ∷ rows) h = ground (arith, has_link-unlink f r i rows h)

has_link-unlink_all :
    (f r : ℕ) (ids : List ℕ) (rows : List (ℕ × ℕ))
    → NotIn r ids
    → has_link f r (unlink_all ids rows) ≡ has_link f r rows
unfolding unlink_all
has_link-unlink_all f r [] rows h = refl
has_link-unlink_all f r (i ∷ ids) rows h =
    has_link-unlink f r i (unlink_all ids rows) h.0 ∙ has_link-unlink_all f r ids rows h.1

pub has_link-spared :
    (f r : ℕ) (files runs : List ℕ) (rows : List (ℕ × ℕ))
    → NotIn f files
    → NotIn r runs
    → has_link f r (unlink_all runs (without_all files rows)) ≡ has_link f r rows
has_link-spared f r files runs rows h k =
    has_link-unlink_all f r runs (without_all files rows) k ∙ has_link-without_all f r files rows h

-- All of an event but its run, and whether its run is `r`.
abbrev pub is_run : ℕ → Option ℕ → Bool
is_run r none = false
is_run r (some q) = q == r

unfoldable pub seen_from : ℕ → EventRow → EventRow × Bool
seen_from r v = (record v { run = none }, is_run r v.run)

seen_from-linked :
    (r q s : ℕ) (v : EventRow)
    → r ≢ q
    → v.run ≡ some s
    → seen_from r (if s == q then record v { run = none } else v) ≡ seen_from r v
unfolding seen_from
seen_from-linked r q s v ne e = elim (Bool-cases (s == q)) [
  | inl p ↦ let other : (s == r) ≡ false = ground arith in rw (p, e, other) refl
  | inr p ↦ rw p refl
]

-- What the deletion of the run `q` leaves of an event whose run is given.
forget_by : ℕ → Option ℕ → EventRow → EventRow
forget_by q none v = v
forget_by q (some s) v = if s == q then record v { run = none } else v

seen_from-forget_by :
    (r q : ℕ) (o : Option ℕ) (v : EventRow)
    → r ≢ q
    → v.run ≡ o
    → seen_from r (forget_by q o v) ≡ seen_from r v
unfolding forget_by
seen_from-forget_by r q none v ne e = refl
seen_from-forget_by r q (some s) v ne e = seen_from-linked r q s v ne e

abbrev forgotten : ℕ → ℕ → Option ℕ → EventRow → ℕ × EventRow
forgotten q k o v = elim o [
  | none ↦ (k, v)
  | some r ↦ if r == q then (k, record v { run = none }) else (k, v)
]

forgotten_pair : (q k : ℕ) (o : Option ℕ) (v : EventRow) → forgotten q k o v ≡ (k, forget_by q o v)
unfolding forget_by
forgotten_pair q k none v = refl
forgotten_pair q k (some s) v = elim (Bool-cases (s == q)) [ inl b ↦ rw b refl | inr b ↦ rw b refl ]

forget_run-cons :
    (q k : ℕ) (v : EventRow) (rows : List (ℕ × EventRow))
    → forget_run q ((k, v) ∷ rows) ≡ (k, forget_by q v.run v) ∷ forget_run q rows
unfolding forget_run
forget_run-cons q k v rows = ap (λ x. x ∷ forget_run q rows) (forgotten_pair q k v.run v)

map_rows-cons :
    (j k r : ℕ) (v w : EventRow) (xs ys : List (ℕ × EventRow))
    → seen_from r v ≡ seen_from r w
    → map (seen_from r) (rows_of j xs) ≡ map (seen_from r) (rows_of j ys)
    → map (seen_from r) (rows_of j ((k, v) ∷ xs)) ≡ map (seen_from r) (rows_of j ((k, w) ∷ ys))
unfolding rows_of
map_rows-cons j k r v w xs ys e f = elim (Bool-cases (j == k)) [
  | inl p ↦ rw p (ap₂ ◌∷◌ e f)
  | inr p ↦ rw p f
]

forget_run-rows :
    (j r q : ℕ) (rows : List (ℕ × EventRow))
    → r ≢ q
    → map (seen_from r) (rows_of j (forget_run q rows)) ≡ map (seen_from r) (rows_of j rows)
forget_run-rows j r q [] ne = unfold forget_run in refl
forget_run-rows j r q ((k, v) ∷ rows) ne = rw (forget_run-cons q k v rows) (
    map_rows-cons j k r (forget_by q v.run v) v (forget_run q rows) rows
      (seen_from-forget_by r q v.run v ne refl) (forget_run-rows j r q rows ne))

pub forget_runs-rows :
    (j r : ℕ) (ids : List ℕ) (rows : List (ℕ × EventRow))
    → NotIn r ids
    → map (seen_from r) (rows_of j (forget_runs ids rows)) ≡ map (seen_from r) (rows_of j rows)
unfolding forget_runs
forget_runs-rows j r [] rows h = refl
forget_runs-rows j r (q ∷ ids) rows h =
    forget_run-rows j r q (forget_runs ids rows) h.0 ∙ forget_runs-rows j r ids rows h.1

pub forget_runs-rows_at :
    (r : ℕ) (dataset : Option ℕ) (ids : List ℕ) (rows : List (ℕ × EventRow))
    → NotIn r ids
    → map (seen_from r) (rows_at dataset (forget_runs ids rows))
      ≡ map (seen_from r) (rows_at dataset rows)
forget_runs-rows_at r none ids rows h = refl
forget_runs-rows_at r (some j) ids rows h = forget_runs-rows j r ids rows h
