-- ===== src/Catalog/Owned.antt =====
-- Recording contributors keeps the ownership of a data set free of overlaps.
use xret.Catalog.Keys.{HasId}
use xret.Catalog.Valid.{Belongs}
use mathlib.Core.Path.{subst}
use xret.Catalog.Tables.{same_id, other_id, rows_of}
use xret.Catalog.Owners.{insert_owner, validate_from, owner, insert_owners, has_range, clashes}
use xret.Catalog.{DatasetRow, Ownership}
use xret.Evidence.{ProviderEvidence, IsEvidence}
use xret.Catalog.Ranges.{
  clashes-IsApart, clashes-HasOwner, validate_from-cons, validate_from-IsFirst, range_of,
  add_owners, add_owner, Owns, IsSeparate, HasOwner,
}
use xret.Timeframe.{Datetime}
use xret.Prelude.{
  ◌≢◌, ◌∙◌, ap, Option-cases, ◌<◌, ℕ, sym, some, refl, ok, inr, inl, false, arith, [], Option, List,
  Bool-cases, All, ◌∷◌, ◌≡◌,
}

-- One contributor that was let in.
module _ (o : Ownership) (rows : List Ownership) (lt : o.start < o.end) where
  add_owner-IsSeparate : clashes o rows ≡ false → IsSeparate rows → IsSeparate (add_owner o rows)
  unfolding add_owner
  add_owner-IsSeparate c s = elim (Bool-cases (has_range o rows)) [
    | inl e ↦ rw e s
    | inr e ↦ rw e (clashes-IsApart o rows lt c e, s)
  ]

  add_owner-HasOwner : clashes o rows ≡ false → HasOwner o (add_owner o rows)
  unfolding add_owner
  add_owner-HasOwner c = elim (Bool-cases (has_range o rows)) [
    | inl e ↦ rw e (clashes-HasOwner o rows lt c e)
    | inr e ↦ rw e (inl refl)
  ]

  add_owner-validate_from :
      (es : List ProviderEvidence)
      → All IsEvidence es
      → validate_from (some o.end) rows es ≡ ok tt
      → validate_from (some o.end) (add_owner o rows) es ≡ ok tt
  unfolding add_owner
  add_owner-validate_from es v h = elim (Bool-cases (has_range o rows)) [
    | inl e ↦ rw e h
    | inr e ↦ rw e (validate_from-cons o.end o rows es (omega arith) v h)
  ]

add_owner-keeps :
    (o p : Ownership) (rows : List Ownership) → HasOwner p rows → HasOwner p (add_owner o rows)
unfolding add_owner
add_owner-keeps o p rows h = elim (Bool-cases (has_range o rows)) [
  | inl e ↦ rw e h
  | inr e ↦ rw e (inr h)
]

-- The rows behind the insertions.
pub record IsGrown (es : List ProviderEvidence) (rows after : List Ownership) : Type 0 where
  pub separate : IsSeparate after
  pub kept : (o : Ownership) → HasOwner o rows → HasOwner o after
  pub stored : All (Owns after) es

add_owners-first :
    (e : ProviderEvidence) (es : List ProviderEvidence) (rows : List Ownership) (a b : Datetime)
    → e.contributed_start ≡ some a
    → e.contributed_end ≡ some b
    → add_owners (e ∷ es) rows ≡ add_owners es (add_owner (owner a b e.provider_name) rows)
unfolding add_owners
add_owners-first e es rows a b p q = rw (p, q) refl

pub add_owners-IsGrown :
    (previous : Option Datetime) (es : List ProviderEvidence) (rows : List Ownership)
    → All IsEvidence es
    → IsSeparate rows
    → validate_from previous rows es ≡ ok tt
    → IsGrown es rows (add_owners es rows)
unfolding add_owners
add_owners-IsGrown previous [] rows v s h = record { separate = s; kept = λ o k. k; stored = tt }
add_owners-IsGrown previous (e ∷ es) rows v s h =
    let f = validate_from-IsFirst previous rows e es h in
    let o = owner f.start f.end e.provider_name in
    let lt = range_of e f.start f.end v.0 f.starts f.ends in
    let later =
      add_owners-IsGrown (some f.end) es (add_owner o rows) v.1
        (add_owner-IsSeparate o rows lt f.fits s)
        (add_owner-validate_from o rows lt es v.1 f.rest) in
    subst (IsGrown (e ∷ es) rows) (sym (add_owners-first e es rows f.start f.end f.starts f.ends))
      (record {
        separate = later.separate;
        kept = λ p k. later.kept p (add_owner-keeps o p rows k);
        stored = (
          (f.start, f.end, f.starts, f.ends, later.kept o (add_owner-HasOwner o rows lt f.fits)),
          later.stored,
        );
      })

-- The table and the rows of one data set.
insert_owner-own :
    (i : ℕ) (o : Ownership) (rows : List (ℕ × Ownership))
    → rows_of i (insert_owner i o rows) ≡ add_owner o (rows_of i rows)
unfolding insert_owner add_owner rows_of
insert_owner-own i o rows = elim (Bool-cases (has_range o (rows_of i rows))) [
  | inl e ↦ rw e refl
  | inr e ↦ rw (e, same_id i) refl
]

insert_owner-other :
    (i j : ℕ) (o : Ownership) (rows : List (ℕ × Ownership))
    → j ≢ i
    → rows_of j (insert_owner i o rows) ≡ rows_of j rows
unfolding insert_owner rows_of
insert_owner-other i j o rows ne = elim (Bool-cases (has_range o (rows_of i rows))) [
  | inl e ↦ rw e refl
  | inr e ↦ rw (e, other_id j i ne) refl
]

pub insert_owners-own :
    (i : ℕ) (es : List ProviderEvidence) (rows : List (ℕ × Ownership))
    → rows_of i (insert_owners i es rows) ≡ add_owners es (rows_of i rows)
unfolding insert_owners add_owners
insert_owners-own i [] rows = refl
insert_owners-own i (e ∷ es) rows = elim (Option-cases e.contributed_start) [
  | inl p ↦ rw p (insert_owners-own i es rows)
  | inr (a, p) ↦ elim (Option-cases e.contributed_end) [
    | inl q ↦ rw (p, q) (insert_owners-own i es rows)
    | inr (b, q) ↦
        rw (p, q)
          (insert_owners-own i es (insert_owner i (owner a b e.provider_name) rows)
            ∙ ap (add_owners es) (insert_owner-own i (owner a b e.provider_name) rows))
  ]
]

pub insert_owners-other :
    (i j : ℕ) (es : List ProviderEvidence) (rows : List (ℕ × Ownership))
    → j ≢ i
    → rows_of j (insert_owners i es rows) ≡ rows_of j rows
unfolding insert_owners
insert_owners-other i j [] rows ne = refl
insert_owners-other i j (e ∷ es) rows ne = elim (Option-cases e.contributed_start) [
  | inl p ↦ rw p (insert_owners-other i j es rows ne)
  | inr (a, p) ↦ elim (Option-cases e.contributed_end) [
    | inl q ↦ rw (p, q) (insert_owners-other i j es rows ne)
    | inr (b, q) ↦
        rw (p, q)
          (insert_owners-other i j es (insert_owner i (owner a b e.provider_name) rows) ne
            ∙ insert_owner-other i j (owner a b e.provider_name) rows ne)
  ]
]

Belongs-insert_owner :
    (datasets : List DatasetRow) (i : ℕ) (o : Ownership) (rows : List (ℕ × Ownership))
    → HasId i datasets
    → Belongs datasets rows
    → Belongs datasets (insert_owner i o rows)
unfolding insert_owner
Belongs-insert_owner datasets i o rows h b = elim (Bool-cases (has_range o (rows_of i rows))) [
  | inl e ↦ rw e b
  | inr e ↦ rw e (h, b)
]

pub Belongs-insert_owners :
    (datasets : List DatasetRow) (i : ℕ) (es : List ProviderEvidence) (rows : List (ℕ × Ownership))
    → HasId i datasets
    → Belongs datasets rows
    → Belongs datasets (insert_owners i es rows)
unfolding insert_owners
Belongs-insert_owners datasets i [] rows h b = b
Belongs-insert_owners datasets i (e ∷ es) rows h b = elim (Option-cases e.contributed_start) [
  | inl p ↦ rw p (Belongs-insert_owners datasets i es rows h b)
  | inr (a, p) ↦ elim (Option-cases e.contributed_end) [
    | inl q ↦ rw (p, q) (Belongs-insert_owners datasets i es rows h b)
    | inr (c, q) ↦
        rw (p, q)
          (Belongs-insert_owners datasets i es (insert_owner i (owner a c e.provider_name) rows) h
            (Belongs-insert_owner datasets i (owner a c e.provider_name) rows h b))
  ]
]
