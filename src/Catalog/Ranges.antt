-- ===== src/Catalog/Ranges.antt =====
-- Ownership ranges of one data set: the loop that validates contributors, and what it lets in.
use mathlib.Core.Path.{subst}
use mathlib.Core.Option.{none-ne-some}
use xret.Catalog.Owners.{is_before, has_range, clashes, validate_from, owner, overlaps}
use xret.Evidence.{IsEvidence, ProviderEvidence}
use xret.Catalog.{Ownership}
use xret.Timeframe.{Datetime}
use xret.Prelude.{
  ◌∙◌, sym, some_injective, ◌||◌, ◌==◌, ◌&&◌, same_text→eq, same_text, refl, err, catalog_error,
  Text, Result, Bool-cases, Bool, ◌⊎◌, ◌≤◌, ◌<◌, true, some, ok, none, inr, inl, if◌then◌else◌,
  false, err-ne-ok, arith, [], Option-cases, Option, List, All, ◌∷◌, ◌≡◌,
}

abbrev pub IsApart : Ownership → Ownership → Type 0
IsApart o p = (o.end ≤ p.start) ⊎ (p.end ≤ o.start)

-- No two ranges share an instant.
abbrev pub IsSeparate : List Ownership → Type 0
IsSeparate [] = Unit
IsSeparate (o ∷ rows) = All (IsApart o) rows × IsSeparate rows

abbrev pub HasOwner : Ownership → List Ownership → Type 0
HasOwner o [] = ⊥
HasOwner o (r ∷ rows) = (r ≡ o) ⊎ HasOwner o rows

-- The contributor's range and provider are among the rows.
abbrev pub Owns : List Ownership → ProviderEvidence → Type 0
Owns rows e =
    (a : Datetime) × (b : Datetime) × (e.contributed_start ≡ some a)
    × (e.contributed_end ≡ some b)
    × HasOwner (owner a b e.provider_name) rows

-- `insert_owners` on the rows of the one data set.
unfoldable pub add_owner : Ownership → List Ownership → List Ownership
unfolding has_range
add_owner o rows = if has_range o rows then rows else o ∷ rows

unfoldable pub add_owners : List ProviderEvidence → List Ownership → List Ownership
add_owners [] rows = rows
add_owners (e ∷ es) rows = elim e.contributed_start [
  | none ↦ add_owners es rows
  | some start ↦ elim e.contributed_end [
    | none ↦ add_owners es rows
    | some end ↦ add_owners es (add_owner (owner start end e.provider_name) rows)
  ]
]

-- A row that does not clash with a nonempty range is apart from it, or has the same range.
pub clashes-IsApart :
    (o : Ownership) (rows : List Ownership)
    → o.start < o.end
    → clashes o rows ≡ false
    → has_range o rows ≡ false
    → All (IsApart o) rows
unfolding clashes has_range
clashes-IsApart o [] lt c h = tt
clashes-IsApart o (r ∷ rows) lt c h =
    (ground arith, clashes-IsApart o rows lt (ground arith) (ground arith))

owner_eq : {a b c d : Datetime} {m n : Text} → a ≡ b → c ≡ d → m ≡ n → owner a c m ≡ owner b d n
owner_eq p q r = rw (p, q, r) refl

-- With the same range it is of the same provider.
pub clashes-HasOwner :
    (o : Ownership) (rows : List Ownership)
    → o.start < o.end
    → clashes o rows ≡ false
    → has_range o rows ≡ true
    → HasOwner o rows
unfolding clashes has_range overlaps
clashes-HasOwner o [] lt c h = cc
clashes-HasOwner o (r ∷ rows) lt c h = elim (Bool-cases (r.start == o.start && r.end == o.end)) [
  | inl e ↦
      let starts : r.start ≡ o.start = ground arith in
      let ends : r.end ≡ o.end = ground arith in
      let same : same_text r.provider_name o.provider_name ≡ true = ground arith in
      inl (owner_eq starts ends (same_text→eq r.provider_name o.provider_name same))
  | inr e ↦ inr (clashes-HasOwner o rows lt (ground arith) (ground arith))
]

-- What the loop checks of the first contributor.
pub record IsFirst (previous : Option Datetime) (rows : List Ownership) (e : ProviderEvidence)
    (es : List ProviderEvidence) : Type 0 where
  pub start : Datetime
  pub end : Datetime
  pub starts : e.contributed_start ≡ some start
  pub ends : e.contributed_end ≡ some end
  pub later : is_before start previous ≡ false
  pub fits : clashes (owner start end e.provider_name) rows ≡ false
  pub rest : validate_from (some end) rows es ≡ ok tt

past_both {ℓ} :
    {A : Type ℓ} {x : Result A} {y : A} (a b : Bool)
    → (if a || b then err catalog_error else x) ≡ ok y
    → (a ≡ false) × (b ≡ false) × (x ≡ ok y)
past_both true b h = absurd (err-ne-ok h)
past_both false true h = absurd (err-ne-ok h)
past_both false false h = (refl, refl, h)

pub validate_from-IsFirst :
    (previous : Option Datetime) (rows : List Ownership) (e : ProviderEvidence)
    (es : List ProviderEvidence)
    → validate_from previous rows (e ∷ es) ≡ ok tt
    → IsFirst previous rows e es
unfolding validate_from
validate_from-IsFirst previous rows e es h = elim (Option-cases e.contributed_start) [
  | inl n ↦ absurd (err-ne-ok (rw n at h))
  | inr (a, p) ↦ elim (Option-cases e.contributed_end) [
    | inl n ↦ absurd (err-ne-ok (rw (p, n) at h))
    | inr (b, q) ↦
        let got =
          past_both (is_before a previous) (clashes (owner a b e.provider_name) rows)
            (rw (p, q) at h) in
        record {
          start = a;
          end = b;
          starts = p;
          ends = q;
          later = got.0;
          fits = got.1;
          rest = got.2;
        }
  ]
]

-- And what makes it go on.
pub IsFirst-validate_from :
    (previous : Option Datetime) (rows : List Ownership) (e : ProviderEvidence)
    (es : List ProviderEvidence)
    → IsFirst previous rows e es
    → validate_from previous rows (e ∷ es) ≡ ok tt
unfolding validate_from
IsFirst-validate_from previous rows e es f = rw (f.starts, f.ends, f.later, f.fits) f.rest

-- A row that ends before all that is to come stands in no one's way.
is_before_trans :
    (start p : Datetime) (o : Ownership) (name : Text) (end : Datetime) (rows : List Ownership)
    → o.end ≤ p
    → is_before start (some p) ≡ false
    → clashes (owner start end name) rows ≡ false
    → clashes (owner start end name) (o ∷ rows) ≡ false
unfolding is_before clashes overlaps
is_before_trans start p o name end rows le b c = ground arith

pub range_of :
    (e : ProviderEvidence) (a b : Datetime)
    → IsEvidence e
    → e.contributed_start ≡ some a
    → e.contributed_end ≡ some b
    → a < b
range_of e a b v p q = elim v.ranged [
  | inl n ↦ absurd (none-ne-some a (sym n.0 ∙ p))
  | inr (c, d, s, t, lt) ↦
      subst (λ n. n < b) (some_injective (sym s ∙ p))
        (subst (λ n. c < n) (some_injective (sym t ∙ q)) lt)
]

not_before : (start p : Datetime) → is_before start (some p) ≡ false → p ≤ start
unfolding is_before
not_before start p h = ground arith

pub validate_from-cons :
    (p : Datetime) (o : Ownership) (rows : List Ownership) (es : List ProviderEvidence)
    → o.end ≤ p
    → All IsEvidence es
    → validate_from (some p) rows es ≡ ok tt
    → validate_from (some p) (o ∷ rows) es ≡ ok tt
validate_from-cons p o rows [] le v h = unfold validate_from in refl
validate_from-cons p o rows (e ∷ es) le v h =
    let f = validate_from-IsFirst (some p) rows e es h in
    IsFirst-validate_from (some p) (o ∷ rows) e es (record {
      start = f.start;
      end = f.end;
      starts = f.starts;
      ends = f.ends;
      later = f.later;
      fits = is_before_trans f.start p o e.provider_name f.end rows le f.later f.fits;
      rest =
          validate_from-cons f.end o rows es
            (omega (
              arith,
              le,
              not_before f.start p f.later,
              range_of e f.start f.end v.0 f.starts f.ends,
            ))
            v.1 f.rest;
    })
