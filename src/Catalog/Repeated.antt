-- ===== src/Catalog/Repeated.antt =====
-- Recording the same contributors again.
use xret.Catalog.Keys.{ensure_dataset-IsEnsured}
use mathlib.Core.Path.{subst}
use xret.Catalog.Tables.{rows_of}
use xret.Catalog.Recorded.{
  with_ownership, record_source_ownership-ok, record_source_ownership-IsRecorded,
}
use xret.Catalog.Owners.{
  validate_source_ownership, validate_from, record_source_ownership, ownership_rows, owner,
  overlaps, insert_owners, insert_owner, has_range, clashes,
}
use xret.Evidence.{ProviderEvidence, IsEvidence}
use xret.Catalog.Valid.{IsCatalog}
use xret.Identity.Keys.{IdentityRow}
use xret.Catalog.Ranges.{
  IsFirst-validate_from, validate_from-IsFirst, Owns, IsSeparate, IsApart, HasOwner,
}
use xret.Timeframe.{Datetime}
use xret.Catalog.{get_dataset_id, ensure_dataset, Ownership, Catalog}
use xret.Prelude.{
  ◌∙◌, ℕ, true, sym, some_injective, some, same_text_self, refl, ok, none, inr, inl, false, arith,
  ap, [], Option, List, All, ◌∷◌, ◌≡◌,
}

-- A range among separate ones clashes with none of them.
apart-clashes :
    (o : Ownership) (rows : List Ownership) → All (IsApart o) rows → clashes o rows ≡ false
unfolding clashes overlaps
apart-clashes o [] h = refl
apart-clashes o (r ∷ rows) h = ground (arith, apart-clashes o rows h.1)

IsApart-from :
    (r o : Ownership) (rows : List Ownership) → All (IsApart r) rows → HasOwner o rows → IsApart r o
IsApart-from r o [] h k = absurd k
IsApart-from r o (x ∷ rows) h (inl e) = rw (← e) h.0
IsApart-from r o (x ∷ rows) h (inr k) = IsApart-from r o rows h.1 k

clashes-first :
    (o : Ownership) (rows : List Ownership) → clashes o rows ≡ false → clashes o (o ∷ rows) ≡ false
unfolding clashes overlaps
clashes-first o rows h = ground (arith, same_text_self o.provider_name)

clashes-apart :
    (r o : Ownership) (rows : List Ownership)
    → IsApart r o
    → clashes o rows ≡ false
    → clashes o (r ∷ rows) ≡ false
unfolding clashes overlaps
clashes-apart r o rows a h = ground arith

owned-clashes :
    (o : Ownership) (rows : List Ownership)
    → IsSeparate rows
    → HasOwner o rows
    → clashes o rows ≡ false
owned-clashes o [] s k = absurd k
owned-clashes o (r ∷ rows) s (inl e) =
    subst (λ (x : Ownership). clashes o (x ∷ rows) ≡ false) (sym e)
      (clashes-first o rows
        (apart-clashes o rows (subst (λ (x : Ownership). All (IsApart x) rows) e s.0)))
owned-clashes o (r ∷ rows) s (inr k) =
    clashes-apart r o rows (IsApart-from r o rows s.0 k) (owned-clashes o rows s.1 k)

-- Contributors in order who own their ranges pass.
validate_from-again :
    (previous : Option Datetime) (before rows : List Ownership) (es : List ProviderEvidence)
    → validate_from previous before es ≡ ok tt
    → IsSeparate rows
    → All (Owns rows) es
    → validate_from previous rows es ≡ ok tt
validate_from-again previous before rows [] h s k = unfold validate_from in refl
validate_from-again previous before rows (e ∷ es) h s k =
    let f = validate_from-IsFirst previous before e es h in
    let starts : k.0.0 ≡ f.start = some_injective (sym k.0.2 ∙ f.starts) in
    let ends : k.0.1 ≡ f.end = some_injective (sym k.0.3 ∙ f.ends) in
    IsFirst-validate_from previous rows e es (record {
      start = f.start;
      end = f.end;
      starts = f.starts;
      ends = f.ends;
      later = f.later;
      fits = owned-clashes (owner f.start f.end e.provider_name) rows s (
          subst (λ b. HasOwner (owner f.start b e.provider_name) rows) ends
            (subst (λ a. HasOwner (owner a k.0.1 e.provider_name) rows) starts k.0.4));
      rest = validate_from-again (some f.end) before rows es f.rest s k.1;
    })

has_first : (o : Ownership) (rows : List Ownership) → has_range o (o ∷ rows) ≡ true
unfolding has_range
has_first o rows = ground arith

has_range-owned :
    (o : Ownership) (rows : List Ownership) → HasOwner o rows → has_range o rows ≡ true
unfolding has_range
has_range-owned o [] k = absurd k
has_range-owned o (r ∷ rows) (inl e) =
    subst (λ (x : Ownership). has_range o (x ∷ rows) ≡ true) (sym e) (has_first o rows)
has_range-owned o (r ∷ rows) (inr k) = ground (arith, has_range-owned o rows k)

insert_owner-again :
    (i : ℕ) (o : Ownership) (rows : List (ℕ × Ownership))
    → HasOwner o (rows_of i rows)
    → insert_owner i o rows ≡ rows
unfolding insert_owner
insert_owner-again i o rows k = rw (has_range-owned o (rows_of i rows) k) refl

insert_owners-again :
    (i : ℕ) (es : List ProviderEvidence) (rows : List (ℕ × Ownership))
    → All (Owns (rows_of i rows)) es
    → insert_owners i es rows ≡ rows
unfolding insert_owners
insert_owners-again i [] rows k = refl
insert_owners-again i (e ∷ es) rows k =
    rw (k.0.2, k.0.3, insert_owner-again i (owner k.0.0 k.0.1 e.provider_name) rows k.0.4)
      (insert_owners-again i es rows k.1)

pub found_again :
    (key : IdentityRow) (c : Catalog) (i : ℕ)
    → get_dataset_id key c ≡ some i
    → ensure_dataset key c ≡ (c, i)
unfolding ensure_dataset
found_again key c i e = rw (e, ensure_dataset) refl

record_again :
    (key : IdentityRow) (es : List ProviderEvidence) (c : Catalog) (i : ℕ)
    → get_dataset_id key c ≡ some i
    → validate_from none (ownership_rows key c) es ≡ ok tt
    → insert_owners i es c.ownership ≡ c.ownership
    → record_source_ownership key es c ≡ ok c
unfolding record_source_ownership validate_source_ownership
record_again key es c i e v same =
    rw v (rw (found_again key c i e) (ap (λ rows. ok (record c { ownership = rows })) same))

pub with_ownership-id :
    (key : IdentityRow) (rows : List (ℕ × Ownership)) (c : Catalog)
    → get_dataset_id key (with_ownership rows c) ≡ get_dataset_id key c
unfolding with_ownership get_dataset_id
with_ownership-id key rows c = refl

-- Recording contributors that were just recorded is accepted and changes nothing.
pub record_source_ownership-again :
    (key : IdentityRow) (es : List ProviderEvidence) (c after : Catalog)
    → IsCatalog c
    → All IsEvidence es
    → IsSeparate (ownership_rows key c)
    → record_source_ownership key es c ≡ ok after
    → record_source_ownership key es after ≡ ok after
record_source_ownership-again key es c after v p s h =
    let r = record_source_ownership-IsRecorded key es c after v p s h in
    let got = record_source_ownership-ok key es c after h in
    let i = (ensure_dataset key c).1 in
    let found : get_dataset_id key after ≡ some i =
      subst (λ d. get_dataset_id key d ≡ some i) got.1
        (with_ownership-id key (insert_owners i es (ensure_dataset key c).0.ownership)
            (ensure_dataset key c).0
          ∙ (ensure_dataset-IsEnsured key c v.keyed).found) in
    let same : ownership_rows key after ≡ rows_of i after.ownership = rw found refl in
    record_again key es after i found
      (validate_from-again none (ownership_rows key c) (ownership_rows key after) es got.0
        r.grown.separate r.grown.stored)
      (insert_owners-again i es after.ownership
        (subst (λ rows. All (Owns rows) es) same r.grown.stored))
