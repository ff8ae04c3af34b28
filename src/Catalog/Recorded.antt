-- ===== src/Catalog/Recorded.antt =====
-- What recording contributors leaves behind, and whom a request is refused.
use xret.Observation.{mem}
use mathlib.Core.Path.{subst}
use xret.Catalog.Tables.{rows_of, rows_at}
use xret.Catalog.Owners.{
  validate_provider_request, owner, validate_source_ownership, validate_from,
  record_source_ownership, ownership_rows, owned_by_another, overlaps, insert_owners,
}
use xret.Catalog.Framed.{ensured_rows, ensured_own, ensured_other, ensure_dataset-IsKept}
use xret.Catalog.Keys.{ensure_dataset-IsEnsured}
use xret.Evidence.{ProviderEvidence, IsEvidence}
use xret.Identity.Keys.{IdentityRow}
use xret.Catalog.Ranges.{Owns, add_owners, IsSeparate, HasOwner}
use xret.Timeframe.{Datetime}
use xret.Catalog.{get_dataset_id, ensure_dataset, Ownership, Catalog}
use xret.Catalog.Owned.{
  insert_owners-own, insert_owners-other, add_owners-IsGrown, IsGrown, Belongs-insert_owners,
}
use xret.Catalog.Valid.{ensure_dataset-IsCatalog, IsCatalog, Belongs}
use xret.Prelude.{
  ◌⊎◌, some, err-ne-ok, err, catalog_error, Bool-cases, true, same_text→eq, same_text, ok_injective,
  inr, inl, arith, after_ok, ◌≢◌, ◌∙◌, ◌<◌, ℕ, sym, refl, ok, none, false, ap, [], Text, List, All,
  ◌∷◌, ◌≡◌,
}

-- What was recorded: the ranges of the key stay disjoint, every old one is still there, every
-- contributor owns its range, all other keys keep theirs, and the tables stay consistent.
pub record IsRecorded (key : IdentityRow) (es : List ProviderEvidence) (before after : Catalog)
    : Type 0 where
  pub grown : IsGrown es (ownership_rows key before) (ownership_rows key after)
  pub others :
      (other : IdentityRow) → key ≢ other → ownership_rows other after ≡ ownership_rows other before
  pub valid : IsCatalog after

unfoldable pub with_ownership : List (ℕ × Ownership) → Catalog → Catalog
with_ownership rows c = record c { ownership = rows }

with_ownership-rows :
    (key : IdentityRow) (rows : List (ℕ × Ownership)) (c : Catalog)
    → ownership_rows key (with_ownership rows c) ≡ rows_at (get_dataset_id key c) rows
unfolding with_ownership get_dataset_id
with_ownership-rows key rows c = refl

with_ownership-IsCatalog :
    (rows : List (ℕ × Ownership)) (c : Catalog)
    → IsCatalog c
    → Belongs c.datasets rows
    → IsCatalog (with_ownership rows c)
unfolding with_ownership
with_ownership-IsCatalog rows c v b = record {
  keyed = v.keyed;
  of_coverage = v.of_coverage;
  of_ownership = b;
  of_files = v.of_files;
  of_runs = v.of_runs;
  of_events = v.of_events;
  of_contributors = v.of_contributors;
  of_file_runs = v.of_file_runs;
  file_table = v.file_table;
  run_table = v.run_table;
}

pub record_source_ownership-ok :
    (key : IdentityRow) (es : List ProviderEvidence) (c after : Catalog)
    → record_source_ownership key es c ≡ ok after
    → (validate_from none (ownership_rows key c) es ≡ ok tt)
      × (with_ownership
            (insert_owners (ensure_dataset key c).1 es (ensure_dataset key c).0.ownership)
            (ensure_dataset key c).0
          ≡ after)
unfolding record_source_ownership validate_source_ownership with_ownership
record_source_ownership-ok key es c after h =
    let e = ensure_dataset key c in
    let got =
      after_ok (validate_from none (ownership_rows key c) es)
        (λ _. ok (record (e.0) { ownership = insert_owners e.1 es e.0.ownership })) h in
    (got.1, ok_injective got.2)

pub ensured_ownership :
    (key : IdentityRow) (c : Catalog)
    → IsCatalog c
    → ownership_rows key (ensure_dataset key c).0 ≡ ownership_rows key c
ensured_ownership key c v =
    let e = ensure_dataset key c in
    ensured_own key c v.keyed e.0.ownership
    ∙ ap (rows_of e.1) (ensure_dataset-IsKept key c).ownership
    ∙ ensured_rows key c c.ownership v.of_ownership

-- Contributors that are accepted, over ownership without overlaps: the data set's ranges stay
-- disjoint, each contributor owns its range, every earlier range keeps its owner, the other data
-- sets' ownership is untouched, and the tables stay consistent.
pub record_source_ownership-IsRecorded :
    (key : IdentityRow) (es : List ProviderEvidence) (c after : Catalog)
    → IsCatalog c
    → All IsEvidence es
    → IsSeparate (ownership_rows key c)
    → record_source_ownership key es c ≡ ok after
    → IsRecorded key es c after
record_source_ownership-IsRecorded key es c after v p s h =
    let got = record_source_ownership-ok key es c after h in
    let e = ensure_dataset key c in
    let kept = ensure_dataset-IsKept key c in
    let rows = insert_owners e.1 es e.0.ownership in
    let own : ownership_rows key (with_ownership rows e.0) ≡ add_owners es (ownership_rows key c) =
      with_ownership-rows key rows e.0
      ∙ ensured_own key c v.keyed rows
      ∙ insert_owners-own e.1 es e.0.ownership
      ∙ ap (λ table. add_owners es (rows_of e.1 table)) kept.ownership
      ∙ ap (add_owners es) (ensured_rows key c c.ownership v.of_ownership) in
    subst (IsRecorded key es c) got.1 (record {
      grown =
          subst (IsGrown es (ownership_rows key c)) (sym own)
            (add_owners-IsGrown none es (ownership_rows key c) p s got.0);
      others = λ other ne.
          with_ownership-rows other rows e.0
          ∙ ensured_other key c v.keyed other c.ownership rows ne (λ j apart.
            insert_owners-other e.1 j es e.0.ownership apart ∙ ap (rows_of j) kept.ownership);
      valid = with_ownership-IsCatalog rows e.0 (ensure_dataset-IsCatalog key c v) (
          Belongs-insert_owners e.0.datasets e.1 es e.0.ownership
            (ensure_dataset-IsEnsured key c v.keyed).has_id
            (ensure_dataset-IsCatalog key c v).of_ownership);
    })

-- Who may ask.
overlapping :
    (start end : Datetime) (r : Ownership) (name : Text) (rows : List Ownership)
    → owned_by_another start end name (r ∷ rows) ≡ false
    → r.start < end
    → start < r.end
    → same_text r.provider_name name ≡ true
unfolding owned_by_another overlaps
overlapping start end r name rows h lt gt = ground arith

owned_by_another-owners :
    (start end : Datetime) (name : Text) (rows : List Ownership) (o : Ownership)
    → owned_by_another start end name rows ≡ false
    → HasOwner o rows
    → o.start < end
    → start < o.end
    → o.provider_name ≡ name
unfolding owned_by_another overlaps
owned_by_another-owners start end name [] o h k lt gt = absurd k
owned_by_another-owners start end name (r ∷ rows) o h (inl e) lt gt =
    same_text→eq o.provider_name name
      (rw (← e) (overlapping start end r name rows h (rw e lt) (rw e gt)))
owned_by_another-owners start end name (r ∷ rows) o h (inr k) lt gt =
    owned_by_another-owners start end name rows o (ground arith) k lt gt

-- A request that is let through overlaps only ranges of its own provider.
pub validate_provider_request-owners :
    (key : IdentityRow) (start end : Datetime) (name : Text) (c : Catalog) (o : Ownership)
    → validate_provider_request key start end name c ≡ ok tt
    → HasOwner o (ownership_rows key c)
    → o.start < end
    → start < o.end
    → o.provider_name ≡ name
unfolding validate_provider_request
validate_provider_request-owners key start end name c o h k lt gt =
    elim (Bool-cases (owned_by_another start end name (ownership_rows key c))) [
      | inl e ↦ absurd (err-ne-ok (rw e at h))
      | inr e ↦ owned_by_another-owners start end name (ownership_rows key c) o e k lt gt
    ]

refused :
    (key : IdentityRow) (start end : Datetime) (name : Text) (c : Catalog) (o : Ownership)
    → HasOwner o (ownership_rows key c)
    → o.start < end
    → start < o.end
    → o.provider_name ≢ name
    → validate_provider_request key start end name c ≡ err catalog_error
unfolding validate_provider_request
refused key start end name c o k lt gt ne =
    elim (Bool-cases (owned_by_another start end name (ownership_rows key c))) [
      | inl e ↦ rw e refl
      | inr e ↦
          absurd (ne (owned_by_another-owners start end name (ownership_rows key c) o e k lt gt))
    ]

-- The list has the contributor.
abbrev pub HasEvidence : ProviderEvidence → List ProviderEvidence → Type 0
HasEvidence e [] = ⊥
HasEvidence e (x ∷ xs) = (x ≡ e) ⊎ HasEvidence e xs

contributor_Owns :
    (rows : List Ownership) (e : ProviderEvidence) (es : List ProviderEvidence)
    → HasEvidence e es
    → All (Owns rows) es
    → Owns rows e
contributor_Owns rows e [] h o = absurd h
contributor_Owns rows e (x ∷ xs) (inl p) o = subst (Owns rows) p o.0
contributor_Owns rows e (x ∷ xs) (inr h) o = contributor_Owns rows e xs h o.1

-- Well-formed contributors are recorded over ownership without overlaps: for each of them, a
-- provider of another name is refused every range that overlaps its contribution.
pub recorded_request-refused :
    (key : IdentityRow) (es : List ProviderEvidence) (e : ProviderEvidence) (c after : Catalog)
    (start end : Datetime) (name : Text)
    → IsCatalog c
    → All IsEvidence es
    → IsSeparate (ownership_rows key c)
    → record_source_ownership key es c ≡ ok after
    → HasEvidence e es
    → e.provider_name ≢ name
    → ((a : Datetime) → e.contributed_start ≡ some a → a < end)
    → ((b : Datetime) → e.contributed_end ≡ some b → start < b)
    → validate_provider_request key start end name after ≡ err catalog_error
recorded_request-refused key es e c after start end name v p s h mem ne lt gt =
    let r = record_source_ownership-IsRecorded key es c after v p s h in
    let o = contributor_Owns (ownership_rows key after) e es mem r.grown.stored in
    refused key start end name after (owner o.0 o.1 e.provider_name) o.4 (lt o.0 o.2) (gt o.1 o.3)
      ne
