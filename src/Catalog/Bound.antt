-- ===== src/Catalog/Bound.antt =====
-- Binding a provider keeps the tables consistent, and all ids.
use xret.Catalog.Providers.{set_provider-others}
use xret.Catalog.Tables.{rows_at}
use xret.Catalog.Coverages.{no_coverage, coverage_of}
use mathlib.Core.Path.{subst}
use xret.Catalog.Lineage.{passed, bind_unbound, bind_bound}
use mathlib.Core.Option.{none-ne-some}
use xret.Catalog.Frames.{ensure_dataset-IsFramed, IsFramed-trans, IsFramed}
use xret.Identity.Keys.{same_row, IdentityRow}
use xret.Catalog.Keys.{IsKeyed, HasNoId, HasId}
use xret.Catalog.{
  get_source_lineage, set_provider, get_dataset_id, find_dataset, ensure_dataset,
  bind_source_lineage, DatasetRow, Catalog,
}
use xret.Catalog.Valid.{ensure_dataset-IsCatalog, IsCatalog, Belongs}
use xret.Catalog.Cascade.{AllIds-map}
use xret.Prelude.{
  same_text, catalog_error, ap, Option-cases, ◌⊎◌, ◌∙◌, ◌==◌, ℕ, sym, some, refl, ok, none, inr,
  inl, [], Text, Option, List, Bool-cases, ◌∷◌, ◌≡◌,
}

abbrev id_in : IdentityRow → List DatasetRow → Option ℕ
id_in k rows = elim (find_dataset k rows) [ none ↦ none | some r ↦ some r.id ]

set_provider-id :
    (i : ℕ) (name : Text) (k : IdentityRow) (rows : List DatasetRow)
    → id_in k (set_provider i name rows) ≡ id_in k rows
unfolding find_dataset set_provider
set_provider-id i name k [] = refl
set_provider-id i name k (x ∷ rows) = elim (Bool-cases (same_row x.identity k)) [
  | inl e ↦ elim (Bool-cases (x.id == i)) [
    | inl a ↦ rw (a, e, id_in) refl
    | inr a ↦ rw (a, e, id_in) refl
  ]
  | inr e ↦ elim (Bool-cases (x.id == i)) [
    | inl a ↦ rw (a, e, id_in) (set_provider-id i name k rows)
    | inr a ↦ rw (a, e, id_in) (set_provider-id i name k rows)
  ]
]

set_provider-HasId :
    (i : ℕ) (name : Text) (j : ℕ) (rows : List DatasetRow)
    → HasId j rows
    → HasId j (set_provider i name rows)
unfolding set_provider
set_provider-HasId i name j [] h = h
set_provider-HasId i name j (x ∷ rows) (inl e) = elim (Bool-cases (x.id == i)) [
  | inl a ↦ rw a (inl e)
  | inr a ↦ rw a (inl e)
]
set_provider-HasId i name j (x ∷ rows) (inr h) = inr (set_provider-HasId i name j rows h)

set_provider-HasNoId :
    (i : ℕ) (name : Text) (j : ℕ) (rows : List DatasetRow)
    → HasNoId j rows
    → HasNoId j (set_provider i name rows)
unfolding set_provider
set_provider-HasNoId i name j [] h = h
set_provider-HasNoId i name j (x ∷ rows) h = elim (Bool-cases (x.id == i)) [
  | inl a ↦ rw a (h.0, set_provider-HasNoId i name j rows h.1)
  | inr a ↦ rw a (h.0, set_provider-HasNoId i name j rows h.1)
]

set_provider-none :
    (i : ℕ) (name : Text) (k : IdentityRow) (rows : List DatasetRow)
    → find_dataset k rows ≡ none
    → find_dataset k (set_provider i name rows) ≡ none
set_provider-none i name k rows h =
    set_provider-others k i name rows (λ r f. absurd (none-ne-some r (sym h ∙ f))) ∙ h

set_provider-IsKeyed :
    (i : ℕ) (name : Text) (rows : List DatasetRow)
    → IsKeyed rows
    → IsKeyed (set_provider i name rows)
unfolding set_provider
set_provider-IsKeyed i name [] k = tt
set_provider-IsKeyed i name (x ∷ rows) k = elim (Bool-cases (x.id == i)) [
  | inl a ↦ rw a (
    set_provider-HasNoId i name x.id rows k.0,
    set_provider-none i name x.identity rows k.1,
    set_provider-IsKeyed i name rows k.2,
  )
  | inr a ↦ rw a (
    set_provider-HasNoId i name x.id rows k.0,
    set_provider-none i name x.identity rows k.1,
    set_provider-IsKeyed i name rows k.2,
  )
]

with_provider : ℕ → Text → Catalog → Catalog
with_provider i name c = record c { datasets = set_provider i name c.datasets }

with_provider-id :
    (i : ℕ) (name : Text) (k : IdentityRow) (c : Catalog)
    → get_dataset_id k (with_provider i name c) ≡ get_dataset_id k c
unfolding with_provider get_dataset_id
with_provider-id i name k c = set_provider-id i name k c.datasets

with_provider-Belongs {ℓ} :
    {A : Type ℓ} (i : ℕ) (name : Text) (datasets : List DatasetRow) (rows : List (ℕ × A))
    → Belongs datasets rows
    → Belongs (set_provider i name datasets) rows
with_provider-Belongs i name datasets rows =
    AllIds-map (λ j. HasId j datasets) (λ j. HasId j (set_provider i name datasets)) rows
      (λ j. set_provider-HasId i name j datasets)

with_provider-IsCatalog :
    (i : ℕ) (name : Text) (c : Catalog) → IsCatalog c → IsCatalog (with_provider i name c)
unfolding with_provider
with_provider-IsCatalog i name c v = record {
  keyed = set_provider-IsKeyed i name c.datasets v.keyed;
  of_coverage = with_provider-Belongs i name c.datasets c.coverage v.of_coverage;
  of_ownership = with_provider-Belongs i name c.datasets c.ownership v.of_ownership;
  of_files = with_provider-Belongs i name c.datasets c.files v.of_files;
  of_runs = with_provider-Belongs i name c.datasets c.runs v.of_runs;
  of_events = with_provider-Belongs i name c.datasets c.events v.of_events;
  of_contributors = v.of_contributors;
  of_file_runs = v.of_file_runs;
  file_table = v.file_table;
  run_table = v.run_table;
}

with_provider-IsFramed : (i : ℕ) (name : Text) (c : Catalog) → IsFramed c (with_provider i name c)
unfolding with_provider
with_provider-IsFramed i name c = record {
  coverage = λ k. elim (Option-cases (get_dataset_id k c)) [
    | inl e ↦
        no_coverage k (with_provider i name c) (with_provider-id i name k c ∙ e)
        ∙ sym (no_coverage k c e)
    | inr (j, e) ↦
        coverage_of k (with_provider i name c) j (with_provider-id i name k c ∙ e)
        ∙ sym (coverage_of k c j e)
  ];
  ownership = λ k. ap (λ o. rows_at o c.ownership) (with_provider-id i name k c);
}

-- The two outcomes of `bind_source_lineage`.
bound_or_same :
    (key : IdentityRow) (name : Text) (c after : Catalog)
    → bind_source_lineage key name c ≡ ok after
    → ((ensure_dataset key c).0 ≡ after)
      ⊎ (with_provider (ensure_dataset key c).1 name (ensure_dataset key c).0 ≡ after)
bound_or_same key name c after h =
    let e = ensure_dataset key c in
    elim (Option-cases (get_source_lineage key e.0)) [
      | inl n ↦ inr (unfold with_provider in (bind_unbound key name c after n h).1)
      | inr (existing, p) ↦
          inl
            (passed catalog_error (same_text name []) (same_text existing name)
              (sym (bind_bound key name existing c p) ∙ h)).2
    ]

pub bind_source_lineage-IsFramed :
    (key : IdentityRow) (name : Text) (c after : Catalog)
    → IsCatalog c
    → bind_source_lineage key name c ≡ ok after
    → IsFramed c after × IsCatalog after
bind_source_lineage-IsFramed key name c after v h =
    let e = ensure_dataset key c in
    let f = ensure_dataset-IsFramed key c v in
    let w = ensure_dataset-IsCatalog key c v in
    elim (bound_or_same key name c after h) [
      | inl p ↦ subst (λ x. IsFramed c x × IsCatalog x) p (f, w)
      | inr p ↦
          subst (λ x. IsFramed c x × IsCatalog x) p
            (
              IsFramed-trans c e.0 (with_provider e.1 name e.0) f
                  (with_provider-IsFramed e.1 name e.0),
              with_provider-IsCatalog e.1 name e.0 w,
            )
    ]
