-- ===== src/Catalog/Lineage.antt =====
-- The provider a data set is bound to.
use xret.Catalog.Providers.{set_provider-own, set_provider-others}
use mathlib.Core.Option.{none-ne-some}
use mathlib.Core.Bool.{false≢true}
use mathlib.Core.Path.{subst}
use xret.Catalog.Keys.{ensure_dataset-IsEnsured, with_row, new_row, id_of, absent, IsKeyed}
use xret.Identity.Keys.{same_row→eq, same_row, IdentityRow}
use xret.Catalog.{
  get_dataset_id, ensure_dataset, set_provider, get_source_lineage, find_dataset,
  bind_source_lineage, DatasetRow, Catalog,
}
use xret.Prelude.{
  same_text→eq, ap, Error, Bool, ok_injective, false, err-ne-ok, ◌∙◌, true, sym, inr, inl,
  Option-cases, Bool-cases, ◌⊎◌, ◌≢◌, ◌||◌, ℕ, some, same_text, refl, ok, not, none, if◌then◌else◌,
  err, catalog_error, [], Text, ◌≡◌,
}

-- A row of the key is the one that `get_source_lineage` reads.
lineage_of :
    (key : IdentityRow) (c : Catalog) (r : DatasetRow)
    → find_dataset key c.datasets ≡ some r
    → get_source_lineage key c ≡ r.provider_name
unfolding get_source_lineage
lineage_of key c r e = rw (e, get_source_lineage) refl

no_lineage :
    (key : IdentityRow) (c : Catalog)
    → find_dataset key c.datasets ≡ none
    → get_source_lineage key c ≡ none
unfolding get_source_lineage
no_lineage key c e = rw (e, get_source_lineage) refl

new_lineage :
    (key other : IdentityRow) (c : Catalog)
    → find_dataset key c.datasets ≡ none
    → get_source_lineage other (with_row key c) ≡ get_source_lineage other c
unfolding find_dataset
new_lineage key other c e = elim (Bool-cases (same_row key other)) [
  | inl a ↦
      lineage_of other (with_row key c) (new_row key c) (rw a refl)
      ∙ sym (
          no_lineage other c
            (subst (λ k. find_dataset k c.datasets ≡ none) (same_row→eq key other a) e))
  | inr a ↦ unfold get_source_lineage in rw (a, get_source_lineage, find_dataset) refl
]

-- Ensuring a data set binds nothing.
ensure_dataset-get_source_lineage :
    (key other : IdentityRow) (c : Catalog)
    → get_source_lineage other (ensure_dataset key c).0 ≡ get_source_lineage other c
unfolding ensure_dataset
ensure_dataset-get_source_lineage key other c = elim (Option-cases (get_dataset_id key c)) [
  | inl e ↦ rw (e, ensure_dataset) (new_lineage key other c (absent key c e))
  | inr (i, e) ↦ rw (e, ensure_dataset) refl
]

-- Setting the provider of the row of a key.
set_lineage :
    (key : IdentityRow) (name : Text) (c : Catalog) (i : ℕ)
    → get_dataset_id key c ≡ some i
    → get_source_lineage key (record c { datasets = set_provider i name c.datasets }) ≡ some name
set_lineage key name c i e =
    let r = id_of key c i e in
    let after = record c { datasets = set_provider i name c.datasets } in
    lineage_of key after (record (r.0) { provider_name = some name })
      (subst
        (λ n.
          find_dataset key (set_provider n name c.datasets)
          ≡ some (record (r.0) { provider_name = some name }))
        r.2 (set_provider-own key name c.datasets r.0 r.1))

-- The two branches of `bind_source_lineage` behind its guard.
pub bind_unbound :
    (key : IdentityRow) (name : Text) (c after : Catalog)
    → get_source_lineage key (ensure_dataset key c).0 ≡ none
    → bind_source_lineage key name c ≡ ok after
    → (same_text name [] ≡ false)
      × (record ((ensure_dataset key c).0) {
        datasets = set_provider (ensure_dataset key c).1 name (ensure_dataset key c).0.datasets;
      }
          ≡ after)
unfolding bind_source_lineage
bind_unbound key name c after e h = elim (Bool-cases (same_text name [])) [
  | inl a ↦ absurd (err-ne-ok (rw a at h))
  | inr a ↦ (a, ok_injective (rw (a, e) at h))
]

pub bind_bound :
    (key : IdentityRow) (name existing : Text) (c : Catalog)
    → get_source_lineage key (ensure_dataset key c).0 ≡ some existing
    → bind_source_lineage key name c ≡ (
        if same_text name [] || not (same_text existing name)
        then err catalog_error
        else ok (ensure_dataset key c).0)
unfolding bind_source_lineage
bind_bound key name existing c e = elim (Bool-cases (same_text name [])) [
  | inl a ↦ rw a refl
  | inr a ↦ elim (Bool-cases (same_text existing name)) [
    | inl b ↦ rw (a, e, b) refl
    | inr b ↦ rw (a, e, b) refl
  ]
]

-- A bound key has its row already.
bound_ensured :
    (key : IdentityRow) (existing : Text) (c : Catalog)
    → get_source_lineage key c ≡ some existing
    → (ensure_dataset key c).0 ≡ c
unfolding ensure_dataset
bound_ensured key existing c h = elim (Option-cases (get_dataset_id key c)) [
  | inl e ↦ absurd (none-ne-some existing (sym (no_lineage key c (absent key c e)) ∙ h))
  | inr (i, e) ↦ rw (e, ensure_dataset) refl
]

-- A key bound to a provider is refused any other, and binding it to the same named provider again
-- changes nothing.
pub bind_source_lineage-bound :
    (key : IdentityRow) (name existing : Text) (c : Catalog)
    → get_source_lineage key c ≡ some existing
    → bind_source_lineage key name c
      ≡ (if same_text name [] || not (same_text existing name) then err catalog_error else ok c)
bind_source_lineage-bound key name existing c h =
    bind_bound key name existing c (ensure_dataset-get_source_lineage key key c ∙ h)
    ∙ ap
        (λ (d : Catalog).
          if same_text name [] || not (same_text existing name) then err catalog_error else ok d)
        (bound_ensured key existing c h)

set_lineage_others :
    (other : IdentityRow) (name : Text) (c : Catalog) (i : ℕ)
    → ((j : ℕ) → get_dataset_id other c ≡ some j → j ≢ i)
    → get_source_lineage other (record c { datasets = set_provider i name c.datasets })
      ≡ get_source_lineage other c
unfolding get_source_lineage get_dataset_id
set_lineage_others other name c i ne =
    rw
      (
        set_provider-others other i name c.datasets (λ r e. ne r.id (rw (e, get_dataset_id) refl)),
        get_source_lineage,
      )
      refl

pub passed {ℓ} :
    {A : Type ℓ} {x y : A} (e : Error) (a b : Bool)
    → (if a || not b then err e else ok x) ≡ ok y
    → (a ≡ false) × (b ≡ true) × (x ≡ y)
passed e true b h = absurd (err-ne-ok h)
passed e false true h = (refl, refl, ok_injective h)
passed e false false h = absurd (err-ne-ok h)

-- Binding a key to a provider that is accepted: the provider is named, it is the one the key was
-- bound to if it was bound, the key is bound to it afterwards, and the providers of all other keys
-- are unchanged.
pub bind_source_lineage-accepted :
    (key : IdentityRow) (name : Text) (c after : Catalog)
    → IsKeyed c.datasets
    → bind_source_lineage key name c ≡ ok after
    → (name ≢ [])
      × ((get_source_lineage key c ≡ none) ⊎ (get_source_lineage key c ≡ some name))
      × (get_source_lineage key after ≡ some name)
      × ((other : IdentityRow)
          → key ≢ other
          → get_source_lineage other after ≡ get_source_lineage other c)
unfolding same_text
bind_source_lineage-accepted key name c after k h = elim (Option-cases (get_source_lineage key c)) [
  | inl e ↦
      let f = ensure_dataset-IsEnsured key c k in
      let i = (ensure_dataset key c).1 in
      let d = (ensure_dataset key c).0 in
      let got = bind_unbound key name c after (ensure_dataset-get_source_lineage key key c ∙ e) h in
      (
        λ n. false≢true (sym got.0 ∙ ap (λ m. same_text m []) n),
        inl e,
        subst (λ x. get_source_lineage key x ≡ some name) got.1 (set_lineage key name d i f.found),
        λ other ne.
            subst (λ x. get_source_lineage other x ≡ get_source_lineage other c) got.1
              (set_lineage_others other name d i
                  (λ j g. f.apart other j ne (sym (f.others other ne) ∙ g))
                ∙ ensure_dataset-get_source_lineage key other c),
      )
  | inr (existing, e) ↦
      let got =
        passed catalog_error (same_text name []) (same_text existing name)
          (sym (bind_source_lineage-bound key name existing c e) ∙ h) in
      let same = same_text→eq existing name got.1 in
      (
        λ n. false≢true (sym got.0 ∙ ap (λ m. same_text m []) n),
        inr (e ∙ ap some same),
        subst (λ x. get_source_lineage key x ≡ some name) got.2 (e ∙ ap some same),
        λ other ne. subst (λ x. get_source_lineage other x ≡ get_source_lineage other c) got.2 refl,
      )
]
