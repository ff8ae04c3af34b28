-- ===== src/Catalog/Keys.antt =====
-- `ensure_dataset` finds or makes the one row of a key, and leaves every other key alone.
use mathlib.Core.Option.{none-ne-some}
use mathlib.Core.Path.{subst}
use mathlib.Core.Bool.{false≢true}
use xret.Identity.Keys.{same_row→eq, same_row_self, same_row, IdentityRow}
use xret.Catalog.{get_dataset_id, ensure_dataset, Catalog, largest, find_dataset, DatasetRow}
use xret.Prelude.{
  some_injective, suc, refl, Option-cases, ◌⊎◌, ◌≤◌, ◌≢◌, ◌∙◌, ◌<◌, ℕ, sym, some, none, inr, inl,
  false, arith, ap, [], List, Bool-cases, ◌∷◌, ◌≡◌,
}

-- No two rows share an id, and none a key.
abbrev pub HasNoId : ℕ → List DatasetRow → Type 0
HasNoId i [] = Unit
HasNoId i (r ∷ rows) = (r.id ≢ i) × HasNoId i rows

abbrev pub IsKeyed : List DatasetRow → Type 0
IsKeyed [] = Unit
IsKeyed (r ∷ rows) = HasNoId r.id rows × (find_dataset r.identity rows ≡ none) × IsKeyed rows

-- Some row has the id.
abbrev pub HasId : ℕ → List DatasetRow → Type 0
HasId i [] = ⊥
HasId i (r ∷ rows) = (r.id ≡ i) ⊎ HasId i rows

pub HasId-le-largest : (i : ℕ) (rows : List DatasetRow) → HasId i rows → i ≤ largest rows
HasId-le-largest i [] h = absurd h
HasId-le-largest i (r ∷ rows) (inl e) = omega arith
HasId-le-largest i (r ∷ rows) (inr h) = omega (arith, HasId-le-largest i rows h)

pub largest-HasNoId : (i : ℕ) (rows : List DatasetRow) → largest rows < i → HasNoId i rows
largest-HasNoId i [] h = tt
largest-HasNoId i (r ∷ rows) h = (λ e. omega arith, largest-HasNoId i rows (omega arith))

pub HasNoId-ne : (i j : ℕ) (rows : List DatasetRow) → HasNoId i rows → HasId j rows → j ≢ i
HasNoId-ne i j [] h k e = k
HasNoId-ne i j (r ∷ rows) h (inl k) e = h.0 (k ∙ e)
HasNoId-ne i j (r ∷ rows) h (inr k) e = HasNoId-ne i j rows h.1 k e

pub find_dataset-HasId :
    (key : IdentityRow) (rows : List DatasetRow) (r : DatasetRow)
    → find_dataset key rows ≡ some r
    → HasId r.id rows
unfolding find_dataset
find_dataset-HasId key [] r h = cc
find_dataset-HasId key (x ∷ rows) r h = elim (Bool-cases (same_row x.identity key)) [
  | inl e ↦ inl (ap (λ (y : DatasetRow). y.id) (some_injective (rw e at h)))
  | inr e ↦ inr (find_dataset-HasId key rows r (rw e at h))
]

pub same_row-ne : (a b : IdentityRow) → same_row a b ≡ false → a ≢ b
same_row-ne a b h e = false≢true (sym h ∙ ap (same_row a) (sym e) ∙ same_row_self a)

-- Different keys have different ids.
pub ids_apart :
    (key other : IdentityRow) (rows : List DatasetRow) (r s : DatasetRow)
    → IsKeyed rows
    → find_dataset key rows ≡ some r
    → find_dataset other rows ≡ some s
    → key ≢ other
    → s.id ≢ r.id
unfolding find_dataset
ids_apart key other [] r s k h g ne = cc
ids_apart key other (x ∷ rows) r s k h g ne = elim (Bool-cases (same_row x.identity key)) [
  | inl a ↦ elim (Bool-cases (same_row x.identity other)) [
    | inl b ↦ absurd (ne (sym (same_row→eq x.identity key a) ∙ same_row→eq x.identity other b))
    | inr b ↦
        let x_r : x ≡ r = some_injective (rw a at h) in
        subst (λ (y : DatasetRow). s.id ≢ y.id) x_r
          (HasNoId-ne x.id s.id rows k.0 (find_dataset-HasId other rows s (rw b at g)))
  ]
  | inr a ↦ elim (Bool-cases (same_row x.identity other)) [
    | inl b ↦
        let x_s : x ≡ s = some_injective (rw b at g) in
        subst (λ (y : DatasetRow). y.id ≢ r.id) x_s
          (λ e. HasNoId-ne x.id r.id rows k.0 (find_dataset-HasId key rows r (rw a at h)) (sym e))
    | inr b ↦ ids_apart key other rows r s k.2 (rw a at h) (rw b at g) ne
  ]
]

-- What the key's id is behind `ensure_dataset`, and that no other key's is changed or the same.
pub record IsEnsured (key : IdentityRow) (before after : Catalog) (i : ℕ) : Type 0 where
  pub found : get_dataset_id key after ≡ some i
  pub others :
      (other : IdentityRow) → key ≢ other → get_dataset_id other after ≡ get_dataset_id other before
  pub apart :
      (other : IdentityRow) (j : ℕ) → key ≢ other → get_dataset_id other before ≡ some j → j ≢ i
  pub keyed : IsKeyed after.datasets
  pub has_id : HasId i after.datasets

pub id_of :
    (key : IdentityRow) (c : Catalog) (j : ℕ)
    → get_dataset_id key c ≡ some j
    → (r : DatasetRow) × (find_dataset key c.datasets ≡ some r) × (r.id ≡ j)
unfolding get_dataset_id
id_of key c j h = elim (Option-cases (find_dataset key c.datasets)) [
  | inl e ↦ absurd (none-ne-some j (rw (e, get_dataset_id) at h))
  | inr (r, e) ↦ (r, e, some_injective (rw (e, get_dataset_id) at h))
]

pub ne-same_row : (a b : IdentityRow) → a ≢ b → same_row a b ≡ false
ne-same_row a b ne = elim (Bool-cases (same_row a b)) [
  | inl e ↦ absurd (ne (same_row→eq a b e))
  | inr e ↦ e
]

abbrev pub new_row : IdentityRow → Catalog → DatasetRow
new_row key c = record { id = suc (largest c.datasets); identity = key; provider_name = none }

abbrev pub with_row : IdentityRow → Catalog → Catalog
with_row key c = record c { datasets = new_row key c ∷ c.datasets }

new_found :
    (key : IdentityRow) (c : Catalog)
    → get_dataset_id key (with_row key c) ≡ some (suc (largest c.datasets))
unfolding get_dataset_id find_dataset
new_found key c = rw (same_row_self key, get_dataset_id, find_dataset) refl

new_others :
    (key other : IdentityRow) (c : Catalog)
    → key ≢ other
    → get_dataset_id other (with_row key c) ≡ get_dataset_id other c
unfolding get_dataset_id find_dataset
new_others key other c ne = rw (ne-same_row key other ne, get_dataset_id, find_dataset) refl

pub absent :
    (key : IdentityRow) (c : Catalog)
    → get_dataset_id key c ≡ none
    → find_dataset key c.datasets ≡ none
unfolding get_dataset_id
absent key c e = elim (Option-cases (find_dataset key c.datasets)) [
  | inl f ↦ f
  | inr (r, f) ↦ absurd (none-ne-some r.id (sym (rw (f, get_dataset_id) at e)))
]

pub ensure_dataset-IsEnsured :
    (key : IdentityRow) (c : Catalog)
    → IsKeyed c.datasets
    → IsEnsured key c (ensure_dataset key c).0 (ensure_dataset key c).1
unfolding ensure_dataset
ensure_dataset-IsEnsured key c k = elim (Option-cases (get_dataset_id key c)) [
  | inr (i, e) ↦
      let r = id_of key c i e in
      rw (e, ensure_dataset)
        (record {
          found = e;
          others = λ other ne. refl;
          apart = λ other j ne h.
              let s = id_of other c j h in
              λ same. ids_apart key other c.datasets r.0 s.0 k r.1 s.1 ne (s.2 ∙ same ∙ sym r.2);
          keyed = k;
          has_id = subst (λ n. HasId n c.datasets) r.2 (find_dataset-HasId key c.datasets r.0 r.1);
        })
  | inl e ↦
      rw (e, ensure_dataset)
        (record {
          found = new_found key c;
          others = λ other ne. new_others key other c ne;
          apart = λ other j ne h.
              let s = id_of other c j h in
              λ same. omega (
                arith,
                HasId-le-largest s.0.id c.datasets (find_dataset-HasId other c.datasets s.0 s.1),
                s.2,
              );
          keyed = (
            largest-HasNoId (suc (largest c.datasets)) c.datasets (omega arith),
            absent key c e,
            k,
          );
          has_id = inl refl;
        })
]
