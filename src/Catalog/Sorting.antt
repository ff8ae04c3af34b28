-- ===== src/Catalog/Sorting.antt =====
-- `ORDER BY f.relative_path` of the listing of files.
use xret.Catalog.Runs.{text_before}
use xret.Catalog.{FileRow}
use xret.Catalog.Valid.{AllIds}
use mathlib.Core.List.{Perm}
use mathlib.Core.List.Perm
use xret.Prelude.{
  ℕ, true, refl, inr, inl, if◌then◌else◌, false, arith, [], Text, List, Bool-cases, ◌∷◌, ◌≡◌,
}

insert_path : ℕ × FileRow → List (ℕ × FileRow) → List (ℕ × FileRow)
insert_path x [] = x ∷ []
insert_path x (y ∷ rows) =
    let rest = insert_path x rows in
    if text_before x.1.relative_path y.1.relative_path then x ∷ y ∷ rows else y ∷ rest

unfoldable pub sort_paths : List (ℕ × FileRow) → List (ℕ × FileRow)
unfolding insert_path
sort_paths [] = []
sort_paths (x ∷ rows) = insert_path x (sort_paths rows)

-- No path comes behind a later one.
abbrev pub IsByPath : List (ℕ × FileRow) → Type 0
IsByPath [] = Unit
IsByPath (x ∷ []) = Unit
IsByPath (x ∷ y ∷ rest) =
    (text_before x.1.relative_path y.1.relative_path ≡ true) × IsByPath (y ∷ rest)

text_before-or : (s t : Text) → text_before s t ≡ false → text_before t s ≡ true
unfolding text_before
text_before-or [] t h = cc
text_before-or (a ∷ s) [] h = refl
text_before-or (a ∷ s) (b ∷ t) h = ground (arith, text_before-or s t)

insert_path-later :
    (x y : ℕ × FileRow) (rows : List (ℕ × FileRow))
    → text_before y.1.relative_path x.1.relative_path ≡ true
    → IsByPath (y ∷ rows)
    → IsByPath (y ∷ insert_path x rows)
unfolding insert_path
insert_path-later x y [] h s = (h, tt)
insert_path-later x y (z ∷ rows) h s =
    elim (Bool-cases (text_before x.1.relative_path z.1.relative_path)) [
      | inl e ↦ rw e (h, (e, s.1))
      | inr e ↦ rw e (
        s.0,
        insert_path-later x z rows (text_before-or x.1.relative_path z.1.relative_path e) s.1,
      )
    ]

insert_path-IsByPath :
    (x : ℕ × FileRow) (rows : List (ℕ × FileRow)) → IsByPath rows → IsByPath (insert_path x rows)
unfolding insert_path
insert_path-IsByPath x [] s = tt
insert_path-IsByPath x (y ∷ rows) s =
    elim (Bool-cases (text_before x.1.relative_path y.1.relative_path)) [
      | inl e ↦ rw e (e, s)
      | inr e ↦
          rw e (insert_path-later x y rows (text_before-or x.1.relative_path y.1.relative_path e) s)
    ]

pub sort_paths-IsByPath : (rows : List (ℕ × FileRow)) → IsByPath (sort_paths rows)
unfolding sort_paths
sort_paths-IsByPath [] = tt
sort_paths-IsByPath (x ∷ rows) = insert_path-IsByPath x (sort_paths rows) (sort_paths-IsByPath rows)

insert_path-Perm :
    (x : ℕ × FileRow) (rows : List (ℕ × FileRow)) → Perm (insert_path x rows) (x ∷ rows)
unfolding insert_path
insert_path-Perm x [] = Perm.refl (x ∷ [])
insert_path-Perm x (y ∷ rows) =
    elim (Bool-cases (text_before x.1.relative_path y.1.relative_path)) [
      | inl e ↦ rw e (Perm.refl (x ∷ y ∷ rows))
      | inr e ↦ rw e (Perm.trans (Perm.cons y (insert_path-Perm x rows)) (Perm.swap x y rows))
    ]

pub sort_paths-Perm : (rows : List (ℕ × FileRow)) → Perm (sort_paths rows) rows
unfolding sort_paths
sort_paths-Perm [] = Perm.refl []
sort_paths-Perm (x ∷ rows) =
    Perm.trans (insert_path-Perm x (sort_paths rows)) (Perm.cons x (sort_paths-Perm rows))

insert_path-AllIds :
    (P : ℕ → Type 0) (x : ℕ × FileRow) (rows : List (ℕ × FileRow))
    → P x.0
    → AllIds P rows
    → AllIds P (insert_path x rows)
unfolding insert_path
insert_path-AllIds P x [] p h = (p, tt)
insert_path-AllIds P x (y ∷ rows) p h =
    elim (Bool-cases (text_before x.1.relative_path y.1.relative_path)) [
      | inl e ↦ rw e (p, h)
      | inr e ↦ rw e (h.0, insert_path-AllIds P x rows p h.1)
    ]

pub sort_paths-AllIds :
    (P : ℕ → Type 0) (rows : List (ℕ × FileRow)) → AllIds P rows → AllIds P (sort_paths rows)
unfolding sort_paths
sort_paths-AllIds P [] h = tt
sort_paths-AllIds P (x ∷ rows) h =
    insert_path-AllIds P x (sort_paths rows) h.0 (sort_paths-AllIds P rows h.1)
