-- ===== src/Catalog/Uniques.antt =====
-- The unique columns of `files`: `id` and `relative_path`.
use mathlib.Core.Path.{subst}
use xret.Catalog.Tables.{without, same_id, other_id}
use mathlib.Core.Option.{none-ne-some}
use mathlib.Core.Bool.{false≢true}
use xret.Catalog.{FileRow}
use xret.Catalog.Files.{upsert_file, update_file, largest_file, find_file, drop_file, FileMetadata}
use xret.Prelude.{
  if◌then◌else◌, ◌≢◌, ◌∙◌, ◌==◌, ◌<◌, ℕ, true, sym, suc, some_injective, some, same_text→eq,
  same_text_self, same_text, refl, none, inr, inl, false, arith, ap, [], Text, Option-cases, List,
  Bool-cases, All, ◌∷◌, ◌≡◌,
}

eq_of : (i j : ℕ) → (i == j) ≡ true → i ≡ j
eq_of i j h = ground arith

-- A row with another id and another path.
abbrev pub IsApart : ℕ → Text → ℕ × FileRow → Type 0
IsApart i path (d, f) = (f.id ≢ i) × (f.relative_path ≢ path)

-- No two rows share an id or a path.
abbrev pub IsFileTable : List (ℕ × FileRow) → Type 0
IsFileTable [] = Unit
IsFileTable ((d, f) ∷ rest) = All (IsApart f.id f.relative_path) rest × IsFileTable rest

pub All-without {ℓ} :
    {A : Type ℓ} (P : ℕ × A → Type 0) (i : ℕ) (rows : List (ℕ × A))
    → All P rows
    → All P (without i rows)
unfolding without
All-without P i [] h = tt
All-without P i ((j, a) ∷ rows) h = elim (Bool-cases (i == j)) [
  | inl e ↦ rw e (All-without P i rows h.1)
  | inr e ↦ rw e (h.0, All-without P i rows h.1)
]

pub without-IsFileTable :
    (i : ℕ) (rows : List (ℕ × FileRow)) → IsFileTable rows → IsFileTable (without i rows)
unfolding without
without-IsFileTable i [] h = tt
without-IsFileTable i ((j, f) ∷ rows) h = elim (Bool-cases (i == j)) [
  | inl e ↦ rw e (without-IsFileTable i rows h.1)
  | inr e ↦
      rw e (All-without (IsApart f.id f.relative_path) i rows h.0, without-IsFileTable i rows h.1)
]

All-drop_file :
    (P : ℕ × FileRow → Type 0) (path : Text) (rows : List (ℕ × FileRow))
    → All P rows
    → All P (drop_file path rows)
unfolding drop_file
All-drop_file P path [] h = tt
All-drop_file P path ((j, a) ∷ rows) h = elim (Bool-cases (same_text a.relative_path path)) [
  | inl e ↦ rw e (All-drop_file P path rows h.1)
  | inr e ↦ rw e (h.0, All-drop_file P path rows h.1)
]

pub drop_file-IsFileTable :
    (path : Text) (rows : List (ℕ × FileRow)) → IsFileTable rows → IsFileTable (drop_file path rows)
unfolding drop_file
drop_file-IsFileTable path [] h = tt
drop_file-IsFileTable path ((j, f) ∷ rows) h = elim (Bool-cases (same_text f.relative_path path)) [
  | inl e ↦ rw e (drop_file-IsFileTable path rows h.1)
  | inr e ↦ rw e (
    All-drop_file (IsApart f.id f.relative_path) path rows h.0,
    drop_file-IsFileTable path rows h.1,
  )
]

-- The update changes no id and no path.
All-update_file :
    (j : ℕ) (path : Text) (i d : ℕ) (m : FileMetadata) (rows : List (ℕ × FileRow))
    → All (IsApart j path) rows
    → All (IsApart j path) (update_file i d m rows)
unfolding update_file
All-update_file j path i d m [] h = tt
All-update_file j path i d m ((e, f) ∷ rows) h = elim (Bool-cases (f.id == i)) [
  | inl p ↦ rw p (
    (λ q. h.0.0 (omega (arith, eq_of f.id i p, q)), h.0.1),
    All-update_file j path i d m rows h.1,
  )
  | inr p ↦ rw p (h.0, All-update_file j path i d m rows h.1)
]

update_file-IsFileTable :
    (i d : ℕ) (m : FileMetadata) (rows : List (ℕ × FileRow))
    → IsFileTable rows
    → IsFileTable (update_file i d m rows)
unfolding update_file
update_file-IsFileTable i d m [] h = tt
update_file-IsFileTable i d m ((e, f) ∷ rows) h = elim (Bool-cases (f.id == i)) [
  | inl p ↦ rw p (
    All-update_file i f.relative_path i d m rows
        (subst (λ k. All (IsApart k f.relative_path) rows) (eq_of f.id i p) h.0),
    update_file-IsFileTable i d m rows h.1,
  )
  | inr p ↦
      rw p (
        All-update_file f.id f.relative_path i d m rows h.0,
        update_file-IsFileTable i d m rows h.1,
      )
]

unknown-IsApart :
    (i : ℕ) (path : Text) (rows : List (ℕ × FileRow))
    → largest_file rows < i
    → find_file path rows ≡ none
    → All (IsApart i path) rows
unfolding find_file
unknown-IsApart i path [] lt h = tt
unknown-IsApart i path ((d, f) ∷ rows) lt h = elim (Bool-cases (same_text f.relative_path path)) [
  | inl e ↦ absurd (none-ne-some (d, f) (sym (rw e at h)))
  | inr e ↦ (
    (omega arith, λ q. false≢true (sym e ∙ rw q (same_text_self path))),
    unknown-IsApart i path rows (omega arith) (rw e at h),
  )
]

pub upsert_file-IsFileTable :
    (d : ℕ) (m : FileMetadata) (files : List (ℕ × FileRow))
    → IsFileTable files
    → IsFileTable (upsert_file d m (find_file m.relative_path files) files).1
unfolding upsert_file
upsert_file-IsFileTable d m files h = elim (Option-cases (find_file m.relative_path files)) [
  | inl e ↦
      rw e (unknown-IsApart (suc (largest_file files)) m.relative_path files (omega arith) e, h)
  | inr (f, e) ↦ rw e (update_file-IsFileTable f.1.id d m files h)
]

-- Files with other paths.
found-apart :
    (i : ℕ) (path other : Text) (rows : List (ℕ × FileRow)) (d : ℕ) (f : FileRow)
    → All (IsApart i other) rows
    → find_file path rows ≡ some (d, f)
    → f.id ≢ i
unfolding find_file
found-apart i path other [] d f h e = cc
found-apart i path other ((k, g) ∷ rows) d f h e =
    elim (Bool-cases (same_text g.relative_path path)) [
      | inl p ↦
          subst (λ (x : ℕ × FileRow). x.1.id ≢ i)
            (some_injective {a = (k, g)} {b = (d, f)} (rw p at e)) h.0.0
      | inr p ↦ found-apart i path other rows d f h.1 (rw p at e)
    ]

update_file-apart :
    (i d : ℕ) (path : Text) (m : FileMetadata) (rows : List (ℕ × FileRow))
    → All (IsApart i path) rows
    → update_file i d m rows ≡ rows
unfolding update_file
update_file-apart i d path m [] h = refl
update_file-apart i d path m ((e, f) ∷ rows) h =
    rw (other_id f.id i h.0.0, update_file-apart i d path m rows h.1) refl

different : (s t : Text) → s ≢ t → same_text s t ≡ false
different s t ne = elim (Bool-cases (same_text s t)) [
  | inl e ↦ absurd (ne (same_text→eq s t e))
  | inr e ↦ e
]

find_file-tail :
    (path : Text) (x : ℕ × FileRow) (xs ys : List (ℕ × FileRow))
    → find_file path xs ≡ find_file path ys
    → find_file path (x ∷ xs) ≡ find_file path (x ∷ ys)
unfolding find_file
find_file-tail path x xs ys e = ap (λ o. if same_text x.1.relative_path path then some x else o) e

update_file-later :
    (i d k : ℕ) (m : FileMetadata) (g : FileRow) (path : Text) (rows : List (ℕ × FileRow))
    → g.id ≢ i
    → find_file path (update_file i d m rows) ≡ find_file path rows
    → find_file path (update_file i d m ((k, g) ∷ rows)) ≡ find_file path ((k, g) ∷ rows)
unfolding update_file
update_file-later i d k m g path rows ne e =
    rw (other_id g.id i ne) (find_file-tail path (k, g) (update_file i d m rows) rows e)

update_file-other :
    (d e : ℕ) (m : FileMetadata) (f : FileRow) (path : Text) (files : List (ℕ × FileRow))
    → IsFileTable files
    → find_file m.relative_path files ≡ some (e, f)
    → path ≢ m.relative_path
    → find_file path (update_file f.id d m files) ≡ find_file path files
unfolding find_file
update_file-other d e m f path [] t h ne = cc
update_file-other d e m f path ((k, g) ∷ rows) t h ne =
    elim (Bool-cases (same_text g.relative_path m.relative_path)) [
      | inl p ↦
          let is_f : g.id ≡ f.id =
            ap (λ (x : ℕ × FileRow). x.1.id)
              (some_injective {a = (k, g)} {b = (e, f)} (rw p at h)) in
          let path_of = same_text→eq g.relative_path m.relative_path p in
          let not_here = different g.relative_path path (λ q. ne (sym q ∙ path_of)) in
          first is_f not_here
      | inr p ↦
          let deeper : find_file m.relative_path rows ≡ some (e, f) = (rw p at h) in
          let apart : g.id ≢ f.id =
            λ q. found-apart g.id m.relative_path g.relative_path rows e f t.0 deeper (sym q) in
          update_file-later f.id d k m g path rows apart
            (update_file-other d e m f path rows t.1 deeper ne)
    ]
  where
    first :
        g.id ≡ f.id
        → same_text g.relative_path path ≡ false
        → find_file path (update_file f.id d m ((k, g) ∷ rows)) ≡ find_file path ((k, g) ∷ rows)
    first q n =
        let here : (g.id == f.id) ≡ true = rw q (same_id f.id) in
        let rest =
          update_file-apart f.id d g.relative_path m rows
            (subst (λ i. All (IsApart i g.relative_path) rows) q t.0) in
        unfold update_file find_file in rw (here, n) (ap (find_file path) rest)

pub upsert_file-other :
    (d : ℕ) (m : FileMetadata) (path : Text) (files : List (ℕ × FileRow))
    → IsFileTable files
    → path ≢ m.relative_path
    → find_file path (upsert_file d m (find_file m.relative_path files) files).1
      ≡ find_file path files
unfolding upsert_file
upsert_file-other d m path files t ne = elim (Option-cases (find_file m.relative_path files)) [
  | inl e ↦
      let n = different m.relative_path path (λ q. ne (sym q)) in
      rw e (unfold find_file in rw n refl)
  | inr (f, e) ↦ rw e (update_file-other d f.0 m f.1 path files t e ne)
]
