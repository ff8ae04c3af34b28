-- ===== src/Catalog/Upserted.antt =====
-- The row of a file that `record_file` writes, and the rows that refer to files.
use xret.Evidence.{ProviderEvidence}
use xret.Catalog.Tables.{same_id, IsSortedBy}
use xret.Catalog.Keys.{HasId}
use xret.Catalog.Files.{
  is_written, upsert_file, update_file, numbered, link, has_link, find_file, file_row, FileMetadata,
}
use xret.Catalog.{FileRow, DatasetRow, Contributor}
use xret.Catalog.Valid.{HasFile, Belongs, AllIds}
use xret.Prelude.{
  same_text→eq, ◌≤◌, ◌∙◌, ◌==◌, ℕ, true, suc, some_injective, some, same_text_self, same_text, refl,
  none, map, inr, inl, if◌then◌else◌, false, arith, ap, [], Text, Option-cases, Option, List,
  Bool-cases, All, ◌∷◌, ◌≡◌,
}

pub find_file-HasFile :
    (path : Text) (files : List (ℕ × FileRow)) (d : ℕ) (f : FileRow)
    → find_file path files ≡ some (d, f)
    → HasFile f.id files
unfolding find_file
find_file-HasFile path [] d f h = cc
find_file-HasFile path ((e, g) ∷ files) d f h = elim (Bool-cases (same_text g.relative_path path)) [
  | inl p ↦
      inl (ap (λ (x : ℕ × FileRow). x.1.id) (some_injective {a = (e, g)} {b = (d, f)} (rw p at h)))
  | inr p ↦ inr (find_file-HasFile path files d f (rw p at h))
]

update_first :
    (i d e : ℕ) (m : FileMetadata) (g : FileRow) (files : List (ℕ × FileRow))
    → g.id ≡ i
    → same_text g.relative_path m.relative_path ≡ true
    → find_file m.relative_path (update_file i d m ((e, g) ∷ files)) ≡ some (d, file_row i m)
unfolding find_file update_file
update_first i d e m g files n p =
    let here : (g.id == i) ≡ true = rw n (same_id i) in
    rw (here, p) (rw (same_text→eq g.relative_path m.relative_path p) refl)

update_later :
    (i d e : ℕ) (m : FileMetadata) (g : FileRow) (files : List (ℕ × FileRow))
    → same_text g.relative_path m.relative_path ≡ false
    → find_file m.relative_path (update_file i d m ((e, g) ∷ files))
      ≡ find_file m.relative_path (update_file i d m files)
unfolding find_file update_file
update_later i d e m g files p = elim (Bool-cases (g.id == i)) [
  | inl n ↦ rw (n, p) refl
  | inr n ↦ rw (n, p) refl
]

update_file-found :
    (d : ℕ) (m : FileMetadata) (files : List (ℕ × FileRow)) (e : ℕ) (f : FileRow)
    → find_file m.relative_path files ≡ some (e, f)
    → find_file m.relative_path (update_file f.id d m files) ≡ some (d, file_row f.id m)
unfolding find_file
update_file-found d m [] e f h = cc
update_file-found d m ((k, g) ∷ files) e f h =
    elim (Bool-cases (same_text g.relative_path m.relative_path)) [
      | inl p ↦
          update_first f.id d k m g files
            (ap (λ (x : ℕ × FileRow). x.1.id)
              (some_injective {a = (k, g)} {b = (e, f)} (rw p at h)))
            p
      | inr p ↦ update_later f.id d k m g files p ∙ update_file-found d m files e f (rw p at h)
    ]

update_file-HasFile :
    (i d : ℕ) (m : FileMetadata) (n : ℕ) (files : List (ℕ × FileRow))
    → HasFile n files
    → HasFile n (update_file i d m files)
unfolding update_file
update_file-HasFile i d m n [] h = h
update_file-HasFile i d m n ((e, g) ∷ files) (inl p) = elim (Bool-cases (g.id == i)) [
  | inl q ↦ rw q (inl (ground arith))
  | inr q ↦ rw q (inl p)
]
update_file-HasFile i d m n ((e, g) ∷ files) (inr k) = inr (update_file-HasFile i d m n files k)

update_file-Belongs :
    (datasets : List DatasetRow) (i d : ℕ) (m : FileMetadata) (files : List (ℕ × FileRow))
    → HasId d datasets
    → Belongs datasets files
    → Belongs datasets (update_file i d m files)
unfolding update_file
update_file-Belongs datasets i d m [] h b = tt
update_file-Belongs datasets i d m ((e, g) ∷ files) h b = elim (Bool-cases (g.id == i)) [
  | inl q ↦ rw q (h, update_file-Belongs datasets i d m files h b.1)
  | inr q ↦ rw q (b.0, update_file-Belongs datasets i d m files h b.1)
]

-- Where the row was looked up by the path.
module _ (d : ℕ) (m : FileMetadata) (files : List (ℕ × FileRow)) where
  abbrev pub upserted : ℕ × List (ℕ × FileRow)
  upserted = upsert_file d m (find_file m.relative_path files) files

  pub upserted_found : find_file m.relative_path upserted.1 ≡ some (d, file_row upserted.0 m)
  unfolding upsert_file
  upserted_found = elim (Option-cases (find_file m.relative_path files)) [
    | inl e ↦ rw e (unfold find_file in rw (same_text_self m.relative_path) refl)
    | inr (f, e) ↦ rw e (update_file-found d m files f.0 f.1 e)
  ]

  pub upserted-HasFile : (n : ℕ) → HasFile n files → HasFile n upserted.1
  unfolding upsert_file
  upserted-HasFile n h = elim (Option-cases (find_file m.relative_path files)) [
    | inl e ↦ rw e (inr h)
    | inr (f, e) ↦ rw e (update_file-HasFile f.1.id d m n files h)
  ]

  pub upserted-Belongs :
      (datasets : List DatasetRow)
      → HasId d datasets
      → Belongs datasets files
      → Belongs datasets upserted.1
  unfolding upsert_file
  upserted-Belongs datasets h b = elim (Option-cases (find_file m.relative_path files)) [
    | inl e ↦ rw e (h, b)
    | inr (f, e) ↦ rw e (update_file-Belongs datasets f.1.id d m files h b)
  ]

-- The contributors that are written, in order.
pub complete : List ProviderEvidence → List ProviderEvidence
complete [] = []
complete (e ∷ es) = let rest = complete es in if is_written e then e ∷ rest else rest

pub numbered-evidence :
    (n : ℕ) (es : List ProviderEvidence)
    → map (λ (r : Contributor). r.evidence) (numbered n es) ≡ complete es
unfolding numbered complete
numbered-evidence n [] = refl
numbered-evidence n (e ∷ es) = elim (Bool-cases (is_written e)) [
  | inl p ↦ rw p (ap (λ rest. e ∷ rest) (numbered-evidence (suc n) es))
  | inr p ↦ rw p (numbered-evidence (suc n) es)
]

numbered-least :
    (n k : ℕ) (es : List ProviderEvidence)
    → k ≤ n
    → All (λ (r : Contributor). k ≤ r.ordinal) (numbered n es)
unfolding numbered
numbered-least n k [] h = tt
numbered-least n k (e ∷ es) h = elim (Bool-cases (is_written e)) [
  | inl p ↦ rw p (h, numbered-least (suc n) k es (omega arith))
  | inr p ↦ rw p (numbered-least (suc n) k es (omega arith))
]

least-IsSortedBy :
    (r : Contributor) (rows : List Contributor)
    → All (λ (x : Contributor). r.ordinal ≤ x.ordinal) rows
    → IsSortedBy (λ (x : Contributor). x.ordinal) rows
    → IsSortedBy (λ (x : Contributor). x.ordinal) (r ∷ rows)
least-IsSortedBy r [] h s = tt
least-IsSortedBy r (x ∷ rows) h s = (h.0, s)

pub numbered-IsSortedBy :
    (n : ℕ) (es : List ProviderEvidence)
    → IsSortedBy (λ (r : Contributor). r.ordinal) (numbered n es)
unfolding numbered
numbered-IsSortedBy n [] = tt
numbered-IsSortedBy n (e ∷ es) = elim (Bool-cases (is_written e)) [
  | inl p ↦ rw p (
      least-IsSortedBy (record { ordinal = n; evidence = e }) (numbered (suc n) es)
        (numbered-least (suc n) n es (omega arith)) (numbered-IsSortedBy (suc n) es))
  | inr p ↦ rw p (numbered-IsSortedBy (suc n) es)
]

pub link-AllIds :
    (P : ℕ → Type 0) (file : ℕ) (run : Option ℕ) (rows : List (ℕ × ℕ))
    → P file
    → AllIds P rows
    → AllIds P (link file run rows)
unfolding link
link-AllIds P file none rows p h = h
link-AllIds P file (some run) rows p h = elim (Bool-cases (has_link file run rows)) [
  | inl e ↦ rw e h
  | inr e ↦ rw e (p, h)
]
