-- ===== src/Catalog/Cascade.antt =====
-- The rows that the cascades of the schema leave: what they referred to is still there.
use xret.Catalog.Tables.{without, rows_of}
use xret.Catalog.Owners.{without_all, unlink_all, unlink, forget_runs, forget_run, file_ids}
use xret.Catalog.{FileRow, EventRow}
use xret.Catalog.Valid.{HasFile, AllIds}
use xret.Prelude.{◌≢◌, ◌==◌, ℕ, sym, inr, inl, arith, [], Option-cases, List, Bool-cases, ◌∷◌}

-- An id is not among those that go.
abbrev pub NotIn : ℕ → List ℕ → Type 0
NotIn f [] = Unit
NotIn f (i ∷ ids) = (f ≢ i) × NotIn f ids

module _ {ℓ} {A : Type ℓ} (P : ℕ → Type 0) where
  pub AllIds-without :
      (i : ℕ) (rows : List (ℕ × A)) → AllIds P rows → AllIds (λ f. P f × (f ≢ i)) (without i rows)
  unfolding without
  AllIds-without i [] h = tt
  AllIds-without i ((j, a) ∷ rows) h = elim (Bool-cases (i == j)) [
    | inl e ↦ rw e (AllIds-without i rows h.1)
    | inr e ↦ rw e ((h.0, λ s. ground arith), AllIds-without i rows h.1)
  ]

  pub AllIds-map :
      (Q : ℕ → Type 0) (rows : List (ℕ × A)) → ((f : ℕ) → P f → Q f) → AllIds P rows → AllIds Q rows
  AllIds-map Q [] m h = tt
  AllIds-map Q ((j, a) ∷ rows) m h = (m j h.0, AllIds-map Q rows m h.1)

module _ {ℓ} {A : Type ℓ} (P : ℕ → Type 0) where
  pub AllIds-without_all :
      (ids : List ℕ) (rows : List (ℕ × A))
      → AllIds P rows
      → AllIds (λ f. P f × NotIn f ids) (without_all ids rows)
  unfolding without_all
  AllIds-without_all [] rows h = AllIds-map P (λ f. P f × Unit) rows (λ f p. (p, tt)) h
  AllIds-without_all (i ∷ ids) rows h =
      AllIds-map (λ f. (P f × NotIn f ids) × (f ≢ i)) (λ f. P f × NotIn f (i ∷ ids))
        (without i (without_all ids rows)) (λ f p. (p.0.0, (p.1, p.0.1)))
        (AllIds-without (λ f. P f × NotIn f ids) i (without_all ids rows)
          (AllIds-without_all ids rows h))

pub AllIds-unlink :
    (P : ℕ → Type 0) (run : ℕ) (rows : List (ℕ × ℕ)) → AllIds P rows → AllIds P (unlink run rows)
unfolding unlink
AllIds-unlink P run [] h = tt
AllIds-unlink P run ((f, r) ∷ rows) h = elim (Bool-cases (r == run)) [
  | inl e ↦ rw e (AllIds-unlink P run rows h.1)
  | inr e ↦ rw e (h.0, AllIds-unlink P run rows h.1)
]

pub AllIds-unlink_all :
    (P : ℕ → Type 0) (runs : List ℕ) (rows : List (ℕ × ℕ))
    → AllIds P rows
    → AllIds P (unlink_all runs rows)
unfolding unlink_all
AllIds-unlink_all P [] rows h = h
AllIds-unlink_all P (run ∷ runs) rows h =
    AllIds-unlink P run (unlink_all runs rows) (AllIds-unlink_all P runs rows h)

pub AllIds-forget_run :
    (P : ℕ → Type 0) (run : ℕ) (rows : List (ℕ × EventRow))
    → AllIds P rows
    → AllIds P (forget_run run rows)
unfolding forget_run
AllIds-forget_run P run [] h = tt
AllIds-forget_run P run ((i, v) ∷ rows) h = elim (Option-cases v.run) [
  | inl e ↦ rw e (h.0, AllIds-forget_run P run rows h.1)
  | inr (r, e) ↦ elim (Bool-cases (r == run)) [
    | inl f ↦ rw (e, f) (h.0, AllIds-forget_run P run rows h.1)
    | inr f ↦ rw (e, f) (h.0, AllIds-forget_run P run rows h.1)
  ]
]

pub AllIds-forget_runs :
    (P : ℕ → Type 0) (runs : List ℕ) (rows : List (ℕ × EventRow))
    → AllIds P rows
    → AllIds P (forget_runs runs rows)
unfolding forget_runs
AllIds-forget_runs P [] rows h = h
AllIds-forget_runs P (run ∷ runs) rows h =
    AllIds-forget_run P run (forget_runs runs rows) (AllIds-forget_runs P runs rows h)

pub HasFile-without :
    (i f : ℕ) (files : List (ℕ × FileRow))
    → HasFile f files
    → NotIn f (file_ids (rows_of i files))
    → HasFile f (without i files)
unfolding without rows_of
HasFile-without i f [] h n = h
HasFile-without i f ((j, r) ∷ files) h n = elim (Bool-cases (i == j)) [
  | inl e ↦
      let n' : NotIn f (file_ids (r ∷ rows_of i files)) = (rw e at n) in
      elim h [ inl p ↦ absurd (n'.0 (sym p)) | inr p ↦ rw e (HasFile-without i f files p n'.1) ]
  | inr e ↦ elim h [
    | inl p ↦ rw e (inl p)
    | inr p ↦ rw e (inr (HasFile-without i f files p (rw e at n)))
  ]
]
