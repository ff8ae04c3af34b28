-- ===== src/Catalog/RunRows.antt =====
-- The table of runs: what writing a run does to it. The identity of a run never changes.
use xret.Catalog.RunTable.{
  IsRunTable, IsRunTable, IsRunTable, IsRunTable, IsRunTable, IsRunTable, IsRunTable, IsRunTable,
  IsRunTable, IsRunTable, IsRunTable, IsRunTable, update_run-IsRunTable, inserted-IsRunTable,
  IsRunTable,
}
use mathlib.Core.Path.{subst}
use mathlib.Core.Option.{none-ne-some}
use xret.Catalog.Files.{find_run}
use xret.Catalog.Runs.{write_run, update_run, same_identity, run_row, largest_run, RunMetadata}
use xret.Catalog.Keys.{HasId}
use xret.Timeframe.{Datetime}
use xret.Catalog.{RunRow, RunIdentity, RunDetails, DatasetRow}
use xret.Catalog.Valid.{Belongs, AllIds}
use xret.Prelude.{
  ◌≢◌, ◌∙◌, ◌==◌, ◌&&◌, ℕ, true, sym, suc, some_injective, some, same_text→eq, same_text_self,
  same_text, refl, ok_injective, ok, none, inr, inl, guarded, false, catalog_error, arith, ap, [],
  Text, Option-cases, List, Bool-cases, Bool, ◌∷◌, ◌≡◌,
}

identity : Datetime → Datetime → Datetime → ℕ → RunIdentity
identity a b s v = record {
  requested_start = a;
  requested_end = b;
  started_at = s;
  schema_version = v;
}

identity_eq :
    {a b c d e f g h : ℕ} → a ≡ b → c ≡ d → e ≡ f → g ≡ h → identity a c e g ≡ identity b d f h
identity_eq p q r s = rw (p, q, r, s) refl

same_identity→eq : (a b : RunIdentity) → same_identity a b ≡ true → a ≡ b
unfolding same_identity identity
same_identity→eq a b h = identity_eq (starts a b h) (ends a b h) (begun a b h) (version a b h)
  where
    starts : (a b : RunIdentity) → same_identity a b ≡ true → a.requested_start ≡ b.requested_start
    starts a b h = ground arith

    ends : (a b : RunIdentity) → same_identity a b ≡ true → a.requested_end ≡ b.requested_end
    ends a b h = ground arith

    begun : (a b : RunIdentity) → same_identity a b ≡ true → a.started_at ≡ b.started_at
    begun a b h = ground arith

    version : (a b : RunIdentity) → same_identity a b ≡ true → a.schema_version ≡ b.schema_version
    version a b h = ground arith

different_text : (s t : Text) → s ≢ t → same_text s t ≡ false
different_text s t ne = elim (Bool-cases (same_text s t)) [
  | inl e ↦ absurd (ne (same_text→eq s t e))
  | inr e ↦ e
]

-- The update of a known run.
update_run-own :
    (run_id : Text) (details : RunDetails) (runs : List (ℕ × RunRow)) (d : ℕ) (r : RunRow)
    → find_run run_id runs ≡ some (d, r)
    → (find_run run_id (update_run run_id details runs) ≡ some (d, record r { details = details }))
      × (r.run_id ≡ run_id)
unfolding find_run update_run
update_run-own run_id details [] d r h = cc
update_run-own run_id details ((k, x) ∷ runs) d r h =
    elim (Bool-cases (same_text x.run_id run_id)) [
      | inl e ↦
          let same : ◌≡◌ {A = ℕ × RunRow} (k, x) (d, r) = some_injective (rw e at h) in
          subst
            (λ (y : ℕ × RunRow).
              (find_run run_id (update_run run_id details ((k, x) ∷ runs))
                ≡ some (y.0, record (y.1) { details = details }))
              × (y.1.run_id ≡ run_id))
            same (rw (e, e) (refl, same_text→eq x.run_id run_id e))
      | inr e ↦ rw (e, e) (update_run-own run_id details runs d r (rw e at h))
    ]

update_run-other :
    (run_id other : Text) (details : RunDetails) (runs : List (ℕ × RunRow))
    → run_id ≢ other
    → find_run other (update_run run_id details runs) ≡ find_run other runs
unfolding find_run update_run
update_run-other run_id other details [] ne = refl
update_run-other run_id other details ((k, x) ∷ runs) ne =
    elim (Bool-cases (same_text x.run_id run_id)) [
      | inl e ↦
          rw (e, different_text x.run_id other (λ p. ne (sym (same_text→eq x.run_id run_id e) ∙ p)))
            (update_run-other run_id other details runs ne)
      | inr e ↦ elim (Bool-cases (same_text x.run_id other)) [
        | inl f ↦ rw (e, f) refl
        | inr f ↦ rw (e, f) (update_run-other run_id other details runs ne)
      ]
    ]

update_run-AllIds :
    (P : ℕ → Type 0) (run_id : Text) (details : RunDetails) (runs : List (ℕ × RunRow))
    → AllIds P runs
    → AllIds P (update_run run_id details runs)
unfolding update_run
update_run-AllIds P run_id details [] h = tt
update_run-AllIds P run_id details ((k, x) ∷ runs) h =
    (h.0, update_run-AllIds P run_id details runs h.1)

-- The table behind `write_run`.
pub record IsWrittenRun (d : ℕ) (run : RunMetadata) (before after : List (ℕ × RunRow))
    : Type 0 where
  pub id : ℕ
  pub stored : find_run run.run_id after ≡ some (d, run_row id run)
  pub immutable :
      (k : ℕ) (r : RunRow)
      → find_run run.run_id before ≡ some (k, r)
      → (k ≡ d) × (r.identity ≡ run.identity) × (r.id ≡ id)
  pub others : (other : Text) → run.run_id ≢ other → find_run other after ≡ find_run other before
  pub table : IsRunTable before → IsRunTable after
  pub belongs :
      (datasets : List DatasetRow)
      → HasId d datasets
      → Belongs datasets before
      → Belongs datasets after

inserted-IsWrittenRun :
    (d : ℕ) (run : RunMetadata) (runs : List (ℕ × RunRow))
    → find_run run.run_id runs ≡ none
    → IsWrittenRun d run runs ((d, run_row (suc (largest_run runs)) run) ∷ runs)
unfolding find_run
inserted-IsWrittenRun d run runs e = record {
  id = suc (largest_run runs);
  stored = rw (same_text_self run.run_id) refl;
  immutable = λ k r f. absurd (none-ne-some (k, r) (sym e ∙ f));
  others = λ other ne. rw (different_text run.run_id other ne) refl;
  table = λ t. inserted-IsRunTable d run runs e t;
  belongs = λ datasets h b. (h, b);
}

updated-IsWrittenRun :
    (d : ℕ) (run : RunMetadata) (r : RunRow) (runs : List (ℕ × RunRow))
    → find_run run.run_id runs ≡ some (d, r)
    → r.identity ≡ run.identity
    → IsWrittenRun d run runs (update_run run.run_id run.details runs)
updated-IsWrittenRun d run r runs e i =
    let own = update_run-own run.run_id run.details runs d r e in
    record {
      id = r.id;
      stored = own.0 ∙ rw (own.1, i) refl;
      immutable = λ k x f.
          let same : ◌≡◌ {A = ℕ × RunRow} (d, r) (k, x) = some_injective (sym e ∙ f) in
          (
            ap (λ (y : ℕ × RunRow). y.0) (sym same),
            ap (λ (y : ℕ × RunRow). y.1.identity) (sym same) ∙ i,
            ap (λ (y : ℕ × RunRow). y.1.id) (sym same),
          );
      others = λ other ne. update_run-other run.run_id other run.details runs ne;
      table = λ t. update_run-IsRunTable run.run_id run.details runs t;
      belongs =
          λ datasets h b. update_run-AllIds (λ j. HasId j datasets) run.run_id run.details runs b;
    }

both_id : (a b : ℕ) (t : Bool) → (a == b && t) ≡ true → a ≡ b
both_id a b t h = ground arith

both_same : (a b : ℕ) (t : Bool) → (a == b && t) ≡ true → t ≡ true
both_same a b t h = ground arith

pub write_run-IsWrittenRun :
    (d : ℕ) (run : RunMetadata) (runs after : List (ℕ × RunRow))
    → write_run d run runs ≡ ok after
    → IsWrittenRun d run runs after
unfolding write_run
write_run-IsWrittenRun d run runs after h = elim (Option-cases (find_run run.run_id runs)) [
  | inl e ↦
      subst (IsWrittenRun d run runs) (ok_injective (rw (e, write_run) at h))
        (inserted-IsWrittenRun d run runs e)
  | inr (f, e) ↦
      let got =
        guarded catalog_error (f.0 == d && same_identity f.1.identity run.identity)
          (update_run run.run_id run.details runs) after (rw (e, write_run) at h) in
      let there : f.0 ≡ d = both_id f.0 d (same_identity f.1.identity run.identity) got.0 in
      let same : same_identity f.1.identity run.identity ≡ true =
        both_same f.0 d (same_identity f.1.identity run.identity) got.0 in
      subst (IsWrittenRun d run runs) got.1 (
        updated-IsWrittenRun d run f.1 runs (e ∙ ap (λ n. some (n, f.1)) there)
          (same_identity→eq f.1.identity run.identity same))
]
