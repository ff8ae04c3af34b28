-- ===== src/Catalog/RunTable.antt =====
-- The unique columns of `ingestion_runs`: `id` and `run_id`.
use xret.Catalog.Tables.{without}
use mathlib.Core.Option.{none-ne-some}
use xret.Catalog.Files.{find_run}
use mathlib.Core.Bool.{false≢true}
use xret.Catalog.Runs.{update_run, run_row, largest_run, RunMetadata}
use xret.Catalog.{RunRow, RunDetails}
use xret.Catalog.Uniques.{All-without}
use xret.Prelude.{
  ◌≢◌, ◌∙◌, ◌==◌, ◌<◌, ℕ, sym, suc, same_text_self, same_text, none, inr, inl, arith, [], Text,
  List, Bool-cases, All, ◌∷◌, ◌≡◌,
}

-- A row with another id and another run id.
abbrev pub IsOtherRun : ℕ → Text → ℕ × RunRow → Type 0
IsOtherRun i run_id (d, r) = (r.id ≢ i) × (r.run_id ≢ run_id)

-- No two rows share an id or a run id.
abbrev pub IsRunTable : List (ℕ × RunRow) → Type 0
IsRunTable [] = Unit
IsRunTable ((d, r) ∷ rest) = All (IsOtherRun r.id r.run_id) rest × IsRunTable rest

pub without-IsRunTable :
    (i : ℕ) (rows : List (ℕ × RunRow)) → IsRunTable rows → IsRunTable (without i rows)
unfolding without
without-IsRunTable i [] h = tt
without-IsRunTable i ((j, r) ∷ rows) h = elim (Bool-cases (i == j)) [
  | inl e ↦ rw e (without-IsRunTable i rows h.1)
  | inr e ↦ rw e (All-without (IsOtherRun r.id r.run_id) i rows h.0, without-IsRunTable i rows h.1)
]

-- The update changes no id and no run id.
All-update_run :
    (j : ℕ) (other run_id : Text) (details : RunDetails) (rows : List (ℕ × RunRow))
    → All (IsOtherRun j other) rows
    → All (IsOtherRun j other) (update_run run_id details rows)
unfolding update_run
All-update_run j other run_id details [] h = tt
All-update_run j other run_id details ((e, r) ∷ rows) h =
    elim (Bool-cases (same_text r.run_id run_id)) [
      | inl p ↦ rw p (h.0, All-update_run j other run_id details rows h.1)
      | inr p ↦ rw p (h.0, All-update_run j other run_id details rows h.1)
    ]

pub update_run-IsRunTable :
    (run_id : Text) (details : RunDetails) (rows : List (ℕ × RunRow))
    → IsRunTable rows
    → IsRunTable (update_run run_id details rows)
unfolding update_run
update_run-IsRunTable run_id details [] h = tt
update_run-IsRunTable run_id details ((e, r) ∷ rows) h =
    elim (Bool-cases (same_text r.run_id run_id)) [
      | inl p ↦ rw p (
        All-update_run r.id r.run_id run_id details rows h.0,
        update_run-IsRunTable run_id details rows h.1,
      )
      | inr p ↦ rw p (
        All-update_run r.id r.run_id run_id details rows h.0,
        update_run-IsRunTable run_id details rows h.1,
      )
    ]

unknown-IsOtherRun :
    (i : ℕ) (run_id : Text) (rows : List (ℕ × RunRow))
    → largest_run rows < i
    → find_run run_id rows ≡ none
    → All (IsOtherRun i run_id) rows
unfolding find_run
unknown-IsOtherRun i run_id [] lt h = tt
unknown-IsOtherRun i run_id ((d, r) ∷ rows) lt h = elim (Bool-cases (same_text r.run_id run_id)) [
  | inl e ↦ absurd (none-ne-some (d, r) (sym (rw e at h)))
  | inr e ↦ (
    (omega arith, λ q. false≢true (sym e ∙ rw q (same_text_self run_id))),
    unknown-IsOtherRun i run_id rows (omega arith) (rw e at h),
  )
]

-- The row of a new run.
pub inserted-IsRunTable :
    (d : ℕ) (run : RunMetadata) (rows : List (ℕ × RunRow))
    → find_run run.run_id rows ≡ none
    → IsRunTable rows
    → IsRunTable ((d, run_row (suc (largest_run rows)) run) ∷ rows)
inserted-IsRunTable d run rows e h =
    (unknown-IsOtherRun (suc (largest_run rows)) run.run_id rows (omega arith) e, h)
