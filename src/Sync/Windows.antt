-- ===== src/Sync/Windows.antt =====
-- `_coalesce_fetch_ranges` keeps every gap, in order, in windows that hold just them.
use mathlib.Core.Path.{subst}
use mathlib.Core.List.{append_assoc}
use xret.Coverage.{Interval}
use xret.Sync.{fetch_window, windows_from, coalesce_fetch_ranges, advance_bars, FetchWindow}
use xret.Timeframe.{TimeBar, Datetime}
use xret.Prelude.{
  ◌>>=◌, ◌<◌, zero, suc, ok, arith, Result, ◌⊎◌, ◌≤◌, ◌++◌, ℕ, refl, length, leb→le, leb, inr, inl,
  ap, [], List, Bool-cases, All, ◌∷◌, ◌≡◌,
}

pub all_gaps : List FetchWindow → List Interval
all_gaps [] = []
all_gaps (w ∷ rest) = w.gaps ++ all_gaps rest

-- The last gap ends the window.
abbrev pub LastEnd : Datetime → List Interval → Type 0
LastEnd e [] = ⊥
LastEnd e (g ∷ []) = e ≡ g.end
LastEnd e (g ∷ h ∷ rest) = LastEnd e (h ∷ rest)

abbrev pub FirstStart : Datetime → List Interval → Type 0
FirstStart a [] = ⊥
FirstStart a (g ∷ rest) = a ≡ g.start

-- One gap, or several that end within `bars` bars of the window's start.
abbrev pub Fits : TimeBar → ℕ → FetchWindow → Type 0
Fits t bars w = (length w.gaps ≡ 1) ⊎ (w.end ≤ advance_bars t w.start bars)

pub record IsFetchWindow (t : TimeBar) (bars : ℕ) (w : FetchWindow) : Type 0 where
  pub first_start : FirstStart w.start w.gaps
  pub last_end : LastEnd w.end w.gaps
  pub fits : Fits t bars w

snoc-LastEnd : (gs : List Interval) (g : Interval) → LastEnd g.end (gs ++ g ∷ [])
snoc-LastEnd [] g = refl
snoc-LastEnd (x ∷ []) g = refl
snoc-LastEnd (x ∷ y ∷ rest) g = snoc-LastEnd (y ∷ rest) g

snoc-FirstStart :
    (a : Datetime) (gs : List Interval) (g : Interval)
    → FirstStart a gs
    → FirstStart a (gs ++ g ∷ [])
snoc-FirstStart a [] g h = absurd h
snoc-FirstStart a (x ∷ rest) g h = h

-- Nonempty gaps in ascending order from `p` on, which do not overlap.
abbrev pub AreGaps : Datetime → List Interval → Type 0
AreGaps p [] = Unit
AreGaps p (g ∷ rest) = (p ≤ g.start) × (g.start < g.end) × AreGaps g.end rest

-- What the planning promises: windows that are as they should be, with just the given gaps.
abbrev pub IsPlan : TimeBar → ℕ → List Interval → List FetchWindow → Type 0
IsPlan t bars gaps windows = (all_gaps windows ≡ gaps) × All (IsFetchWindow t bars) windows

Planned : TimeBar → ℕ → List Interval → Result (List FetchWindow) → Type 0
Planned t bars gaps r = (windows : List FetchWindow) × (r ≡ ok windows) × IsPlan t bars gaps windows

fetch_window-accepts :
    (w : FetchWindow) (gaps : List Interval)
    → w.gaps ≡ gaps
    → FirstStart w.start gaps
    → w.start < w.end
    → fetch_window w ≡ ok w
unfolding fetch_window
fetch_window-accepts w [] e h lt = absurd h
fetch_window-accepts w (g ∷ rest) e h lt = rw e (ground arith)

close_window :
    (t : TimeBar) (bars : ℕ) (w : FetchWindow) (gaps : List Interval)
    (r : Result (List FetchWindow))
    → IsFetchWindow t bars w
    → w.start < w.end
    → Planned t bars gaps r
    → Planned t bars (w.gaps ++ gaps) (fetch_window w >>= λ x. r >>= λ xs. ok (x ∷ xs))
unfolding Planned all_gaps
close_window t bars w gaps r h lt (ws, e, (same, all)) =
    rw (fetch_window-accepts w w.gaps refl h.first_start lt, e)
      (w ∷ ws, refl, (ap (λ l. w.gaps ++ l) same, (h, all)))

windows_from-Planned :
    (t : TimeBar) (bars : ℕ) (w : FetchWindow) (gaps : List Interval)
    → IsFetchWindow t bars w
    → w.start < w.end
    → AreGaps w.end gaps
    → Planned t bars (w.gaps ++ gaps) (windows_from t bars w (advance_bars t w.start bars) gaps)
unfolding windows_from
windows_from-Planned t bars w [] h lt k =
    unfold Planned all_gaps in
    rw (fetch_window-accepts w w.gaps refl h.first_start lt) (w ∷ [], refl, (refl, (h, tt)))
windows_from-Planned t bars w (g ∷ rest) h lt k =
    elim (Bool-cases (leb g.end (advance_bars t w.start bars))) [
      | inl e ↦ rw e (
          subst
            (λ l. Planned t bars l (
              windows_from t bars (record { start = w.start; end = g.end; gaps = w.gaps ++ g ∷ [] })
                (advance_bars t w.start bars) rest))
            (append_assoc w.gaps (g ∷ []) rest)
            (windows_from-Planned t bars
              (record { start = w.start; end = g.end; gaps = w.gaps ++ g ∷ [] }) rest
              (record {
                first_start = snoc-FirstStart w.start w.gaps g h.first_start;
                last_end = snoc-LastEnd w.gaps g;
                fits = inr (leb→le g.end (advance_bars t w.start bars) e);
              })
              (omega arith) k.2))
      | inr e ↦ rw e (
          close_window t bars w (g ∷ rest)
            (windows_from t bars (record { start = g.start; end = g.end; gaps = g ∷ [] })
              (advance_bars t g.start bars) rest)
            h lt
            (windows_from-Planned t bars (record { start = g.start; end = g.end; gaps = g ∷ [] })
              rest (record { first_start = refl; last_end = refl; fits = inl refl }) k.1 k.2))
    ]

-- For a positive number of bars and nonempty gaps that are sorted and disjoint, the planning
-- returns windows that hold just the given gaps, each once and in order. A window begins with its
-- first gap and ends with its last one; it holds one gap, or ends within the number of bars.
pub coalesce_fetch_ranges-IsPlan :
    (t : TimeBar) (bars : ℕ) (gaps : List Interval)
    → 0 < bars
    → AreGaps 0 gaps
    → (windows : List FetchWindow) × (coalesce_fetch_ranges t bars gaps ≡ ok windows)
      × IsPlan t bars gaps windows
unfolding coalesce_fetch_ranges Planned
coalesce_fetch_ranges-IsPlan t zero gaps pos h = absurd (omega arith)
coalesce_fetch_ranges-IsPlan t (suc bars) [] pos h = ([], refl, (unfold all_gaps in refl, tt))
coalesce_fetch_ranges-IsPlan t (suc bars) (g ∷ rest) pos h =
    windows_from-Planned t (suc bars) (record { start = g.start; end = g.end; gaps = g ∷ [] }) rest
      (record { first_start = refl; last_end = refl; fits = inl refl }) h.1 h.2
