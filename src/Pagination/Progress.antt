-- ===== src/Pagination/Progress.antt =====
-- Every page of the bounded traversal makes progress, and stays within its bounds.
use mathlib.Core.Path.{subst}
use xret.Pagination.{advance, exceeds, advance_from}
use xret.Timeframe.Laws.{next_boundary_lem, first_boundary, IsValid}
use xret.Timeframe.{next_boundary, TimeBar, Datetime}
use xret.Prelude.{
  ◌⊎◌, true, min, ap, ◌≤◌, ◌<◌, ◌-◌, ◌+◌, ℕ, zero, suc, some, refl, none, leb→le, leb, inr, inl,
  false, arith, Option, Bool-cases, ◌≡◌,
}

-- A span that is allowed.
abbrev pub Allows : Option ℕ → ℕ → Type 0
Allows none span = Unit
Allows (some max_span) span = span ≤ max_span

exceeds→Allows :
    (max_span : Option ℕ) (span : ℕ) → exceeds max_span span ≡ false → Allows max_span span
unfolding exceeds
exceeds→Allows none span h = tt
exceeds→Allows (some m) span h = ground arith

Allows→exceeds :
    (max_span : Option ℕ) (span : ℕ) → Allows max_span span → exceeds max_span span ≡ false
unfolding exceeds
Allows→exceeds none span h = refl
Allows→exceeds (some m) span h = ground arith

Allows-le : (max_span : Option ℕ) (a b : ℕ) → a ≤ b → Allows max_span b → Allows max_span a
Allows-le none a b le h = tt
Allows-le (some m) a b le h = omega arith

Allows-zero : (max_span : Option ℕ) (v : ℕ) → Allows max_span (v - v)
Allows-zero none v = tt
Allows-zero (some m) v = omega arith

-- The boundary that many bars after `v`.
unfoldable pub bars_later : TimeBar → ℕ → Datetime → Datetime
bars_later t zero v = v
bars_later t (suc n) v = next_boundary t (bars_later t n v)

-- What holds of a page that starts at `start` and ends at or behind `low`, with its bars.
pub record IsPage (t : TimeBar) (low start most end : ℕ) (max_span : Option ℕ) (page : Datetime × ℕ)
    : Type 0 where
  pub forward : low ≤ page.0
  pub within : page.0 ≤ end
  pub limited : page.1 ≤ most
  pub spanned : Allows max_span (page.0 - start)
  -- The page ends with the last of its bars, or with the request, and the bar before ends earlier.
  pub counted : page.0 ≡ min end (bars_later t page.1 start)
  pub needed : (n : ℕ) → page.1 ≡ suc n → bars_later t n start < page.0
  -- It stops at the limit, at the end of the request, or where one more bar exceeds the span.
  pub stopped :
      (page.1 ≡ most) ⊎ (page.0 ≡ end) ⊎ (exceeds max_span (next_boundary t page.0 - start) ≡ true)

module _ (t : TimeBar) (valid : IsValid t) (start end : Datetime) (max_span : Option ℕ) where
  later : (v : Datetime) → first_boundary t ≤ v → v < next_boundary t v
  later v h = (next_boundary_lem t v v valid h).0

  -- What the loop keeps of its cursor and its count.
  record Loop (low most bars cursor traversed : ℕ) : Type 0 where
    from_first : first_boundary t ≤ cursor
    forward : low ≤ cursor
    before : cursor < end
    total : traversed + bars ≡ most
    spanned : Allows max_span (cursor - start)
    counted : cursor ≡ bars_later t traversed start
    needed : (n : ℕ) → traversed ≡ suc n → bars_later t n start < cursor

  stops :
      (low most bars cursor traversed : ℕ)
      → Loop low most bars cursor traversed
      → (traversed ≡ most)
        ⊎ (cursor ≡ end)
        ⊎ (exceeds max_span (next_boundary t cursor - start) ≡ true)
      → IsPage t low start most end max_span (cursor, traversed)
  stops low most bars cursor traversed h why = record {
    forward = h.forward;
    within = omega (arith, h.before);
    limited = omega (arith, h.total);
    spanned = h.spanned;
    counted = omega (arith, h.counted, h.before);
    needed = h.needed;
    stopped = why;
  }

  reaches :
      (low most bars cursor traversed : ℕ)
      → Loop low most (suc bars) cursor traversed
      → end ≤ next_boundary t cursor
      → Allows max_span (next_boundary t cursor - start)
      → IsPage t low start most end max_span (end, suc traversed)
  reaches low most bars cursor traversed h le fits = record {
    forward = omega (arith, h.forward, h.before);
    within = omega arith;
    limited = omega (arith, h.total);
    spanned =
        Allows-le max_span (end - start) (next_boundary t cursor - start) (omega (arith, le)) fits;
    counted = unfold bars_later in rw (← h.counted) (omega (arith, le));
    needed = λ n e.
        subst (λ k. bars_later t k start < end) (omega (arith, e))
          (subst (λ v. v < end) h.counted h.before);
    stopped = inr (inl refl);
  }

  passes :
      (low most bars cursor traversed : ℕ)
      → Loop low most (suc bars) cursor traversed
      → next_boundary t cursor < end
      → Allows max_span (next_boundary t cursor - start)
      → Loop low most bars (next_boundary t cursor) (suc traversed)
  passes low most bars cursor traversed h lt fits =
      let on : cursor < next_boundary t cursor = later cursor h.from_first in
      record {
        from_first = omega (arith, h.from_first, on);
        forward = omega (arith, h.forward, on);
        before = lt;
        total = omega (arith, h.total);
        spanned = fits;
        counted = unfold bars_later in ap (next_boundary t) h.counted;
        needed = λ n e.
            subst (λ k. bars_later t k start < next_boundary t cursor) (omega (arith, e))
              (subst (λ v. v < next_boundary t cursor) h.counted on);
      }

  advance_from-IsPage :
      (bars low cursor traversed most : ℕ)
      → Loop low most bars cursor traversed
      → IsPage t low start most end max_span
          (advance_from t start bars end max_span cursor traversed)
  unfolding advance_from
  advance_from-IsPage zero low cursor traversed most h =
      stops low most 0 cursor traversed h (inl (omega (arith, h.total)))
  advance_from-IsPage (suc bars) low cursor traversed most h =
      elim (Bool-cases (exceeds max_span (next_boundary t cursor - start))) [
        | inl e ↦ rw e (stops low most (suc bars) cursor traversed h (inr (inr e)))
        | inr e ↦
            let fits = exceeds→Allows max_span (next_boundary t cursor - start) e in
            elim (Bool-cases (leb end (next_boundary t cursor))) [
              | inl c ↦
                  rw (e, c)
                    (reaches low most bars cursor traversed h
                      (leb→le end (next_boundary t cursor) c) fits)
              | inr c ↦
                  rw (e, c)
                    (advance_from-IsPage bars low (next_boundary t cursor) (suc traversed) most
                      (passes low most bars cursor traversed h (ground (arith, c)) fits))
            ]
      ]

  start-Loop :
      (bars : ℕ) → first_boundary t ≤ start → start < end → Loop start (suc bars) (suc bars) start 0
  start-Loop bars f lt = record {
    from_first = f;
    forward = omega arith;
    before = lt;
    total = omega arith;
    spanned = Allows-zero max_span start;
    counted = unfold bars_later in refl;
    needed = λ n e. omega arith;
  }

  -- The first bar is behind the start.
  at_least :
      (most cursor traversed : ℕ)
      → IsPage t start start most end max_span (cursor, traversed)
      → start < cursor
      → IsPage t (start + 1) start most end max_span (cursor, traversed)
  at_least most cursor traversed h lt = record {
    forward = omega (arith, lt);
    within = h.within;
    limited = h.limited;
    spanned = h.spanned;
    counted = h.counted;
    needed = h.needed;
    stopped = h.stopped;
  }

  passed :
      (bars : ℕ)
      → first_boundary t ≤ start
      → Loop start (suc bars) bars (next_boundary t start) 1
      → Loop (start + 1) (suc bars) bars (next_boundary t start) 1
  passed bars f h = record {
    from_first = h.from_first;
    forward = omega (arith, later start f);
    before = h.before;
    total = h.total;
    spanned = h.spanned;
    counted = h.counted;
    needed = h.needed;
  }

  first-IsPage :
      (bars : ℕ)
      → first_boundary t ≤ start
      → start < end
      → Allows max_span (next_boundary t start - start)
      → IsPage t (start + 1) start (suc bars) end max_span (advance t start (suc bars) end max_span)
  unfolding advance_from advance
  first-IsPage bars f lt fits =
      let h = start-Loop bars f lt in
      rw (Allows→exceeds max_span (next_boundary t start - start) fits)
        (elim (Bool-cases (leb end (next_boundary t start))) [
          | inl c ↦ rw c (
              at_least (suc bars) end 1
                (reaches start (suc bars) bars start 0 h (leb→le end (next_boundary t start) c)
                  fits)
                (omega arith))
          | inr c ↦ rw c (
              advance_from-IsPage bars (start + 1) (next_boundary t start) 1 (suc bars)
                (passed bars f (passes start (suc bars) bars start 0 h (ground (arith, c)) fits)))
        ])

-- For a valid time bar, a nonempty request that is not before its first boundary, a positive limit,
-- and a longest span, if there is one, that the first bar keeps: a page ends strictly behind its
-- start and not behind the request, with no more bars than the limit and no more than the span. It
-- ends at the boundary that its number of bars names, cut to the request, and one bar less ends
-- earlier. It stops only at the limit, at the end of the request, or where one more bar would
-- exceed the span.
pub advance-IsPage :
    (t : TimeBar) (start end : Datetime) (bars : ℕ) (max_span : Option ℕ)
    → IsValid t
    → first_boundary t ≤ start
    → start < end
    → 0 < bars
    → Allows max_span (next_boundary t start - start)
    → IsPage t (start + 1) start bars end max_span (advance t start bars end max_span)
advance-IsPage t start end zero max_span valid f lt pos fits = absurd (omega arith)
advance-IsPage t start end (suc bars) max_span valid f lt pos fits =
    first-IsPage t valid start end max_span bars f lt fits
