-- ===== src/Observation/Collect.antt =====
-- The facts of all the windows say of each instant what the windows and the rows prove.
use xret.Observation.Plain.{plain_facts, bar_facts-ok}
use xret.Coverage.Ascending.{IsAscending-later, IsAscending}
use mathlib.Core.Path.{ap₂}
use native.Mathlib.Decide.{dec_lt}
use xret.Coverage.Status.{interval_at, contains}
use xret.Observation.Facts.{
  AreWindows, plain_facts-at, plain_facts-IsAscending, plain_facts-EndsBy, bar_at,
}
use xret.Observation.{bar_facts, window_facts, mem, collect, bar_status, ObservedWindow}
use xret.Timeframe.Laws.{first_boundary, IsValid}
use xret.Observation.Ascending.{
  interval_at-append, first_of_two, IsAscending-append, EndsBy-later, EndsBy-append, EndsBy,
}
use xret.Timeframe.{floor, TimeBar, Datetime}
use xret.Coverage.{Interval, CoverageStatus}
use xret.Timeframe.Intervals.{iter_intervals-Bars, iter_intervals, Bars}
use xret.Prelude.{
  ◌<◌, ℕ, ◌∙◌, ◌++◌, refl, ◌≤◌, ◌||◌, ◌&&◌, some, ok, none, min, max, ltb, if◌then◌else◌, false,
  arith, [], Option, List, Bool, ◌∷◌, ◌≡◌,
}

pub in_windows : List ObservedWindow → Datetime → Bool
in_windows [] v = false
in_windows (w ∷ rest) v = contains w.start w.end v || in_windows rest v

-- What the observation proves of an instant: nothing outside the observed windows or from
-- `effective_end` on; inside, whether the bar that holds it was returned.
pub proved_at :
    TimeBar → List Datetime → Datetime → List ObservedWindow → Datetime → Option CoverageStatus
unfolding in_windows
proved_at t present effective_end windows v =
    if ltb v effective_end && in_windows windows v
    then some (bar_status (mem (floor t v) present))
    else none

pub record Collected (t : TimeBar) (present : List Datetime) (start effective_end p : Datetime)
    (windows : List ObservedWindow) : Type 0 where
  pub facts : List Interval
  pub returns : collect t present start effective_end windows ≡ ok facts
  pub ascending : IsAscending p facts
  pub ends_by : EndsBy effective_end facts
  pub status : (v : Datetime) → interval_at facts v ≡ proved_at t present effective_end windows v

max_right : (a b : ℕ) → a ≤ b → max a b ≡ b
max_right a b h = omega arith

window_facts-bars :
    (t : TimeBar) (present : List Datetime) (a b : Datetime) (bars : List (Datetime × Datetime))
    → a < b
    → iter_intervals t a b ≡ ok bars
    → window_facts t present a b ≡ bar_facts present a b bars
unfolding window_facts
window_facts-bars t present a b bars lt e = ground arith

window_facts-empty :
    (t : TimeBar) (present : List Datetime) (a b : Datetime)
    → b ≤ a
    → window_facts t present a b ≡ ok []
unfolding window_facts
window_facts-empty t present a b le = ground arith

collect-cons :
    (t : TimeBar) (present : List Datetime) (start effective_end : Datetime) (w : ObservedWindow)
    (rest : List ObservedWindow) (facts others : List Interval)
    → window_facts t present (max start w.start) (min effective_end w.end) ≡ ok facts
    → collect t present start effective_end rest ≡ ok others
    → collect t present start effective_end (w ∷ rest) ≡ ok (facts ++ others)
unfolding collect
collect-cons t present start effective_end w rest facts others e f = rw (e, f)

module _ (t : TimeBar) (valid : IsValid t) (present : List Datetime)
    (start effective_end : Datetime) (from_first : first_boundary t ≤ start) where
  -- One window: its facts lie within it, and say what its bars show.
  record WindowFacts (w : ObservedWindow) : Type 0 where
    facts : List Interval
    returns : window_facts t present (max start w.start) (min effective_end w.end) ≡ ok facts
    ascending : IsAscending w.start facts
    within : EndsBy (min effective_end w.end) facts
    status :
        (v : Datetime)
        → interval_at facts v ≡ (
            if contains w.start (min effective_end w.end) v then bar_at t valid present v else none)

  window-WindowFacts :
      (w : ObservedWindow) → start ≤ w.start → floor t w.start ≡ w.start → WindowFacts w
  window-WindowFacts w le aligned = elim (dec_lt w.start (min effective_end w.end)) [
    | yes p ↦
        let b : Datetime = min effective_end w.end in
        let found : (bars : List (Datetime × Datetime)) × (iter_intervals t w.start b ≡ ok bars)
            × Bars t b w.start bars =
          iter_intervals-Bars t w.start b valid (omega arith, aligned) p in
        let ascend : IsAscending w.start (plain_facts present w.start b found.0) =
          plain_facts-IsAscending t valid present w.start b w.start found.0 (omega arith) found.2 in
        record {
          facts = plain_facts present w.start b found.0;
          returns = rw (max_right start w.start le) (
              window_facts-bars t present w.start b found.0 p found.1
              ∙ bar_facts-ok present w.start b w.start found.0 ascend);
          ascending = ascend;
          within = plain_facts-EndsBy t valid present w.start b found.0;
          status =
              λ v. plain_facts-at t valid present w.start b w.start found.0 v (omega arith) found.2;
        }
    | no p ↦ record {
      facts = [];
      returns =
          rw (max_right start w.start le)
            (window_facts-empty t present w.start (min effective_end w.end) (omega arith));
      ascending = tt;
      within = tt;
      status = λ v. unfold interval_at contains in ground arith;
    }
  ]

  first_of-merge :
      (w : ObservedWindow) (rest : List ObservedWindow) (v : Datetime)
      → first_of_two
          (if contains w.start (min effective_end w.end) v then bar_at t valid present v else none)
          (proved_at t present effective_end rest v)
        ≡ proved_at t present effective_end (w ∷ rest) v
  unfolding proved_at contains bar_at
  first_of-merge w rest v = ground arith

  -- From validated windows the loop returns, with ascending facts that say what is proved.
  pub collect-Collected :
      (end p : Datetime) (windows : List ObservedWindow)
      → AreWindows t start end p windows
      → Collected t present start effective_end p windows
  collect-Collected end p [] h = record {
    facts = [];
    returns = unfold collect in refl;
    ascending = tt;
    ends_by = tt;
    status = λ v. unfold interval_at proved_at in ground arith;
  }
  collect-Collected end p (w ∷ rest) h =
      let one : WindowFacts w = window-WindowFacts w h.1 h.4 in
      let more : Collected t present start effective_end w.end rest =
        collect-Collected end w.end rest h.5 in
      record {
        facts = one.facts ++ more.facts;
        returns =
            collect-cons t present start effective_end w rest one.facts more.facts one.returns
              more.returns;
        ascending =
            IsAscending-append p w.end one.facts more.facts (omega arith)
              (IsAscending-later p w.start one.facts h.0 one.ascending)
              (EndsBy-later (min effective_end w.end) w.end one.facts (omega arith) one.within)
              more.ascending;
        ends_by =
            EndsBy-append effective_end one.facts more.facts
              (EndsBy-later (min effective_end w.end) effective_end one.facts (omega arith)
                one.within)
              more.ends_by;
        status = λ v.
            interval_at-append one.facts more.facts v
            ∙ ap₂ first_of_two (one.status v) (more.status v)
            ∙ first_of-merge w rest v;
      }
