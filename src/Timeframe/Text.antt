-- ===== src/Timeframe/Text.antt =====
-- `TimeBar.parse` and `__str__`, over the code points of a string.
use mathlib.Core.Path.{subst}
use mathlib.Core.List.{append_assoc, append-nil}
use xret.Timeframe.Laws.{time_bar-IsValid, IsValid, IsAmount}
use xret.Timeframe.{week, time_bar, second, month, minute, hour, day, TimeBar, BarUnit}
use xret.Prelude.{
  ◌∙◌, sym, refl, ok, ap, ◌==◌, ◌<◌, ◌/◌, ◌-◌, ◌+◌, ◌++◌, ◌*◌, ◌&&◌, ◌%◌, ℕ, zero, true, suc, some,
  none, ltb, leb, invalid_request, inr, inl, if◌then◌else◌, false, err, arith, [], Result, Option,
  List, Bool-cases, Bool, ◌∷◌, ◌≡◌,
}

is_digit : ℕ → Bool
is_digit c = leb 48 c && leb c 57

-- `[smhdwM]`
unit_of : ℕ → Option BarUnit
unit_of c =
    if c == 115
    then some second
    else if c == 109
    then some minute
    else if c == 104
    then some hour
    else if c == 100
    then some day
    else if c == 119
    then some week
    else if c == 77
    then some month
    else none

-- `$` matches at the end, and also before a newline that ends the string.
at_end : List ℕ → Bool
at_end [] = true
at_end (c ∷ []) = c == 10
at_end (c ∷ d ∷ rest) = false

finish : ℕ → ℕ → List ℕ → Result TimeBar
unfolding at_end unit_of
finish amount c rest =
    if at_end rest
    then elim (unit_of c) [ none ↦ err invalid_request | some u ↦ time_bar amount u ]
    else err invalid_request

-- `[0-9]*` and what follows, with the number that has been read.
scan : ℕ → List ℕ → Result TimeBar
unfolding is_digit finish
scan amount [] = err invalid_request
scan amount (c ∷ rest) =
    let more = scan (amount * 10 + (c - 48)) rest in
    if is_digit c then more else finish amount c rest

unfoldable pub parse : List ℕ → Result TimeBar
unfolding scan
parse [] = err invalid_request
parse (c ∷ rest) = if leb 49 c && leb c 57 then scan 0 (c ∷ rest) else err invalid_request

letter : BarUnit → ℕ
letter second = 115
letter minute = 109
letter hour = 104
letter day = 100
letter week = 119
letter month = 77

-- The decimal digits; a number has fewer digits than its own value plus one.
digits : ℕ → ℕ → List ℕ
digits zero n = []
digits (suc fuel) n =
    let more = digits fuel (n / 10) ++ (48 + n % 10) ∷ [] in
    if ltb n 10 then (48 + n) ∷ [] else more

-- `f"{self.amount}{self.unit}"`
pub to_text : TimeBar → List ℕ
unfolding digits letter
to_text t = digits (suc t.amount) t.amount ++ letter t.unit ∷ []

digits-suc :
    (fuel n : ℕ) (rest : List ℕ)
    → ltb n 10 ≡ false
    → digits (suc fuel) n ++ rest ≡ digits fuel (n / 10) ++ (48 + n % 10) ∷ rest
unfolding digits
digits-suc fuel n rest e = rw e (append_assoc (digits fuel (n / 10)) ((48 + n % 10) ∷ []) rest)

scan-digit : (m d : ℕ) (rest : List ℕ) → d < 10 → scan m ((48 + d) ∷ rest) ≡ scan (m * 10 + d) rest
unfolding scan
scan-digit m d rest h = rw digit_range (ap (λ k. scan k rest) value)
  where
    digit_range : (leb 48 (48 + d) && leb (48 + d) 57) ≡ true
    digit_range = ground arith

    value : m * 10 + (48 + d - 48) ≡ m * 10 + d
    value = omega arith

scan-digits : (fuel n : ℕ) (rest : List ℕ) → n < fuel → scan 0 (digits fuel n ++ rest) ≡ scan n rest
scan-digits zero n rest h = absurd (omega arith)
scan-digits (suc fuel) n rest h = elim (Bool-cases (ltb n 10)) [
  | inl e ↦ unfold digits scan in rw e (ground arith)
  | inr e ↦ rw (digits-suc fuel n rest e) (
      scan-digits fuel (n / 10) ((48 + n % 10) ∷ rest) (ground arith)
      ∙ scan-digit (n / 10) (n % 10) rest (omega arith)
      ∙ ap (λ k. scan k rest) (omega arith))
]

scan-letter :
    (amount : ℕ) (u : BarUnit) (rest : List ℕ)
    → at_end rest ≡ true
    → scan amount (letter u ∷ rest) ≡ time_bar amount u
unfolding scan letter
scan-letter amount second rest h = rw h
scan-letter amount minute rest h = rw h
scan-letter amount hour rest h = rw h
scan-letter amount day rest h = rw h
scan-letter amount week rest h = rw h
scan-letter amount month rest h = rw h

-- A positive number's digits begin with one that is not 0.
leads : List ℕ → Bool
leads [] = false
leads (c ∷ rest) = leb 49 c && leb c 57

digits-leads :
    (fuel n : ℕ) (rest : List ℕ) → n < fuel → 0 < n → leads (digits fuel n ++ rest) ≡ true
digits-leads zero n rest h p = absurd (omega arith)
digits-leads (suc fuel) n rest h p = elim (Bool-cases (ltb n 10)) [
  | inl e ↦ unfold digits leads in rw e (ground arith)
  | inr e ↦
      rw (digits-suc fuel n rest e)
        (digits-leads fuel (n / 10) ((48 + n % 10) ∷ rest) (ground arith) (ground arith))
]

parse-leads : (cs : List ℕ) → leads cs ≡ true → parse cs ≡ scan 0 cs
unfolding parse leads
parse-leads [] h = cc
parse-leads (c ∷ rest) h = rw h

with_rest :
    (t : TimeBar) (rest : List ℕ)
    → 0 < t.amount
    → at_end rest ≡ true
    → parse (to_text t ++ rest) ≡ time_bar t.amount t.unit
unfolding to_text
with_rest t rest h e = rw append_assoc (
    parse-leads _ (digits-leads (suc t.amount) t.amount (letter t.unit ∷ rest) (omega arith) h)
    ∙ scan-digits (suc t.amount) t.amount (letter t.unit ∷ rest) (omega arith)
    ∙ scan-letter t.amount t.unit rest e)

IsAmount-pos : (amount : ℕ) (unit : BarUnit) → IsAmount amount unit → 0 < amount
IsAmount-pos amount second h = h
IsAmount-pos amount minute h = h
IsAmount-pos amount hour h = h
IsAmount-pos amount day h = h
IsAmount-pos amount week h = omega arith
IsAmount-pos amount month h = omega arith

-- Parsing what a valid bar prints gives the bar back.
pub parse-to_text : (t : TimeBar) → IsValid t → parse (to_text t) ≡ ok t
parse-to_text t h =
    ap parse (sym (append-nil (to_text t)))
    ∙ with_rest t [] (IsAmount-pos t.amount t.unit h) (unfold at_end in refl)
    ∙ (time_bar-IsValid t.amount t.unit t).1 (h, refl)

-- The text of a valid bar with one newline behind it is accepted as the same bar: `$` matches
-- before a final newline.
pub parse_newline : (t : TimeBar) → IsValid t → parse (to_text t ++ 10 ∷ []) ≡ ok t
parse_newline t h =
    with_rest t (10 ∷ []) (IsAmount-pos t.amount t.unit h) (unfold at_end in refl)
    ∙ (time_bar-IsValid t.amount t.unit t).1 (h, refl)

made-IsValid : (amount : ℕ) (unit : BarUnit) (t : TimeBar) → time_bar amount unit ≡ ok t → IsValid t
made-IsValid amount unit t e =
    let h : IsAmount amount unit × (t ≡ record { amount = amount; unit = unit }) =
      (time_bar-IsValid amount unit t).0 e in
    subst IsValid (sym h.1) h.0

finish-IsValid :
    (amount c : ℕ) (rest : List ℕ) (t : TimeBar) → finish amount c rest ≡ ok t → IsValid t
finish-IsValid amount c rest t e = finish_by (unit_of c) refl
  where
    finish_by : (u : Option BarUnit) → unit_of c ≡ u → IsValid t
    finish_by none q = absurd (unfold finish in ground (arith, e, q))
    finish_by (some u) q = made-IsValid amount u t (unfold finish in ground (arith, e, q))

scan-IsValid : (amount : ℕ) (cs : List ℕ) (t : TimeBar) → scan amount cs ≡ ok t → IsValid t
scan-IsValid amount [] t e = absurd (unfold scan in cc e)
scan-IsValid amount (c ∷ rest) t e = elim (Bool-cases (is_digit c)) [
  | inl q ↦ scan-IsValid (amount * 10 + (c - 48)) rest t (sym (scan_more q) ∙ e)
  | inr q ↦ finish-IsValid amount c rest t (sym (scan_stop q) ∙ e)
]
  where
    scan_more : is_digit c ≡ true → scan amount (c ∷ rest) ≡ scan (amount * 10 + (c - 48)) rest
    scan_more q = unfold scan in rw q

    scan_stop : is_digit c ≡ false → scan amount (c ∷ rest) ≡ finish amount c rest
    scan_stop q = unfold scan in rw q

-- Whatever text is accepted, the bar that it gives is valid: its amount is positive, and 1 for a
-- calendar unit.
pub parse-IsValid : (cs : List ℕ) (t : TimeBar) → parse cs ≡ ok t → IsValid t
parse-IsValid [] t e = absurd (unfold parse in cc e)
parse-IsValid (c ∷ rest) t e = elim (Bool-cases (leb 49 c && leb c 57)) [
  | inl q ↦ scan-IsValid 0 (c ∷ rest) t (sym (parse-leads (c ∷ rest) (unfold leads in q)) ∙ e)
  | inr q ↦ absurd (unfold parse in ground (arith, e, q))
]
