-- ===== src/Live/Capacity.antt =====
-- The queue of a session against its size.
use mathlib.Core.Path.{subst}
use native.Mathlib.Decide.{dec_lt}
use xret.Live.Delivery.{
  Run, begin, enters, is_entered, resolves, activates, fails, reads, read_raises, read_ends, asks,
  gets, exits, exits_runtime, is_exited,
}
use xret.Live.{
  subscribe_resolved, subscribe_failed, subscribe_activated, read_error, exited, exit_runtime, exit,
  entered, enter, discard, same_state, route_update, read_update, publish_failure, next_update,
  is_in, is_full, get, failure_of, enqueue, bar_update, after_checks, State, Session, Item,
}
use xret.Prelude.{
  invalid_request, not_refused, accepted, ok, ◌⊎◌, ◌≤◌, ◌||◌, ◌==◌, ◌++◌, ℕ, zero, true, suc, some,
  refl, not, none, length, inr, inl, false, arith, ap, [], Option-cases, List, Bool-cases, Bool,
  ◌∷◌, ◌≡◌,
}

-- A size of 0 is no bound.
abbrev pub Fits : {U E : Type 0} → ℕ → List (Item U E) → Type 0
Fits size q = (size ≡ 0) ⊎ (length q ≤ size)

Fits-one : {U E : Type 0} (size : ℕ) (x : Item U E) → Fits size (x ∷ [])
Fits-one zero x = inl refl
Fits-one (suc n) x = inr (omega arith)

Fits-tail :
    {U E : Type 0} (size : ℕ) (x : Item U E) (q : List (Item U E)) → Fits size (x ∷ q) → Fits size q
Fits-tail size x q (inl e) = inl e
Fits-tail size x q (inr h) = inr (omega arith)

length-snoc : {A : Type 0} (xs : List A) (x : A) → length (xs ++ x ∷ []) ≡ suc (length xs)
length-snoc [] x = refl
length-snoc (y ∷ xs) x = ap suc (length-snoc xs x)

Fits-snoc :
    {U E : Type 0} (size : ℕ) (q : List (Item U E)) (x : Item U E)
    → is_full size q ≡ false
    → Fits size (q ++ x ∷ [])
Fits-snoc size q x h = elim (dec_lt 0 size) [
  | yes p ↦ inr (rw length-snoc (ground (arith, h)))
  | no p ↦ inl (omega arith)
]

module _ {K U E : Type 0} (size : ℕ) where
  publish_failure-Fits :
      (by_reader : Bool) (e : E) (s : Session K U E)
      → Fits size s.queue
      → Fits size (publish_failure by_reader e s).queue
  unfolding publish_failure
  publish_failure-Fits b e s h = elim (Option-cases s.failure) [
    | inl f ↦ rw f (Fits-one {U = U} size (failure_of e))
    | inr (x, f) ↦ rw f h
  ]

  get-Fits :
      (s : Session K U E) (q : List (Item U E))
      → s.queue ≡ q
      → Fits size q
      → Fits size (get s).0.queue
  unfolding get
  get-Fits s [] e h = rw e h
  get-Fits s (bar_update u ∷ q) e h = rw e (Fits-tail size (bar_update u) q h)
  get-Fits s (failure_of f ∷ q) e h = rw e (Fits-tail size (failure_of f) q h)

  after_checks-Fits : (s : Session K U E) → Fits size s.queue → Fits size (after_checks s).0.queue
  unfolding after_checks
  after_checks-Fits s h = elim (Option-cases s.failure) [
    | inr (x, f) ↦ rw f h
    | inl f ↦
        elim (Bool-cases
          (not (same_state s.state State.opened || same_state s.state State.failing))) [
            | inl c ↦ rw (f, c) h
            | inr c ↦ elim (Option-cases s.reader) [
              | inl r ↦ rw (f, c, r) h
              | inr (x, r) ↦ rw (f, c, r) (get-Fits (record s { failure = none }) s.queue refl h)
            ]
          ]
  ]

  next_update-Fits :
      (task : ℕ) (s : Session K U E) → Fits size s.queue → Fits size (next_update task s).0.queue
  unfolding next_update
  next_update-Fits task s h = elim (Option-cases s.consumer) [
    | inl c ↦ rw c (after_checks-Fits (record s { consumer = some task }) h)
    | inr (x, c) ↦ elim (Bool-cases (x == task)) [
      | inl e ↦ rw (c, e) (after_checks-Fits (record s { consumer = some x }) h)
      | inr e ↦ rw (c, e) h
    ]
  ]

  enqueue-Fits :
      (overflow : E) (u : U) (s : Session K U E)
      → Fits size s.queue
      → Fits size (enqueue size overflow u s).0.queue
  unfolding enqueue
  enqueue-Fits overflow u s h = elim (Bool-cases (is_full size s.queue)) [
    | inl c ↦ rw c (publish_failure-Fits true overflow s h)
    | inr c ↦ rw c (Fits-snoc size s.queue (bar_update u) c)
  ]

module _ {K U E : Type 0} (same : K → K → Bool) (key : U → K) (size : ℕ)
    (unrouted overflow : E) where
  route_update-Fits :
      (u : U) (s : Session K U E)
      → Fits size s.queue
      → Fits size (route_update same key size unrouted overflow u s).0.queue
  unfolding route_update
  route_update-Fits u s h = elim (Option-cases s.failure) [
    | inr (x, f) ↦ rw f h
    | inl f ↦ elim (Bool-cases (is_in same (key u) s.routes)) [
      | inl c ↦ rw (f, c) (enqueue-Fits size overflow u (record s { failure = none }) h)
      | inr c ↦ rw (f, c) (publish_failure-Fits size true unrouted (record s { failure = none }) h)
    ]
  ]

  read_update-Fits :
      (u : U) (s : Session K U E)
      → Fits size s.queue
      → Fits size (read_update same key size unrouted overflow u s).0.queue
  unfolding read_update
  read_update-Fits u s h = elim (Bool-cases (route_update same key size unrouted overflow u s).1) [
    | inl c ↦ rw c (route_update-Fits u s h)
    | inr c ↦ rw c (route_update-Fits u s h)
  ]

  enter-Fits : (s t : Session K U E) → Fits size s.queue → enter s ≡ ok t → Fits size t.queue
  unfolding enter
  enter-Fits s t h e =
      subst (λ x. Fits size x.queue)
        (accepted invalid_request (same_state s.state State.created)
          (record s { state = State.entering }) t e)
        h

  subscribe_resolved-Fits :
      (k : K) (s t : Session K U E)
      → Fits size s.queue
      → subscribe_resolved same k s ≡ ok t
      → Fits size t.queue
  unfolding subscribe_resolved
  subscribe_resolved-Fits k s t h e =
      subst (λ x. Fits size x.queue)
        (not_refused invalid_request (is_in same k s.routes) (record s { routes = k ∷ s.routes }) t
          e)
        h

  subscribe_activated-Fits :
      (k : K) (s : Session K U E)
      → Fits size s.queue
      → Fits size (subscribe_activated same k s).queue
  unfolding subscribe_activated
  subscribe_activated-Fits k s h = elim (Option-cases s.reader) [
    | inl r ↦ rw r h
    | inr (x, r) ↦ rw r h
  ]

  subscribe_failed-Fits :
      (was_cancelled : Bool) (e : E) (k : K) (s : Session K U E)
      → Fits size s.queue
      → Fits size (subscribe_failed same was_cancelled e k s).queue
  unfolding subscribe_failed
  subscribe_failed-Fits true e k s h =
      publish_failure-Fits size false e (record s { routes = discard same k s.routes }) h
  subscribe_failed-Fits false e k s h = h

  exit-Fits : (s : Session K U E) → Fits size s.queue → Fits size (exit s).queue
  unfolding exit
  exit-Fits s h = elim (Bool-cases (same_state s.state State.closed)) [
    | inl c ↦ rw c h
    | inr c ↦ rw c h
  ]

  -- On every interleaving of the tasks a queue of a positive size never holds more entries than
  -- that, a published failure included.
  pub Run-Fits :
      (s : Session K U E) (a d : List U)
      → Run same key size unrouted overflow s a d
      → Fits size s.queue
  unfolding entered exit_runtime exited read_error
  Run-Fits s a d begin = inr (omega arith)
  Run-Fits t a d (enters {s} r e) = enter-Fits s t (Run-Fits s a d r) e
  Run-Fits t a d (is_entered {s} true r) = Run-Fits s a d r
  Run-Fits t a d (is_entered {s} false r) = Run-Fits s a d r
  Run-Fits t a d (resolves {s} k r e) = subscribe_resolved-Fits k s t (Run-Fits s a d r) e
  Run-Fits t a d (activates {s} k r) = subscribe_activated-Fits k s (Run-Fits s a d r)
  Run-Fits t a d (fails {s} c e k r) = subscribe_failed-Fits c e k s (Run-Fits s a d r)
  Run-Fits t b c (reads {s} {a} {d} u r) = read_update-Fits u s (Run-Fits s a d r)
  Run-Fits t a d (read_raises {s} e r) = publish_failure-Fits size true e s (Run-Fits s a d r)
  Run-Fits t a d (read_ends {s} r) = Run-Fits s a d r
  Run-Fits t b c (asks {s} {a} {d} task r) = next_update-Fits size task s (Run-Fits s a d r)
  Run-Fits t b c (gets {s} {a} {d} r) = get-Fits size s s.queue refl (Run-Fits s a d r)
  Run-Fits t a d (exits {s} r) = exit-Fits s (Run-Fits s a d r)
  Run-Fits t a d (exits_runtime {s} r) = Run-Fits s a d r
  Run-Fits t a d (is_exited {s} r) = Run-Fits s a d r
