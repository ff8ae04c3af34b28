-- ===== src/Live/Sent.antt =====
-- The queue of a session against what was enqueued and delivered: its entries and its consumer.
use mathlib.Core.Path.{subst}
use mathlib.Core.List.{append_assoc, append-nil}
use xret.Live.{
  bar_update, same_state, publish_failure, next_update, is_full, get, failure_of, enqueue,
  after_checks, State, Session, Reply, Item,
}
use xret.Prelude.{
  ◌⊎◌, ◌∙◌, ◌||◌, ◌==◌, ◌++◌, ℕ, true, sym, some, refl, not, none, inr, inl, false, ap, [],
  Option-cases, Option, List, Bool-cases, Bool, ◌∷◌, ◌≡◌,
}

abbrev pub received : {U E : Type 0} → Reply U E → List U
received (Reply.returns u) = u ∷ []
received _ = []

abbrev pub taken : {U : Type 0} → U → Bool → List U
taken u true = u ∷ []
taken u false = []

abbrev pub updates : {U E : Type 0} → List U → List (Item U E)
updates [] = []
updates (u ∷ us) = bar_update u ∷ updates us

updates-snoc :
    {U E : Type 0} (us : List U) (u : U)
    → updates {E = E} (us ++ u ∷ []) ≡ updates us ++ bar_update u ∷ []
updates-snoc [] u = refl
updates-snoc (v ∷ us) u = ap (λ q. bar_update v ∷ q) (updates-snoc us u)

-- What is in the queue when `a` was enqueued and `d` delivered: the updates in between, or, behind
-- a failure, that failure alone.
abbrev pub Sent : {U E : Type 0} → Option E → List (Item U E) → List U → List U → Type 0
Sent none q a d = (rest : List _) × (q ≡ updates rest) × (a ≡ d ++ rest)
Sent (some e) q a d = ((q ≡ []) ⊎ (q ≡ failure_of e ∷ [])) × ((rest : List _) × (a ≡ d ++ rest))

abbrev pub IsSent : {K U E : Type 0} → Session K U E → List U → List U → Type 0
IsSent s a d = Sent s.failure s.queue a d

module _ {K U E : Type 0} where
  pub publish_failure-IsSent :
      (by_reader : Bool) (e : E) (s : Session K U E) (a d : List U) (o : Option E)
      → s.failure ≡ o
      → IsSent s a d
      → IsSent (publish_failure by_reader e s) a d
  unfolding publish_failure
  publish_failure-IsSent b e s a d none h k =
      let sent : Sent none s.queue a d = subst (λ f. Sent f s.queue a d) h k in
      rw h (inr refl, (sent.0, sent.2))
  publish_failure-IsSent b e s a d (some f) h k = rw h (subst (λ g. Sent g s.queue a d) h k)

  pub get-IsSent :
      (s : Session K U E) (a d : List U) (o : Option E)
      → s.failure ≡ o
      → Sent o s.queue a d
      → IsSent (get s).0 a (d ++ received (get s).1)
  unfolding get
  get-IsSent s a d none h ([], q, e) = rw (q, h, append-nil) ([], refl, e)
  get-IsSent s a d none h (u ∷ us, q, e) =
      rw (q, h) (us, refl, e ∙ sym (append_assoc d (u ∷ []) us))
  get-IsSent s a d (some f) h (inl q, (rest, e)) = rw (q, h, append-nil) (inl refl, (rest, e))
  get-IsSent s a d (some f) h (inr q, (rest, e)) = rw (q, h, append-nil) (inl refl, (rest, e))

  pub after_checks-IsSent :
      (s : Session K U E) (a d : List U) (o : Option E)
      → s.failure ≡ o
      → IsSent s a d
      → IsSent (after_checks s).0 a (d ++ received (after_checks s).1)
  unfolding after_checks
  after_checks-IsSent s a d none h k =
      elim (Bool-cases
        (not (same_state s.state State.opened || same_state s.state State.failing))) [
          | inl c ↦ rw (h, c, append-nil) sent
          | inr c ↦ elim (Option-cases s.reader) [
            | inl r ↦ rw (h, c, r, append-nil) sent
            | inr (x, r) ↦
                rw (h, c, r) (get-IsSent (record s { failure = none }) a d none refl sent)
          ]
        ]
    where
      sent : Sent none s.queue a d
      sent = subst (λ f. Sent f s.queue a d) h k
  after_checks-IsSent s a d (some f) h k = rw (h, append-nil) (subst (λ g. Sent g s.queue a d) h k)

  pub next_update-IsSent :
      (task : ℕ) (s : Session K U E) (a d : List U)
      → IsSent s a d
      → IsSent (next_update task s).0 a (d ++ received (next_update task s).1)
  unfolding next_update
  next_update-IsSent task s a d k = elim (Option-cases s.consumer) [
    | inl c ↦ rw c (after_checks-IsSent (record s { consumer = some task }) a d s.failure refl k)
    | inr (x, c) ↦ elim (Bool-cases (x == task)) [
      | inl e ↦
          rw (c, e) (after_checks-IsSent (record s { consumer = some x }) a d s.failure refl k)
      | inr e ↦ rw (c, e, append-nil) k
    ]
  ]

  pub enqueue-IsSent :
      (size : ℕ) (overflow : E) (u : U) (s : Session K U E) (a d : List U)
      → s.failure ≡ none
      → IsSent s a d
      → IsSent (enqueue size overflow u s).0 (a ++ taken u (enqueue size overflow u s).1) d
  unfolding enqueue
  enqueue-IsSent size overflow u s a d h k = elim (Bool-cases (is_full size s.queue)) [
    | inl c ↦ rw (c, append-nil) (publish_failure-IsSent true overflow s a d none h k)
    | inr c ↦ rw (c, h) (enlarged u s.queue a d (subst (λ f. Sent f s.queue a d) h k))
  ]
    where
      enlarged :
          (u : U) (q : List (Item U E)) (a d : List U)
          → Sent none q a d
          → Sent {E = E} none (q ++ bar_update u ∷ []) (a ++ u ∷ []) d
      enlarged u q a d (rest, e, f) = (
        rest ++ u ∷ [],
        ap (λ x. x ++ bar_update u ∷ []) e ∙ sym (updates-snoc rest u),
        ap (λ x. x ++ u ∷ []) f ∙ append_assoc d rest (u ∷ []),
      )

  pub get-silent :
      (s : Session K U E) (e : E)
      → (s.queue ≡ []) ⊎ (s.queue ≡ failure_of e ∷ [])
      → received (get s).1 ≡ []
  unfolding get
  get-silent s e (inl q) = rw q refl
  get-silent s e (inr q) = rw q refl

  pub next_update-silent :
      (task : ℕ) (s : Session K U E) (e : E)
      → s.failure ≡ some e
      → received (next_update task s).1 ≡ []
  unfolding next_update after_checks
  next_update-silent task s e h = elim (Option-cases s.consumer) [
    | inl c ↦ rw (c, h) refl
    | inr (x, c) ↦ elim (Bool-cases (x == task)) [
      | inl b ↦ rw (c, b, h) refl
      | inr b ↦ rw (c, b) refl
    ]
  ]
