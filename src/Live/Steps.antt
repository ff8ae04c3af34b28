-- ===== src/Live/Steps.antt =====
-- The queue of a session against what was enqueued and delivered: its other tasks.
use mathlib.Core.Path.{subst}
use mathlib.Core.List.{append-nil}
use xret.Live.{
  exit_runtime, subscribe_resolved, subscribe_failed, subscribe_activated, same_state, route_update,
  read_update, read_error, is_in, exited, exit, entered, enter, discard, State, Session,
}
use xret.Live.Sent.{taken, publish_failure-IsSent, enqueue-IsSent, Sent, IsSent}
use xret.Prelude.{
  invalid_request, not_refused, accepted, ◌++◌, ℕ, true, some, refl, ok, none, inr, inl, false,
  Option-cases, Option, List, Bool-cases, Bool, ◌∷◌, ◌≡◌,
}

-- The steps that touch neither the failure nor the queue.
module _ {K U E : Type 0} (same : K → K → Bool) where
  pub enter-IsSent :
      (s t : Session K U E) (a d : List U) → IsSent s a d → enter s ≡ ok t → IsSent t a d
  unfolding enter
  enter-IsSent s t a d k e =
      subst (λ x. IsSent x a d)
        (accepted invalid_request (same_state s.state State.created)
          (record s { state = State.entering }) t e)
        k

  pub entered-IsSent :
      (went_well : Bool) (s : Session K U E) (a d : List U)
      → IsSent s a d
      → IsSent (entered went_well s) a d
  unfolding entered
  entered-IsSent true s a d k = k
  entered-IsSent false s a d k = k

  pub subscribe_resolved-IsSent :
      (k : K) (s t : Session K U E) (a d : List U)
      → IsSent s a d
      → subscribe_resolved same k s ≡ ok t
      → IsSent t a d
  unfolding subscribe_resolved
  subscribe_resolved-IsSent k s t a d h e =
      subst (λ x. IsSent x a d)
        (not_refused invalid_request (is_in same k s.routes) (record s { routes = k ∷ s.routes }) t
          e)
        h

  pub subscribe_activated-IsSent :
      (k : K) (s : Session K U E) (a d : List U)
      → IsSent s a d
      → IsSent (subscribe_activated same k s) a d
  unfolding subscribe_activated
  subscribe_activated-IsSent k s a d h = elim (Option-cases s.reader) [
    | inl r ↦ rw r h
    | inr (x, r) ↦ rw r h
  ]

  pub subscribe_failed-IsSent :
      (was_cancelled : Bool) (e : E) (k : K) (s : Session K U E) (a d : List U)
      → IsSent s a d
      → IsSent (subscribe_failed same was_cancelled e k s) a d
  unfolding subscribe_failed
  subscribe_failed-IsSent true e k s a d h =
      publish_failure-IsSent false e (record s { routes = discard same k s.routes }) a d s.failure
        refl h
  subscribe_failed-IsSent false e k s a d h = h

  pub exit-IsSent : (s : Session K U E) (a d : List U) → IsSent s a d → IsSent (exit s) a d
  unfolding exit
  exit-IsSent s a d h = elim (Bool-cases (same_state s.state State.closed)) [
    | inl c ↦ rw c h
    | inr c ↦ rw c h
  ]

  pub exit_runtime-IsSent :
      (s : Session K U E) (a d : List U) → IsSent s a d → IsSent (exit_runtime s) a d
  unfolding exit_runtime
  exit_runtime-IsSent s a d h = h

  pub exited-IsSent : (s : Session K U E) (a d : List U) → IsSent s a d → IsSent (exited s) a d
  unfolding exited
  exited-IsSent s a d h = h

  pub read_error-IsSent :
      (e : E) (s : Session K U E) (a d : List U) → IsSent s a d → IsSent (read_error e s) a d
  unfolding read_error
  read_error-IsSent e s a d h = publish_failure-IsSent true e s a d s.failure refl h

module _ {K U E : Type 0} (same : K → K → Bool) (key : U → K) (size : ℕ)
    (unrouted overflow : E) where
  pub route_update-IsSent :
      (u : U) (s : Session K U E) (a d : List U) (o : Option E)
      → s.failure ≡ o
      → IsSent s a d
      → IsSent
          (route_update same key size unrouted overflow u s).0
          (a ++ taken u (route_update same key size unrouted overflow u s).1)
          d
  unfolding route_update
  route_update-IsSent u s a d none h k = elim (Bool-cases (is_in same (key u) s.routes)) [
    | inl c ↦
        rw (h, c)
          (enqueue-IsSent size overflow u (record s { failure = none }) a d refl
            (subst (λ f. Sent f s.queue a d) h k))
    | inr c ↦
        rw (h, c, append-nil)
          (publish_failure-IsSent true unrouted (record s { failure = none }) a d none refl
            (subst (λ f. Sent f s.queue a d) h k))
  ]
  route_update-IsSent u s a d (some e) h k =
      rw (h, append-nil) (subst (λ f. Sent f s.queue a d) h k)

  pub read_update-IsSent :
      (u : U) (s : Session K U E) (a d : List U)
      → IsSent s a d
      → IsSent
          (read_update same key size unrouted overflow u s).0
          (a ++ taken u (read_update same key size unrouted overflow u s).1)
          d
  unfolding read_update
  read_update-IsSent u s a d k =
      elim (Bool-cases (route_update same key size unrouted overflow u s).1) [
        | inl c ↦ rw c (route_update-IsSent u s a d s.failure refl k)
        | inr c ↦ rw c (moved c)
      ]
    where
      moved :
          {b : Bool}
          → (route_update same key size unrouted overflow u s).1 ≡ b
          → IsSent (route_update same key size unrouted overflow u s).0 (a ++ taken u b) d
      moved c =
          subst
            (λ b. IsSent (route_update same key size unrouted overflow u s).0 (a ++ taken u b) d) c
            (route_update-IsSent u s a d s.failure refl k)
