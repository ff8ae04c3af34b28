-- ===== src/Live/Delivery.antt =====
-- What the one consumer of a session receives, over every interleaving of its tasks.
use mathlib.Core.Path.{subst}
use xret.Live.Steps.{
  exit_runtime-IsSent, subscribe_resolved-IsSent, subscribe_failed-IsSent,
  subscribe_activated-IsSent, read_update-IsSent, read_error-IsSent, exited-IsSent, exit-IsSent,
  entered-IsSent, enter-IsSent,
}
use xret.Live.{
  exit_runtime, subscribe_resolved, subscribe_failed, subscribe_activated, stop_reading,
  read_update, read_error, next_update, new_session, get, exited, exit, entered, enter, Session,
}
use xret.Live.Sent.{
  next_update-silent, get-silent, Sent, taken, received, next_update-IsSent, get-IsSent, IsSent,
}
use xret.Prelude.{◌++◌, ℕ, some, refl, ok, [], List, Bool, ◌≡◌}

module _ {K U E : Type 0} (same : K → K → Bool) (key : U → K) (size : ℕ)
    (unrouted overflow : E) where
  -- The steps of the consumer, of the subscribing tasks, of the reader and of the exit, from a new
  -- session on, with the updates that were enqueued and those that were delivered.
  pub data Run : Session K U E → List U → List U → Type 0 where
    begin : Run new_session [] []
    enters : {s t : Session K U E} {a d : List U} → Run s a d → enter s ≡ ok t → Run t a d
    is_entered :
        {s : Session K U E} {a d : List U} (went_well : Bool)
        → Run s a d
        → Run (entered went_well s) a d
    resolves :
        {s t : Session K U E} {a d : List U} (k : K)
        → Run s a d
        → subscribe_resolved same k s ≡ ok t
        → Run t a d
    activates :
        {s : Session K U E} {a d : List U} (k : K)
        → Run s a d
        → Run (subscribe_activated same k s) a d
    fails :
        {s : Session K U E} {a d : List U} (was_cancelled : Bool) (e : E) (k : K)
        → Run s a d
        → Run (subscribe_failed same was_cancelled e k s) a d
    reads :
        {s : Session K U E} {a d : List U} (u : U)
        → Run s a d
        → Run
            (read_update same key size unrouted overflow u s).0
            (a ++ taken u (read_update same key size unrouted overflow u s).1)
            d
    read_raises : {s : Session K U E} {a d : List U} (e : E) → Run s a d → Run (read_error e s) a d
    read_ends : {s : Session K U E} {a d : List U} → Run s a d → Run (stop_reading s) a d
    asks :
        {s : Session K U E} {a d : List U} (task : ℕ)
        → Run s a d
        → Run (next_update task s).0 a (d ++ received (next_update task s).1)
    gets :
        {s : Session K U E} {a d : List U} → Run s a d → Run (get s).0 a (d ++ received (get s).1)
    exits : {s : Session K U E} {a d : List U} → Run s a d → Run (exit s) a d
    exits_runtime : {s : Session K U E} {a d : List U} → Run s a d → Run (exit_runtime s) a d
    is_exited : {s : Session K U E} {a d : List U} → Run s a d → Run (exited s) a d

  -- On every interleaving of the tasks, the updates that were enqueued and not yet delivered are the
  -- queue, in their order, as long as nothing has failed; behind a failure no other entry than
  -- that failure is queued, and what was delivered is still the beginning of what was enqueued.
  pub Run-IsSent : {s : Session K U E} {a d : List U} → Run s a d → IsSent s a d
  Run-IsSent begin = ([], refl, refl)
  Run-IsSent (enters {s} {t} {a} {d} r e) = enter-IsSent same s t a d (Run-IsSent r) e
  Run-IsSent (is_entered {s} {a} {d} b r) = entered-IsSent same b s a d (Run-IsSent r)
  Run-IsSent (resolves {s} {t} {a} {d} k r e) =
      subscribe_resolved-IsSent same k s t a d (Run-IsSent r) e
  Run-IsSent (activates {s} {a} {d} k r) = subscribe_activated-IsSent same k s a d (Run-IsSent r)
  Run-IsSent (fails {s} {a} {d} c e k r) = subscribe_failed-IsSent same c e k s a d (Run-IsSent r)
  Run-IsSent (reads {s} {a} {d} u r) =
      read_update-IsSent same key size unrouted overflow u s a d (Run-IsSent r)
  Run-IsSent (read_raises {s} {a} {d} e r) = read_error-IsSent same e s a d (Run-IsSent r)
  Run-IsSent (read_ends r) = Run-IsSent r
  Run-IsSent (asks {s} {a} {d} task r) = next_update-IsSent task s a d (Run-IsSent r)
  Run-IsSent (gets {s} {a} {d} r) = get-IsSent s a d s.failure refl (Run-IsSent r)
  Run-IsSent (exits {s} {a} {d} r) = exit-IsSent same s a d (Run-IsSent r)
  Run-IsSent (exits_runtime {s} {a} {d} r) = exit_runtime-IsSent same s a d (Run-IsSent r)
  Run-IsSent (is_exited {s} {a} {d} r) = exited-IsSent same s a d (Run-IsSent r)

  -- Behind a failure no update is delivered any more, on every interleaving of the tasks: a call of
  -- `__anext__` delivers none, and neither does one that was waiting for the queue.
  pub failed-Silent :
      (s : Session K U E) (a d : List U) (e : E) (task : ℕ)
      → Run s a d
      → s.failure ≡ some e
      → (received (next_update task s).1 ≡ []) × (received (get s).1 ≡ [])
  failed-Silent s a d e task r h = (
    next_update-silent task s e h,
    get-silent s e (subst (λ f. Sent f s.queue a d) h (Run-IsSent r)).0,
  )
