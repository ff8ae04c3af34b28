-- ===== src/Tests/Lives.antt =====
-- Runs of live.py: routes and updates are numbers, an update's route is its last digit.
use xret.Live.Endings.{leaves}
use xret.Live.Capacity.{Run-Fits, Fits}
use xret.Live.Delivery.{
  asks, reads, activates, resolves, is_entered, enters, begin, failed-Silent, Run-IsSent, Run,
}
use xret.Live.{
  runtime_error, reader_error, primary, exit_ending, cleanup_error, unobserved_failure, ending,
  bar_update, subscribe_resolved, subscribe_activated, route_update, read_update, publish_failure,
  next_update, new_session, is_in, get, failure_of, entered, enter, enqueue, after_checks, State,
  Session, Reader,
}
use xret.Live.Sent.{received, IsSent}
use xret.Prelude.{none, ◌==◌, ◌%◌, ℕ, true, some, refl, [], List, ◌∷◌, ◌≡◌}

abbrev last_digit : ℕ → ℕ
last_digit u = u % 10

abbrev opened_session : Session ℕ ℕ ℕ
opened_session = record new_session { state = State.opened; has_runtime = true }

-- One route, one reader, and the updates 13 and 23, of which one is delivered to task 5.
abbrev busy_session : Session ℕ ℕ ℕ
busy_session = record opened_session {
  reader = some Reader.running;
  consumer = some 5;
  requested = 3 ∷ [];
  routes = 3 ∷ [];
  queue = bar_update 23 ∷ [];
}

LiveRun : Session ℕ ℕ ℕ → List ℕ → List ℕ → Type 0
LiveRun s a d = Run ◌==◌ last_digit 2 404 507 s a d

busy_run : LiveRun busy_session (13 ∷ 23 ∷ []) (13 ∷ [])
unfolding LiveRun enter entered subscribe_resolved subscribe_activated read_update route_update
    enqueue next_update after_checks get is_in
busy_run =
    asks 5
      (reads 23 (reads 13 (activates 3 (resolves 3 (is_entered true (enters begin refl)) refl))))

-- The update 14 has no route: the session fails.
abbrev failed_session : Session ℕ ℕ ℕ
failed_session = record busy_session {
  state = State.failing;
  reader = some Reader.finished;
  failure = some 404;
  queue = failure_of 404 ∷ [];
}

failed_run : LiveRun failed_session (13 ∷ 23 ∷ []) (13 ∷ [])
unfolding LiveRun read_update route_update publish_failure is_in
failed_run = reads 14 busy_run

Run-IsSent_example : IsSent busy_session (13 ∷ 23 ∷ []) (13 ∷ [])
unfolding LiveRun
Run-IsSent_example = Run-IsSent ◌==◌ last_digit 2 404 507 busy_run

failed-Silent_example :
    (received (next_update 5 failed_session).1 ≡ []) × (received (get failed_session).1 ≡ [])
unfolding LiveRun
failed-Silent_example =
    failed-Silent ◌==◌ last_digit 2 404 507 failed_session (13 ∷ 23 ∷ []) (13 ∷ []) 404 5 failed_run
      refl

both_left :
    leaves none (exit_ending ◌==◌ failed_session none (some 404) none (some 500)) ≡ 404 ∷ 500 ∷ []
unfolding leaves exit_ending ending primary unobserved_failure cleanup_error reader_error
    runtime_error
both_left = refl

Run-Fits_example : Fits 2 failed_session.queue
unfolding LiveRun
Run-Fits_example =
    Run-Fits ◌==◌ last_digit 2 404 507 failed_session (13 ∷ 23 ∷ []) (13 ∷ []) failed_run
