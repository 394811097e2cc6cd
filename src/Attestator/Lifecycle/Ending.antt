-- ===== src/Attestator/Lifecycle/Ending.antt =====
-- The polling thread ends, so pthread_join in attestator_deinit returns.
use remote_attestation.Prelude.{
  ℕ, ◌≡◌, ◌≤◌, ◌<◌, inl, inr, subst, refl, ap, ◌∙◌, Bool, Bool-cases, true, false, Option, none,
  some, List, [], ◌∷◌, length, if◌then◌else◌, arith,
}
use remote_attestation.DataTable.{Table}
use remote_attestation.Prelude.RaResult.{is_success}
use remote_attestation.Attestator.Lifecycle.{
  TablePointer, null, live, destroyed, started, failed, deinit_join, deinit_destroy, ReportPoint,
  report_lock, report_set, report_signal, report_unlock, PollingPoint, absent, begin, connect,
  retry, report_failed, poll, serving, callback_lock, callback_test, callback_run, callback_unlock,
  test_flag, report_started, shutdown, ended, Process, Next, blocked, undefined, next, with_number,
  outcome,
}
use remote_attestation.Attestator.Lifecycle.Application.{application_step, join}
use remote_attestation.Attestator.Lifecycle.Polling.{
  Build, polling_step, report_step, connected, not_connected, signalled,
}
use remote_attestation.Attestator.Lifecycle.System.{Reach}
use remote_attestation.Attestator.Lifecycle.Invariant.{
  in_deinit, in_callback, in_wait, in_report, is_alive, is_absent, is_running_callback,
  is_beginning, has_thread, has_number, is_forced, needs_mutexes, Holds, IsSafe,
}
use remote_attestation.Attestator.Lifecycle.Invariant.Points.{Ensures}
use remote_attestation.Attestator.Lifecycle.Invariant.Polling.{polling_step-IsSafe}
use remote_attestation.Attestator.Lifecycle.Safety.{Reach-IsSafe}

-- The steps that the polling thread has left, at most, once force_exit is set.
unfoldable rank : PollingPoint → ℕ
rank absent = 0
rank ended = 0
rank (report_failed report_unlock) = 1
rank (report_failed report_signal) = 2
rank (report_failed report_set) = 3
rank (report_failed report_lock) = 4
rank shutdown = 1
rank poll = 2
rank (report_started report_unlock) = 3
rank (report_started report_signal) = 4
rank (report_started report_set) = 5
rank (report_started report_lock) = 6
rank test_flag = 7
rank serving = 8
rank callback_unlock = 9
rank (callback_run in_buffer m) = 10
rank (callback_test in_buffer m) = 10
rank (callback_lock in_buffer m) = 11
rank (retry i) = 5
rank (connect i) = 6
rank begin = 7

rank-le : (t : PollingPoint) → rank t ≤ 11
unfolding rank
rank-le (report_failed report_unlock) = omega arith
rank-le (report_failed report_signal) = omega arith
rank-le (report_failed report_set) = omega arith
rank-le (report_failed report_lock) = omega arith
rank-le (report_started report_unlock) = omega arith
rank-le (report_started report_signal) = omega arith
rank-le (report_started report_set) = omega arith
rank-le (report_started report_lock) = omega arith
rank-le _ = omega arith

-- A step that leads nearer to the end, with the application's thread still at the join.
abbrev Nearer : ℕ → Next → Type 0
Nearer n blocked = ⊥
Nearer n undefined = ⊥
Nearer n (next q) = (rank q.polling_at < n) × (q.application_at ≡ deinit_join)

begin-Nearer :
    (x : TablePointer) (p : Process)
    → has_number x ≡ true
    → p.application_at ≡ deinit_join
    → Nearer 7 (
        with_number x (λ r.
          if is_success r
          then next (record p { polling_at = connect 0 })
          else next (record p { table = destroyed; polling_at = ended })))
unfolding rank
begin-Nearer (live t) p h at = rw h (omega arith, at)
begin-Nearer null p h at = absurd (ground arith)
begin-Nearer destroyed p h at = absurd (ground arith)

report_failed-Nearer :
    (r : ReportPoint) (p : Process)
    → Holds deinit_join (report_failed r) p
    → p.application_at ≡ deinit_join
    → Nearer (rank (report_failed r)) (report_step failed report_failed ended r p)
unfolding report_step signalled rank in_report in_wait is_absent needs_mutexes has_thread
report_failed-Nearer report_lock p v at = ground arith
report_failed-Nearer report_set p v at = ground arith
report_failed-Nearer report_signal p v at = rw at (omega arith, refl)
report_failed-Nearer report_unlock p v at = ground arith

report_started-Nearer :
    (r : ReportPoint) (p : Process)
    → Holds deinit_join (report_started r) p
    → p.application_at ≡ deinit_join
    → Nearer (rank (report_started r)) (report_step started report_started poll r p)
unfolding report_step signalled rank in_report in_wait is_absent needs_mutexes has_thread
report_started-Nearer report_lock p v at = ground arith
report_started-Nearer report_set p v at = ground arith
report_started-Nearer report_signal p v at = rw at (omega arith, refl)
report_started-Nearer report_unlock p v at = ground arith

polling_step-Nearer :
    (b : Build) (t : PollingPoint) (returned : Bool) (p : Process)
    → Holds deinit_join t p
    → p.application_at ≡ deinit_join
    → is_alive t ≡ true
    → Nearer (rank t) (polling_step b t (outcome returned) p)
unfolding polling_step connected not_connected rank is_alive is_forced in_deinit in_callback
    is_absent needs_mutexes has_thread is_running_callback is_beginning
polling_step-Nearer b absent o p v at alive = absurd (ground arith)
polling_step-Nearer b begin o p v at alive = begin-Nearer p.table p (v.beginning refl) at
polling_step-Nearer b (connect i) true p v at alive = ground arith
polling_step-Nearer b (connect i) false p v at alive = ground arith
polling_step-Nearer b (retry i) o p v at alive = ground arith
polling_step-Nearer b (report_failed r) o p v at alive = report_failed-Nearer r p v at
polling_step-Nearer b poll o p v at alive = ground arith
polling_step-Nearer b serving o p v at alive = ground arith
polling_step-Nearer b (callback_lock in_buffer m) o p v at alive = ground arith
polling_step-Nearer b (callback_test none m) o p v at alive = ground arith
polling_step-Nearer b (callback_test (some buffer) m) o p v at alive = ground arith
polling_step-Nearer b (callback_run in_buffer m) o p v at alive = absurd (ground arith)
polling_step-Nearer b callback_unlock o p v at alive = ground arith
polling_step-Nearer b test_flag o p v at alive = ground arith
polling_step-Nearer b (report_started r) o p v at alive = report_started-Nearer r p v at
polling_step-Nearer b shutdown o p v at alive = ground arith
polling_step-Nearer b ended o p v at alive = absurd (ground arith)

-- The polling thread alone, with what its calls give, until it has ended.
pub run_polling : Build → List Bool → Process → Next
run_polling b [] p = next p
run_polling b (o ∷ os) p = elim (polling_step b p.polling_at (outcome o) p) [
  | next q ↦ run_polling b os q
  | undefined ↦ undefined
  | blocked ↦ next p
]

-- A thread that exists and has no step left has ended.
is_alive-rank : (t : PollingPoint) → is_alive t ≡ true → 0 < rank t
unfolding is_alive rank
is_alive-rank absent h = absurd (ground arith)
is_alive-rank ended h = absurd (ground arith)
is_alive-rank (report_failed report_unlock) h = omega arith
is_alive-rank (report_failed report_signal) h = omega arith
is_alive-rank (report_failed report_set) h = omega arith
is_alive-rank (report_failed report_lock) h = omega arith
is_alive-rank (report_started report_unlock) h = omega arith
is_alive-rank (report_started report_signal) h = omega arith
is_alive-rank (report_started report_set) h = omega arith
is_alive-rank (report_started report_lock) h = omega arith
is_alive-rank _ h = omega arith

dead_ended : (t : PollingPoint) → is_alive t ≡ false → is_absent t ≡ false → t ≡ ended
unfolding is_alive is_absent
dead_ended ended h k = refl
dead_ended _ h k = absurd (ground arith)

-- A run that ends with the thread ended and the application's thread still at the join.
abbrev Ends : Next → Type 0
Ends blocked = ⊥
Ends undefined = ⊥
Ends (next q) = (q.polling_at ≡ ended) × (q.application_at ≡ deinit_join)

stays_ended :
    (b : Build) (os : List Bool) (p : Process) → p.polling_at ≡ ended → run_polling b os p ≡ next p
unfolding run_polling polling_step
stays_ended b [] p e = refl
stays_ended b (o ∷ os) p e = rw e refl

-- A step that leads nearer, and the run behind it.
go_on :
    (b : Build) (os : List Bool) (p : Process) (k : ℕ) (n : Next)
    → Nearer k n
    → Ensures IsSafe n
    → ((q : Process)
        → IsSafe q
        → q.application_at ≡ deinit_join
        → rank q.polling_at < k
        → Ends (run_polling b os q))
    → Ends (elim n [ next q ↦ run_polling b os q | undefined ↦ undefined | blocked ↦ next p ])
go_on b os p k (next q) near safe rest = rest q safe near.1 near.0
go_on b os p k blocked near safe rest = absurd near
go_on b os p k undefined near safe rest = absurd near

joined : has_thread deinit_join ≡ true
unfolding has_thread
joined = refl

run_polling-Ends :
    (b : Build) (os : List Bool) (p : Process)
    → IsSafe p
    → p.application_at ≡ deinit_join
    → rank p.polling_at ≤ length os
    → Ends (run_polling b os p)
unfolding run_polling
run_polling-Ends b [] p v at enough = elim (Bool-cases (is_alive p.polling_at)) [
  | inl alive ↦ absurd (omega (arith, is_alive-rank p.polling_at alive))
  | inr dead ↦ (dead_ended p.polling_at dead (v.created (ap has_thread at ∙ joined)), at)
]
run_polling-Ends b (o ∷ os) p v at enough =
    let rest =
      λ (q : Process) (safe : IsSafe q) (at' : q.application_at ≡ deinit_join)
          (lt : rank q.polling_at < rank p.polling_at).
        run_polling-Ends b os q safe at' (omega arith) in
    elim (Bool-cases (is_alive p.polling_at)) [
      | inl alive ↦
          go_on b os p (rank p.polling_at) (polling_step b p.polling_at (outcome o) p)
            (polling_step-Nearer b p.polling_at o p (subst (λ a. Holds a p.polling_at p) at v) at
              alive)
            (polling_step-IsSafe b p.polling_at (outcome o) p v) rest
      | inr dead ↦
          let done = dead_ended p.polling_at dead (v.created (ap has_thread at ∙ joined)) in
          rw (stays_ended b (o ∷ os) p done) (done, at)
    ]

-- pthread_join in attestator_deinit returns: from a state that the threads reach, with the
-- application's thread at the join, the polling thread is never blocked, has no undefined
-- behaviour, and has ended after at most eleven of its steps, whatever its calls give. Condition:
-- no further message comes, so that libwebsocket_service returns.
pub run_polling-ended :
    (b : Build) (ads : Option Table) (os : List Bool) {p : Process}
    → Reach b ads p
    → p.application_at ≡ deinit_join
    → 11 ≤ length os
    → (q : Process) × (run_polling b os p ≡ next q)
      × (q.polling_at ≡ ended)
      × (application_step ads deinit_join true q
          ≡ next (record q { application_at = deinit_destroy }))
unfolding application_step join
run_polling-ended b ads os {p} r at long =
    found (run_polling b os p)
      (run_polling-Ends b os p (Reach-IsSafe b ads r) at (omega (arith, rank-le p.polling_at)))
  where
    found :
        (n : Next)
        → Ends n
        → (q : Process) × (n ≡ next q)
          × (q.polling_at ≡ ended)
          × (application_step ads deinit_join true q
              ≡ next (record q { application_at = deinit_destroy }))
    found (next q) h = (q, refl, h.0, rw h.0 refl)
    found blocked h = absurd h
    found undefined h = absurd h
