-- ===== src/Attestator/Lifecycle/Invariant/Polling.antt =====
-- The steps of the polling thread keep the invariant.
use remote_attestation.Prelude.{ℕ, ◌≡◌, refl, true, false, Option, none, some, List, ltb, arith}
use remote_attestation.Prelude.RaResult.{is_success}
use remote_attestation.Prelude.Run.{Run, ok, fault, diverges}
use remote_attestation.DataTable.{Table}
use remote_attestation.Attestator.{Mallocs}
use remote_attestation.Attestator.Lifecycle.{
  failed, started, TablePointer, null, live, destroyed, ApplicationPoint, init_register, init_reset,
  init_create, init_waiting, ReportPoint, report_lock, report_set, report_signal, report_unlock,
  PollingPoint, absent, begin, connect, retry, report_failed, poll, serving, callback_lock,
  callback_test, callback_run, callback_unlock, test_flag, report_started, shutdown, ended, Process,
  Choice, outcome, message,
}
use remote_attestation.Attestator.Lifecycle.Polling.{
  Build, polling_step, report_step, connected, not_connected, signalled, max_connection_retry,
  answered, routine, run_callback,
}
use remote_attestation.Attestator.Lifecycle.Invariant.{
  in_deinit, in_callback, in_wait, in_report, is_alive, is_absent, is_running_callback,
  is_beginning, is_early, is_unregistered, has_thread, is_registered, may_run, is_numbered,
  needs_table, is_orphan, is_forced, needs_mutexes, IsCounted, IsSafe, Holds,
}
use remote_attestation.Attestator.Lifecycle.Invariant.Points.{
  Ensures, with_number-Ensures, acquire-Ensures, release-Ensures, if-Ensures,
}

is_numbered-is_early : (a : ApplicationPoint) → is_numbered a ≡ true → is_early a ≡ true
unfolding is_numbered is_early
is_numbered-is_early init_register h = refl
is_numbered-is_early init_reset h = refl
is_numbered-is_early init_create h = refl
is_numbered-is_early _ h = ground arith

-- A thread that waits and one that is woken hold the same.
signalled-Holds :
    (a : ApplicationPoint) (t : PollingPoint) (p : Process) → Holds a t p → Holds (signalled a) t p
unfolding signalled in_deinit in_wait is_unregistered is_registered has_thread is_early may_run
    is_numbered needs_table is_orphan is_forced needs_mutexes
signalled-Holds init_waiting t p v = ground arith
signalled-Holds _ t p v = v

report_failed-IsSafe :
    (r : ReportPoint) (p : Process)
    → Holds p.application_at (report_failed r) p
    → Ensures IsSafe (report_step failed report_failed ended r p)
unfolding report_step in_callback in_report is_absent is_alive is_running_callback is_beginning
    IsCounted
report_failed-IsSafe report_lock p v =
    acquire-Ensures IsSafe p.mutexes p.init_finished_mutex _ λ m free. ground arith
report_failed-IsSafe report_set p v = ground arith
report_failed-IsSafe report_signal p v =
    signalled-Holds p.application_at (report_failed report_unlock) _ (ground arith)
report_failed-IsSafe report_unlock p v = release-Ensures IsSafe p.mutexes _ λ m. ground arith

report_started-IsSafe :
    (r : ReportPoint) (p : Process)
    → Holds p.application_at (report_started r) p
    → Ensures IsSafe (report_step started report_started poll r p)
unfolding report_step in_callback in_report is_absent is_alive is_running_callback is_beginning
    IsCounted
report_started-IsSafe report_lock p v =
    acquire-Ensures IsSafe p.mutexes p.init_finished_mutex _ λ m free. ground arith
report_started-IsSafe report_set p v = ground arith
report_started-IsSafe report_signal p v =
    signalled-Holds p.application_at (report_started report_unlock) _ (ground arith)
report_started-IsSafe report_unlock p v = release-Ensures IsSafe p.mutexes _ λ m. ground arith

answered-IsSafe :
    (in_buffer : Option (List ℕ)) (m : Mallocs) (p : Process) (out : Run (Table × Option (List ℕ)))
    → Holds p.application_at (callback_run in_buffer m) p
    → Ensures IsSafe (answered out p)
unfolding in_callback in_report is_absent is_alive is_running_callback is_beginning IsCounted
answered-IsSafe in_buffer m p (ok (t, none)) v =
    ground (arith, is_numbered-is_early p.application_at)
answered-IsSafe in_buffer m p (ok (t, some response)) v =
    ground (arith, is_numbered-is_early p.application_at)
answered-IsSafe in_buffer m p fault v = tt
answered-IsSafe in_buffer m p diverges v = tt

run_callback-IsSafe :
    (b : Build) (in_buffer : Option (List ℕ)) (m : Mallocs) (x : TablePointer) (p : Process)
    → Holds p.application_at (callback_run in_buffer m) p
    → Ensures IsSafe (run_callback b in_buffer m x p)
run_callback-IsSafe b in_buffer m null p v = tt
run_callback-IsSafe b in_buffer m destroyed p v = tt
run_callback-IsSafe b in_buffer m (live t) p v =
    answered-IsSafe in_buffer m p (routine b in_buffer m t) v

pub polling_step-IsSafe :
    (b : Build) (t : PollingPoint) (c : Choice) (p : Process)
    → Holds p.application_at t p
    → Ensures IsSafe (polling_step b t c p)
unfolding polling_step connected not_connected in_callback in_report is_absent is_alive
    is_running_callback is_beginning IsCounted
polling_step-IsSafe b absent c p v = tt
polling_step-IsSafe b begin c p v =
    with_number-Ensures IsSafe p.table _ λ r numbered found.
      if-Ensures IsSafe (is_success r) _ _ (λ e. ground arith) (λ e. ground arith)
polling_step-IsSafe b (connect i) (outcome true) p v =
    if-Ensures IsSafe (ltb i max_connection_retry) _ _ (λ e. ground arith) (λ e. ground arith)
polling_step-IsSafe b (connect i) (outcome false) p v =
    if-Ensures IsSafe (ltb i max_connection_retry) _ _ (λ e. ground arith) (λ e. ground arith)
polling_step-IsSafe b (connect i) (message in_buffer m) p v = tt
polling_step-IsSafe b (retry i) c p v =
    if-Ensures IsSafe p.force_exit _ _ (λ e. ground arith) (λ e. ground arith)
polling_step-IsSafe b (report_failed r) c p v = report_failed-IsSafe r p v
polling_step-IsSafe b poll c p v =
    if-Ensures IsSafe p.force_exit _ _ (λ e. ground arith) (λ e. ground arith)
polling_step-IsSafe b serving (outcome returned) p v = ground arith
polling_step-IsSafe b serving (message in_buffer m) p v = ground arith
polling_step-IsSafe b (callback_lock in_buffer m) c p v =
    acquire-Ensures IsSafe p.mutexes p.deinit_mutex _ λ o free. ground arith
polling_step-IsSafe b (callback_test none m) c p v = ground arith
polling_step-IsSafe b (callback_test (some buffer) m) c p v =
    if-Ensures IsSafe p.force_exit _ _ (λ e. ground arith) (λ e. ground arith)
polling_step-IsSafe b (callback_run in_buffer m) c p v =
    run_callback-IsSafe b in_buffer m p.table p v
polling_step-IsSafe b callback_unlock c p v = release-Ensures IsSafe p.mutexes _ λ m. ground arith
polling_step-IsSafe b test_flag c p v =
    if-Ensures IsSafe p.flag _ _ (λ e. ground arith) (λ e. ground arith)
polling_step-IsSafe b (report_started r) c p v = report_started-IsSafe r p v
polling_step-IsSafe b shutdown c p v = ground arith
polling_step-IsSafe b ended c p v = tt
