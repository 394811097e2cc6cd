-- ===== src/Attestator/Lifecycle/Safety.antt =====
-- The states that the two threads reach are safe.
use remote_attestation.Prelude.{Option, arith}
use remote_attestation.DataTable.{Table}
use remote_attestation.Attestator.Lifecycle.{
  Thread, application, polling, Process, Choice, outcome, message,
}
use remote_attestation.Attestator.Lifecycle.Polling.{Build}
use remote_attestation.Attestator.Lifecycle.System.{step, initial, Reach, start, later}
use remote_attestation.Attestator.Lifecycle.Invariant.{
  in_deinit, in_callback, in_wait, in_report, is_alive, is_absent, is_running_callback,
  is_beginning, is_early, is_unregistered, has_thread, is_registered, may_run, is_numbered,
  needs_table, is_orphan, is_forced, needs_mutexes, IsCounted, IsSafe,
}
use remote_attestation.Attestator.Lifecycle.Invariant.Points.{Ensures, Ensures-next}
use remote_attestation.Attestator.Lifecycle.Invariant.Application.{application_step-IsSafe}
use remote_attestation.Attestator.Lifecycle.Invariant.Polling.{polling_step-IsSafe}

pub step-IsSafe :
    (b : Build) (ads : Option Table) (t : Thread) (c : Choice) (p : Process)
    → IsSafe p
    → Ensures IsSafe (step b ads t c p)
unfolding step
step-IsSafe b ads application (outcome good) p v =
    application_step-IsSafe ads p.application_at good p v
step-IsSafe b ads application (message in_buffer m) p v = tt
step-IsSafe b ads polling c p v = polling_step-IsSafe b p.polling_at c p v

initial-IsSafe : IsSafe initial
unfolding in_deinit in_wait is_unregistered is_registered has_thread is_early may_run is_numbered
    needs_table is_orphan is_forced needs_mutexes in_callback in_report is_absent is_alive
    is_running_callback is_beginning IsCounted
initial-IsSafe = ground arith

-- In every state that the two threads reach, each mutex belongs to the thread that is between its
-- lock and its unlock, never to both; the table is there wherever attestator_init or
-- attestator_deinit reads or destroys it and as long as the polling thread may run, but for one
-- point: attestator_deinit starts without a table when pthread_create had failed; the mutexes are
-- there as long as a thread may lock them; no request is answered once the application is shutting
-- down; and at most ten attempts to connect are repeated.
pub Reach-IsSafe : (b : Build) (ads : Option Table) {p : Process} → Reach b ads p → IsSafe p
Reach-IsSafe b ads start = initial-IsSafe
Reach-IsSafe b ads (later {p} t c r e) =
    Ensures-next IsSafe (step b ads t c p) e (step-IsSafe b ads t c p (Reach-IsSafe b ads r))
