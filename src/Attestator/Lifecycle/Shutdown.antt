-- ===== src/Attestator/Lifecycle/Shutdown.antt =====
-- How attestator_deinit stops the polling thread.
use remote_attestation.Prelude.{
  ℕ, ◌≡◌, refl, ◌∙◌, Bool, true, false, Option, none, some, List, arith,
}
use remote_attestation.DataTable.{Table}
use remote_attestation.Attestator.Lifecycle.{
  Thread, application, polling, InitStatus, started, failed, ApplicationPoint, init_parse,
  init_number, init_register, init_reset, init_create, init_test, init_lock, init_wait,
  init_waiting, init_woken, init_unlock, running, deinit_number, deinit_lock, deinit_force,
  deinit_unlock, deinit_join, deinit_destroy, deinit_mutexes, exited, ReportPoint, report_lock,
  report_set, report_signal, report_unlock, PollingPoint, absent, begin, connect, retry,
  report_failed, poll, serving, callback_lock, callback_test, callback_run, callback_unlock,
  test_flag, report_started, shutdown, ended, Process, next, Choice, outcome, message,
}
use remote_attestation.Attestator.Lifecycle.Application.{application_step, join}
use remote_attestation.Attestator.Lifecycle.Polling.{
  Build, polling_step, report_step, connected, not_connected,
}
use remote_attestation.Attestator.Lifecycle.System.{step, Reach, later}
use remote_attestation.Attestator.Lifecycle.Invariant.{is_running_callback, is_early, IsSafe}
use remote_attestation.Attestator.Lifecycle.Invariant.Points.{Ensures, Ensures-next}
use remote_attestation.Attestator.Lifecycle.Safety.{Reach-IsSafe}

-- A run of the threads from a state on.
pub data Later (b : Build) (ads : Option Table) (p : Process) : Process → Type 0 where
  here : Later b ads p p
  next_step :
      {q r : Process} (t : Thread) (c : Choice)
      → Later b ads p q
      → step b ads t c q ≡ next r
      → Later b ads p r

pub Reach-Later :
    (b : Build) (ads : Option Table) {p q : Process}
    → Reach b ads p
    → Later b ads p q
    → Reach b ads q
Reach-Later b ads r here = r
Reach-Later b ads r (next_step t c l e) = later t c (Reach-Later b ads r l) e

-- The responses and the flag of a state that is shutting down.
abbrev Quiet : List (List ℕ) → Process → Type 0
Quiet sent q = (q.sent ≡ sent) × (q.force_exit ≡ true)

application_step-Quiet :
    (ads : Option Table) (a : ApplicationPoint) (good : Bool) (p : Process)
    → p.force_exit ≡ true
    → is_early a ≡ false
    → Ensures (Quiet p.sent) (application_step ads a good p)
unfolding application_step is_early join
application_step-Quiet ads init_test good p f h = ground arith
application_step-Quiet ads init_lock good p f h = ground arith
application_step-Quiet ads init_wait good p f h = ground arith
application_step-Quiet ads init_waiting good p f h = ground arith
application_step-Quiet ads init_woken good p f h = ground arith
application_step-Quiet ads init_unlock good p f h = ground arith
application_step-Quiet ads (running code) good p f h = ground arith
application_step-Quiet ads deinit_number good p f h = ground arith
application_step-Quiet ads deinit_lock good p f h = ground arith
application_step-Quiet ads deinit_force good p f h = ground arith
application_step-Quiet ads deinit_unlock good p f h = ground arith
application_step-Quiet ads deinit_join good p f h = ground arith
application_step-Quiet ads deinit_destroy good p f h = ground arith
application_step-Quiet ads deinit_mutexes good p f h = ground arith
application_step-Quiet ads exited good p f h = tt
application_step-Quiet ads init_parse good p f h = absurd (ground arith)
application_step-Quiet ads init_number good p f h = absurd (ground arith)
application_step-Quiet ads init_register good p f h = absurd (ground arith)
application_step-Quiet ads init_reset good p f h = absurd (ground arith)
application_step-Quiet ads init_create good p f h = absurd (ground arith)

report_step-Quiet :
    (status : InitStatus) (at : ReportPoint → PollingPoint) (rest : PollingPoint) (r : ReportPoint)
    (p : Process)
    → p.force_exit ≡ true
    → Ensures (Quiet p.sent) (report_step status at rest r p)
unfolding report_step
report_step-Quiet status at rest report_lock p f = ground arith
report_step-Quiet status at rest report_set p f = ground arith
report_step-Quiet status at rest report_signal p f = ground arith
report_step-Quiet status at rest report_unlock p f = ground arith

polling_step-Quiet :
    (b : Build) (t : PollingPoint) (c : Choice) (p : Process)
    → p.force_exit ≡ true
    → is_running_callback t ≡ false
    → Ensures (Quiet p.sent) (polling_step b t c p)
unfolding polling_step connected not_connected is_running_callback
polling_step-Quiet b absent c p f h = tt
polling_step-Quiet b begin c p f h = ground arith
polling_step-Quiet b (connect i) (outcome true) p f h = ground arith
polling_step-Quiet b (connect i) (outcome false) p f h = ground arith
polling_step-Quiet b (connect i) (message in_buffer m) p f h = tt
polling_step-Quiet b (retry i) c p f h = ground arith
polling_step-Quiet b (report_failed r) c p f h = report_step-Quiet failed report_failed ended r p f
polling_step-Quiet b poll c p f h = ground arith
polling_step-Quiet b serving (outcome returned) p f h = ground arith
polling_step-Quiet b serving (message in_buffer m) p f h = ground arith
polling_step-Quiet b (callback_lock in_buffer m) c p f h = ground arith
polling_step-Quiet b (callback_test none m) c p f h = ground arith
polling_step-Quiet b (callback_test (some buffer) m) c p f h = ground arith
polling_step-Quiet b (callback_run in_buffer m) c p f h = absurd (ground arith)
polling_step-Quiet b callback_unlock c p f h = ground arith
polling_step-Quiet b test_flag c p f h = ground arith
polling_step-Quiet b (report_started r) c p f h =
    report_step-Quiet started report_started poll r p f
polling_step-Quiet b shutdown c p f h = ground arith
polling_step-Quiet b ended c p f h = tt

step-Quiet :
    (b : Build) (ads : Option Table) (t : Thread) (c : Choice) (p : Process)
    → IsSafe p
    → p.force_exit ≡ true
    → Ensures (Quiet p.sent) (step b ads t c p)
unfolding step
step-Quiet b ads application (outcome good) p v f =
    application_step-Quiet ads p.application_at good p f (ground (arith, v.calm))
step-Quiet b ads application (message in_buffer m) p v f = tt
step-Quiet b ads polling c p v f =
    polling_step-Quiet b p.polling_at c p f (ground (arith, v.answering))

-- Once attestator_deinit has set force_exit, no response is sent any more: whatever steps the two
-- threads take from such a state that they reach, the responses stay what they were.
pub forced-sent :
    (b : Build) (ads : Option Table) {p q : Process}
    → Reach b ads p
    → p.force_exit ≡ true
    → Later b ads p q
    → (q.sent ≡ p.sent) × (q.force_exit ≡ true)
forced-sent b ads {p} r f here = (refl, f)
forced-sent b ads {p} r f (next_step {q} t c l e) =
    let (same, still) = forced-sent b ads r f l in
    let (sent, f') =
      Ensures-next (Quiet q.sent) (step b ads t c q) e
        (step-Quiet b ads t c q (Reach-IsSafe b ads (Reach-Later b ads r l)) still) in
    (sent ∙ same, f')
