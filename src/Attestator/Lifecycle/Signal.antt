-- ===== src/Attestator/Lifecycle/Signal.antt =====
-- The wait of attestator_init for the polling thread, whose signal may come before it.
use remote_attestation.Prelude.{
  ℕ, ◌≡◌, refl, Bool, true, false, Option, none, some, List, [], arith,
}
use remote_attestation.Prelude.Run.{Run, ok, fault, diverges}
use remote_attestation.DataTable.{Table, get_attestator_number}
use remote_attestation.Prelude.RaResult.{is_success}
use remote_attestation.Attestator.{Mallocs}
use remote_attestation.Attestator.Lifecycle.{
  TablePointer, null, live, destroyed, Thread, application, polling, pending, started, failed,
  ApplicationPoint, init_number, init_register, init_lock, init_waiting, ReportPoint, report_unlock,
  PollingPoint, absent, begin, connect, retry, report_failed, poll, serving, callback_lock,
  callback_test, callback_run, callback_unlock, test_flag, report_started, shutdown, ended, Process,
  next, Choice, outcome, message,
}
use remote_attestation.Attestator.Lifecycle.Application.{application_step, is_pending}
use remote_attestation.Attestator.Lifecycle.Polling.{
  Build, polling_step, report_step, connected, signalled, answered, routine, run_callback,
}
use remote_attestation.Attestator.Lifecycle.System.{step, initial, Reach, start, later}
use remote_attestation.Attestator.Lifecycle.Invariant.Points.{Ensures, Ensures-next}

-- The wait of attestator_init ends without a signal.
unfoldable pub is_spurious : ApplicationPoint → Thread → Choice → Bool
is_spurious init_waiting application (outcome true) = true
is_spurious _ t c = false

-- A run from a state on without such an end.
pub data Unprompted (b : Build) (ads : Option Table) (p : Process) : Process → Type 0 where
  here : Unprompted b ads p p
  more :
      {q r : Process} (t : Thread) (c : Choice)
      → Unprompted b ads p q
      → is_spurious q.application_at t c ≡ false
      → step b ads t c q ≡ next r
      → Unprompted b ads p r

-- The polling thread has given its signal.
unfoldable is_silent : PollingPoint → (flag : Bool) → Bool
is_silent poll flag = flag
is_silent serving flag = flag
is_silent (callback_lock in_buffer m) flag = flag
is_silent (callback_test in_buffer m) flag = flag
is_silent (callback_run in_buffer m) flag = flag
is_silent callback_unlock flag = flag
is_silent test_flag flag = flag
is_silent (report_started report_unlock) flag = flag
is_silent (report_failed report_unlock) flag = true
is_silent shutdown flag = true
is_silent ended flag = true
is_silent _ flag = false

abbrev Missed : Process → Type 0
Missed p = (p.application_at ≡ init_waiting) × (is_silent p.polling_at p.flag ≡ true)

answered-Missed :
    (out : Run (Table × Option (List ℕ))) (p : Process)
    → p.application_at ≡ init_waiting
    → p.flag ≡ true
    → Ensures Missed (answered out p)
unfolding is_silent
answered-Missed (ok (t, none)) p at f = ground arith
answered-Missed (ok (t, some response)) p at f = ground arith
answered-Missed fault p at f = tt
answered-Missed diverges p at f = tt

run_callback-Missed :
    (b : Build) (in_buffer : Option (List ℕ)) (m : Mallocs) (x : TablePointer) (p : Process)
    → p.application_at ≡ init_waiting
    → p.flag ≡ true
    → Ensures Missed (run_callback b in_buffer m x p)
run_callback-Missed b in_buffer m null p at f = tt
run_callback-Missed b in_buffer m destroyed p at f = tt
run_callback-Missed b in_buffer m (live t) p at f = answered-Missed (routine b in_buffer m t) p at f

report_failed-Missed :
    (r : ReportPoint) (p : Process)
    → p.application_at ≡ init_waiting
    → is_silent (report_failed r) p.flag ≡ true
    → Ensures Missed (report_step failed report_failed ended r p)
unfolding report_step is_silent
report_failed-Missed report_unlock p at h = ground arith
report_failed-Missed _ p at h = absurd (ground arith)

report_started-Missed :
    (r : ReportPoint) (p : Process)
    → p.application_at ≡ init_waiting
    → is_silent (report_started r) p.flag ≡ true
    → Ensures Missed (report_step started report_started poll r p)
unfolding report_step is_silent
report_started-Missed report_unlock p at h = ground arith
report_started-Missed _ p at h = absurd (ground arith)

polling_step-Missed :
    (b : Build) (t : PollingPoint) (c : Choice) (p : Process)
    → p.application_at ≡ init_waiting
    → is_silent t p.flag ≡ true
    → Ensures Missed (polling_step b t c p)
unfolding polling_step is_silent
polling_step-Missed b poll c p at h = ground arith
polling_step-Missed b serving (outcome returned) p at h = ground arith
polling_step-Missed b serving (message in_buffer m) p at h = ground arith
polling_step-Missed b (callback_lock in_buffer m) c p at h = ground arith
polling_step-Missed b (callback_test none m) c p at h = ground arith
polling_step-Missed b (callback_test (some buffer) m) c p at h = ground arith
polling_step-Missed b (callback_run in_buffer m) c p at h =
    run_callback-Missed b in_buffer m p.table p at h
polling_step-Missed b callback_unlock c p at h = ground arith
polling_step-Missed b test_flag c p at h = ground arith
polling_step-Missed b (report_failed r) c p at h = report_failed-Missed r p at h
polling_step-Missed b (report_started r) c p at h = report_started-Missed r p at h
polling_step-Missed b shutdown c p at h = ground arith
polling_step-Missed b ended c p at h = tt
polling_step-Missed b absent c p at h = absurd (ground arith)
polling_step-Missed b begin c p at h = absurd (ground arith)
polling_step-Missed b (connect i) c p at h = absurd (ground arith)
polling_step-Missed b (retry i) c p at h = absurd (ground arith)

step-Missed :
    (b : Build) (ads : Option Table) (t : Thread) (c : Choice) (p : Process)
    → is_spurious p.application_at t c ≡ false
    → Missed p
    → Ensures Missed (step b ads t c p)
unfolding step application_step is_spurious
step-Missed b ads application (outcome true) p s h = absurd (ground (arith, h.0))
step-Missed b ads application (outcome false) p s h = rw h.0 tt
step-Missed b ads application (message in_buffer m) p s h = tt
step-Missed b ads polling c p s h = polling_step-Missed b p.polling_at c p h.0 h.1

Unprompted-Missed :
    (b : Build) (ads : Option Table) {p q : Process} → Missed p → Unprompted b ads p q → Missed q
Unprompted-Missed b ads h here = h
Unprompted-Missed b ads {p} h (more {q} t c u s e) =
    Ensures-next Missed (step b ads t c q) e
      (step-Missed b ads t c q s (Unprompted-Missed b ads h u))

-- The state in which the polling thread has given its signal before the wait of attestator_init.
unfoldable pub missed : Table → Process
missed t = record {
  table = live t;
  force_exit = false;
  init_finished_status = started;
  init_finished_mutex = none;
  deinit_mutex = none;
  mutexes = true;
  registered = true;
  application_at = init_waiting;
  polling_at = poll;
  flag = true;
  context = true;
  sent = [];
}

-- The state behind attestator_init's test of the status, with the polling thread at `at`.
created : Table → PollingPoint → Process
created t at = record (missed t) {
  init_finished_status = pending;
  application_at = init_lock;
  polling_at = at;
  flag = false;
  context = false;
}

parsed : Table → ApplicationPoint → Process
parsed t at = record initial { table = live t; application_at = at }

module _ (b : Build) (t : Table) (numbered : is_success (get_attestator_number t).0 ≡ true) where
  number-read :
      step b (some t) application (outcome false) (parsed t init_number)
      ≡ next (parsed t init_register)
  unfolding step application_step parsed
  number-read = rw numbered

  begin-connect :
      step b (some t) polling (outcome false) (created t begin) ≡ next (created t (connect 0))
  unfolding step polling_step created missed
  begin-connect = rw numbered

  created-Reach : Reach b (some t) (created t begin)
  unfolding missed created parsed step application_step is_pending
  created-Reach =
      later application (outcome false)
        (later application (outcome true)
          (later application (outcome false)
            (later application (outcome true)
              (later application (outcome false) (later application (outcome false) start refl)
                number-read)
              refl)
            refl)
          refl)
        refl

  -- The threads reach it: attestator_init tests the status, the polling thread connects, polls once
  -- and reports, and then attestator_init takes the mutex and waits.
  pub missed-Reach : Reach b (some t) (missed t)
  unfolding missed created step application_step polling_step report_step connected signalled
  missed-Reach =
      later application (outcome false)
        (later application (outcome false)
          (later polling (outcome false)
            (later polling (outcome false)
              (later polling (outcome false)
                (later polling (outcome false)
                  (later polling (outcome false)
                    (later polling (outcome false)
                      (later polling (outcome false)
                        (later polling (outcome true)
                          (later polling (outcome false) created-Reach begin-connect) refl)
                        refl)
                      refl)
                    refl)
                  refl)
                refl)
              refl)
            refl)
          refl)
        refl

-- attestator_init may wait for ever although the attestator works: for every build and every table
-- with an attestator number, the threads reach a state in which the status is 1 and the polling
-- thread polls, but attestator_init waits, and in no run from there does it go on, unless the wait
-- ends without a signal.
pub init-misses_signal :
    (b : Build) (t : Table)
    → is_success (get_attestator_number t).0 ≡ true
    → (p : Process) × Reach b (some t) p
      × (p.init_finished_status ≡ started)
      × (p.polling_at ≡ poll)
      × ((q : Process) → Unprompted b (some t) p q → q.application_at ≡ init_waiting)
unfolding missed is_silent
init-misses_signal b t numbered = (
  missed t,
  missed-Reach b t numbered,
  refl,
  refl,
  λ q u. (Unprompted-Missed b (some t) (refl, refl) u).0,
)
