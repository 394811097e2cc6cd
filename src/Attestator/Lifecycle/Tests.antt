-- ===== src/Attestator/Lifecycle/Tests.antt =====
-- An application with an attestator that starts, misses the signal, is woken all the same, and exits.
use remote_attestation.Prelude.{◌≡◌, refl, true, false, some, [], ◌∷◌, arith}
use remote_attestation.DataTable.{get_attestator_number}
use remote_attestation.Nonce.{v1}
use remote_attestation.DoHash.{blake2}
use remote_attestation.Attestator.Lifecycle.{
  destroyed, application, polling, started, init_waiting, deinit_number, deinit_join,
  deinit_destroy, poll, ended, Process, undefined, next, outcome,
}
use remote_attestation.Attestator.Lifecycle.Application.{application_step}
use remote_attestation.Attestator.Lifecycle.Polling.{Build, polling_step}
use remote_attestation.Attestator.Lifecycle.System.{step, initial, Reach, start, later}
use remote_attestation.Attestator.Lifecycle.Invariant.{IsSafe}
use remote_attestation.Attestator.Lifecycle.Safety.{Reach-IsSafe}
use remote_attestation.Attestator.Lifecycle.Defined.{Excuse, step-Excuse}
use remote_attestation.Attestator.Lifecycle.Shutdown.{Later, here, next_step, forced-sent}
use remote_attestation.Attestator.Lifecycle.Ending.{run_polling, run_polling-ended}
use remote_attestation.Attestator.Lifecycle.Signal.{
  Unprompted, missed, missed-Reach, init-misses_signal,
}
use remote_attestation.Examples.{memory, base, is_prime, lib, table}

abbrev build : Build
build = record {
  memory = memory;
  base = base;
  is_prime = is_prime;
  version = v1;
  raw = 0;
  libraries = lib;
  algorithm = blake2;
}

waiting-Reach : Reach build (some table) (missed table)
unfolding get_attestator_number
waiting-Reach = missed-Reach build table refl

Reach-IsSafe_example : IsSafe (missed table)
Reach-IsSafe_example = Reach-IsSafe build (some table) waiting-Reach

init-misses_signal_example :
    (p : Process) × Reach build (some table) p
    × (p.init_finished_status ≡ started)
    × (p.polling_at ≡ poll)
    × ((q : Process) → Unprompted build (some table) p q → q.application_at ≡ init_waiting)
unfolding get_attestator_number
init-misses_signal_example = init-misses_signal build table refl

-- pthread_create has failed, and the application exits.
abbrev threadless : Process
threadless = record initial {
  table = destroyed;
  mutexes = true;
  registered = true;
  application_at = deinit_number;
}

threadless-Reach : Reach build (some table) threadless
unfolding step application_step get_attestator_number
threadless-Reach =
    later application (outcome true)
      (later application (outcome false)
        (later application (outcome true)
          (later application (outcome true)
            (later application (outcome true) (later application (outcome true) start refl) refl)
            refl)
          refl)
        refl)
      refl

deinit_undefined : step build (some table) application (outcome true) threadless ≡ undefined
unfolding step application_step
deinit_undefined = refl

step-Excuse_example : Excuse build application (outcome true) threadless
step-Excuse_example =
    step-Excuse build (some table) application (outcome true) threadless-Reach deinit_undefined

-- attestator_deinit waits for the polling thread.
abbrev stopping : Process
stopping = record (missed table) { force_exit = true; application_at = deinit_join }

stopping-Reach : Reach build (some table) stopping
unfolding step application_step missed
stopping-Reach =
    later application (outcome true)
      (later application (outcome true)
        (later application (outcome true)
          (later application (outcome true)
            (later application (outcome true)
              (later application (outcome true)
                (later application (outcome true)
                  (later application (outcome true) waiting-Reach refl) refl)
                refl)
              refl)
            refl)
          refl)
        refl)
      refl

abbrev stopped : Process
stopped = record stopping { context = false; polling_at = ended }

stopping-Later : Later build (some table) stopping stopped
unfolding step polling_step missed
stopping-Later = next_step polling (outcome true) (next_step polling (outcome true) here refl) refl

forced-sent_example : (stopped.sent ≡ stopping.sent) × (stopped.force_exit ≡ true)
forced-sent_example = forced-sent build (some table) stopping-Reach refl stopping-Later

run_polling-ended_example :
    (q : Process) × (run_polling build
        (true ∷ true ∷ true ∷ true ∷ true ∷ true ∷ true ∷ true ∷ true ∷ true ∷ true ∷ [])
        stopping
      ≡ next q)
    × (q.polling_at ≡ ended)
    × (application_step (some table) deinit_join true q
        ≡ next (record q { application_at = deinit_destroy }))
run_polling-ended_example =
    run_polling-ended build (some table)
      (true ∷ true ∷ true ∷ true ∷ true ∷ true ∷ true ∷ true ∷ true ∷ true ∷ true ∷ [])
      stopping-Reach refl (omega arith)
