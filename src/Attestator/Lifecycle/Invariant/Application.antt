-- ===== src/Attestator/Lifecycle/Invariant/Application.antt =====
-- The steps of the application's thread keep the invariant.
use remote_attestation.Prelude.{zero, suc, Bool, true, false, Option, none, some, arith}
use remote_attestation.Prelude.RaResult.{is_success}
use remote_attestation.DataTable.{Table}
use remote_attestation.Attestator.Lifecycle.{
  ApplicationPoint, init_parse, init_number, init_register, init_reset, init_create, init_test,
  init_lock, init_wait, init_waiting, init_woken, init_unlock, running, deinit_number, deinit_lock,
  deinit_force, deinit_unlock, deinit_join, deinit_destroy, deinit_mutexes, exited, Process,
}
use remote_attestation.Attestator.Lifecycle.Application.{application_step, is_pending}
use remote_attestation.Attestator.Lifecycle.Invariant.{
  in_deinit, in_wait, is_early, is_unregistered, has_thread, is_registered, may_run, is_numbered,
  needs_table, is_orphan, is_forced, needs_mutexes, IsSafe, Holds,
}
use remote_attestation.Attestator.Lifecycle.Invariant.Points.{
  absent_idle, is_beginning-is_alive, in_callback-running, begin_idle, begin-IsCounted, Ensures,
  with_number-Ensures, acquire-Ensures, release-Ensures, destroy_table-Ensures, if-Ensures,
  join-Ensures,
}

pub application_step-IsSafe :
    (ads : Option Table) (a : ApplicationPoint) (good : Bool) (p : Process)
    → Holds a p.polling_at p
    → Ensures IsSafe (application_step ads a good p)
unfolding application_step in_deinit in_wait is_unregistered is_registered has_thread is_early
    may_run is_numbered needs_table is_orphan is_forced needs_mutexes
application_step-IsSafe none init_parse good p v = ground (arith, absent_idle p.polling_at)
application_step-IsSafe (some t) init_parse good p v = ground (arith, absent_idle p.polling_at)
application_step-IsSafe ads init_number good p v =
    with_number-Ensures IsSafe p.table _ λ r numbered found.
      if-Ensures IsSafe (is_success r) _ _ (λ e. ground (arith, absent_idle p.polling_at))
        (λ e. ground (arith, absent_idle p.polling_at))
application_step-IsSafe ads init_register true p v = ground (arith, absent_idle p.polling_at)
application_step-IsSafe ads init_register false p v = ground (arith, absent_idle p.polling_at)
application_step-IsSafe ads init_reset good p v = ground (arith, absent_idle p.polling_at)
application_step-IsSafe ads init_create true p v =
    ground (arith, absent_idle p.polling_at, begin_idle, begin-IsCounted)
application_step-IsSafe ads init_create false p v =
    destroy_table-Ensures IsSafe p.table _ (ground (arith, absent_idle p.polling_at))
application_step-IsSafe ads init_test good p v =
    if-Ensures IsSafe (is_pending p.init_finished_status) _ _ (λ e. ground arith)
      (λ e. ground arith)
application_step-IsSafe ads init_lock good p v =
    acquire-Ensures IsSafe p.mutexes p.init_finished_mutex _ λ m free. ground arith
application_step-IsSafe ads init_wait good p v =
    release-Ensures IsSafe p.mutexes _ λ m. ground arith
application_step-IsSafe ads init_waiting true p v = ground arith
application_step-IsSafe ads init_waiting false p v = tt
application_step-IsSafe ads init_woken good p v =
    acquire-Ensures IsSafe p.mutexes p.init_finished_mutex _ λ m free. ground arith
application_step-IsSafe ads init_unlock good p v =
    release-Ensures IsSafe p.mutexes _ λ m. ground arith
application_step-IsSafe ads (running zero) good p v =
    if-Ensures IsSafe p.registered _ _ (λ e. ground arith) (λ e. ground arith)
application_step-IsSafe ads (running (suc k)) good p v =
    if-Ensures IsSafe p.registered _ _ (λ e. ground arith) (λ e. ground arith)
application_step-IsSafe ads deinit_number good p v =
    with_number-Ensures IsSafe p.table _ λ r numbered found. ground arith
application_step-IsSafe ads deinit_lock good p v =
    acquire-Ensures IsSafe p.mutexes p.deinit_mutex _ λ m free. ground arith
application_step-IsSafe ads deinit_force good p v = ground (arith, in_callback-running p.polling_at)
application_step-IsSafe ads deinit_unlock good p v =
    release-Ensures IsSafe p.mutexes _ λ m. ground arith
application_step-IsSafe ads deinit_join true p v =
    join-Ensures IsSafe p.polling_at _ λ there ended. ground arith
application_step-IsSafe ads deinit_join false p v = tt
application_step-IsSafe ads deinit_destroy good p v =
    destroy_table-Ensures IsSafe p.table _ (ground (arith, is_beginning-is_alive p.polling_at))
application_step-IsSafe ads deinit_mutexes good p v = ground arith
application_step-IsSafe ads exited good p v = tt
