-- ===== src/Attestator/Lifecycle/Invariant.antt =====
-- What holds of the two threads in every state that they reach.
pub mod Points
pub mod Application
pub mod Polling
use remote_attestation.Prelude.{
  ℕ, zero, suc, ◌+◌, ◌≡◌, ◌≤◌, refl, subst, Bool, true, false, not, ◌&&◌, Option, none, some, List,
  ◌==◌, ltb, if◌then◌else◌, arith,
}
use remote_attestation.Prelude.RaResult.{RaResult, is_success}
use remote_attestation.Prelude.Run.{Run, ok, fault, diverges}
use remote_attestation.DataTable.{Table, get_attestator_number}
use remote_attestation.Attestator.{Mallocs}
use remote_attestation.Attestator.Lifecycle.{
  failed, started, TablePointer, null, live, destroyed, Thread, application, polling,
  ApplicationPoint, init_parse, init_number, init_register, init_reset, init_create, init_test,
  init_lock, init_wait, init_waiting, init_woken, init_unlock, running, deinit_number, deinit_lock,
  deinit_force, deinit_unlock, deinit_join, deinit_destroy, deinit_mutexes, exited, ReportPoint,
  report_lock, report_set, report_signal, report_unlock, PollingPoint, absent, begin, connect,
  retry, report_failed, poll, serving, callback_lock, callback_test, callback_run, callback_unlock,
  test_flag, report_started, shutdown, ended, Process, Next, blocked, undefined, next, with_number,
  acquire, release, destroy_table, Choice, outcome, message,
}
use remote_attestation.Attestator.Lifecycle.Application.{application_step, join, is_pending}
use remote_attestation.Attestator.Lifecycle.Polling.{
  Build, polling_step, report_step, connected, not_connected, signalled, max_connection_retry,
  answered, routine, run_callback,
}
use remote_attestation.Attestator.Lifecycle.System.{step, initial, Reach, start, later}

-- The application's thread has deinit_mutex.
unfoldable pub in_deinit : ApplicationPoint → Bool
in_deinit deinit_force = true
in_deinit deinit_unlock = true
in_deinit _ = false

-- The polling thread has it.
unfoldable pub in_callback : PollingPoint → Bool
in_callback (callback_test in_buffer m) = true
in_callback (callback_run in_buffer m) = true
in_callback callback_unlock = true
in_callback _ = false

-- The application's thread has init_finished_mutex.
unfoldable pub in_wait : ApplicationPoint → Bool
in_wait init_wait = true
in_wait init_unlock = true
in_wait _ = false

abbrev pub has_lock : ReportPoint → Bool
has_lock report_lock = false
has_lock _ = true

-- The polling thread has it.
unfoldable pub in_report : PollingPoint → Bool
in_report (report_failed r) = has_lock r
in_report (report_started r) = has_lock r
in_report _ = false

abbrev pub owner : (by_application by_polling : Bool) → Option Thread
owner true by_polling = some application
owner false true = some polling
owner false false = none

-- The polling thread was created and has not ended.
unfoldable pub is_alive : PollingPoint → Bool
is_alive absent = false
is_alive ended = false
is_alive _ = true

unfoldable pub is_absent : PollingPoint → Bool
is_absent absent = true
is_absent _ = false

unfoldable pub is_running_callback : PollingPoint → Bool
is_running_callback (callback_run in_buffer m) = true
is_running_callback _ = false

unfoldable pub is_beginning : PollingPoint → Bool
is_beginning begin = true
is_beginning _ = false

-- pthread_create has not been called.
unfoldable pub is_early : ApplicationPoint → Bool
is_early init_parse = true
is_early init_number = true
is_early init_register = true
is_early init_reset = true
is_early init_create = true
is_early _ = false

-- Neither has atexit.
unfoldable pub is_unregistered : ApplicationPoint → Bool
is_unregistered init_parse = true
is_unregistered init_number = true
is_unregistered init_register = true
is_unregistered _ = false

-- The thread was created, and the table is not destroyed yet.
unfoldable pub has_thread : ApplicationPoint → Bool
has_thread init_test = true
has_thread init_lock = true
has_thread init_wait = true
has_thread init_waiting = true
has_thread init_woken = true
has_thread init_unlock = true
has_thread (running code) = code == 0
has_thread deinit_lock = true
has_thread deinit_force = true
has_thread deinit_unlock = true
has_thread deinit_join = true
has_thread _ = false

-- atexit has registered attestator_deinit.
unfoldable pub is_registered : ApplicationPoint → Bool
unfolding has_thread
is_registered init_reset = true
is_registered init_create = true
is_registered deinit_number = true
is_registered p = has_thread p

-- The thread may still run: pthread_join has not returned.
unfoldable pub may_run : ApplicationPoint → Bool
unfolding has_thread
may_run deinit_number = true
may_run p = has_thread p

-- The number was read.
abbrev pub has_number : TablePointer → Bool
has_number null = false
has_number destroyed = false
has_number (live t) = is_success (get_attestator_number t).0

abbrev pub is_live : TablePointer → Bool
is_live null = false
is_live destroyed = false
is_live (live t) = true

unfoldable pub is_numbered : ApplicationPoint → Bool
is_numbered init_register = true
is_numbered init_reset = true
is_numbered init_create = true
is_numbered _ = false

-- The application's thread counts on the table.
unfoldable pub needs_table : ApplicationPoint → (no_thread : Bool) → Bool
unfolding has_thread
needs_table init_number t = true
needs_table deinit_number t = not t
needs_table deinit_destroy t = true
needs_table p t = has_thread p

-- attestator_init returned, or attestator_deinit began, without a thread.
unfoldable pub is_orphan : ApplicationPoint → (no_thread : Bool) → Bool
is_orphan (running code) t = not (code == 0)
is_orphan deinit_number t = t
is_orphan p t = false

unfoldable pub is_forced : ApplicationPoint → Bool
is_forced deinit_unlock = true
is_forced deinit_join = true
is_forced deinit_destroy = true
is_forced deinit_mutexes = true
is_forced _ = false

unfoldable pub needs_mutexes : ApplicationPoint → (no_thread : Bool) → Bool
unfolding has_thread
needs_mutexes init_create t = true
needs_mutexes deinit_number t = not t
needs_mutexes deinit_destroy t = true
needs_mutexes deinit_mutexes t = true
needs_mutexes p t = has_thread p

-- The attempts to connect are counted up to the last retry.
unfoldable pub IsCounted : PollingPoint → Type 0
IsCounted (connect i) = i ≤ 10
IsCounted (retry i) = i ≤ 9
IsCounted _ = Unit {0}

-- What holds at the points `a` and `t` of the two threads.
pub record Holds (a : ApplicationPoint) (t : PollingPoint) (p : Process) : Type 0 where
  pub deinit_owned : p.deinit_mutex ≡ owner (in_deinit a) (in_callback t)
  pub deinit_once : in_deinit a && in_callback t ≡ false
  pub init_owned : p.init_finished_mutex ≡ owner (in_wait a) (in_report t)
  pub init_once : in_wait a && in_report t ≡ false
  pub unregistered : is_unregistered a ≡ true → p.registered ≡ false
  pub registered : is_registered a ≡ true → p.registered ≡ true
  pub early : is_early a ≡ true → is_absent t ≡ true
  pub created : has_thread a ≡ true → is_absent t ≡ false
  pub within : is_alive t ≡ true → may_run a ≡ true
  pub numbered : is_numbered a ≡ true → has_number p.table ≡ true
  pub beginning : is_beginning t ≡ true → has_number p.table ≡ true
  pub holds : needs_table a (is_absent t) ≡ true → is_live p.table ≡ true
  pub orphan : p.registered ≡ true → is_orphan a (is_absent t) ≡ true → is_live p.table ≡ false
  pub alone : is_orphan a (is_absent t) ≡ true → is_absent t ≡ true
  pub unlocked : needs_mutexes a (is_absent t) ≡ true → p.mutexes ≡ true
  pub forced : is_forced a ≡ true → p.force_exit ≡ true
  pub calm : is_early a ≡ true → p.force_exit ≡ false
  pub answering : is_running_callback t ≡ true → p.force_exit ≡ false
  pub counted : IsCounted t

abbrev pub IsSafe : Process → Type 0
IsSafe p = Holds p.application_at p.polling_at p
