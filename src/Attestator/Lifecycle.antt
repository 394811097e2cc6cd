-- ===== src/Attestator/Lifecycle.antt =====
-- src/client-parametric-files/uncond/attestator.c: start and shutdown of the attestator by the application's
-- thread, and the polling thread, as steps on what they share. A step is a statement, or a few that touch
-- nothing shared. websocket_mutex is taken by the polling thread only and is left out.
pub mod Application
pub mod Polling
pub mod System
pub mod Invariant
pub mod Safety
pub mod Defined
pub mod Shutdown
pub mod Ending
pub mod Signal
mod Tests
use remote_attestation.Prelude.{
  ℕ, zero, suc, ◌+◌, ◌≡◌, Bool, true, false, Option, none, some, List, [], ◌∷◌, ◌++◌, ◌==◌, ltb,
  if◌then◌else◌,
}
use remote_attestation.Prelude.Run.{Run, ok, fault, diverges}
use remote_attestation.Prelude.RaResult.{RaResult, is_success}
use remote_attestation.DataTable.{Table, get_attestator_number}
use remote_attestation.Nonce.{Version}
use remote_attestation.DoHash.{Libraries, Algorithm}
use remote_attestation.Attestator.{Mallocs, attestator_routine}

-- remote_attestation_data_table: NULL, a table, or a pointer to a destroyed one.
pub data TablePointer : Type 0 where
  null : TablePointer
  live : Table → TablePointer
  destroyed : TablePointer

pub data Thread : Type 0 where
  application : Thread
  polling : Thread

-- init_finished_status: 0, 1 and -1.
pub data InitStatus : Type 0 where
  pending : InitStatus
  started : InitStatus
  failed : InitStatus

-- Where the application's thread stands: in attestator_init, running after it returned a code, or in
-- attestator_deinit, which exit calls.
pub data ApplicationPoint : Type 0 where
  init_parse : ApplicationPoint
  init_number : ApplicationPoint
  init_register : ApplicationPoint
  init_reset : ApplicationPoint
  init_create : ApplicationPoint
  init_test : ApplicationPoint
  init_lock : ApplicationPoint
  init_wait : ApplicationPoint
  init_waiting : ApplicationPoint
  init_woken : ApplicationPoint
  init_unlock : ApplicationPoint
  running : ℕ → ApplicationPoint
  deinit_number : ApplicationPoint
  deinit_lock : ApplicationPoint
  deinit_force : ApplicationPoint
  deinit_unlock : ApplicationPoint
  deinit_join : ApplicationPoint
  deinit_destroy : ApplicationPoint
  deinit_mutexes : ApplicationPoint
  exited : ApplicationPoint

-- What a thread reports under init_finished_mutex: the value, the signal, the release.
pub data ReportPoint : Type 0 where
  report_lock : ReportPoint
  report_set : ReportPoint
  report_signal : ReportPoint
  report_unlock : ReportPoint

-- Where the polling thread stands: absent before pthread_create, in ws_polling_routine (`connect` and
-- `retry` with the loop's counter), in attestator_routine, which libwebsocket_service calls, or ended.
pub data PollingPoint : Type 0 where
  absent : PollingPoint
  begin : PollingPoint
  connect : ℕ → PollingPoint
  retry : ℕ → PollingPoint
  report_failed : ReportPoint → PollingPoint
  poll : PollingPoint
  serving : PollingPoint
  callback_lock : Option (List ℕ) → Mallocs → PollingPoint
  callback_test : Option (List ℕ) → Mallocs → PollingPoint
  callback_run : Option (List ℕ) → Mallocs → PollingPoint
  callback_unlock : PollingPoint
  test_flag : PollingPoint
  report_started : ReportPoint → PollingPoint
  shutdown : PollingPoint
  ended : PollingPoint

-- What both threads share, where they stand, the polling thread's `flag` and its context, and the
-- responses that were passed to acclSend.
pub record Process : Type 0 where
  pub table : TablePointer
  pub force_exit : Bool
  pub init_finished_status : InitStatus
  pub init_finished_mutex : Option Thread
  pub deinit_mutex : Option Thread
  pub mutexes : Bool
  pub registered : Bool
  pub application_at : ApplicationPoint
  pub polling_at : PollingPoint
  pub flag : Bool
  pub context : Bool
  pub sent : List (List ℕ)

-- A step: the thread waits, the behaviour is undefined, or the state after it.
pub data Next : Type 0 where
  blocked : Next
  undefined : Next
  next : Process → Next

-- What the environment decides in a step: whether a call succeeds or returns, or that a message comes.
pub data Choice : Type 0 where
  outcome : Bool → Choice
  message : Option (List ℕ) → Mallocs → Choice

-- pthread_mutex_lock, and what follows.
abbrev pub acquire : (mutexes : Bool) → (owner : Option Thread) → Process → Next
acquire true none p = next p
acquire true (some t) p = blocked
acquire false owner p = undefined

-- pthread_mutex_unlock, and what follows.
abbrev pub release : (mutexes : Bool) → Process → Next
release true p = next p
release false p = undefined

-- A call of ra_get_attestator_number, and what follows on its result.
abbrev pub with_number : TablePointer → (RaResult → Next) → Next
with_number null rest = undefined
with_number destroyed rest = undefined
with_number (live t) rest = rest (get_attestator_number t).0

-- ra_destroy_table, and what follows.
abbrev pub destroy_table : TablePointer → Process → Next
destroy_table null p = undefined
destroy_table destroyed p = undefined
destroy_table (live t) p = next (record p { table = destroyed })
