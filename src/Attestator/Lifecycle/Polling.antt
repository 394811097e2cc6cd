-- ===== src/Attestator/Lifecycle/Polling.antt =====
-- ws_polling_routine of src/client-parametric-files/uncond/attestator.c, and the mutex and the tests of
-- attestator_routine.
use remote_attestation.Prelude.{
  ℕ, ◌+◌, Bool, true, false, Option, none, some, List, [], ◌∷◌, ◌++◌, ltb, if◌then◌else◌,
}
use remote_attestation.Prelude.Run.{Run, ok, fault, diverges}
use remote_attestation.Prelude.RaResult.{is_success}
use remote_attestation.DataTable.{Table}
use remote_attestation.Nonce.{Version}
use remote_attestation.DoHash.{Libraries, Algorithm}
use remote_attestation.Attestator.{Mallocs, attestator_routine}
use remote_attestation.Attestator.Lifecycle.{
  TablePointer, null, live, destroyed, polling, InitStatus, started, failed, ApplicationPoint,
  init_waiting, init_woken, ReportPoint, report_lock, report_set, report_signal, report_unlock,
  PollingPoint, absent, begin, connect, retry, report_failed, poll, serving, callback_lock,
  callback_test, callback_run, callback_unlock, test_flag, report_started, shutdown, ended, Process,
  Next, blocked, undefined, next, Choice, outcome, message, acquire, release, with_number,
}

abbrev pub max_connection_retry : ℕ
max_connection_retry = 10

-- pthread_cond_signal: the application's thread is woken if it waits.
unfoldable pub signalled : ApplicationPoint → ApplicationPoint
signalled init_waiting = init_woken
signalled p = p

-- The report of `status` under init_finished_mutex; `at` makes a point of the thread of a point of the
-- report, and `rest` is the point behind it.
unfoldable pub report_step :
    InitStatus
    → (at : ReportPoint → PollingPoint) → (rest : PollingPoint) → ReportPoint
    → Process
    → Next
unfolding signalled
report_step status at rest report_lock p =
    acquire p.mutexes p.init_finished_mutex
      (record p { init_finished_mutex = some polling; polling_at = at report_set })
report_step status at rest report_set p =
    next (record p { init_finished_status = status; polling_at = at report_signal })
report_step status at rest report_signal p =
    next (record p { application_at = signalled p.application_at; polling_at = at report_unlock })
report_step status at rest report_unlock p =
    release p.mutexes (record p { init_finished_mutex = none; polling_at = rest })

-- What a build of the attestator consists of: the attested memory, OpenSSL's prime test, the version of
-- decode_nonce, the value of a variable that it leaves as it was, and the version of ra_do_hash.
pub record Build : Type 0 where
  pub memory : ℕ → ℕ
  pub base : ℕ
  pub is_prime : ℕ → Bool
  pub version : Version
  pub raw : ℕ
  pub libraries : Libraries
  pub algorithm : Algorithm

-- attestator_routine behind the test of force_exit and in_buffer.
abbrev pub routine : Build → Option (List ℕ) → Mallocs → Table → Run (Table × Option (List ℕ))
routine b in_buffer m t =
    attestator_routine b.memory b.base b.is_prime b.version b.raw b.libraries b.algorithm false
      in_buffer m t

-- The end of the routine: the table, and the response if there is one.
abbrev pub answered : Run (Table × Option (List ℕ)) → Process → Next
answered (ok (t, none)) p = next (record p { table = live t; polling_at = callback_unlock })
answered (ok (t, some response)) p =
    next (record p { table = live t; sent = p.sent ++ response ∷ []; polling_at = callback_unlock })
answered fault p = undefined
answered diverges p = blocked

abbrev pub run_callback : Build → Option (List ℕ) → Mallocs → TablePointer → Process → Next
run_callback b in_buffer m null p = undefined
run_callback b in_buffer m destroyed p = undefined
run_callback b in_buffer m (live t) p = answered (routine b in_buffer m t) p

-- The test of the loop that connects: a context ends it, but behind the last retry it counts as none.
unfoldable pub connected : ℕ → Process → Next
connected c p =
    if ltb c max_connection_retry
    then next (record p { context = true; polling_at = poll; flag = false })
    else next (record p { context = true; polling_at = report_failed report_lock })

unfoldable pub not_connected : ℕ → Process → Next
not_connected c p =
    if ltb c max_connection_retry
    then next (record p { polling_at = retry c })
    else next (record p { polling_at = report_failed report_lock })

-- A step of the polling thread.
unfoldable pub polling_step : Build → PollingPoint → Choice → Process → Next
unfolding report_step signalled connected not_connected
polling_step b absent c p = blocked
polling_step b begin c p = with_number p.table (λ r.
    if is_success r
    then next (record p { polling_at = connect 0 })
    else next (record p { table = destroyed; polling_at = ended }))
polling_step b (connect i) (outcome true) p = connected i p
polling_step b (connect i) (outcome false) p = not_connected i p
polling_step b (connect i) (message in_buffer m) p = blocked
polling_step b (retry i) c p =
    if p.force_exit
    then next (record p { polling_at = report_failed report_lock })
    else next (record p { polling_at = connect (i + 1) })
polling_step b (report_failed r) c p = report_step failed report_failed ended r p
polling_step b poll c p =
    if p.force_exit
    then next (record p { polling_at = shutdown })
    else next (record p { polling_at = serving })
polling_step b serving (outcome returned) p = next (record p { polling_at = test_flag })
polling_step b serving (message in_buffer m) p =
    next (record p { polling_at = callback_lock in_buffer m })
polling_step b (callback_lock in_buffer m) c p =
    acquire p.mutexes p.deinit_mutex
      (record p { deinit_mutex = some polling; polling_at = callback_test in_buffer m })
polling_step b (callback_test none m) c p = next (record p { polling_at = callback_unlock })
polling_step b (callback_test (some buffer) m) c p =
    if p.force_exit
    then next (record p { polling_at = callback_unlock })
    else next (record p { polling_at = callback_run (some buffer) m })
polling_step b (callback_run in_buffer m) c p = run_callback b in_buffer m p.table p
polling_step b callback_unlock c p =
    release p.mutexes (record p { deinit_mutex = none; polling_at = serving })
polling_step b test_flag c p =
    if p.flag
    then next (record p { polling_at = poll })
    else next (record p { flag = true; polling_at = report_started report_lock })
polling_step b (report_started r) c p = report_step started report_started poll r p
polling_step b shutdown c p = next (record p { context = false; polling_at = ended })
polling_step b ended c p = blocked
