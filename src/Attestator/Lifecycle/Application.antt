-- ===== src/Attestator/Lifecycle/Application.antt =====
-- attestator_init and attestator_deinit of src/client-parametric-files/uncond/attestator.c.
use remote_attestation.Prelude.{Bool, true, false, Option, none, some, if◌then◌else◌}
use remote_attestation.Prelude.RaResult.{is_success}
use remote_attestation.DataTable.{Table}
use remote_attestation.Attestator.Lifecycle.{
  live, destroyed, application, InitStatus, pending, started, failed, ApplicationPoint, init_parse,
  init_number, init_register, init_reset, init_create, init_test, init_lock, init_wait,
  init_waiting, init_woken, init_unlock, running, deinit_number, deinit_lock, deinit_force,
  deinit_unlock, deinit_join, deinit_destroy, deinit_mutexes, exited, PollingPoint, absent, begin,
  ended, Process, Next, blocked, undefined, next, acquire, release, with_number, destroy_table,
}

-- pthread_join, and what follows; a thread that was not created cannot be joined.
unfoldable pub join : PollingPoint → Process → Next
join absent p = undefined
join ended p = next p
join _ p = blocked

unfoldable pub is_pending : InitStatus → Bool
is_pending pending = true
is_pending started = false
is_pending failed = false

-- A step of the application's thread. `ads` is what ra_parse_binary_ads gives; `good` is whether the call
-- of the step succeeds (atexit, pthread_create, pthread_join), and at init_waiting whether the wait ends
-- without a signal, as it may. When pthread_join fails, attestator_deinit calls exit; as atexit has
-- registered attestator_deinit, exit is running already, and a second call of it is undefined.
unfoldable pub application_step : Option Table → ApplicationPoint → (good : Bool) → Process → Next
unfolding is_pending
application_step none init_parse good p = next (record p { application_at = running 1 })
application_step (some t) init_parse good p =
    next (record p { table = live t; application_at = init_number })
application_step ads init_number good p = with_number p.table (λ r.
    if is_success r
    then next (record p { application_at = init_register })
    else next (record p { table = destroyed; application_at = running 1 }))
application_step ads init_register good p =
    if good
    then next (record p { registered = true; application_at = init_reset })
    else next (record p { application_at = running 1 })
application_step ads init_reset good p = next (record p {
  force_exit = false;
  init_finished_status = pending;
  init_finished_mutex = none;
  deinit_mutex = none;
  mutexes = true;
  application_at = init_create;
})
application_step ads init_create good p =
    if good
    then next (record p { polling_at = begin; application_at = init_test })
    else destroy_table p.table (record p { application_at = running 1 })
application_step ads init_test good p =
    if is_pending p.init_finished_status
    then next (record p { application_at = init_lock })
    else next (record p { application_at = running 0 })
application_step ads init_lock good p =
    acquire p.mutexes p.init_finished_mutex
      (record p { init_finished_mutex = some application; application_at = init_wait })
application_step ads init_wait good p =
    release p.mutexes (record p { init_finished_mutex = none; application_at = init_waiting })
application_step ads init_waiting good p =
    if good then next (record p { application_at = init_woken }) else blocked
application_step ads init_woken good p =
    acquire p.mutexes p.init_finished_mutex
      (record p { init_finished_mutex = some application; application_at = init_unlock })
application_step ads init_unlock good p =
    release p.mutexes (record p { init_finished_mutex = none; application_at = running 0 })
application_step ads (running code) good p =
    if p.registered
    then next (record p { application_at = deinit_number })
    else next (record p { application_at = exited })
application_step ads deinit_number good p =
    with_number p.table (λ r. next (record p { application_at = deinit_lock }))
application_step ads deinit_lock good p =
    acquire p.mutexes p.deinit_mutex
      (record p { deinit_mutex = some application; application_at = deinit_force })
application_step ads deinit_force good p =
    next (record p { force_exit = true; application_at = deinit_unlock })
application_step ads deinit_unlock good p =
    release p.mutexes (record p { deinit_mutex = none; application_at = deinit_join })
application_step ads deinit_join true p =
    join p.polling_at (record p { application_at = deinit_destroy })
application_step ads deinit_join false p = undefined
application_step ads deinit_destroy good p =
    destroy_table p.table (record p { application_at = deinit_mutexes })
application_step ads deinit_mutexes good p =
    next (record p { mutexes = false; application_at = exited })
application_step ads exited good p = blocked
