-- ===== src/Attestator/Lifecycle/Defined.antt =====
-- Where a step of the two threads has undefined behaviour.
use remote_attestation.Prelude.{
  ℕ, ◌≡◌, inl, inr, refl, ap, ◌∙◌, Bool, Bool-cases, true, false, not, Option, none, some, List,
  ltb, if◌then◌else◌, arith,
}
use remote_attestation.Prelude.RaResult.{RaResult, is_success}
use remote_attestation.Prelude.Run.{Run, ok, fault, diverges}
use remote_attestation.DataTable.{Table}
use remote_attestation.Attestator.{Mallocs}
use remote_attestation.Attestator.Lifecycle.{
  TablePointer, null, live, destroyed, Thread, application, polling, InitStatus, started, failed,
  ApplicationPoint, init_parse, init_number, init_register, init_reset, init_create, init_test,
  init_lock, init_wait, init_waiting, init_woken, init_unlock, running, deinit_number, deinit_lock,
  deinit_force, deinit_unlock, deinit_join, deinit_destroy, deinit_mutexes, exited, ReportPoint,
  report_lock, report_set, report_signal, report_unlock, PollingPoint, absent, begin, connect,
  retry, report_failed, poll, serving, callback_lock, callback_test, callback_run, callback_unlock,
  test_flag, report_started, shutdown, ended, Process, Next, blocked, undefined, next, with_number,
  acquire, release, destroy_table, Choice, outcome, message,
}
use remote_attestation.Attestator.Lifecycle.Application.{application_step, join, is_pending}
use remote_attestation.Attestator.Lifecycle.Polling.{
  Build, polling_step, report_step, connected, not_connected, max_connection_retry, answered,
  routine, run_callback,
}
use remote_attestation.Attestator.Lifecycle.System.{step, Reach}
use remote_attestation.Attestator.Lifecycle.Invariant.{
  is_alive, is_absent, has_thread, may_run, has_number, is_live, is_numbered, needs_table,
  needs_mutexes, Holds, IsSafe,
}
use remote_attestation.Attestator.Lifecycle.Safety.{Reach-IsSafe}

-- Either pthread_create has failed, and attestator_deinit starts; or pthread_join fails, and
-- attestator_deinit, which exit has called, calls exit; or attestator_routine itself has undefined
-- behaviour on the table and the request.
pub data Excuse (b : Build) (t : Thread) (c : Choice) (p : Process) : Type 0 where
  no_thread :
      t ≡ application → p.application_at ≡ deinit_number → p.polling_at ≡ absent → Excuse b t c p
  no_join : t ≡ application → c ≡ outcome false → p.application_at ≡ deinit_join → Excuse b t c p
  request :
      (in_buffer : Option (List ℕ)) (m : Mallocs) (x : Table)
      → t ≡ polling
      → p.polling_at ≡ callback_run in_buffer m
      → p.table ≡ live x
      → routine b in_buffer m x ≡ fault
      → Excuse b t c p

-- A step whose behaviour is defined, or undefined for a reason.
abbrev Within : Type 0 → Next → Type 0
Within E undefined = E
Within E blocked = Unit {0}
Within E (next q) = Unit {0}

module _ (E : Type 0) where
  acquire-Within :
      (m : Bool) (o : Option Thread) (q : Process) → m ≡ true → Within E (acquire m o q)
  acquire-Within true none q h = tt
  acquire-Within true (some t) q h = tt
  acquire-Within false o q h = absurd (ground arith)

  release-Within : (m : Bool) (q : Process) → m ≡ true → Within E (release m q)
  release-Within true q h = tt
  release-Within false q h = absurd (ground arith)

  destroy_table-Within :
      (x : TablePointer) (q : Process) → is_live x ≡ true → Within E (destroy_table x q)
  destroy_table-Within (live t) q h = tt
  destroy_table-Within null q h = absurd (ground arith)
  destroy_table-Within destroyed q h = absurd (ground arith)

  if-Within : (c : Bool) (x y : Next) → Within E x → Within E y → Within E (if c then x else y)
  if-Within true x y h k = h
  if-Within false x y h k = k

  with_number-Within :
      (x : TablePointer) (rest : RaResult → Next)
      → is_live x ≡ true
      → ((r : RaResult) → Within E (rest r))
      → Within E (with_number x rest)
  with_number-Within (live t) rest h k = k _
  with_number-Within null rest h k = absurd (ground arith)
  with_number-Within destroyed rest h k = absurd (ground arith)

  join-Within : (t : PollingPoint) (q : Process) → is_absent t ≡ false → Within E (join t q)
  unfolding join is_absent
  join-Within absent q h = absurd (ground arith)
  join-Within ended q h = tt
  join-Within _ q h = tt

absent_point : (t : PollingPoint) → is_absent t ≡ true → t ≡ absent
unfolding is_absent
absent_point absent h = refl
absent_point _ h = ground arith

-- attestator_deinit without a thread, or with a table.
deinit_start :
    (b : Build) (good : Bool) (p : Process) (x : TablePointer) (q : Process)
    → p.application_at ≡ deinit_number
    → (is_absent p.polling_at ≡ false → is_live x ≡ true)
    → Within (Excuse b application (outcome good) p) (with_number x (λ r. next q))
deinit_start b good p (live u) q at found = tt
deinit_start b good p null q at found = no_thread refl at (absent_point p.polling_at (ground arith))
deinit_start b good p destroyed q at found =
    no_thread refl at (absent_point p.polling_at (ground arith))

has_number-is_live : (x : TablePointer) → has_number x ≡ true → is_live x ≡ true
has_number-is_live (live t) h = refl
has_number-is_live null h = h
has_number-is_live destroyed h = h

application_step-Within :
    (b : Build) (ads : Option Table) (a : ApplicationPoint) (good : Bool) (p : Process)
    → p.application_at ≡ a
    → Holds a p.polling_at p
    → Within (Excuse b application (outcome good) p) (application_step ads a good p)
unfolding application_step has_thread needs_table needs_mutexes is_numbered
application_step-Within b none init_parse good p at v = tt
application_step-Within b (some t) init_parse good p at v = tt
application_step-Within b ads init_number good p at v =
    with_number-Within (Excuse b application (outcome good) p) p.table _ (v.holds refl)
      λ r. if-Within (Excuse b application (outcome good) p) (is_success r) _ _ tt tt
application_step-Within b ads init_register true p at v = tt
application_step-Within b ads init_register false p at v = tt
application_step-Within b ads init_reset good p at v = tt
application_step-Within b ads init_create true p at v = tt
application_step-Within b ads init_create false p at v =
    destroy_table-Within (Excuse b application (outcome false) p) p.table _
      (has_number-is_live p.table (v.numbered refl))
application_step-Within b ads init_test good p at v =
    if-Within (Excuse b application (outcome good) p) (is_pending p.init_finished_status) _ _ tt tt
application_step-Within b ads init_lock good p at v =
    acquire-Within (Excuse b application (outcome good) p) p.mutexes _ _ (v.unlocked refl)
application_step-Within b ads init_wait good p at v =
    release-Within (Excuse b application (outcome good) p) p.mutexes _ (v.unlocked refl)
application_step-Within b ads init_waiting true p at v = tt
application_step-Within b ads init_waiting false p at v = tt
application_step-Within b ads init_woken good p at v =
    acquire-Within (Excuse b application (outcome good) p) p.mutexes _ _ (v.unlocked refl)
application_step-Within b ads init_unlock good p at v =
    release-Within (Excuse b application (outcome good) p) p.mutexes _ (v.unlocked refl)
application_step-Within b ads (running code) good p at v =
    if-Within (Excuse b application (outcome good) p) p.registered _ _ tt tt
application_step-Within b ads deinit_number good p at v =
    deinit_start b good p p.table _ at (λ there. v.holds (ap not there))
application_step-Within b ads deinit_lock good p at v =
    acquire-Within (Excuse b application (outcome good) p) p.mutexes _ _ (v.unlocked refl)
application_step-Within b ads deinit_force good p at v = tt
application_step-Within b ads deinit_unlock good p at v =
    release-Within (Excuse b application (outcome good) p) p.mutexes _ (v.unlocked refl)
application_step-Within b ads deinit_join true p at v =
    join-Within (Excuse b application (outcome true) p) p.polling_at _ (v.created refl)
application_step-Within b ads deinit_join false p at v = no_join refl refl at
application_step-Within b ads deinit_destroy good p at v =
    destroy_table-Within (Excuse b application (outcome good) p) p.table _ (v.holds refl)
application_step-Within b ads deinit_mutexes good p at v = tt
application_step-Within b ads exited good p at v = tt

report_step-Within :
    (E : Type 0) (status : InitStatus) (at : ReportPoint → PollingPoint) (rest : PollingPoint)
    (r : ReportPoint) (p : Process)
    → p.mutexes ≡ true
    → Within E (report_step status at rest r p)
unfolding report_step
report_step-Within E status at rest report_lock p m = acquire-Within E p.mutexes _ _ m
report_step-Within E status at rest report_set p m = tt
report_step-Within E status at rest report_signal p m = tt
report_step-Within E status at rest report_unlock p m = release-Within E p.mutexes _ m

answered-Within :
    (E : Type 0) (out : Run (Table × Option (List ℕ))) (p : Process)
    → (out ≡ fault → E)
    → Within E (answered out p)
answered-Within E (ok (t, none)) p e = tt
answered-Within E (ok (t, some response)) p e = tt
answered-Within E fault p e = e refl
answered-Within E diverges p e = tt

run_callback-Within :
    (E : Type 0) (b : Build) (in_buffer : Option (List ℕ)) (m : Mallocs) (x : TablePointer)
    (p : Process)
    → is_live x ≡ true
    → ((t : Table) → x ≡ live t → routine b in_buffer m t ≡ fault → E)
    → Within E (run_callback b in_buffer m x p)
run_callback-Within E b in_buffer m (live t) p h e =
    answered-Within E (routine b in_buffer m t) p (e t refl)
run_callback-Within E b in_buffer m null p h e = absurd (ground arith)
run_callback-Within E b in_buffer m destroyed p h e = absurd (ground arith)

polling_step-Within :
    (b : Build) (t : PollingPoint) (c : Choice) (p : Process)
    → p.polling_at ≡ t
    → is_alive t ≡ true
    → p.mutexes ≡ true
    → is_live p.table ≡ true
    → Within (Excuse b polling c p) (polling_step b t c p)
unfolding polling_step connected not_connected is_alive
polling_step-Within b absent c p at alive m found = tt
polling_step-Within b begin c p at alive m found =
    with_number-Within (Excuse b polling c p) p.table _ found
      λ r. if-Within (Excuse b polling c p) (is_success r) _ _ tt tt
polling_step-Within b (connect i) (outcome true) p at alive m found =
    if-Within (Excuse b polling (outcome true) p) (ltb i max_connection_retry) _ _ tt tt
polling_step-Within b (connect i) (outcome false) p at alive m found =
    if-Within (Excuse b polling (outcome false) p) (ltb i max_connection_retry) _ _ tt tt
polling_step-Within b (connect i) (message in_buffer n) p at alive m found = tt
polling_step-Within b (retry i) c p at alive m found =
    if-Within (Excuse b polling c p) p.force_exit _ _ tt tt
polling_step-Within b (report_failed r) c p at alive m found =
    report_step-Within (Excuse b polling c p) failed report_failed ended r p m
polling_step-Within b poll c p at alive m found =
    if-Within (Excuse b polling c p) p.force_exit _ _ tt tt
polling_step-Within b serving (outcome returned) p at alive m found = tt
polling_step-Within b serving (message in_buffer n) p at alive m found = tt
polling_step-Within b (callback_lock in_buffer n) c p at alive m found =
    acquire-Within (Excuse b polling c p) p.mutexes _ _ m
polling_step-Within b (callback_test none n) c p at alive m found = tt
polling_step-Within b (callback_test (some buffer) n) c p at alive m found =
    if-Within (Excuse b polling c p) p.force_exit _ _ tt tt
polling_step-Within b (callback_run in_buffer n) c p at alive m found =
    run_callback-Within (Excuse b polling c p) b in_buffer n p.table p found
      (λ t e f. request in_buffer n t refl at e f)
polling_step-Within b callback_unlock c p at alive m found =
    release-Within (Excuse b polling c p) p.mutexes _ m
polling_step-Within b test_flag c p at alive m found =
    if-Within (Excuse b polling c p) p.flag _ _ tt tt
polling_step-Within b (report_started r) c p at alive m found =
    report_step-Within (Excuse b polling c p) started report_started poll r p m
polling_step-Within b shutdown c p at alive m found = tt
polling_step-Within b ended c p at alive m found = tt

is_alive-is_absent : (t : PollingPoint) → is_alive t ≡ true → is_absent t ≡ false
unfolding is_alive is_absent
is_alive-is_absent absent h = ground arith
is_alive-is_absent _ h = refl

dead_step :
    (b : Build) (t : PollingPoint) (c : Choice) (p : Process)
    → is_alive t ≡ false
    → polling_step b t c p ≡ blocked
unfolding polling_step is_alive
dead_step b absent c p h = refl
dead_step b ended c p h = refl
dead_step b _ c p h = absurd (ground arith)

-- Where a thread may run, the table and the mutexes are needed.
may_run_needs :
    (a : ApplicationPoint)
    → may_run a ≡ true
    → (needs_table a false ≡ true) × (needs_mutexes a false ≡ true)
unfolding may_run needs_table needs_mutexes has_thread
may_run_needs deinit_number h = (refl, refl)
may_run_needs init_parse h = absurd (ground arith)
may_run_needs init_number h = absurd (ground arith)
may_run_needs init_create h = absurd (ground arith)
may_run_needs deinit_destroy h = absurd (ground arith)
may_run_needs deinit_mutexes h = absurd (ground arith)
may_run_needs _ h = (h, h)

step-Within :
    (b : Build) (ads : Option Table) (t : Thread) (c : Choice) (p : Process)
    → IsSafe p
    → Within (Excuse b t c p) (step b ads t c p)
unfolding step
step-Within b ads application (outcome good) p v =
    application_step-Within b ads p.application_at good p refl v
step-Within b ads application (message in_buffer m) p v = tt
step-Within b ads polling c p v = elim (Bool-cases (is_alive p.polling_at)) [
  | inl alive ↦
      let there = is_alive-is_absent p.polling_at alive in
      let (table, mutexes) = may_run_needs p.application_at (v.within alive) in
      polling_step-Within b p.polling_at c p refl alive
        (v.unlocked (ap (needs_mutexes p.application_at) there ∙ mutexes))
        (v.holds (ap (needs_table p.application_at) there ∙ table))
  | inr dead ↦ rw (dead_step b p.polling_at c p dead) tt
]

Within-undefined : (E : Type 0) (n : Next) → n ≡ undefined → Within E n → E
Within-undefined E undefined e h = h
Within-undefined E blocked e h = absurd (ground arith)
Within-undefined E (next q) e h = absurd (ground arith)

-- A step of the two threads, in any order that they run in, has undefined behaviour in three cases
-- only: attestator_deinit starts although pthread_create had failed, pthread_join fails and
-- attestator_deinit calls exit while exit is running, or attestator_routine has undefined
-- behaviour on the request and the table. In every other case no step uses a destroyed table or
-- mutex, or joins a thread that does not exist.
pub step-Excuse :
    (b : Build) (ads : Option Table) (t : Thread) (c : Choice) {p : Process}
    → Reach b ads p
    → step b ads t c p ≡ undefined
    → Excuse b t c p
step-Excuse b ads t c {p} r e =
    Within-undefined (Excuse b t c p) (step b ads t c p) e
      (step-Within b ads t c p (Reach-IsSafe b ads r))
