-- ===== src/Attestator/Lifecycle/Invariant/Points.antt =====
-- The points of the threads compared, and what the operations on mutexes and the table ensure.
use remote_attestation.Prelude.{
  ◌≡◌, refl, subst, Bool, true, false, Option, none, some, if◌then◌else◌, arith,
}
use remote_attestation.Prelude.RaResult.{RaResult, is_success}
use remote_attestation.DataTable.{get_attestator_number}
use remote_attestation.Attestator.Lifecycle.{
  TablePointer, null, live, destroyed, Thread, PollingPoint, absent, begin, callback_run, ended,
  Process, Next, blocked, undefined, next, with_number, acquire, release, destroy_table,
}
use remote_attestation.Attestator.Lifecycle.Application.{join}
use remote_attestation.Attestator.Lifecycle.Invariant.{
  in_callback, in_report, is_alive, is_absent, is_running_callback, is_beginning, has_number,
  is_live, IsCounted,
}

-- A thread that is not there holds nothing.
pub absent_idle :
    (t : PollingPoint)
    → is_absent t ≡ true
    → (is_beginning t ≡ false)
      × (is_alive t ≡ false)
      × (is_running_callback t ≡ false)
      × (in_callback t ≡ false)
      × (in_report t ≡ false)
unfolding is_absent is_beginning is_alive is_running_callback in_callback in_report
absent_idle absent h = ground arith
absent_idle _ h = ground arith

pub in_callback-running : (t : PollingPoint) → is_running_callback t ≡ true → in_callback t ≡ true
unfolding is_running_callback in_callback
in_callback-running (callback_run in_buffer m) h = refl
in_callback-running _ h = ground arith

pub is_beginning-is_alive : (t : PollingPoint) → is_beginning t ≡ true → is_alive t ≡ true
unfolding is_beginning is_alive
is_beginning-is_alive begin h = refl
is_beginning-is_alive _ h = ground arith

pub begin_idle :
    (is_beginning begin ≡ true)
    × (is_alive begin ≡ true)
    × (is_absent begin ≡ false)
    × (is_running_callback begin ≡ false)
    × (in_callback begin ≡ false)
    × (in_report begin ≡ false)
unfolding is_absent is_beginning is_alive is_running_callback in_callback in_report
begin_idle = (refl, refl, refl, refl, refl, refl)

pub begin-IsCounted : IsCounted begin
unfolding IsCounted
begin-IsCounted = tt

-- What holds of the state after a step, if there is one.
abbrev pub Ensures : (Process → Type 0) → Next → Type 0
Ensures P blocked = Unit {0}
Ensures P undefined = Unit {0}
Ensures P (next q) = P q

module _ (P : Process → Type 0) where
  pub with_number-Ensures :
      (x : TablePointer) (rest : RaResult → Next)
      → ((r : RaResult) → is_success r ≡ has_number x → is_live x ≡ true → Ensures P (rest r))
      → Ensures P (with_number x rest)
  with_number-Ensures null rest h = tt
  with_number-Ensures destroyed rest h = tt
  with_number-Ensures (live t) rest h = h (get_attestator_number t).0 refl refl

  pub acquire-Ensures :
      (m : Bool) (o : Option Thread) (q : Process)
      → (m ≡ true → o ≡ none → P q)
      → Ensures P (acquire m o q)
  acquire-Ensures true none q h = h refl refl
  acquire-Ensures true (some t) q h = tt
  acquire-Ensures false o q h = tt

  pub release-Ensures : (m : Bool) (q : Process) → (m ≡ true → P q) → Ensures P (release m q)
  release-Ensures true q h = h refl
  release-Ensures false q h = tt

  pub destroy_table-Ensures :
      (x : TablePointer) (q : Process)
      → P (record q { table = destroyed })
      → Ensures P (destroy_table x q)
  destroy_table-Ensures null q h = tt
  destroy_table-Ensures destroyed q h = tt
  destroy_table-Ensures (live t) q h = h

  pub if-Ensures :
      (b : Bool) (x y : Next)
      → (b ≡ true → Ensures P x)
      → (b ≡ false → Ensures P y)
      → Ensures P (if b then x else y)
  if-Ensures true x y h k = h refl
  if-Ensures false x y h k = k refl

  pub join-Ensures :
      (t : PollingPoint) (q : Process)
      → (is_absent t ≡ false → is_alive t ≡ false → P q)
      → Ensures P (join t q)
  unfolding join is_absent is_alive
  join-Ensures ended q h = h refl refl
  join-Ensures absent q h = tt
  join-Ensures _ q h = tt

-- What a step ensures holds of the state after it.
pub Ensures-next : (P : Process → Type 0) (n : Next) {q : Process} → n ≡ next q → Ensures P n → P q
Ensures-next P (next p) e h = subst P (cc) h
Ensures-next P blocked e h = absurd (ground arith)
Ensures-next P undefined e h = absurd (ground arith)
