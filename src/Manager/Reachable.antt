-- ===== src/Manager/Reachable.antt =====
-- The states of an actual manager that its rounds and the messages of the connection listener reach.
use remote_attestation.Prelude.{
  ℕ, ◌≡◌, refl, subst, true, false, Option, none, some, List, [], arith,
}
use remote_attestation.Prelude.Float.{FloatOps}
use remote_attestation.Prelude.Run.{ok, Returns, returns, Returns-ok}
use remote_attestation.Client.{Client}
use remote_attestation.SchedulerQueue.Clients.{remove-Removed}
use remote_attestation.Database.Tables.{Database}
use remote_attestation.Database.Unused.{NoReuse}
use remote_attestation.Manager.Request.{Event}
use remote_attestation.Manager.Serve.{Outside, attest_client_at_startup}
use remote_attestation.Manager.Routine.{
  Action, client_up, client_down, ActualManager, Startup, Wake, timed_out, signalled, on_timeout,
  on_client_up, round,
}
use remote_attestation.Manager.Invariant.{
  IsServable, IsConsistent, after_wait-IsConsistent, updated-IsConsistent,
  on_client_up-IsConsistent, on_client_down-IsConsistent,
}

module _ (f : FloatOps) (of_milliseconds : ℕ → f.Float) where
  -- The rounds in which the allocations succeed and no call is undefined: a timeout, a client that is
  -- up, a signal without one, and a client that is down.
  pub data Runs (m : ActualManager f of_milliseconds) (db : Database)
      : Wake f of_milliseconds → Type 0 where
    timeout :
        {o : Outside} {rd : ℕ}
        → o.request_server.init ≡ true
        → NoReuse db.requests
        → Runs m db (timed_out o rd true)
    up :
        {left : f.Float} {startup : Startup} {rd : ℕ} {out : Database × List Event} (c : Client)
        → m.action ≡ client_up
        → m.passing_client ≡ some c
        → IsServable c
        → attest_client_at_startup startup.server startup.malloc startup.runs c db ≡ ok out
        → Runs m db (signalled left startup rd true true true)
    nobody :
        {left : f.Float} {startup : Startup} {rd : ℕ}
        → m.action ≡ client_up
        → m.passing_client ≡ none
        → Runs m db (signalled left startup rd true true true)
    down :
        {left : f.Float} {startup : Startup} {rd : ℕ} (c : Client)
        → m.action ≡ client_down
        → m.passing_client ≡ some c
        → Runs m db (signalled left startup rd true true true)

  -- The mailbox has no part in it.
  message-IsConsistent :
      (m : ActualManager f of_milliseconds) (a : Action) (p : Option Client)
      → IsConsistent f of_milliseconds m
      → IsConsistent f of_milliseconds (record m { action = a; passing_client = p })
  message-IsConsistent m a p v = record {
    served = v.served;
    counted = v.counted;
    queued = v.queued;
    scheduled = v.scheduled;
    servable = v.servable;
  }

  round-IsConsistent :
      (m : ActualManager f of_milliseconds) (db : Database) {w : Wake f of_milliseconds}
      → IsConsistent f of_milliseconds m
      → Runs m db w
      → Returns (λ out. IsConsistent f of_milliseconds out.0) (round f of_milliseconds w m db)
  unfolding round on_timeout on_client_up
  round-IsConsistent m db v (timeout {o} {rd} i once) =
      after_wait-IsConsistent f of_milliseconds o rd m db v i once
        (remove-Removed f m.scheduled_clients v.queued)
  round-IsConsistent m db v (up {left} {startup} {rd} c a p servable ends) =
      let v' = message-IsConsistent m client_up (some c) v in
      rw (a, p)
        (on_client_up-IsConsistent f of_milliseconds startup rd c _ db
          (updated-IsConsistent f of_milliseconds left _ v') servable ends)
  round-IsConsistent m db v (nobody {left} a p) =
      let v' = message-IsConsistent m client_up none v in
      rw (a, p) (returns (updated-IsConsistent f of_milliseconds left _ v'))
  round-IsConsistent m db v (down {left} c a p) =
      let v' = message-IsConsistent m client_down (some c) v in
      rw (a, p)
        (on_client_down-IsConsistent f of_milliseconds c _ db
          (updated-IsConsistent f of_milliseconds left _ v') refl)

  -- The state in which the routine starts; the mailbox is not set.
  abbrev pub started : Action → Option Client → ActualManager f of_milliseconds
  started a p = record {
    clients_list = record { items = []; items_count = 0 };
    scheduled_clients = record { items = []; items_count = 0 };
    clients_count = 0;
    action = a;
    passing_client = p;
    local_force_exit = false;
  }

  pub data Reachable : ActualManager f of_milliseconds → Type 0 where
    start : {a : Action} {p : Option Client} → Reachable (started a p)
    -- The listener writes the mailbox.
    message :
        {m : ActualManager f of_milliseconds} {a : Action} {p : Option Client}
        → Reachable m
        → Reachable (record m { action = a; passing_client = p })
    -- A round, on tables that other processes may have changed since the last.
    after_round :
        {m m' : ActualManager f of_milliseconds} {db db' : Database} {es : List Event}
        {w : Wake f of_milliseconds}
        → Reachable m
        → Runs m db w
        → round f of_milliseconds w m db ≡ ok (m', db', es)
        → Reachable m'

  consistent :
      {m : ActualManager f of_milliseconds} → Reachable m → IsConsistent f of_milliseconds m
  consistent start = record {
    served = record { distinct = tt; counted = omega arith };
    counted = refl;
    queued = omega arith;
    scheduled = λ k. refl;
    servable = tt;
  }
  consistent (message {m} {a} {p} r) = message-IsConsistent m a p (consistent r)
  consistent (after_round {m} {m'} {db} {db'} {es} r runs e) =
      let (out, ends, v) = Returns-ok _ _ (round-IsConsistent m db (consistent r) runs) in
      let same : out ≡ (m', db', es) = cc in subst (λ o. IsConsistent f of_milliseconds o.0) same v

  -- In every state that an actual manager reaches, its served clients are distinct, their number
  -- is the one that the listener reads, each of them is scheduled exactly as often as it is served
  -- and no other client is, and the next round ends in such a state again. Conditions on the
  -- rounds: the allocations and mysql_init succeed, no prepared data has two requests, a client
  -- that is up passes its startup attestation without a fault and has a positive variation and an
  -- attestator number within bounds, a signal that a client is down comes with the client, and
  -- there is no shutdown.
  pub Reachable-IsConsistent :
      {m : ActualManager f of_milliseconds}
      → Reachable m
      → IsConsistent f of_milliseconds m
        × ((db : Database) (w : Wake f of_milliseconds)
            → Runs m db w
            → Returns (λ out. Reachable out.0) (round f of_milliseconds w m db))
  Reachable-IsConsistent {m} r = (
    consistent r,
    λ db w runs.
        let (out, ends, v) = Returns-ok _ _ (round-IsConsistent m db (consistent r) runs) in
        rw ends (returns (after_round r runs ends)),
  )
