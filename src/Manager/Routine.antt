-- ===== src/Manager/Routine.antt =====
-- actual_manager_routine of src/server-components/manager.c: the loop of one actual manager, one round at
-- a time. The mailbox of the connection listener is the two fields `passing_client` and `action`; a
-- round ends in a timeout or a signal. Clients are values: their fields do not change once they are
-- passed. The memory that a client takes is left out, except that a list with items cannot be freed
-- without reading freed nodes.
use remote_attestation.Prelude.{
  ℕ, Bool, true, false, Option, none, some, List, [], ◌∷◌, if◌then◌else◌,
}
use remote_attestation.Prelude.Float.{FloatOps}
use remote_attestation.Prelude.Run.{Run, ok, fault, ◌>>=◌, deref}
use remote_attestation.Client.{Client, compare}
use remote_attestation.GenericList.{
  GenericList, GlResult, gl_error_item_already_present, is_containing, insert, remove, count,
  destroy,
}
use remote_attestation.SchedulerQueue as SchedulerQueue
use remote_attestation.SchedulerQueue.{Queue}
use remote_attestation.Database.Tables.{Database, Server}
use remote_attestation.Manager.Request.{Event}
use remote_attestation.Manager.Serve.{Outside, AreaRun, serve_client, attest_client_at_startup}
use remote_attestation.Manager.Sleep.{compute_random_sleep}

-- actual_manager_action_t
pub data Action : Type 0 where
  client_up client_down die : Action

-- The environment of attest_client_at_startup.
pub record Startup : Type 0 where
  pub server : Server
  pub malloc : Bool
  pub runs : List AreaRun

unfoldable pub is_empty : List Client → Bool
is_empty [] = true
is_empty (c ∷ cs) = false

module _ (f : FloatOps) (of_milliseconds : ℕ → f.Float) where
  -- actual_manager_t with the local variables of the routine.
  pub record ActualManager : Type 0 where
    pub clients_list : GenericList Client
    pub scheduled_clients : Queue f
    pub clients_count : ℕ
    pub action : Action
    pub passing_client : Option Client
    pub local_force_exit : Bool

  -- What a round leaves: the manager, the tables and the events.
  abbrev pub Round : Type 0
  Round = Run (ActualManager × Database × List Event)

  -- The wait is over: the time has elapsed, or the listener has signalled with `time_left` to sleep.
  -- `malloc` says whether sq_insert can allocate, and `rd` is the result of rand; the remaining two are
  -- the allocations of gl_insert.
  pub data Wake : Type 0 where
    timed_out : (o : Outside) (rd : ℕ) (malloc : Bool) → Wake
    signalled :
        (time_left : f.Float) (startup : Startup) (rd : ℕ) (malloc malloc_node malloc_data : Bool)
        → Wake

  -- NOT_SERVED_RE_SCHEDULING_STANDARD_TIME
  abbrev pub not_served_re_scheduling_standard_time : f.Float
  not_served_re_scheduling_standard_time = f.literal 5

  -- sq_insert, whose result is not read.
  unfoldable pub reschedule : (malloc : Bool) → Client → f.Float → ActualManager → ActualManager
  reschedule malloc c t m = record m {
    scheduled_clients = (SchedulerQueue.insert f malloc m.scheduled_clients c t).0;
  }

  -- The client that sq_remove delivered.
  unfoldable pub serve :
      Outside → (rd : ℕ) (malloc : Bool) → Client → ActualManager → Database → Round
  serve o rd malloc c m db = serve_client o c db >>= λ (db', es, served).
      if served
      then (compute_random_sleep rd c >>= λ n.
          ok (reschedule malloc c (of_milliseconds n) m, db', es))
      else ok (reschedule malloc c not_served_re_scheduling_standard_time m, db', es)

  -- The queue behind sq_remove and what it delivered.
  unfoldable pub after_wait :
      Outside
      → (rd : ℕ) (malloc : Bool) → Queue f × Option Client
      → ActualManager
      → Database
      → Round
  after_wait o rd malloc (q, none) m db = ok (record m { scheduled_clients = q }, db, [])
  after_wait o rd malloc (q, some c) m db =
      serve o rd malloc c (record m { scheduled_clients = q }) db

  unfoldable pub on_timeout : Outside → (rd : ℕ) (malloc : Bool) → ActualManager → Database → Round
  on_timeout o rd malloc m db =
      after_wait o rd malloc (SchedulerQueue.remove f m.scheduled_clients) m db

  -- The result of gl_insert for the passing client.
  unfoldable pub after_insert :
      (rd : ℕ) (malloc : Bool)
      → Client
      → GenericList Client × GlResult
      → ActualManager
      → Run ActualManager
  after_insert rd malloc c (l, gl_error_item_already_present) m = ok (record m { clients_list = l })
  after_insert rd malloc c (l, _) m = compute_random_sleep rd c >>= λ n.
      let listed : ActualManager = record m {
        clients_list = l;
        clients_count = count l;
        passing_client = none;
      } in
      ok (reschedule malloc c (of_milliseconds n) listed)

  unfoldable pub on_client_up :
      Startup
      → (rd : ℕ) (malloc malloc_node malloc_data : Bool) → Option Client
      → ActualManager
      → Database
      → Round
  on_client_up startup rd malloc malloc_node malloc_data none m db = ok (m, db, [])
  on_client_up startup rd malloc malloc_node malloc_data (some c) m db =
      attest_client_at_startup startup.server startup.malloc startup.runs c db >>= λ (db', es).
      (after_insert rd malloc c (insert compare malloc_node malloc_data m.clients_list c) m
        >>= λ m'. ok (m', db', es))

  -- gl_is_containing, which reads the key when there is an item to compare with.
  unfoldable pub contains : GenericList Client → Option Client → Run Bool
  contains l none = if is_empty l.items then ok false else fault
  contains l (some c) = ok (is_containing compare l c)

  unfoldable pub on_client_down : ActualManager → Database → Round
  on_client_down m db = contains m.clients_list m.passing_client >>= λ contained.
      if contained
      then (deref m.passing_client >>= λ c.
          (remove compare m.clients_list c >>= λ (l, removed). ok (
            record m {
              clients_list = l;
              scheduled_clients = (SchedulerQueue.remove_all_scheduled f m.scheduled_clients c).0;
              clients_count = count l;
              passing_client = none;
            },
            db,
            [],
          )))
      else ok (record m { passing_client = none }, db, [])

  unfoldable pub on_die : ActualManager → Database → Round
  on_die m db = SchedulerQueue.destroy f m.scheduled_clients >>= λ left.
      (destroy m.clients_list >>= λ done. ok (record m { local_force_exit = true }, db, []))

  -- One round of the loop.
  unfoldable pub round : Wake → ActualManager → Database → Round
  unfolding on_timeout on_client_up on_client_down on_die
  round (timed_out o rd malloc) m db = on_timeout o rd malloc m db
  round (signalled left startup rd malloc malloc_node malloc_data) m db =
      let updated : ActualManager = record m {
        scheduled_clients = (SchedulerQueue.update_time_unslept f m.scheduled_clients left).0;
      } in
      elim m.action [
        | client_up ↦
            on_client_up startup rd malloc malloc_node malloc_data m.passing_client updated db
        | client_down ↦ on_client_down updated db
        | die ↦ on_die updated db
      ]
