-- ===== src/Manager/Listener.antt =====
-- asclWebSocketDispatcherMessage of src/server-components/manager.c, the connection listener: a client that
-- connects is passed to the actual manager with the fewest clients, and a client that disconnects is
-- announced to all of them. The managers are seen through their mailboxes.
use remote_attestation.Prelude.{
  ℕ, zero, suc, ◌+◌, ◌-◌, ◌^◌, Bool, Option, some, List, [], ◌∷◌, if◌then◌else◌, ltb,
}
use remote_attestation.Prelude.Bytes.{parse_hex}
use remote_attestation.Prelude.RaResult.{RaResult, success, is_success}
use remote_attestation.Prelude.Run.{Run, ok, fault, ◌>>=◌, deref}
use remote_attestation.Client.{Client, create, set_session_id}
use remote_attestation.Database.Tables.{Database, Server, reaction_status_unknown}
use remote_attestation.Database.Lookup.{Parameters, get_attestation_parameters, set_reaction_status}
use remote_attestation.Database.Sessions.{
  start_session, revoke_session, get_active_session, close_session,
}
use remote_attestation.Manager.Routine.{Action, client_up, client_down}

-- The fields of actual_manager_t that the listener reads and writes.
pub record Mailbox : Type 0 where
  pub clients_count : ℕ
  pub action : Action
  pub passing_client : Option Client

-- The messages of ASCL.
pub data Message : Type 0 where
  message_open message_send message_exchange message_close message_other : Message

pub data AsclResult : Type 0 where
  ascl_success ascl_error : AsclResult

-- The connections of the services that one message may call, in the order of the source, and the
-- allocation of the client.
pub record Calls : Type 0 where
  pub parameters : Server
  pub active : Server
  pub session : Server
  pub reaction : Server
  pub revoke : Server
  pub malloc : Bool

-- The search for the least loaded manager, from number `i` on.
unfoldable pub search : (i i_min min_count : ℕ) → List Mailbox → ℕ
search i i_min min_count [] = i_min
search i i_min min_count (m ∷ ms) =
    let better = search (i + 1) i m.clients_count ms in
    let same = search (i + 1) i_min min_count ms in
    if ltb m.clients_count min_count then better else same

unfoldable pub least_loaded : List Mailbox → ℕ
unfolding search
least_loaded [] = 0
least_loaded (m ∷ ms) = search 1 0 m.clients_count ms

unfoldable pub pass : Action → Option Client → Mailbox → Mailbox
pass a c m = record m { action = a; passing_client = c }

-- `actual_managers[i]` is written to.
unfoldable pub pass_to : (i : ℕ) → Action → Option Client → List Mailbox → Run (List Mailbox)
unfolding pass
pass_to i a c [] = fault
pass_to zero a c (m ∷ ms) = ok (pass a c m ∷ ms)
pass_to (suc i) a c (m ∷ ms) = pass_to i a c ms >>= λ rest. ok (m ∷ rest)

unfoldable pub pass_to_all : Action → Option Client → List Mailbox → List Mailbox
unfolding pass
pass_to_all a c [] = []
pass_to_all a c (m ∷ ms) = pass a c m ∷ pass_to_all a c ms

abbrev pub Handled : Type 0
Handled = Run (AsclResult × Database × List Mailbox)

-- A new client, behind ra_db_start_session. The session id is set through the client's pointer.
unfoldable pub opened :
    Calls → Parameters → Option Client → List Mailbox → Database × RaResult × Option ℕ → Handled
opened calls p client managers (db, success, some session_id) = deref client >>= λ c.
    (let (reacted, result) =
        set_reaction_status calls.reaction p.application_id reaction_status_unknown db in
      if is_success result
      then (pass_to (least_loaded managers) client_up (some (set_session_id c session_id)) managers
          >>= λ managers'. ok (ascl_success, reacted, managers'))
      else ok (ascl_error, (revoke_session calls.revoke session_id reacted).0, managers))
opened calls p client managers (db, _, _) = ok (ascl_error, db, managers)

-- A client that is gone, behind ra_db_get_active_session.
unfoldable pub gone :
    Calls → Parameters → Option Client → List Mailbox → Database → RaResult × Option ℕ → Handled
gone calls p client managers db (success, some session_id) =
    let (ended, result) = close_session calls.session session_id db in
    if is_success result
    then (let (reacted, result') =
          set_reaction_status calls.reaction p.application_id reaction_status_unknown ended in
        if is_success result'
        then ok (ascl_success, reacted, pass_to_all client_down client managers)
        else ok (ascl_error, (revoke_session calls.revoke session_id reacted).0, managers))
    else ok (ascl_error, ended, managers)
gone calls p client managers db (_, _) = ok (ascl_error, db, managers)

-- The switch over the message.
unfoldable pub handle :
    Calls → Message → Parameters → Option Client → List Mailbox → Database → Handled
handle calls message_open p client managers db =
    opened calls p client managers (start_session calls.session p.attestator_id db)
handle calls message_close p client managers db =
    gone calls p client managers db (get_active_session calls.active p.attestator_id db)
handle calls _ p client managers db = ok (ascl_success, db, managers)

-- Behind ra_db_get_attestation_parameters. The session id of a new client is 0xFFFFFFFFFFFFFFFF.
unfoldable pub known :
    Calls
    → Message
    → (application_id : List ℕ) (attestator_number : ℕ) → List Mailbox
    → Database
    → RaResult × Option Parameters
    → Handled
known calls message aid number managers db (success, some p) =
    handle calls message p
      (create calls.malloc (parse_hex aid) number p.attestator_id p.sleep_avg p.sleep_var
        (2 ^ 64 - 1))
      managers db
known calls message aid number managers db (_, _) = ok (ascl_error, db, managers)

-- asclWebSocketDispatcherMessage, where `attestator_number` is the one of the technique id and
-- `same_aid` the collation of the database.
unfoldable pub dispatch :
    (same_aid : List ℕ → List ℕ → Bool)
    → Calls
    → Message
    → (application_id : List ℕ) (attestator_number : ℕ) → List Mailbox
    → Database
    → Handled
unfolding known
dispatch same_aid calls message aid number managers db =
    known calls message aid number managers db
      (get_attestation_parameters same_aid calls.parameters aid number db)
