-- ===== src/Manager/Request.antt =====
-- send_ra_request of src/server-components/manager.c: a new row of ra_request, and the packet to the
-- attestator, in one transaction. InnoDB's counter of ids is not rolled back.
use remote_attestation.Prelude.{
  ℕ, Bool, true, false, ◌&&◌, List, [], ◌∷◌, ◌++◌, if◌then◌else◌, ltb, length,
}
use remote_attestation.Prelude.Bytes.{to_bytes}
use remote_attestation.Prelude.Run.{Run, ok, fault}
use remote_attestation.Database.Tables.{Database, Server}
use remote_attestation.Database.Nonces.{insert_request}

-- MAX_ATTESTATORS_ALLOWED, the size of `attestator_contexts`.
abbrev pub max_attestators_allowed : ℕ
max_attestators_allowed = 10

-- What the manager does outside the database: a call of asclWebSocketSend with its result, and an
-- extractor process.
pub data Event : Type 0 where
  packet : (attestator_number : ℕ) (aid packet : List ℕ) (sent : Bool) → Event
  extractor : (aid : List ℕ) (attestator_number : ℕ) → Event

-- A connection: the tables that others see, and those with its own changes.
pub record Transaction : Type 0 where
  pub committed : Database
  pub working : Database
  pub autocommit : Bool

-- A statement of a connection that may not have been made.
abbrev pub executes : Server → ℕ → Bool
executes s n = s.connect && s.accepts n

-- mysql_autocommit(connection, 0), on a new connection.
unfoldable pub begin : (accepted : Bool) → Database → Transaction
begin accepted db = record {
  committed = db;
  working = db;
  autocommit = if accepted then false else true;
}

unfoldable pub execute : (Database → Database) → Transaction → Transaction
execute change t = record t {
  committed = if t.autocommit then change t.working else t.committed;
  working = change t.working;
}

-- mysql_commit, and mysql_autocommit(connection, 1), which commits what is open.
unfoldable pub commit : (accepted : Bool) → Transaction → Transaction
commit accepted t = if accepted then record t { committed = t.working } else t

-- mysql_rollback
unfoldable pub rollback : (accepted : Bool) → Transaction → Transaction
rollback accepted t =
    if accepted
    then record t { working = record t.committed { next_request_id = t.working.next_request_id } }
    else t

-- The tables after the connection has ended, its open changes lost.
unfoldable pub closed : Transaction → Database
closed t = record t.committed { next_request_id = t.working.next_request_id }

-- The packet: the id of the request, the length of the nonce, and the nonce.
unfoldable pub request_packet : (request_id : ℕ) (nonce : List ℕ) → List ℕ
request_packet i nonce = to_bytes 8 i ++ to_bytes 4 (length nonce) ++ nonce

-- send_ra_request: the tables, the events and the returned flag. `sends` is the result of
-- asclWebSocketSend, and `malloc` of the allocation of the packet. mysql_real_connect is not defined
-- for the NULL of a failed mysql_init. Without a packet the open transaction meets
-- mysql_autocommit(connection, 1).
unfoldable pub send_ra_request :
    Server
    → (malloc sends : Bool) (now prepared_data_id : ℕ) (nonce aid : List ℕ) (attestator_number : ℕ)
      (is_startup : Bool) (session_id : ℕ)
    → Database
    → Run (Database × List Event × Bool)
send_ra_request s malloc sends now p nonce aid number is_startup session db =
    if s.init
    then (let opened : Transaction = begin (executes s 0) db in
        let inserted : Transaction =
          execute (insert_request now p session 1800 is_startup) opened in
        let event : Event = packet number aid (request_packet db.next_request_id nonce) sends in
        if executes s 1
        then (if malloc
            then (if ltb number max_attestators_allowed
                then (if sends
                    then ok (
                      closed (commit (executes s 3) (commit (executes s 2) inserted)),
                      event ∷ [],
                      true,
                    )
                    else ok (
                      closed (commit (executes s 3) (rollback (executes s 2) inserted)),
                      event ∷ [],
                      false,
                    ))
                else fault)
            else ok (closed (commit (executes s 2) inserted), [], false))
        else ok (closed (rollback (executes s 2) opened), [], false))
    else fault
