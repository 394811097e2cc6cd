-- ===== src/Database/Sessions.antt =====
-- The services on the table ra_session. Each service opens its own connection. A service that changes
-- the tables returns them with its result; an output argument that it does not set is `none`.
use remote_attestation.Prelude.{
  ℕ, ◌+◌, Bool, true, false, ◌&&◌, Option, none, some, List, [], ◌∷◌, ◌++◌, ◌==◌, if◌then◌else◌,
}
use remote_attestation.Prelude.RaResult.{
  RaResult, success, error_db_mysql, error_db_query, error_session_table_anomaly,
}
use remote_attestation.Database.Sql.{select, update, delete}
use remote_attestation.Database.Tables.{Database, Server, Session, connected}

-- DBMS_QUERY_CLOSE_ALL_ACTIVE_SESSIONS
unfoldable pub close_all_active_sessions : (attestator_id : ℕ) → Database → Database
close_all_active_sessions a db = record db {
  sessions = update (λ r. r.attestator_id == a) (λ r. record r { is_active = false }) db.sessions;
}

-- DBMS_QUERY_INSERT_SESSION
unfoldable pub insert_session : (attestator_id : ℕ) → Database → Database
insert_session a db = record db {
  sessions =
      db.sessions ++ (record { id = db.next_session_id; attestator_id = a; is_active = true } ∷ []);
  next_session_id = db.next_session_id + 1;
}

-- ra_db_start_session, whose new id is the one that mysql_insert_id returns.
unfoldable pub start_session :
    Server → (attestator_id : ℕ) → Database → Database × RaResult × Option ℕ
start_session s a db =
    connected s (db, error_db_mysql, none)
      (if s.accepts 0
        then (if s.accepts 1
            then (
              insert_session a (close_all_active_sessions a db),
              success,
              some db.next_session_id,
            )
            else (close_all_active_sessions a db, error_db_mysql, none))
        else (db, error_db_mysql, none))

-- ra_db_revoke_session, DBMS_QUERY_DELETE_SESSION
unfoldable pub revoke_session : Server → (session_id : ℕ) → Database → Database × RaResult
revoke_session s i db =
    connected s (db, error_db_mysql)
      (if s.accepts 0
        then (record db { sessions = delete (λ r. r.id == i) db.sessions }, success)
        else (db, error_db_mysql))

-- ra_db_close_session, DBMS_QUERY_CLOSE_SESSION
unfoldable pub close_session : Server → (session_id : ℕ) → Database → Database × RaResult
close_session s i db =
    connected s (db, error_db_mysql)
      (if s.accepts 0
        then (
          record db {
            sessions = update (λ r. r.id == i) (λ r. record r { is_active = false }) db.sessions;
          },
          success,
        )
        else (db, error_db_mysql))

-- The test of DBMS_QUERY_EXTRACT_ACTIVE_SESSION.
abbrev pub is_active_of : ℕ → Session → Bool
is_active_of a r = r.attestator_id == a && r.is_active

-- The result of the query: an anomaly unless it has one row.
unfoldable pub only_row : List Session → RaResult × Option ℕ
only_row [] = (error_session_table_anomaly, none)
only_row (r ∷ []) = (success, some r.id)
only_row (r ∷ r' ∷ rs) = (error_session_table_anomaly, none)

-- ra_db_get_active_session
unfoldable pub get_active_session : Server → (attestator_id : ℕ) → Database → RaResult × Option ℕ
get_active_session s a db =
    connected s (error_db_mysql, none)
      (if s.accepts 0
        then only_row (select (is_active_of a) db.sessions)
        else (error_db_query, none))
