-- ===== src/Database/Active.antt =====
-- The active session of an attestator: what the services of Database.Sessions do to it.
use remote_attestation.Prelude.{
  ℕ, ◌≤◌, ◌≡◌, ◌≢◌, refl, true, false, none, some, List, [], ◌∷◌, ◌++◌, append-nil, ◌==◌,
  if◌then◌else◌, length, arith,
}
use remote_attestation.Prelude.RaResult.{success, error_session_table_anomaly}
use remote_attestation.Database.Sql.{
  select, select-append, select-update_none, select-update_other, length-select-delete,
  length-select-update, select-update_gone,
}
use remote_attestation.Database.Tables.{Database, Server, Session, IsUp}
use remote_attestation.Database.Sessions.{
  close_all_active_sessions, insert_session, start_session, revoke_session, close_session,
  is_active_of, only_row, get_active_session,
}

abbrev pub active_sessions : ℕ → Database → List Session
active_sessions a db = select (is_active_of a) db.sessions

-- No attestator has two active sessions.
abbrev pub OneActive : Database → Type 0
OneActive db = (a : ℕ) → length (active_sessions a db) ≤ 1

close_all_same : (a : ℕ) (db : Database) → active_sessions a (close_all_active_sessions a db) ≡ []
unfolding close_all_active_sessions
close_all_same a db =
    select-update_none (is_active_of a) (λ r. r.attestator_id == a) _ db.sessions
      (λ r h. ground arith) (λ r. ground arith)

close_all_other :
    (a b : ℕ) (db : Database)
    → a ≢ b
    → active_sessions b (close_all_active_sessions a db) ≡ active_sessions b db
unfolding close_all_active_sessions
close_all_other a b db ne =
    select-update_other (is_active_of b) (λ r. r.attestator_id == a) _ db.sessions
      (λ r h. ground arith)

abbrev opened : ℕ → Database → Session
opened a db = record { id = db.next_session_id; attestator_id = a; is_active = true }

insert_session-active :
    (a b : ℕ) (db : Database)
    → active_sessions b (insert_session a db)
      ≡ active_sessions b db ++ (if a == b then opened a db ∷ [] else [])
unfolding insert_session select
insert_session-active a b db =
    rw (select-append (is_active_of b) db.sessions (opened a db ∷ [])) (ground arith)

-- Both statements of ra_db_start_session.
abbrev pub started : ℕ → Database → Database
started a db = insert_session a (close_all_active_sessions a db)

started_same : (a : ℕ) (db : Database) → active_sessions a (started a db) ≡ opened a db ∷ []
unfolding close_all_active_sessions
started_same a db =
    rw (insert_session-active a a (close_all_active_sessions a db), close_all_same a db)
      (ground arith)

started_other :
    (a b : ℕ) (db : Database) → a ≢ b → active_sessions b (started a db) ≡ active_sessions b db
started_other a b db ne =
    rw (insert_session-active a b (close_all_active_sessions a db), close_all_other a b db ne)
      (ground (arith, append-nil (active_sessions b db)))

close_all-OneActive :
    (a : ℕ) (db : Database) → OneActive db → OneActive (close_all_active_sessions a db)
close_all-OneActive a db h b = ground (arith, close_all_same a db, close_all_other a b db, h b)

started-OneActive : (a : ℕ) (db : Database) → OneActive db → OneActive (started a db)
started-OneActive a db h b = ground (arith, started_same a db, started_other a b db, h b)

-- The services that change sessions, with every behaviour of the server.
pub data SessionStep (db : Database) : Database → Type 0 where
  start : (s : Server) (a : ℕ) → SessionStep db (start_session s a db).0
  revoke : (s : Server) (i : ℕ) → SessionStep db (revoke_session s i db).0
  close : (s : Server) (i : ℕ) → SessionStep db (close_session s i db).0

-- No attestator has two active sessions: if none has before, none has after ra_db_start_session,
-- ra_db_revoke_session or ra_db_close_session, whichever of the calls of the MySQL library fail.
pub SessionStep-OneActive : {db db' : Database} → SessionStep db db' → OneActive db → OneActive db'
unfolding start_session revoke_session close_session
SessionStep-OneActive {db} (start s a) h b =
    ground (arith, h b, close_all-OneActive a db h b, started-OneActive a db h b)
SessionStep-OneActive {db} (revoke s i) h b =
    ground (arith, h b, length-select-delete (is_active_of b) (λ r. r.id == i) db.sessions)
SessionStep-OneActive {db} (close s i) h b = ground (
  arith,
  h b,
  length-select-update (is_active_of b) (λ r. r.id == i) (λ r. record r { is_active = false })
      db.sessions (λ r. ground arith),
)

-- ra_db_get_active_session on a server that is up reads the active sessions.
get_active_session-active_sessions :
    (s : Server) (a : ℕ) (db : Database)
    → IsUp s
    → get_active_session s a db ≡ only_row (active_sessions a db)
unfolding get_active_session
get_active_session-active_sessions s a db up = rw (up.init, up.connect, up.accepts 0) refl

pub start_session-started :
    (s : Server) (a : ℕ) (db : Database)
    → IsUp s
    → start_session s a db ≡ (started a db, success, some db.next_session_id)
unfolding start_session
start_session-started s a db up = rw (up.init, up.connect, up.accepts 0, up.accepts 1) refl

-- A session that is open is the active one of its attestator.
pub get_active_started :
    (s : Server) (a : ℕ) (db : Database)
    → IsUp s
    → get_active_session s a (started a db) ≡ (success, some db.next_session_id)
unfolding only_row
get_active_started s a db up =
    rw (get_active_session-active_sessions s a (started a db) up, started_same a db) refl

close_session-started :
    (s : Server) (a : ℕ) (db : Database)
    → IsUp s
    → (active_sessions a (close_session s db.next_session_id (started a db)).0 ≡ [])
      × ((close_session s db.next_session_id (started a db)).1 ≡ success)
unfolding close_session
close_session-started s a db up =
    rw (up.init, up.connect, up.accepts 0)
      (
        select-update_gone (is_active_of a) (λ r. r.id == db.next_session_id)
            (λ r. record r { is_active = false }) (started a db).sessions
            (rw (started_same a db) (ground arith, tt)) (λ r. ground arith),
        refl,
      )

-- On servers that are up, a session that ra_db_start_session opens is from then on the one that
-- ra_db_get_active_session delivers for its attestator, whatever was active before; for another
-- attestator it answers as before; and after ra_db_close_session of the new session it reports an
-- anomaly, as no session of the attestator is active.
pub start_session-get_active_session :
    (s : Server) (a : ℕ) (db : Database)
    → IsUp s
    → ((start_session s a db).1 ≡ success)
      × ((start_session s a db).2 ≡ some db.next_session_id)
      × (get_active_session s a (start_session s a db).0 ≡ (success, some db.next_session_id))
      × ((b : ℕ)
          → a ≢ b
          → get_active_session s b (start_session s a db).0 ≡ get_active_session s b db)
      × (get_active_session s a (close_session s db.next_session_id (start_session s a db).0).0
          ≡ (error_session_table_anomaly, none))
unfolding only_row
start_session-get_active_session s a db up =
    let read = λ (b : ℕ) (d : Database). get_active_session-active_sessions s b d up in
    rw (start_session-started s a db up) (
      refl,
      refl,
      get_active_started s a db up,
      λ b ne. rw (read b (started a db), read b db, started_other a b db ne) refl,
      rw
          (
            read a (close_session s db.next_session_id (started a db)).0,
            (close_session-started s a db up).0,
          )
          refl,
    )
