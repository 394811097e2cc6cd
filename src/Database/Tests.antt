-- ===== src/Database/Tests.antt =====
-- The sessions of one attestator.
use remote_attestation.Prelude.{ℕ, ◌≡◌, ◌≢◌, some, none, arith}
use remote_attestation.Prelude.RaResult.{success, error_session_table_anomaly}
use remote_attestation.Examples.{up, up-IsUp, tables}
use remote_attestation.Database.Sql.{select}
use remote_attestation.Database.Sessions.{start_session, close_session, get_active_session}
use remote_attestation.Database.Active.{
  OneActive, start, SessionStep-OneActive, start_session-get_active_session,
}

one_active : OneActive (tables 0)
unfolding select
one_active a = ground arith

SessionStep-OneActive_example : OneActive (start_session up 4 (tables 0)).0
SessionStep-OneActive_example = SessionStep-OneActive (start up 4) one_active

start_session-get_active_session_example :
    ((start_session up 4 (tables 0)).1 ≡ success)
    × ((start_session up 4 (tables 0)).2 ≡ some 6)
    × (get_active_session up 4 (start_session up 4 (tables 0)).0 ≡ (success, some 6))
    × ((b : ℕ)
        → 4 ≢ b
        → get_active_session up b (start_session up 4 (tables 0)).0
          ≡ get_active_session up b (tables 0))
    × (get_active_session up 4 (close_session up 6 (start_session up 4 (tables 0)).0).0
        ≡ (error_session_table_anomaly, none))
start_session-get_active_session_example = start_session-get_active_session up 4 (tables 0) up-IsUp
