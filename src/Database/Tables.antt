-- ===== src/Database/Tables.antt =====
-- The tables of setup/create_tables/00_remote_attestation_tables.sql, less their descriptions and the
-- times of a session, and the connection to the server. The MySQL client library is a parameter: a
-- `Server` says which of its calls succeed.
use remote_attestation.Prelude.{ℕ, ◌≡◌, Bool, true, Option, List, if◌then◌else◌}
use remote_attestation.Verifier.{RequestStatus}

pub record Application : Type 0 where
  pub id : ℕ
  pub aid : List ℕ

pub record Attestator : Type 0 where
  pub id : ℕ
  pub application_id : ℕ
  pub attestator_no : ℕ
  pub sleep_avg : ℕ
  pub sleep_var : ℕ

pub record StartupArea : Type 0 where
  pub attestator_id : ℕ
  pub memory_area : ℕ

pub record PreparedData : Type 0 where
  pub id : ℕ
  pub attestator_id : ℕ
  pub nonce : List ℕ
  pub data_bytes : List ℕ
  pub memory_area : ℕ

-- reaction_status_t
pub data ReactionStatus : Type 0 where
  reaction_status_none reaction_status_compromised reaction_status_unknown : ReactionStatus

pub record Reaction : Type 0 where
  pub application_id : ℕ
  pub reaction_status : ReactionStatus

pub record Request : Type 0 where
  pub id : ℕ
  pub prepared_data_id : ℕ
  pub session_id : ℕ
  pub send_time : ℕ
  pub response_time : Option ℕ
  pub status : RequestStatus
  pub validity_time : ℕ
  pub is_startup : Bool

pub record Session : Type 0 where
  pub id : ℕ
  pub attestator_id : ℕ
  pub is_active : Bool

-- The tables, with the AUTO_INCREMENT counters of those that the program inserts into.
pub record Database : Type 0 where
  pub applications : List Application
  pub attestators : List Attestator
  pub startup_areas : List StartupArea
  pub prepared_data : List PreparedData
  pub next_prepared_data_id : ℕ
  pub reactions : List Reaction
  pub requests : List Request
  pub next_request_id : ℕ
  pub sessions : List Session
  pub next_session_id : ℕ

-- What the MySQL library does on one connection: whether mysql_init and mysql_real_connect succeed,
-- which statements do, by their number, and which row of a result comes first.
pub record Server : Type 0 where
  pub init : Bool
  pub connect : Bool
  pub accepts : ℕ → Bool
  pub choice : ℕ

-- The nested tests of each service: what it does without a connection, and with one.
abbrev pub connected {ℓ} : {A : Type ℓ} → Server → A → A → A
connected s failed body = if s.init then (if s.connect then body else failed) else failed

-- A server on which everything succeeds.
pub record IsUp (s : Server) : Type 0 where
  pub init : s.init ≡ true
  pub connect : s.connect ≡ true
  pub accepts : (n : ℕ) → s.accepts n ≡ true
