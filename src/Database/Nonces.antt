-- ===== src/Database/Nonces.antt =====
-- The services on the tables ra_prepared_data and ra_request. A nonce is valid while no request refers
-- to its prepared data.
use remote_attestation.Prelude.{
  ℕ, ◌+◌, ◌%◌, ◌^◌, Bool, ◌&&◌, not, Option, none, some, List, [], ◌∷◌, ◌++◌, map, ◌==◌,
  if◌then◌else◌, length,
}
use remote_attestation.Prelude.RaResult.{
  RaResult, success, error_db_mysql, error_db_query, error_db_no_data, error_memory,
}
use remote_attestation.Prelude.Run.{Run, ok, fault}
use remote_attestation.Verifier.{RequestStatus, pending, DataToVerify}
use remote_attestation.Database.Sql.{select, update, exists, fetch_row, join}
use remote_attestation.Database.Tables.{
  PreparedData, Reaction, Request, Database, Server, connected,
}

-- `pd.id NOT IN (SELECT DISTINCT req.prepared_data_id FROM ra_request AS req)`
unfoldable pub is_unused : Database → PreparedData → Bool
is_unused db d = not (exists (λ r. r.prepared_data_id == d.id) db.requests)

-- The rows of DBMS_QUERY_EXTRACT_NONCE, which joins the attestator's own row, less its COUNT.
unfoldable pub valid_data : (attestator_id : ℕ) → Database → List PreparedData
valid_data a db =
    if exists (λ t. t.id == a) db.attestators
    then select (λ d. d.attestator_id == a && is_unused db d) db.prepared_data
    else []

-- The rows of DBMS_QUERY_EXTRACT_NONCE_BY_MEMORY_LABEL.
unfoldable pub valid_data_of_area : (attestator_id memory_area : ℕ) → Database → List PreparedData
valid_data_of_area a label db = select (λ d. d.memory_area == label) (valid_data a db)

-- The row that is fetched, copied when the allocation of the nonce succeeds.
unfoldable pub copied : (malloc : Bool) → Option PreparedData → RaResult × Option PreparedData
copied malloc none = (error_db_no_data, none)
copied malloc (some d) = if malloc then (success, some d) else (error_memory, none)

-- ra_db_get_valid_nonce: its result, the fetched row when it is a success, and `valid_nonce_left` when
-- it is set. COUNT(*) beside other columns makes one row of the selected ones, any of them.
unfoldable pub get_valid_nonce :
    Server
    → (malloc : Bool) → (attestator_id : ℕ) → Database
    → (RaResult × Option PreparedData) × Option ℕ
get_valid_nonce s malloc a db =
    connected s ((error_db_mysql, none), none)
      (if s.accepts 0
        then (copied malloc (fetch_row s.choice (valid_data a db)), some (length (valid_data a db)))
        else ((error_db_mysql, none), none))

-- ra_db_get_valid_nonce_by_area_label
unfoldable pub get_valid_nonce_by_area_label :
    Server
    → (malloc : Bool) → (attestator_id memory_area : ℕ) → Database
    → RaResult × Option PreparedData
get_valid_nonce_by_area_label s malloc a label db =
    connected s (error_db_mysql, none)
      (if s.accepts 0
        then copied malloc (fetch_row s.choice (valid_data_of_area a label db))
        else (error_db_mysql, none))

-- ra_db_get_area_labels_to_attest_at_startup: the labels, and their number as a uint16_t. When it
-- fails it reads `*labels`, which its caller has not set.
unfoldable pub get_area_labels_to_attest_at_startup :
    Server → (malloc : Bool) → (attestator_id : ℕ) → Database → Run (List ℕ × ℕ)
get_area_labels_to_attest_at_startup s malloc a db =
    let labels : List ℕ =
      map (λ r. r.memory_area) (select (λ r. r.attestator_id == a) db.startup_areas) in
    connected s fault (
      if s.accepts 0
      then (if length labels == 0
          then ok ([], 0)
          else if malloc
          then ok (labels, length labels % 2 ^ 16)
          else fault)
      else fault)

-- DBMS_QUERY_INSERT_DATA
unfoldable pub insert_data :
    (attestator_id : ℕ) (nonce data_bytes : List ℕ) (memory_area : ℕ) → Database → Database
insert_data a nonce data_bytes label db = record db {
  prepared_data =
      db.prepared_data
      ++ (record {
        id = db.next_prepared_data_id;
        attestator_id = a;
        nonce = nonce;
        data_bytes = data_bytes;
        memory_area = label;
      }
          ∷ []);
  next_prepared_data_id = db.next_prepared_data_id + 1;
}

-- The row of DBMS_QUERY_INSERT_REQUEST with the defaults of the table; `now` is CURRENT_TIMESTAMP.
unfoldable pub new_request :
    (now prepared_data_id session_id validity_time : ℕ) (is_startup : Bool) → Database → Request
new_request now p session validity is_startup db = record {
  id = db.next_request_id;
  prepared_data_id = p;
  session_id = session;
  send_time = now;
  response_time = none;
  status = pending;
  validity_time = validity;
  is_startup = is_startup;
}

unfoldable pub insert_request :
    (now prepared_data_id session_id validity_time : ℕ) (is_startup : Bool) → Database → Database
insert_request now p session validity is_startup db = record db {
  requests = db.requests ++ (new_request now p session validity is_startup db ∷ []);
  next_request_id = db.next_request_id + 1;
}

-- The trigger on ra_request, once for each row that was updated. Its effect on the reactions is a
-- parameter.
pub run_trigger : (Database → Request → List Reaction) → List Request → Database → Database
run_trigger trigger [] db = db
run_trigger trigger (r ∷ rs) db = run_trigger trigger rs (record db { reactions = trigger db r })

-- ra_db_finalize_request, DBMS_QUERY_FINALIZE_REQUEST
unfoldable pub finalize_request :
    Server
    → (Database → Request → List Reaction)
    → (request_id : ℕ) → RequestStatus
    → (response_time : ℕ) → Database
    → Database × RaResult
unfolding run_trigger
finalize_request s trigger i status time db =
    connected s (db, error_db_mysql)
      (if s.accepts 0
        then (
          let rows : List Request =
                update (λ r. r.id == i)
                  (λ r. record r { response_time = some time; status = status }) db.requests in
              run_trigger trigger (select (λ r. r.id == i) rows) (record db { requests = rows }),
          success,
        )
        else (db, error_db_mysql))

-- The row of DBMS_QUERY_EXTRACT_PREPARED_DATA_BY_REQUEST, with the results of the two allocations. When
-- the first fails, the result is a success that sets no buffer; when the second fails, the clean-up
-- passes to `free` the address of a variable.
unfoldable pub delivered :
    (mktime : ℕ → ℕ) (malloc_nonce malloc_data : Bool)
    → Option (PreparedData × Request)
    → Run (RaResult × Option DataToVerify)
delivered mktime malloc_nonce malloc_data none = ok (error_db_query, none)
delivered mktime malloc_nonce malloc_data (some (d, r)) =
    if malloc_nonce
    then (if malloc_data
        then ok (
          success,
          some (record {
            nonce = d.nonce;
            prepared_data = d.data_bytes;
            send_time = mktime r.send_time;
            validity_time_sec = r.validity_time;
          }),
        )
        else fault)
    else ok (success, none)

-- ra_db_get_data_to_verify, less the status, which its caller does not read. `mktime` is the time_t
-- that strptime and mktime make of the digits of UNIX_TIMESTAMP.
unfoldable pub get_data_to_verify :
    Server
    → (mktime : ℕ → ℕ) (malloc_nonce malloc_data : Bool) (request_id : ℕ) → Database
    → Run (RaResult × Option DataToVerify)
get_data_to_verify s mktime malloc_nonce malloc_data i db =
    connected s (ok (error_db_mysql, none)) (
      if s.accepts 0
      then delivered mktime malloc_nonce malloc_data (
          fetch_row s.choice
            (join (λ d r. d.id == r.prepared_data_id && r.id == i) db.prepared_data db.requests))
      else ok (error_db_mysql, none))
