-- ===== src/Manager/Serve.antt =====
-- serve_client and attest_client_at_startup of src/server-components/manager.c.
use remote_attestation.Prelude.{
  ℕ, ◌+◌, Bool, true, false, Option, none, some, List, [], ◌∷◌, ◌++◌, if◌then◌else◌, ltb, leb, ◌==◌,
  take,
}
use remote_attestation.Prelude.RaResult.{RaResult, success, error_db_no_data}
use remote_attestation.Prelude.Run.{Run, ok, fault, diverges, ◌>>=◌, deref}
use remote_attestation.Client.{Client, get_aid_as_string}
use remote_attestation.Database.Tables.{Database, PreparedData, Server}
use remote_attestation.Database.Nonces.{
  get_valid_nonce, get_valid_nonce_by_area_label, get_area_labels_to_attest_at_startup,
}
use remote_attestation.Manager.Request.{Event, extractor, send_ra_request}

abbrev pub nonce_critical_threshold : ℕ
nonce_critical_threshold = 10

abbrev pub attest_at_startup_max_errors : ℕ
attest_at_startup_max_errors = 5

-- The environment of one request: the two connections, the allocations, the time, and the result of
-- the send.
pub record Outside : Type 0 where
  pub nonce_server : Server
  pub request_server : Server
  pub malloc_nonce : Bool
  pub malloc_packet : Bool
  pub sends : Bool
  pub now : ℕ

-- The request for a row of prepared data, on behalf of a client.
unfoldable pub request_for :
    Outside
    → Client
    → (is_startup : Bool) → PreparedData
    → Database
    → Run (Database × List Event × Bool)
request_for o c is_startup d db =
    send_ra_request o.request_server o.malloc_packet o.sends o.now d.id d.nonce
      (get_aid_as_string c) c.attestator_number is_startup c.session_id db

-- serve_client behind ra_db_get_valid_nonce. RA_ERROR_DB_NO_DATA comes with `valid_nonce_left` 0.
unfoldable pub serve_found :
    Outside
    → Client
    → Database
    → (RaResult × Option PreparedData) × Option ℕ
    → Run (Database × List Event × Bool)
serve_found o c db ((success, some d), some left) =
    if ltb left nonce_critical_threshold
    then ok (db, extractor (get_aid_as_string c) c.attestator_number ∷ [], false)
    else request_for o c false d db
serve_found o c db ((error_db_no_data, d), some left) =
    if ltb left nonce_critical_threshold
    then ok (db, extractor (get_aid_as_string c) c.attestator_number ∷ [], false)
    else fault
serve_found o c db ((success, d), left) = fault
serve_found o c db ((error_db_no_data, d), none) = fault
serve_found o c db ((_, d), left) = ok (db, [], false)

-- serve_client
unfoldable pub serve_client : Outside → Client → Database → Run (Database × List Event × Bool)
unfolding serve_found
serve_client o c db =
    serve_found o c db (get_valid_nonce o.nonce_server o.malloc_nonce c.attestator_id db)

-- One try of the loop over ra_db_get_valid_nonce_by_area_label: its connection and allocation, and what
-- other processes, the extractor among them, have done to the tables since the one before.
pub record Attempt : Type 0 where
  pub server : Server
  pub malloc : Bool
  pub change : Database → Database

-- What follows a try with the number of errors before it: `none` is the end by too many errors.
unfoldable pub after_attempt :
    Client
    → (errors : ℕ) → Database
    → RaResult × Option PreparedData
    → (again next : Run (Database × List Event × Option PreparedData))
    → Run (Database × List Event × Option PreparedData)
after_attempt c errors db (success, some d) again next = ok (db, [], some d)
after_attempt c errors db (success, none) again next = fault
after_attempt c errors db (error_db_no_data, d) again next = again >>= λ (db', es, found).
    ok (db', extractor (get_aid_as_string c) c.attestator_number ∷ es, found)
after_attempt c errors db (_, d) again next =
    if leb attest_at_startup_max_errors (errors + 1) then ok (db, [], none) else next

-- The loop itself. While there is no data it launches the extractor and tries again at once, with no
-- limit; the list holds as many tries as are observed.
unfoldable pub find_data :
    Client
    → (memory_area errors : ℕ) → List Attempt
    → Database
    → Run (Database × List Event × Option PreparedData)
unfolding after_attempt
find_data c label errors [] db = diverges
find_data c label errors (a ∷ rest) db =
    let again = find_data c label errors rest (a.change db) in
    let next = find_data c label (errors + 1) rest (a.change db) in
    after_attempt c errors (a.change db)
      (get_valid_nonce_by_area_label a.server a.malloc c.attestator_id label (a.change db)) again
      next

-- The environment of one area.
pub record AreaRun : Type 0 where
  pub attempts : List Attempt
  pub outside : Outside

-- The loop over the labels. After too many errors the request is built from variables that are not
-- set. Whether it is sent is only printed.
unfoldable pub attest_areas :
    Client → (labels : List ℕ) → List AreaRun → Database → Run (Database × List Event)
unfolding find_data
attest_areas c [] runs db = ok (db, [])
attest_areas c (label ∷ labels) [] db = diverges
attest_areas c (label ∷ labels) (run ∷ runs) db =
    find_data c label 0 run.attempts db >>= λ (db', es, found).
    (deref found >>= λ d.
    (request_for run.outside c true d db' >>= λ (sent_db, sent_es, sent).
    (attest_areas c labels runs sent_db >>= λ (last, rest). ok (last, es ++ sent_es ++ rest))))

-- attest_client_at_startup, less the flag, which its caller does not read.
unfoldable pub attest_client_at_startup :
    Server → (malloc : Bool) → List AreaRun → Client → Database → Run (Database × List Event)
unfolding attest_areas
attest_client_at_startup s malloc runs c db =
    get_area_labels_to_attest_at_startup s malloc c.attestator_id db >>= λ (labels, count).
    if count == 0 then ok (db, []) else attest_areas c (take count labels) runs db
