-- ===== src/Manager/Tests.antt =====
-- A manager with one client, on a database with enough nonces.
use remote_attestation.Prelude.{
  ℕ, zero, suc, ◌+◌, ◌-◌, ◌*◌, ◌≤◌, ◌<◌, ◌≡◌, ◌==◌, refl, true, false, none, some, [], ◌∷◌, length,
  arith,
}
use remote_attestation.Prelude.RaResult.{success, is_success}
use remote_attestation.Prelude.Run.{ok, Returns}
use remote_attestation.Client.{get_aid_as_string}
use remote_attestation.Examples.{up, up-IsUp, prepared, tables, client, exact}
use remote_attestation.Database.Tables.{Database, PreparedData}
use remote_attestation.Database.Sql.{select, exists, fetch_row}
use remote_attestation.Database.Nonces.{is_unused, valid_data, get_data_to_verify, insert_data}
use remote_attestation.Database.Unused.{NoReuse}
use remote_attestation.Manager.Request.{packet, request_packet}
use remote_attestation.Manager.Serve.{Outside, serve_client}
use remote_attestation.Manager.Fresh.{IsServed, serve_client-IsServed}
use remote_attestation.Manager.Delivery.{
  HasFreshIds, Succeeds, recorded, serve_client-get_data_to_verify,
}
use remote_attestation.Prelude.Int.{pos}
use remote_attestation.GenericList.{insert, is_containing, count}
use remote_attestation.SchedulerQueue as SchedulerQueue
use remote_attestation.Database.Lookup.{get_attestation_parameters}
use remote_attestation.Database.Nonces.{
  get_area_labels_to_attest_at_startup, get_valid_nonce_by_area_label, valid_data_of_area, copied,
}
use remote_attestation.Manager.Serve.{Attempt, attest_client_at_startup, find_data}
use remote_attestation.Manager.Routine.{
  ActualManager, Wake, client_up, die, signalled, on_client_up, after_insert, reschedule, round,
}
use remote_attestation.Manager.Invariant.{IsServable, IsConsistent}
use remote_attestation.Manager.Reachable as Reach
use remote_attestation.Manager.Reachable.{
  Runs, Reachable, start, message, after_round, Reachable-IsConsistent,
}
use remote_attestation.Manager.Startup.{
  answer, errors_before, first_tries, seen, launches, find_data-ends,
}
use remote_attestation.Database.Sql.{join, beside}
use remote_attestation.Database.Lookup.{Parameters, found}
use remote_attestation.Manager.Listener.{Mailbox, Calls, message_open, dispatch}
use remote_attestation.Manager.Assignment.{IsAssigned, Succeed, dispatch-IsAssigned}
use remote_attestation.Manager.Sleep.{compute_random_sleep, compute_random_sleep-bounds}

abbrev outside : Outside
outside = record {
  nonce_server = up;
  request_server = up;
  malloc_nonce = true;
  malloc_packet = true;
  sends = true;
  now = 1000;
}

no_requests : (n : ℕ) → NoReuse (tables n).requests
unfolding select
no_requests n p = omega arith

serve_client-IsServed_example :
    Returns (IsServed client (tables 11)) (serve_client outside client (tables 11))
serve_client-IsServed_example =
    serve_client-IsServed outside client (tables 11) refl (omega arith) (no_requests 11)

fresh_ids : HasFreshIds (tables 11)
unfolding exists
fresh_ids = record {
  prepared_data =
      (refl, (refl, (refl, (refl, (refl, (refl, (refl, (refl, (refl, (refl, (refl, tt)))))))))));
  requests = tt;
}

outside-Succeeds : Succeeds outside
outside-Succeeds = record {
  nonce_server = up-IsUp;
  request_server = up-IsUp;
  malloc_nonce = refl;
  malloc_packet = refl;
  sends = refl;
}

enough : 10 ≤ length (valid_data 4 (tables 11))
unfolding valid_data is_unused select exists
enough = omega arith

serve_client-get_data_to_verify_example :
    (d : PreparedData) × (select (λ x. x.id == d.id) (prepared 11) ≡ d ∷ [])
    × (d.attestator_id ≡ 4)
    × (select (λ r. r.prepared_data_id == d.id) (tables 11).requests ≡ [])
    × (serve_client outside client (tables 11)
        ≡ ok (
          recorded outside client d (tables 11),
          packet 0 (get_aid_as_string client) (request_packet 7 d.nonce) true ∷ [],
          true,
        ))
    × (get_data_to_verify up (λ t. t) true true 7 (recorded outside client d (tables 11))
        ≡ ok (
          success,
          some (record {
            nonce = d.nonce;
            prepared_data = d.data_bytes;
            send_time = 1000;
            validity_time_sec = 1800;
          }),
        ))
serve_client-get_data_to_verify_example =
    serve_client-get_data_to_verify outside client (tables 11) up (λ t. t) outside-Succeeds up-IsUp
      (omega arith) enough fresh_ids

compute_random_sleep-bounds_example :
    Returns
      (λ n. (1000 * (10 - 1) < n) × (n ≤ 1000 * (10 + 1)))
      (compute_random_sleep 123456 client)
compute_random_sleep-bounds_example =
    compute_random_sleep-bounds 123456 client (omega arith) (omega arith) (omega arith)

-- A client is passed to a manager that serves nobody yet, and a round later it is scheduled.
abbrev no_areas : Database
no_areas = record (tables 0) { startup_areas = [] }

abbrev wake : Wake exact pos
wake = signalled (pos 0) (record { server = up; malloc = true; runs = [] }) 0 true true true

abbrev serving : ActualManager exact pos
serving = record {
  clients_list = record { items = client ∷ []; items_count = 1 };
  scheduled_clients = record {
    items = record { client = client; delta_time_to_sleep = pos 11000 } ∷ [];
    items_count = 1;
  };
  clients_count = 1;
  action = client_up;
  passing_client = none;
  local_force_exit = false;
}

client-IsServable : IsServable client
client-IsServable = record { attestator = omega arith; sleep = refl }

first_round :
    round exact pos wake (Reach.started exact pos client_up (some client)) no_areas
    ≡ ok (serving, no_areas, [])
unfolding round on_client_up after_insert insert is_containing reschedule SchedulerQueue.insert
    SchedulerQueue.update_time_unslept attest_client_at_startup get_area_labels_to_attest_at_startup
    compute_random_sleep select count
first_round = refl

no_startup : attest_client_at_startup up true [] client no_areas ≡ ok (no_areas, [])
unfolding attest_client_at_startup get_area_labels_to_attest_at_startup select
no_startup = refl

Reachable-IsConsistent_example :
    IsConsistent exact pos serving
    × ((db : Database) (w : Wake exact pos)
        → Runs exact pos serving db w
        → Returns (λ out. Reachable exact pos out.0) (round exact pos w serving db))
Reachable-IsConsistent_example = Reachable-IsConsistent exact pos (
    after_round (message (start {a = die} {p = none}))
      (Reach.up client refl refl client-IsServable no_startup) first_round)

-- A client that connects while the second manager has the fewest clients.
abbrev calls : Calls
calls = record {
  parameters = up;
  active = up;
  session = up;
  reaction = up;
  revoke = up;
  malloc = true;
}

abbrev parameters : Parameters
parameters = record { application_id = 2; attestator_id = 4; sleep_avg = 10; sleep_var = 1 }

abbrev mailbox : ℕ → Mailbox
mailbox n = record { clients_count = n; action = client_up; passing_client = none }

is_known :
    get_attestation_parameters (λ a b. true) up (b'0' ∷ b'1' ∷ []) 0 (tables 0)
    ≡ (success, some parameters)
unfolding get_attestation_parameters found fetch_row join beside select
is_known = refl

calls-Succeed : Succeed calls
calls-Succeed = record { session = up-IsUp; reaction = up-IsUp; malloc = refl }

dispatch-IsAssigned_example :
    Returns
      (IsAssigned up (b'0' ∷ b'1' ∷ []) 0 parameters (mailbox 3 ∷ mailbox 1 ∷ mailbox 1 ∷ []))
      (dispatch
        (λ a b. true)
        calls
        message_open
        (b'0' ∷ b'1' ∷ [])
        0
        (mailbox 3 ∷ mailbox 1 ∷ mailbox 1 ∷ [])
        (tables 0))
dispatch-IsAssigned_example =
    dispatch-IsAssigned (λ a b. true) calls (b'0' ∷ b'1' ∷ []) 0 parameters
      (mailbox 3 ∷ mailbox 1 ∷ mailbox 1 ∷ []) (tables 0) up calls-Succeed up-IsUp (λ e. cc)
      is_known

-- Prepared data that is there at the second try.
abbrev extractor_runs : ℕ → Database → Database
extractor_runs zero db = db
extractor_runs (suc n) db = insert_data 4 (9 ∷ []) (8 ∷ []) 1 db

abbrev tries : ℕ → Attempt
tries n = record { server = up; malloc = true; change = extractor_runs n }

abbrev row : PreparedData
row = record { id = 0; attestator_id = 4; nonce = 9 ∷ []; data_bytes = 8 ∷ []; memory_area = 1 }

find_data-ends_example :
    find_data client 1 0 (first_tries 3 tries) (tables 0)
    ≡ ok (
      seen tries 1 (tables 0),
      launches client (1 - errors_before client 1 tries 1 (tables 0)),
      some row,
    )
unfolding errors_before seen get_valid_nonce_by_area_label copied valid_data_of_area valid_data
    is_unused select exists fetch_row insert_data
find_data-ends_example =
    find_data-ends client 1 tries 1 3 0 (tables 0) waits no_errors second (omega arith)
  where
    waits : (k : ℕ) → k < 1 → is_success (answer client 1 tries k (tables 0)).0 ≡ false
    waits zero lt = refl
    waits (suc k) lt = absurd (omega arith)

    no_errors : 0 + errors_before client 1 tries 1 (tables 0) < 5
    no_errors = omega arith

    second : answer client 1 tries 1 (tables 0) ≡ (success, some row)
    second = refl
