-- ===== src/Protocol/Tests.antt =====
-- One attestation of the small application: eleven rows that the extractor has prepared, a response that
-- arrives byte by byte, and a verdict ten seconds after the request.
use remote_attestation.Prelude.{
  ℕ, zero, suc, ◌≤◌, ◌≡◌, ◌≢◌, refl, ap, inr, true, false, Option, none, some, List, [], ◌∷◌, map,
  length, take, drop, All, arith,
}
use remote_attestation.Prelude.Int.{pos, ◌-ℤ◌}
use remote_attestation.Prelude.RaResult.{RaResult}
use remote_attestation.Prelude.Run.{Run, ok, fault, diverges}
use remote_attestation.DataTable.{get_aid_reference, get_attestator_number, reset_prepared_data}
use remote_attestation.Nonce.{v1}
use remote_attestation.Preparation.Agreement.{IsWalk, prepare_data-IsWalk}
use remote_attestation.DoHash.{blake2}
use remote_attestation.Client.{get_aid_as_string}
use remote_attestation.Database.Sql.{select, exists}
use remote_attestation.Database.Tables.{Database, PreparedData}
use remote_attestation.Database.Nonces.{is_unused, valid_data, get_data_to_verify}
use remote_attestation.Extractor.Attempt.{HasAreas}
use remote_attestation.Extractor.Prepared.{IsRow}
use remote_attestation.Manager.Request.{packet, request_packet}
use remote_attestation.Manager.Serve.{Outside, serve_client}
use remote_attestation.Manager.Delivery.{HasFreshIds, Succeeds}
use remote_attestation.Attestator.{attestator_routine}
use remote_attestation.Attestator.Response.{mallocs_succeed, with_nonce}
use remote_attestation.VerifierForwarder.{Forwarded, verifier_forwarder}
use remote_attestation.VerifierForwarder.Forwarding.{joined}
use remote_attestation.Verifier.{success, DataToVerify, finalize_request, is_in_time, verifier}
use remote_attestation.Protocol.Honest.{serve_client-verified}
use remote_attestation.Examples.{
  memory, base, is_prime, nonce, aid, table, table-IsReady, lib, lib-IsStandard, areas_small, up,
  up-IsUp, tables, client,
}

-- The bytes that the walk of the nonce takes.
abbrev walk : (bs : List ℕ) × IsWalk is_prime refl v1 memory base (with_nonce table nonce) bs
walk =
    let (bs, w, e) =
      prepare_data-IsWalk is_prime refl v1 refl memory base 0 (with_nonce table nonce) nonce
        table-IsReady in
    (bs, w)

-- Rows of prepared data with the ids below a number.
abbrev rows : ℕ → List PreparedData
rows zero = []
rows (suc n) =
    record { id = n; attestator_id = 4; nonce = nonce; data_bytes = walk.0; memory_area = 5 }
    ∷ rows n

abbrev database : Database
database = record (tables 0) { prepared_data = rows 11; next_prepared_data_id = 11 }

rows-IsRow : (n : ℕ) → All (IsRow memory base is_prime v1 4 refl refl 9 table) (rows n)
rows-IsRow zero = tt
rows-IsRow (suc n) =
    (inr (record { long = omega arith; short = omega arith; walk = walk.1 }), rows-IsRow n)

abbrev outside : Outside
outside = record {
  nonce_server = up;
  request_server = up;
  malloc_nonce = true;
  malloc_packet = true;
  sends = true;
  now = 1000;
}

outside-Succeeds : Succeeds outside
outside-Succeeds = record {
  nonce_server = up-IsUp;
  request_server = up-IsUp;
  malloc_nonce = refl;
  malloc_packet = refl;
  sends = refl;
}

fresh_ids : HasFreshIds database
unfolding exists
fresh_ids = record {
  prepared_data =
      (refl, (refl, (refl, (refl, (refl, (refl, (refl, (refl, (refl, (refl, (refl, tt)))))))))));
  requests = tt;
}

enough : 10 ≤ length (valid_data 4 database)
unfolding valid_data is_unused select exists
enough = omega arith

areas : HasAreas 2 table
areas = record {
  valid = table-IsReady.valid;
  some_area = table-IsReady.some_area;
  areas_valid = table-IsReady.areas_valid;
}

-- Byte by byte.
abbrev bytes : List ℕ → List (List ℕ)
bytes [] = []
bytes (b ∷ bs) = (b ∷ []) ∷ bytes bs

joined-bytes : (bs : List ℕ) → joined (bytes bs) ≡ bs
joined-bytes [] = refl
joined-bytes (b ∷ bs) = ap (λ cs. b ∷ cs) (joined-bytes bs)

no_empty_piece : (bs : List ℕ) → All (λ c. length c ≢ 0) (bytes bs)
no_empty_piece [] = tt
no_empty_piece (b ∷ bs) = ((λ e. omega arith), no_empty_piece bs)

abbrev answered : Run (RaResult × Option DataToVerify) → Option DataToVerify
answered (ok (r, out)) = out
answered fault = none
answered diverges = none

abbrev get_data : Database → ℕ → Option DataToVerify
get_data db i = answered (get_data_to_verify up (λ x. x) true true i db)

serve_client-verified_example :
    (d : PreparedData) × (db' : Database) × (sent : List ℕ) × (f : Forwarded) × (serve_client
        outside client database
      ≡ ok (db', packet 0 (get_aid_as_string client) (request_packet 7 d.nonce) true ∷ [], true))
    × (attestator_routine memory base is_prime v1 0 lib blake2 false
          (some (request_packet 7 d.nonce))
          mallocs_succeed
          table
        ≡ ok (reset_prepared_data (with_nonce table d.nonce), some sent))
    × (verifier_forwarder (some (pos (length sent))) 1010 (map some (bytes sent)) ≡ ok (some f))
    × (verifier lib blake2
          (λ aid'. some 2)
          (get_data db')
          (take 44 f.input)
          (drop 44 f.input)
          true
          true
          true
        ≡ ok (finalize_request 7 success 10 ∷ []))
unfolding is_in_time ◌-ℤ◌ get_aid_reference get_attestator_number
serve_client-verified_example =
    serve_client-verified is_prime refl refl v1 lib blake2 memory memory base base 0 9 table table
      outside client database up (λ x. x) aid 300 1010 bytes (λ aid'. some 2) get_data
      (λ db i r out e. ap answered e) joined-bytes no_empty_piece outside-Succeeds up-IsUp
      (omega arith) enough fresh_ids (rows-IsRow 11) lib-IsStandard areas
      (record { areas = refl; counts = refl }) (λ a label k e. refl) areas_small refl refl refl
      (omega arith) (omega arith) (omega arith)
