-- ===== src/Verifier.antt =====
-- src/server-components/verifier.c: one run of the verifier on a response. The bytes that the two calls
-- of read deliver are arguments, the answers of the database are parameters, and the result is the
-- list of the writes to the database, in order. The log is left out.
pub mod Verdict
pub mod Success
pub mod Tampered
mod Tests
use remote_attestation.Prelude.{
  ℕ, ◌+◌, ◌-◌, ◌%◌, ◌^◌, Bool, true, false, Option, none, some, List, [], ◌∷◌, ◌==◌, ltb, leb,
  if◌then◌else◌, length, take, drop,
}
use remote_attestation.Prelude.Bytes.{of_bytes, memcmp, hex_string}
use remote_attestation.Prelude.Int.{ℤ, pos, negsuc, ◌-ℤ◌, ltb_ℤ, is_zero}
use remote_attestation.Prelude.Run.{Run, ok, fault, ◌>>=◌, deref}
use remote_attestation.Client.{aid_size}
use remote_attestation.DoHash.{Libraries, Algorithm, Packed, do_hash}

-- request_status_t
pub data RequestStatus : Type 0 where
  pending success failed expired_success expired_failed expired_none : RequestStatus

-- What ra_db_get_data_to_verify delivers and the verifier uses. A time is the 64 bits of a time_t.
pub record DataToVerify : Type 0 where
  pub nonce : List ℕ
  pub prepared_data : List ℕ
  pub send_time : ℕ
  pub validity_time_sec : ℕ

-- ra_db_set_reaction_status with REACTION_STATUS_COMPROMISED, and ra_db_finalize_request.
pub data DbWrite : Type 0 where
  set_compromised : (application_id : ℕ) → DbWrite
  finalize_request : (request_id : ℕ) → RequestStatus → (response_time : ℕ) → DbWrite

-- The fields of attestation_header_buffer.
pub record Header : Type 0 where
  pub response_time : ℕ
  pub aid : List ℕ
  pub attestator_number : ℕ
  pub request_id : ℕ
  pub hash_size : ℕ

abbrev pub verifier_resp_header_size : ℕ
verifier_resp_header_size = 44

unfoldable pub parse_header : List ℕ → Header
parse_header bs = record {
  response_time = of_bytes (take 8 bs);
  aid = take aid_size (drop 8 bs);
  attestator_number = of_bytes (take 8 (drop 24 bs));
  request_id = of_bytes (take 8 (drop 32 bs));
  hash_size = of_bytes (take 4 (drop 40 bs));
}

-- The value of 64 bits as a signed integer.
abbrev pub signed_64 : ℕ → ℤ
signed_64 n = if ltb n (2 ^ 63) then pos n else negsuc (2 ^ 64 - 1 - n)

-- `difftime(received, sent) < validity`; difftime is exact here.
unfoldable pub is_in_time : (received : ℕ) → DataToVerify → Bool
is_in_time received d =
    ltb_ℤ (signed_64 received -ℤ signed_64 d.send_time) (pos d.validity_time_sec)

-- `memcmp(computed, received, received_size) == 0`: the length is the one that was received, and a
-- comparison behind the end of the computed hash is a fault.
unfoldable pub is_same_hash : (computed received : List ℕ) → Run Bool
is_same_hash computed received =
    if leb (length received) (length computed)
    then ok (is_zero (memcmp (take (length received) computed) received))
    else fault

unfoldable pub request_status : (same_hash in_time : Bool) → RequestStatus
request_status same_hash in_time =
    if same_hash
    then (if in_time then success else expired_success)
    else if in_time
    then failed
    else expired_failed

module _ (lib : Libraries) (algorithm : Algorithm) (get_application_id : List ℕ → Option ℕ)
    (get_data_to_verify : ℕ → Option DataToVerify) where
  -- From the comparison on. The application id is the one of the AID in the header; it is not set when
  -- the database does not know the AID.
  pub conclude : Header → DataToVerify → (computed received : List ℕ) → Run (List DbWrite)
  conclude h d computed received = is_same_hash computed received >>= λ same.
      let in_time : Bool = is_in_time h.response_time d in
      let finalize : DbWrite =
        finalize_request h.request_id (request_status same in_time)
          ((h.response_time + 2 ^ 64 - d.send_time) % 2 ^ 32) in
      if same
      then ok (finalize ∷ [])
      else (deref (get_application_id (hex_string h.aid)) >>= λ application_id.
          ok (set_compromised application_id ∷ finalize ∷ []))

  -- Behind the header.
  pub verify :
      Header → (received : List ℕ) (malloc malloc_buffer malloc_packed : Bool) → Run (List DbWrite)
  verify h received malloc malloc_buffer malloc_packed =
      if malloc
      then (if length received == h.hash_size
          then elim (get_data_to_verify h.request_id) [
            | none ↦ ok []
            | some d ↦
                do_hash lib algorithm malloc_buffer malloc_packed d.nonce d.prepared_data h.aid
                  h.attestator_number []
                >>= λ (r, out). elim out [ none ↦ ok [] | some p ↦ conclude h d p.bytes received ]
          ]
          else ok [])
      else ok []

  -- The verifier, with the bytes of the two reads and the results of its three allocations.
  unfoldable pub verifier :
      (header received : List ℕ) (malloc malloc_buffer malloc_packed : Bool) → Run (List DbWrite)
  verifier header received malloc malloc_buffer malloc_packed =
      if length header == verifier_resp_header_size
      then verify (parse_header header) received malloc malloc_buffer malloc_packed
      else ok []
