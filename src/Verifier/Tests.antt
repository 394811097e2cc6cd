-- ===== src/Verifier/Tests.antt =====
-- The verifier on the response of an attestator, and on one without a hash.
use remote_attestation.Prelude.{
  ℕ, ◌≡◌, refl, sym, true, Option, none, some, List, [], ◌∷◌, ◌++◌, ◌==◌, if◌then◌else◌, length,
  take, drop, arith,
}
use remote_attestation.Prelude.Bytes.{to_bytes, of_bytes, length-to_bytes}
use remote_attestation.Prelude.Int.{◌-ℤ◌}
use remote_attestation.Prelude.Run.{Run, ok}
use remote_attestation.DoHash.{blake2, Packed}
use remote_attestation.DoHash.Laws.{message}
use remote_attestation.Attestator.Response.{response}
use remote_attestation.Verifier.{
  DataToVerify, DbWrite, set_compromised, finalize_request, success, failed, parse_header,
  is_in_time, verifier,
}
use remote_attestation.Verifier.Verdict.{verifier-response, verifier-empty_hash}
use remote_attestation.Verifier.Tampered.{verifier-tampered}
use remote_attestation.Verifier.Success.{Accepted, verifier-success}
use remote_attestation.Examples.{nonce, aid, lib, lib-IsStandard}

abbrev stored : DataToVerify
stored = record {
  nonce = nonce;
  prepared_data = 1 ∷ 2 ∷ 3 ∷ [];
  send_time = 1000;
  validity_time_sec = 30;
}

abbrev get_application_id : List ℕ → Option ℕ
get_application_id s = some 4

abbrev get_data_to_verify : ℕ → Option DataToVerify
get_data_to_verify id = if id == 77 then some stored else none

abbrev packed : Packed
packed = record {
  bytes = to_bytes 32 (length (message nonce stored.prepared_data aid 300));
  size = 32;
}

abbrev input : ℕ → List ℕ
input time = to_bytes 8 time ++ response aid 300 77 packed

abbrev run : ℕ → Run (List DbWrite)
run time =
    verifier lib blake2 get_application_id get_data_to_verify (take 44 (input time))
      (drop 44 (input time)) true true true

-- In time.
verifier-response_example : run 1010 ≡ ok (finalize_request 77 success 10 ∷ [])
unfolding is_in_time ◌-ℤ◌
verifier-response_example =
    verifier-response lib blake2 get_application_id get_data_to_verify stored aid 1010 300 77 packed
      lib-IsStandard refl (refl, refl)
      (sym (length-to_bytes 32 (length (message nonce stored.prepared_data aid 300)))) (omega arith)
      refl (omega arith) (omega arith) (omega arith) (omega arith)

in_time_run : run 1010 ≡ ok (finalize_request 77 success 10 ∷ [])
unfolding is_in_time ◌-ℤ◌
in_time_run =
    verifier-response lib blake2 get_application_id get_data_to_verify stored aid 1010 300 77 packed
      lib-IsStandard refl (refl, refl)
      (sym (length-to_bytes 32 (length (message nonce stored.prepared_data aid 300)))) (omega arith)
      refl (omega arith) (omega arith) (omega arith) (omega arith)

verifier-success_example :
    (77 ≡ (parse_header (take 44 (input 1010))).request_id)
    × Accepted lib blake2 get_application_id get_data_to_verify
        (parse_header (take 44 (input 1010)))
        (drop 44 (input 1010))
        true
        true
        (get_data_to_verify 77)
verifier-success_example =
    verifier-success lib blake2 get_application_id get_data_to_verify (take 44 (input 1010))
      (drop 44 (input 1010)) true true true (finalize_request 77 success 10 ∷ []) 0 77 10
      in_time_run refl

-- The digest of a message of one byte, where one of 36 bytes is expected.
abbrev other : Packed
other = record { bytes = to_bytes 32 1; size = 32 }

verifier-tampered_example :
    verifier lib blake2 get_application_id get_data_to_verify
      (take 44 (to_bytes 8 1010 ++ response aid 300 77 other))
      (drop 44 (to_bytes 8 1010 ++ response aid 300 77 other))
      true
      true
      true
    ≡ ok (set_compromised 4 ∷ finalize_request 77 failed 10 ∷ [])
unfolding is_in_time to_bytes ◌-ℤ◌
verifier-tampered_example =
    verifier-tampered lib blake2 get_application_id get_data_to_verify stored aid (1 ∷ []) 1010 300
      77 4 other packed lib-IsStandard refl refl (refl, refl) (refl, refl) (λ e. cc) refl
      (omega arith) (omega arith) (omega arith) (omega arith)

abbrev without_hash : List ℕ
without_hash = to_bytes 8 1010 ++ (aid ++ (to_bytes 8 300 ++ (to_bytes 8 77 ++ to_bytes 4 0)))

verifier-empty_hash_example :
    (t : ℕ) × (verifier lib blake2 get_application_id get_data_to_verify without_hash [] true true
        true
      ≡ ok (finalize_request (parse_header without_hash).request_id success t ∷ []))
unfolding is_in_time to_bytes of_bytes parse_header ◌-ℤ◌
verifier-empty_hash_example =
    verifier-empty_hash lib blake2 get_application_id get_data_to_verify stored without_hash
      lib-IsStandard refl refl refl refl (omega arith)
