-- ===== src/VerifierForwarder/Tests.antt =====
-- A response that arrives in two pieces.
use remote_attestation.Prelude.{
  ℕ, ◌≡◌, refl, some, List, [], ◌∷◌, ◌++◌, map, length, take, drop, arith,
}
use remote_attestation.Prelude.Bytes.{to_bytes, hex_string}
use remote_attestation.Prelude.Int.{pos}
use remote_attestation.Prelude.Run.{ok}
use remote_attestation.DoHash.{Packed}
use remote_attestation.Attestator.Response.{response}
use remote_attestation.VerifierForwarder.{verifier_forwarder}
use remote_attestation.VerifierForwarder.Forwarding.{verifier_forwarder-response}
use remote_attestation.Examples.{aid}

abbrev packed : Packed
packed = record { bytes = 9 ∷ []; size = 1 }

abbrev arrived : List ℕ
arrived = response aid 300 77 packed

-- The attestator 300 is taken for 44.
verifier_forwarder-response_example :
    verifier_forwarder
      (some (pos (length arrived)))
      1010
      (map some (take 20 arrived ∷ drop 20 arrived ∷ []))
    ≡ ok (
        some (record {
          aid_string = hex_string aid;
          attestator_number = 44;
          input = to_bytes 8 1010 ++ arrived;
        }))
unfolding to_bytes
verifier_forwarder-response_example =
    verifier_forwarder-response (take 20 arrived ∷ drop 20 arrived ∷ []) 1010 aid 300 77 packed
      ((λ e. omega arith), ((λ e. omega arith), tt)) refl refl
