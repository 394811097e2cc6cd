-- ===== src/Nonce/Tests.antt =====
-- A nonce of nine bytes on a table with one area.
use remote_attestation.Prelude.{refl, true}
use remote_attestation.Prelude.Run.{Returns}
use remote_attestation.Nonce.{v1, decode_nonce}
use remote_attestation.Nonce.Decode.{Decodes, decode_nonce-Decodes}
use remote_attestation.Examples.{is_prime, nonce, table, table-IsReady}

decode_nonce-Decodes_example :
    Returns (Decodes is_prime v1 table nonce) (decode_nonce is_prime v1 true 0 table)
decode_nonce-Decodes_example =
    decode_nonce-Decodes is_prime refl v1 0 table nonce refl table-IsReady
