-- ===== src/DoHash/Tests.antt =====
-- The hashed message of small buffers.
use remote_attestation.Prelude.{ℕ, ◌<◌, ◌^◌, ◌≡◌, refl, true, some, List, [], ◌∷◌, length, arith}
use remote_attestation.Prelude.RaResult.{success}
use remote_attestation.Prelude.Run.{ok}
use remote_attestation.DoHash.{sha256, Packed, do_hash}
use remote_attestation.DoHash.Laws.{IsDigest, message, do_hash-IsDigest}
use remote_attestation.Examples.{nonce, aid, lib, lib-IsStandard}

abbrev data_buffer : List ℕ
data_buffer = 1 ∷ 2 ∷ 3 ∷ []

do_hash-IsDigest_example :
    (p : Packed) × (do_hash lib sha256 true true nonce data_buffer aid 300 []
      ≡ ok (success, some p))
    × IsDigest lib sha256 (message nonce data_buffer aid 300) p
    × (p.size ≡ length p.bytes)
    × (p.size < 2 ^ 32)
do_hash-IsDigest_example =
    do_hash-IsDigest lib sha256 nonce data_buffer aid 300 refl (omega arith) lib-IsStandard
