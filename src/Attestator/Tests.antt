-- ===== src/Attestator/Tests.antt =====
-- The attestator on a small table.
use remote_attestation.Prelude.{refl, false, some, arith}
use remote_attestation.Prelude.Run.{Returns}
use remote_attestation.DataTable.{get_aid_reference, get_attestator_number}
use remote_attestation.Nonce.{v1}
use remote_attestation.DoHash.{blake2}
use remote_attestation.Attestator.{attestator_routine}
use remote_attestation.Attestator.Response.{
  request, mallocs_succeed, Responds, attestator_routine-Responds,
}
use remote_attestation.Examples.{
  memory, base, is_prime, nonce, aid, table, lib, table-IsReady, lib-IsStandard, areas_small,
}

attestator_routine-Responds_example :
    Returns (Responds memory base is_prime v1 0 lib blake2 table nonce aid 300 77) (
      attestator_routine memory base is_prime v1 0 lib blake2 false
        (some (request 77 nonce))
        mallocs_succeed
        table)
unfolding get_aid_reference get_attestator_number
attestator_routine-Responds_example =
    attestator_routine-Responds memory base is_prime v1 0 lib blake2 table nonce aid 300 77 refl
      refl lib-IsStandard table-IsReady areas_small refl refl refl (omega arith) (omega arith)
