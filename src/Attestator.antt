-- ===== src/Attestator.antt =====
-- src/client-parametric-files/uncond/attestator.c: the routine that answers an attestation request. The
-- request is a buffer of bytes; a read behind it, like the use of a value that was never set, is a
-- fault. The routine holds its mutex from the first statement to each return, so a run is atomic.
pub mod Response
pub mod Lifecycle
mod Tests
use remote_attestation.Prelude.{
  ℕ, ◌+◌, Bool, true, false, Option, none, some, List, [], ◌++◌, leb, if◌then◌else◌, length, take,
  drop,
}
use remote_attestation.Prelude.Bytes.{to_bytes}
use remote_attestation.Prelude.RaResult.{RaResult, success, error_memory, is_success}
use remote_attestation.Prelude.Run.{Run, ok, fault, ◌>>=◌, deref}
use remote_attestation.Client.{aid_size}
use remote_attestation.DataTable.{
  Table, is_null, get_aid_reference, get_attestator_number, set_current_nonce, reset_prepared_data,
}
use remote_attestation.Nonce.{Version, read_at, decode_nonce}
use remote_attestation.Preparation.{prepare_data}
use remote_attestation.Preparation as Preparation
use remote_attestation.DoHash.{Libraries, Algorithm, Packed, do_hash}

-- The first `size` bytes of an object.
unfoldable pub copy : ℕ → List ℕ → Run (List ℕ)
copy size bs = if leb size (length bs) then ok (take size bs) else fault

-- The results of the allocations of one run.
pub record Mallocs : Type 0 where
  pub nonce : Bool
  pub printed_labels : Bool
  pub preparation : Preparation.Mallocs
  pub hash_buffer : Bool
  pub packed : Bool
  pub response : Bool

abbrev pub request_id_size : ℕ
request_id_size = 8

abbrev pub request_nonce_length_size : ℕ
request_nonce_length_size = 4

-- The bytes of the response: the AID, the attestator number, the id of the request, and the hash with
-- its length in front.
unfoldable pub response_buffer :
    (aid : List ℕ) (attestator_number req_id : ℕ) → Packed → Run (List ℕ)
unfolding copy
response_buffer aid attestator_number req_id p = copy aid_size aid >>= λ a.
    copy p.size p.bytes >>= λ h.
    ok (a ++ to_bytes 8 attestator_number ++ to_bytes 8 req_id ++ to_bytes 4 p.size ++ h)

-- The nonce of the request is copied to the table, from a place that nothing compares with the length
-- of the request; when the allocation fails nothing is read.
unfoldable pub store_nonce : (malloc : Bool) → Table → List ℕ → (nonce_size : ℕ) → Run Table
unfolding copy
store_nonce malloc t buffer nonce_size =
    if malloc
    then (copy nonce_size (drop (request_id_size + request_nonce_length_size) buffer) >>= λ nonce.
        ok (set_current_nonce true t nonce).0)
    else ok (set_current_nonce false t []).0

module _ (memory : ℕ → ℕ) (base : ℕ) (is_prime : ℕ → Bool) (v : Version) (raw : ℕ) where
  -- print_encoded_info: the nonce is decoded, and what is decoded is printed.
  unfoldable pub print_encoded_info : (malloc : Bool) → Table → Run Bool
  print_encoded_info malloc t =
      if is_null t.current_nonce
      then ok true
      else (decode_nonce is_prime v malloc raw t >>= λ _. ok true)

  module _ (lib : Libraries) (algorithm : Algorithm) where
    -- From the hash on: the table, and the response that is passed to acclSend.
    unfoldable pub answer :
        Mallocs → Table → (attestator_number req_id : ℕ) → Run (Table × Option (List ℕ))
    unfolding copy response_buffer
    answer m t attestator_number req_id = deref t.current_nonce >>= λ n.
        copy t.current_nonce_size n >>= λ nonce. deref t.prepared_data >>= λ d.
        copy t.prepared_data_size d >>= λ data_buffer. deref (get_aid_reference t).1 >>= λ aid.
        do_hash lib algorithm m.hash_buffer m.packed nonce data_buffer aid attestator_number []
        >>= λ (r, out). elim out [
          | none ↦ ok (t, none)
          | some p ↦
              if m.response
              then (response_buffer aid attestator_number req_id p >>= λ response.
                  ok (reset_prepared_data t, some response))
              else ok (reset_prepared_data t, none)
        ]

    -- attestator_routine
    unfoldable pub attestator_routine :
        (force_exit : Bool) (in_buffer : Option (List ℕ))
        → Mallocs
        → Table
        → Run (Table × Option (List ℕ))
    unfolding print_encoded_info store_nonce
    attestator_routine true in_buffer m t = ok (t, none)
    attestator_routine false none m t = ok (t, none)
    attestator_routine false (some buffer) m t =
        deref (get_attestator_number t).1 >>= λ attestator_number.
        read_at buffer 0 request_id_size >>= λ req_id.
        read_at buffer request_id_size request_nonce_length_size >>= λ nonce_size.
        store_nonce m.nonce t buffer nonce_size >>= λ t1.
        print_encoded_info m.printed_labels t1 >>= λ printed.
        prepare_data memory base is_prime v m.preparation raw t1 >>= λ (t2, r).
        elim (is_success r) [ true ↦ answer m t2 attestator_number req_id | false ↦ ok (t2, none) ]
