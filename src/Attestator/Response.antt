-- ===== src/Attestator/Response.antt =====
-- The response of the attestator to a well-formed request.
use remote_attestation.Prelude.{
  ℕ, ◌+◌, ◌^◌, ◌<◌, ◌≡◌, refl, sym, Bool, true, false, Option, some, List, [], ◌++◌, append_assoc,
  leb, length, length-append, take_all, take-append, drop-append, arith,
}
use remote_attestation.Prelude.Bytes.{to_bytes, length-to_bytes, of_bytes-to_bytes, byte_bound}
use remote_attestation.Prelude.RaResult.{success}
use remote_attestation.Prelude.Run.{ok, Returns, returns, Returns-ok}
use remote_attestation.Memory.{Area}
use remote_attestation.DataTable.{
  Table, get_aid_reference, get_attestator_number, set_current_nonce, reset_prepared_data,
  get_memory_area,
}
use remote_attestation.Nonce.{DecodedInfo, Version, read_at}
use remote_attestation.Nonce.Decode.{
  IsReady, IsDecoded, VersionLaw, IsNamed, Decodes, least_size, decode_nonce-Decodes,
}
use remote_attestation.Preparation.{prepare_data}
use remote_attestation.Preparation.Walk.{Walked, Prepares, all_mallocs, prepare_data-Prepares}
use remote_attestation.DoHash.{Libraries, Algorithm, Packed, do_hash}
use remote_attestation.DoHash.Laws.{IsStandard, IsDigest, message, do_hash-IsDigest}
use remote_attestation.Attestator.{
  Mallocs, copy, response_buffer, store_nonce, print_encoded_info, answer, attestator_routine,
}

-- The request of the protocol: the id, the length of the nonce, and the nonce.
abbrev pub request : (req_id : ℕ) → List ℕ → List ℕ
request req_id nonce = to_bytes 8 req_id ++ to_bytes 4 (length nonce) ++ nonce

-- The response of the protocol.
abbrev pub response : (aid : List ℕ) (attestator_number req_id : ℕ) → Packed → List ℕ
response aid n req_id p = aid ++ to_bytes 8 n ++ to_bytes 8 req_id ++ to_bytes 4 p.size ++ p.bytes

abbrev pub mallocs_succeed : Mallocs
mallocs_succeed = record {
  nonce = true;
  printed_labels = true;
  preparation = all_mallocs;
  hash_buffer = true;
  packed = true;
  response = true;
}

-- The table with the nonce of the request.
abbrev pub with_nonce : Table → List ℕ → Table
with_nonce t nonce = record t { current_nonce = some nonce; current_nonce_size = length nonce }

copy_all : (bs : List ℕ) (n : ℕ) → n ≡ length bs → copy n bs ≡ ok bs
unfolding copy
copy_all bs n e = ground (arith, take_all n bs)

read_id :
    (req_id : ℕ) (nonce : List ℕ)
    → req_id < byte_bound 8
    → read_at (request req_id nonce) 0 8 ≡ ok req_id
unfolding read_at
read_id req_id nonce h =
    let l = length-to_bytes 8 req_id in
    let regroup = append_assoc (to_bytes 8 req_id) (to_bytes 4 (length nonce)) nonce in
    let long : leb 8 (length (request req_id nonce)) ≡ true =
      ground (
        arith,
        l,
        regroup,
        length-append (to_bytes 8 req_id) (to_bytes 4 (length nonce) ++ nonce),
      ) in
    rw (
      long,
      regroup,
      take-append 8 (to_bytes 8 req_id) (to_bytes 4 (length nonce) ++ nonce) l,
      of_bytes-to_bytes 8 req_id h,
    )

read_nonce_size :
    (req_id : ℕ) (nonce : List ℕ)
    → length nonce < byte_bound 4
    → read_at (request req_id nonce) 8 4 ≡ ok (length nonce)
unfolding read_at
read_nonce_size req_id nonce h =
    let l = length-to_bytes 8 req_id in
    let l' = length-to_bytes 4 (length nonce) in
    let regroup = append_assoc (to_bytes 8 req_id) (to_bytes 4 (length nonce)) nonce in
    let long : leb 12 (length (request req_id nonce)) ≡ true = ground (
      arith,
      l,
      l',
      length-append (to_bytes 8 req_id) (to_bytes 4 (length nonce)),
      length-append (to_bytes 8 req_id ++ to_bytes 4 (length nonce)) nonce,
    ) in
    rw (
      long,
      regroup,
      drop-append 8 (to_bytes 8 req_id) (to_bytes 4 (length nonce) ++ nonce) l,
      take-append 4 (to_bytes 4 (length nonce)) nonce l',
      of_bytes-to_bytes 4 (length nonce) h,
    )

store_nonce-request :
    (t : Table) (req_id : ℕ) (nonce : List ℕ)
    → store_nonce true t (request req_id nonce) (length nonce) ≡ ok (with_nonce t nonce)
unfolding store_nonce set_current_nonce
store_nonce-request t req_id nonce =
    let header : length (to_bytes 8 req_id ++ to_bytes 4 (length nonce)) ≡ 12 = omega (
      arith,
      length-append (to_bytes 8 req_id) (to_bytes 4 (length nonce)),
      length-to_bytes 8 req_id,
      length-to_bytes 4 (length nonce),
    ) in
    rw (
      drop-append 12 (to_bytes 8 req_id ++ to_bytes 4 (length nonce)) nonce header,
      copy_all nonce (length nonce) refl,
    )

copy_response :
    (aid : List ℕ) (n req_id : ℕ) (p : Packed)
    → length aid ≡ 16
    → p.size ≡ length p.bytes
    → response_buffer aid n req_id p ≡ ok (response aid n req_id p)
unfolding response_buffer
copy_response aid n req_id p e sized = rw (copy_all aid 16 (sym e), copy_all p.bytes p.size sized)

module _ (memory : ℕ → ℕ) (base : ℕ) (is_prime : ℕ → Bool) (v : Version) (raw : ℕ) (lib : Libraries)
    (algorithm : Algorithm) where
  -- What the routine leaves and sends on a request with `nonce` and `req_id`: the attested bytes of the
  -- area that the nonce chooses are hashed, and erased from the table.
  abbrev pub Responds :
      (t : Table) (nonce aid : List ℕ) (n req_id : ℕ) → Table × Option (List ℕ) → Type 0
  Responds t nonce aid n req_id (t', sent) =
      (info : DecodedInfo) × (d : IsDecoded (with_nonce t nonce) info) × VersionLaw is_prime v info
      × IsNamed v t nonce d.area info
      × (bs : List ℕ) × (length bs ≡ info.actual_buffer_size)
      × Walked memory base info d.area 0 bs
      × (p : Packed) × IsDigest lib algorithm (message nonce bs aid n) p
      × (sent ≡ some (response aid n req_id p))
      × (t' ≡ reset_prepared_data (with_nonce t nonce))

  answer_lem :
      (t : Table) (nonce aid bs : List ℕ) (n req_id : ℕ) (p : Packed)
      → t.current_nonce ≡ some nonce
      → t.current_nonce_size ≡ length nonce
      → t.prepared_data ≡ some bs
      → t.prepared_data_size ≡ length bs
      → (get_aid_reference t).1 ≡ some aid
      → do_hash lib algorithm true true nonce bs aid n [] ≡ ok (success, some p)
      → response_buffer aid n req_id p ≡ ok (response aid n req_id p)
      → answer memory base is_prime v raw lib algorithm mallocs_succeed t n req_id
        ≡ ok (reset_prepared_data t, some (response aid n req_id p))
  unfolding answer
  answer_lem t nonce aid bs n req_id p e1 e2 e3 e4 e5 h r =
      ground (arith, copy_all nonce t.current_nonce_size e2, copy_all bs t.prepared_data_size e4)

  print_decodes :
      (t : Table) (nonce : List ℕ)
      → is_prime 2 ≡ true
      → is_prime 3 ≡ true
      → IsReady (least_size v) (with_nonce t nonce) nonce
      → print_encoded_info memory base is_prime v raw true (with_nonce t nonce) ≡ ok true
  unfolding print_encoded_info
  print_decodes t nonce two three ready =
      let (out, e, d) =
        Returns-ok (Decodes is_prime v (with_nonce t nonce) nonce) _
          (decode_nonce-Decodes is_prime two v raw (with_nonce t nonce) nonce three ready) in
      rw e

  -- The routine, from what ra_prepare_data and ra_do_hash deliver.
  pub attestator_routine-sends :
      (t : Table) (nonce aid bs : List ℕ) (n req_id : ℕ) (p : Packed)
      → is_prime 2 ≡ true
      → is_prime 3 ≡ true
      → IsReady (least_size v) (with_nonce t nonce) nonce
      → prepare_data memory base is_prime v all_mallocs raw (with_nonce t nonce)
        ≡ ok (
          record (with_nonce t nonce) { prepared_data = some bs; prepared_data_size = length bs },
          success,
        )
      → do_hash lib algorithm true true nonce bs aid n [] ≡ ok (success, some p)
      → p.size ≡ length p.bytes
      → (get_aid_reference t).1 ≡ some aid
      → length aid ≡ 16
      → (get_attestator_number t).1 ≡ some n
      → req_id < byte_bound 8
      → length nonce < byte_bound 4
      → attestator_routine memory base is_prime v raw lib algorithm false
          (some (request req_id nonce))
          mallocs_succeed
          t
        ≡ ok (reset_prepared_data (with_nonce t nonce), some (response aid n req_id p))
  unfolding attestator_routine get_aid_reference reset_prepared_data
  attestator_routine-sends t nonce aid bs n req_id p two three ready prepares h sized aid_set
        aid_sized n_set id_small nonce_small =
      let prepared : Table = record (with_nonce t nonce) {
        prepared_data = some bs;
        prepared_data_size = length bs;
      } in
      let sent =
        answer_lem prepared nonce aid bs n req_id p refl refl refl refl aid_set h
          (copy_response aid n req_id p aid_sized sized) in
      rw
        (
          n_set,
          read_id req_id nonce id_small,
          read_nonce_size req_id nonce nonce_small,
          store_nonce-request t req_id nonce,
          print_decodes t nonce two three ready,
          prepares,
          sent,
        )
        refl

  -- On a request that is an 8-byte id, a 4-byte length and a nonce, the attestator runs without
  -- undefined behaviour and sends the response of the protocol: the AID, the attestator number,
  -- the id, and the digest of the nonce, the attested bytes, the AID and the number. The attested
  -- bytes are those that the walk of the linked version takes from the area that the nonce names
  -- by its two bytes before the last one, with the sizes, the generator and the offset that the
  -- version reads from the nonce or computes from the size, and the table keeps the nonce but no
  -- prepared data. Conditions: every allocation succeeds, the prime test accepts 2 and 3, the
  -- libraries keep to their documentation, the table with the nonce is ready (valid areas of at
  -- least the least size of the version, and a nonce of at least eight bytes), the sum of the
  -- nonce, an area and the AID is below 2^32 bytes, the AID has 16 bytes, and the AID and the
  -- number are set and the id and the length of the nonce fit.
  pub attestator_routine-Responds :
      (t : Table) (nonce aid : List ℕ) (n req_id : ℕ)
      → is_prime 2 ≡ true
      → is_prime 3 ≡ true
      → IsStandard lib
      → IsReady (least_size v) (with_nonce t nonce) nonce
      → ((a : Area) (label : ℕ)
          → get_memory_area t label ≡ some a
          → length nonce + a.total_size + 16 < 2 ^ 32)
      → (get_aid_reference t).1 ≡ some aid
      → length aid ≡ 16
      → (get_attestator_number t).1 ≡ some n
      → req_id < byte_bound 8
      → length nonce < byte_bound 4
      → Returns (Responds t nonce aid n req_id) (
          attestator_routine memory base is_prime v raw lib algorithm false
            (some (request req_id nonce))
            mallocs_succeed
            t)
  unfolding get_memory_area
  attestator_routine-Responds t nonce aid n req_id two three standard ready small aid_set aid_sized
        n_set id_small nonce_small =
      let ((t2, r), e, (r_ok, info, d, law, named, bs, l, w, same)) =
        Returns-ok (Prepares memory base is_prime v (with_nonce t nonce) nonce) _ (
          prepare_data-Prepares memory base is_prime v raw (with_nonce t nonce) nonce two three
            ready) in
      let (p, h, digest, sized, p_small) =
        do_hash-IsDigest lib algorithm nonce bs aid n aid_sized
          (omega (arith, d.within, small d.area info.area_label d.found)) standard in
      let prepares : prepare_data memory base is_prime v all_mallocs raw (with_nonce t nonce)
          ≡ ok (
            record (with_nonce t nonce) { prepared_data = some bs; prepared_data_size = length bs },
            success,
          ) =
        cc in
      rw
        (attestator_routine-sends t nonce aid bs n req_id p two three ready prepares h sized aid_set
          aid_sized n_set id_small nonce_small)
        (returns (info, d, law, named, bs, l, w, p, digest, refl, refl))
