-- ===== src/Verifier/Verdict.antt =====
-- The verdicts of the verifier on the response of an honest attestator, and on a response with an empty
-- hash.
use remote_attestation.Prelude.{
  ℕ, ◌+◌, ◌-◌, ◌%◌, ◌^◌, ◌<◌, ◌≡◌, refl, sym, ap, ◌∙◌, true, Option, some, List, [], ◌∷◌, ◌++◌,
  append_assoc, leb, ◌==◌, if◌then◌else◌, length, length-append, length-take, length-drop, take,
  drop, take_all, take-append, drop-append, drop-append_add, arith,
}
use remote_attestation.Prelude.Bytes.{
  to_bytes, length-to_bytes, of_bytes-to_bytes, byte_bound, memcmp, memcmp_self,
}
use remote_attestation.Prelude.RaResult.{RaResult}
use remote_attestation.Prelude.Run.{ok}
use remote_attestation.DoHash.{
  Libraries, Algorithm, md5, sha1, sha256, ripemd160, blake2, Packed, do_hash,
}
use remote_attestation.DoHash.Laws.{IsStandard, IsDigest, message, do_hash-IsDigest}
use remote_attestation.Attestator.Response.{response}
use remote_attestation.Verifier.{
  success, expired_success, DataToVerify, finalize_request, Header, parse_header, is_in_time,
  is_same_hash, request_status, conclude, verify, verifier,
}

-- The header and the body of a message of the forwarder.
pub header_bytes : (time : ℕ) (aid : List ℕ) (n req_id size : ℕ) → List ℕ
header_bytes time aid n req_id size =
    to_bytes 8 time ++ (aid ++ (to_bytes 8 n ++ (to_bytes 8 req_id ++ to_bytes 4 size)))

pub length-header_bytes :
    (time : ℕ) (aid : List ℕ) (n req_id size : ℕ)
    → length aid ≡ 16
    → length (header_bytes time aid n req_id size) ≡ 44
unfolding header_bytes
length-header_bytes time aid n req_id size e = omega (
  arith,
  length-append (to_bytes 8 time) (aid ++ (to_bytes 8 n ++ (to_bytes 8 req_id ++ to_bytes 4 size))),
  length-append aid (to_bytes 8 n ++ (to_bytes 8 req_id ++ to_bytes 4 size)),
  length-append (to_bytes 8 n) (to_bytes 8 req_id ++ to_bytes 4 size),
  length-append (to_bytes 8 req_id) (to_bytes 4 size),
  length-to_bytes 8 time,
  length-to_bytes 8 n,
  length-to_bytes 8 req_id,
  length-to_bytes 4 size,
)

pub header_of_response :
    (time : ℕ) (aid : List ℕ) (n req_id : ℕ) (p : Packed)
    → to_bytes 8 time ++ response aid n req_id p ≡ header_bytes time aid n req_id p.size ++ p.bytes
unfolding header_bytes
header_of_response time aid n req_id p = simp append_assoc

pub parse_header-header_bytes :
    (time : ℕ) (aid : List ℕ) (n req_id size : ℕ)
    → length aid ≡ 16
    → time < byte_bound 8
    → n < byte_bound 8
    → req_id < byte_bound 8
    → size < byte_bound 4
    → parse_header (header_bytes time aid n req_id size) ≡ record {
      response_time = time;
      aid = aid;
      attestator_number = n;
      request_id = req_id;
      hash_size = size;
    }
unfolding parse_header header_bytes
parse_header-header_bytes time aid n req_id size e b1 b2 b3 b4 =
    let l1 = length-to_bytes 8 time in
    let l2 = length-to_bytes 8 n in
    let l3 = length-to_bytes 8 req_id in
    let r2 = to_bytes 8 req_id ++ to_bytes 4 size in
    let r1 = to_bytes 8 n ++ r2 in
    let r0 = aid ++ r1 in
    let time_behind = drop-append 8 (to_bytes 8 time) r0 l1 in
    let aid_behind : drop 24 (to_bytes 8 time ++ r0) ≡ r1 =
      drop-append_add 8 16 (to_bytes 8 time) r0 l1 ∙ drop-append 16 aid r1 e in
    let number_behind : drop 32 (to_bytes 8 time ++ r0) ≡ r2 =
      drop-append_add 8 24 (to_bytes 8 time) r0 l1
      ∙ (drop-append_add 16 8 aid r1 e ∙ drop-append 8 (to_bytes 8 n) r2 l2) in
    let id_behind : drop 40 (to_bytes 8 time ++ r0) ≡ to_bytes 4 size =
      drop-append_add 8 32 (to_bytes 8 time) r0 l1
      ∙ (drop-append_add 16 16 aid r1 e
          ∙ (drop-append_add 8 8 (to_bytes 8 n) r2 l2
              ∙ drop-append 8 (to_bytes 8 req_id) (to_bytes 4 size) l3)) in
    rw (
      time_behind,
      aid_behind,
      number_behind,
      id_behind,
      take-append 8 (to_bytes 8 time) r0 l1,
      take-append 16 aid r1 e,
      take-append 8 (to_bytes 8 n) r2 l2,
      take-append 8 (to_bytes 8 req_id) (to_bytes 4 size) l3,
      take_all 4 (to_bytes 4 size) (length-to_bytes 4 size),
      of_bytes-to_bytes 8 time b1,
      of_bytes-to_bytes 8 n b2,
      of_bytes-to_bytes 8 req_id b3,
      of_bytes-to_bytes 4 size b4,
    )

pub digest_bytes_unique :
    (lib : Libraries) (algorithm : Algorithm) (m : List ℕ) (p q : Packed)
    → IsDigest lib algorithm m p
    → IsDigest lib algorithm m q
    → p.bytes ≡ q.bytes
digest_bytes_unique lib md5 m p q d e = cc
digest_bytes_unique lib sha1 m p q d e = cc
digest_bytes_unique lib sha256 m p q d e = cc
digest_bytes_unique lib ripemd160 m p q d e = cc
digest_bytes_unique lib blake2 m p q d e = cc

same_hash_self : (h : List ℕ) → is_same_hash h h ≡ ok true
unfolding is_same_hash
same_hash_self h =
    let enough : leb (length h) (length h) ≡ true = ground arith in
    rw (enough, take_all (length h) h refl, memcmp_self h)

same_hash_empty : (h : List ℕ) → is_same_hash h [] ≡ ok true
unfolding is_same_hash memcmp
same_hash_empty h = ground arith

aid_sized : (header : List ℕ) → length header ≡ 44 → length (parse_header header).aid ≡ 16
unfolding parse_header
aid_sized header l = omega (arith, length-take 16 (drop 8 header), length-drop 8 header)

module _ (lib : Libraries) (algorithm : Algorithm) (get_application_id : List ℕ → Option ℕ)
    (get_data_to_verify : ℕ → Option DataToVerify) where
  conclude_same :
      (h : Header) (d : DataToVerify) (computed received : List ℕ)
      → is_same_hash computed received ≡ ok true
      → conclude lib algorithm get_application_id get_data_to_verify h d computed received
        ≡ ok (
            finalize_request h.request_id
              (if is_in_time h.response_time d then success else expired_success)
              ((h.response_time + 2 ^ 64 - d.send_time) % 2 ^ 32)
            ∷ [])
  unfolding conclude request_status
  conclude_same h d computed received e = rw e

  verify_same :
      (h : Header) (d : DataToVerify) (p : Packed) (r : RaResult) (received : List ℕ)
      → length received ≡ h.hash_size
      → get_data_to_verify h.request_id ≡ some d
      → do_hash lib algorithm true true d.nonce d.prepared_data h.aid h.attestator_number []
        ≡ ok (r, some p)
      → is_same_hash p.bytes received ≡ ok true
      → verify lib algorithm get_application_id get_data_to_verify h received true true true
        ≡ ok (
            finalize_request h.request_id
              (if is_in_time h.response_time d then success else expired_success)
              ((h.response_time + 2 ^ 64 - d.send_time) % 2 ^ 32)
            ∷ [])
  unfolding verify
  verify_same h d p r received l known hashed same =
      let whole : (length received == h.hash_size) ≡ true = ground arith in
      rw (whole, known, hashed) (conclude_same h d p.bytes received same)

  -- The verifier, given what the forwarder makes of an honest response (the time, then the
  -- response with the digest over the nonce and the prepared data that the database holds),
  -- finalizes the request as a success, or as an expired success when it came too late, with the
  -- elapsed time in 32 bits, and writes nothing else. Conditions: the allocations succeed, the
  -- libraries keep to their documentation, the database knows the request, the digest has its
  -- declared size below 2^32, the AID has 16 bytes, the nonce and the data together with the AID
  -- are below 2^32 bytes, and the time, the number and the id fit 64 bits.
  pub verifier-response :
      (d : DataToVerify) (aid : List ℕ) (time n req_id : ℕ) (p : Packed)
      → IsStandard lib
      → get_data_to_verify req_id ≡ some d
      → IsDigest lib algorithm (message d.nonce d.prepared_data aid n) p
      → p.size ≡ length p.bytes
      → p.size < byte_bound 4
      → length aid ≡ 16
      → length d.nonce + length d.prepared_data + 16 < 2 ^ 32
      → time < byte_bound 8
      → n < byte_bound 8
      → req_id < byte_bound 8
      → verifier lib algorithm get_application_id get_data_to_verify
          (take 44 (to_bytes 8 time ++ response aid n req_id p))
          (drop 44 (to_bytes 8 time ++ response aid n req_id p))
          true
          true
          true
        ≡ ok (
            finalize_request req_id
              (if is_in_time time d then success else expired_success)
              ((time + 2 ^ 64 - d.send_time) % 2 ^ 32)
            ∷ [])
  unfolding verifier
  verifier-response d aid time n req_id p standard known digest sized short e small b1 b2 b3 =
      let l = length-header_bytes time aid n req_id p.size e in
      let (q, hashed, digest', sized', short') =
        do_hash-IsDigest lib algorithm d.nonce d.prepared_data aid n e small standard in
      let same : is_same_hash q.bytes p.bytes ≡ ok true =
        ap (λ c. is_same_hash c p.bytes) (digest_bytes_unique lib algorithm _ q p digest' digest)
        ∙ same_hash_self p.bytes in
      let header = parse_header-header_bytes time aid n req_id p.size e b1 b2 b3 short in
      rw
        (
          header_of_response time aid n req_id p,
          take-append 44 _ p.bytes l,
          drop-append 44 _ p.bytes l,
          header,
          l,
        )
        (verify_same _ d q _ p.bytes (sym sized) known hashed same)

  -- A message whose header declares a hash of no bytes is finalized as a success, whatever was
  -- attested. Conditions: the header has 44 bytes, the database knows the request, the message is
  -- in time, the allocations succeed, the libraries keep to their documentation, and the nonce and
  -- the data of the database together with the AID are below 2^32 bytes.
  pub verifier-empty_hash :
      (d : DataToVerify) (header : List ℕ)
      → IsStandard lib
      → length header ≡ 44
      → (parse_header header).hash_size ≡ 0
      → get_data_to_verify (parse_header header).request_id ≡ some d
      → is_in_time (parse_header header).response_time d ≡ true
      → length d.nonce + length d.prepared_data + 16 < 2 ^ 32
      → (t : ℕ) × (verifier lib algorithm get_application_id get_data_to_verify header [] true true
            true
          ≡ ok (finalize_request (parse_header header).request_id success t ∷ []))
  unfolding verifier
  verifier-empty_hash d header standard l empty known in_time small =
      let h = parse_header header in
      let sized : length h.aid ≡ 16 = aid_sized header l in
      let (p, hashed, digest, sized_p, short) =
        do_hash-IsDigest lib algorithm d.nonce d.prepared_data h.aid h.attestator_number sized small
          standard in
      (
        ((parse_header header).response_time + 2 ^ 64 - d.send_time) % 2 ^ 32,
        rw (l, verify_same h d p _ [] (sym empty) known hashed (same_hash_empty p.bytes), in_time),
      )
