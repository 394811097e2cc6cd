-- ===== src/Verifier/Tampered.antt =====
-- The verdict on a response whose digest is of something else than the stored data.
use remote_attestation.Prelude.{
  ℕ, ◌+◌, ◌-◌, ◌%◌, ◌^◌, ◌<◌, ◌≡◌, ◌≢◌, refl, sym, ap, ◌∙◌, true, false, Option, some, List, [],
  ◌∷◌, ◌++◌, leb, ◌==◌, Bool-cases, inl, inr, if◌then◌else◌, length, take, drop, take_all,
  take-append, drop-append, arith,
}
use remote_attestation.Prelude.Bytes.{to_bytes, byte_bound, memcmp, memcmp-eq, hex_string}
use remote_attestation.Prelude.Int.{is_zero}
use remote_attestation.Prelude.RaResult.{RaResult}
use remote_attestation.Prelude.Run.{ok}
use remote_attestation.DoHash.{
  Libraries, Algorithm, md5, sha1, sha256, ripemd160, blake2, Packed, do_hash,
}
use remote_attestation.DoHash.Laws.{IsStandard, IsDigest, message, do_hash-IsDigest}
use remote_attestation.Attestator.Response.{response}
use remote_attestation.Verifier.{
  failed, expired_failed, DataToVerify, set_compromised, finalize_request, Header, is_in_time,
  is_same_hash, request_status, conclude, verify, verifier,
}
use remote_attestation.Verifier.Verdict.{
  length-header_bytes, header_of_response, parse_header-header_bytes, digest_bytes_unique,
}

-- Two digests have the same length, which is the size that is packed beside them.
digests_sized :
    (lib : Libraries) (algorithm : Algorithm) (m m' : List ℕ) (p q : Packed)
    → IsStandard lib
    → IsDigest lib algorithm m p
    → IsDigest lib algorithm m' q
    → (p.size ≡ length p.bytes) × (p.size < 2 ^ 32) × (length p.bytes ≡ length q.bytes)
digests_sized lib md5 m m' p q s (e, l) (e', l') = (
  omega (arith, ap length e, s.md5_sized m),
  omega (arith, s.md5_short),
  omega (arith, ap length e, s.md5_sized m, ap length e', s.md5_sized m'),
)
digests_sized lib sha1 m m' p q s (e, l) (e', l') = (
  omega (arith, ap length e, s.sha1_sized m),
  omega (arith, s.sha1_short),
  omega (arith, ap length e, s.sha1_sized m, ap length e', s.sha1_sized m'),
)
digests_sized lib sha256 m m' p q s (e, l) (e', l') = (
  omega (arith, ap length e, s.sha256_sized m),
  omega (arith, s.sha256_short),
  omega (arith, ap length e, s.sha256_sized m, ap length e', s.sha256_sized m'),
)
digests_sized lib ripemd160 m m' p q s (e, l) (e', l') = (
  omega (arith, ap length e, s.ripemd160_sized m),
  omega (arith, s.ripemd160_short),
  omega (arith, ap length e, s.ripemd160_sized m, ap length e', s.ripemd160_sized m'),
)
digests_sized lib blake2 m m' p q s (e, l) (e', l') =
    let (d, b, k) = s.blake2s_sized m in
    let (d', b', k') = s.blake2s_sized m' in
    let same : d ≡ p.bytes = cc in
    let same' : d' ≡ q.bytes = cc in
    (omega (arith, ap length same), omega arith, omega (arith, ap length same, ap length same'))

-- A hash of the full length that is not the computed one.
other_hash :
    (computed received : List ℕ)
    → length received ≡ length computed
    → received ≢ computed
    → is_same_hash computed received ≡ ok false
unfolding is_same_hash
other_hash computed received l other =
    let enough : leb (length received) (length computed) ≡ true = ground arith in
    elim (Bool-cases (is_zero (memcmp computed received))) [
      | inl equal ↦ absurd (other (sym (memcmp-eq computed received equal)))
      | inr differs ↦ rw (enough, take_all (length received) computed (sym l), differs)
    ]

module _ (lib : Libraries) (algorithm : Algorithm) (get_application_id : List ℕ → Option ℕ)
    (get_data_to_verify : ℕ → Option DataToVerify) where
  verify_other :
      (h : Header) (d : DataToVerify) (q : Packed) (r : RaResult) (received : List ℕ)
      (application : ℕ)
      → length received ≡ h.hash_size
      → get_data_to_verify h.request_id ≡ some d
      → get_application_id (hex_string h.aid) ≡ some application
      → do_hash lib algorithm true true d.nonce d.prepared_data h.aid h.attestator_number []
        ≡ ok (r, some q)
      → is_same_hash q.bytes received ≡ ok false
      → verify lib algorithm get_application_id get_data_to_verify h received true true true
        ≡ ok (
            set_compromised application
            ∷ finalize_request h.request_id
                (if is_in_time h.response_time d then failed else expired_failed)
                ((h.response_time + 2 ^ 64 - d.send_time) % 2 ^ 32)
            ∷ [])
  unfolding verify conclude request_status
  verify_other h d q r received application l known application_known hashed other =
      let whole : (length received == h.hash_size) ≡ true = ground arith in
      rw (whole, known, hashed, other, application_known) refl

  -- The verifier, given what the forwarder makes of a response with the digest of any message,
  -- marks the application as compromised and finalizes the request as failed, or as an expired
  -- failure when it came too late, with the elapsed time in 32 bits, when that digest is not the
  -- one of the nonce and the prepared data that the database holds. Conditions: the allocations
  -- succeed, the libraries keep to their documentation, the database knows the request and the
  -- application of the AID, the AID has 16 bytes, the nonce and the data together with the AID are
  -- below 2^32 bytes, and the time, the number and the id fit 64 bits.
  pub verifier-tampered :
      (d : DataToVerify) (aid m : List ℕ) (time n req_id application : ℕ) (p q : Packed)
      → IsStandard lib
      → get_data_to_verify req_id ≡ some d
      → get_application_id (hex_string aid) ≡ some application
      → IsDigest lib algorithm m p
      → IsDigest lib algorithm (message d.nonce d.prepared_data aid n) q
      → p.bytes ≢ q.bytes
      → length aid ≡ 16
      → length d.nonce + length d.prepared_data + 16 < 2 ^ 32
      → time < byte_bound 8
      → n < byte_bound 8
      → req_id < byte_bound 8
      → verifier lib algorithm get_application_id get_data_to_verify
          (take 44 (to_bytes 8 time ++ response aid n req_id p))
          (drop 44 (to_bytes 8 time ++ response aid n req_id p))
          true
          true
          true
        ≡ ok (
            set_compromised application
            ∷ finalize_request req_id
                (if is_in_time time d then failed else expired_failed)
                ((time + 2 ^ 64 - d.send_time) % 2 ^ 32)
            ∷ [])
  unfolding verifier
  verifier-tampered d aid m time n req_id application p q standard known application_known attested
        stored other e small b1 b2 b3 =
      let (sized, short, as_long) = digests_sized lib algorithm m _ p q standard attested stored in
      let l = length-header_bytes time aid n req_id p.size e in
      let (q', hashed, digest', sized', short') =
        do_hash-IsDigest lib algorithm d.nonce d.prepared_data aid n e small standard in
      let unique : q'.bytes ≡ q.bytes = digest_bytes_unique lib algorithm _ q' q digest' stored in
      let differs : is_same_hash q'.bytes p.bytes ≡ ok false =
        ap (λ c. is_same_hash c p.bytes) unique ∙ other_hash q.bytes p.bytes as_long other in
      let header = parse_header-header_bytes time aid n req_id p.size e b1 b2 b3 short in
      rw
        (
          header_of_response time aid n req_id p,
          take-append 44 _ p.bytes l,
          drop-append 44 _ p.bytes l,
          header,
          l,
        )
        (verify_other _ d q' _ p.bytes application (sym sized) known application_known hashed
          differs)
