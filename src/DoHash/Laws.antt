-- ===== src/DoHash/Laws.antt =====
-- What ra_do_hash hashes.
use remote_attestation.Prelude.{
  ℕ, ◌+◌, ◌^◌, ◌<◌, ◌≡◌, Option, refl, sym, Bool, true, some, List, ◌++◌, append_assoc, length,
  length-append, take_all, [], arith,
}
use remote_attestation.Prelude.Bytes.{to_bytes, length-to_bytes}
use remote_attestation.Prelude.RaResult.{success}
use remote_attestation.Prelude.Run.{ok}
use remote_attestation.DoHash.{
  Libraries, Algorithm, md5, sha1, sha256, ripemd160, blake2, Packed, buffer_to_hash, pack_buffer,
  do_hash, pack,
}

-- The message of the interface's comment, and the digest of it.
abbrev pub message : (nonce data_buffer aid : List ℕ) (attestator_number : ℕ) → List ℕ
message nonce data_buffer aid n = nonce ++ data_buffer ++ aid ++ to_bytes 8 n

abbrev pub IsDigest : Libraries → Algorithm → List ℕ → Packed → Type 0
IsDigest lib md5 m p = (p.bytes ≡ lib.md5 m) × (p.size ≡ lib.md5_digest_length)
IsDigest lib sha1 m p = (p.bytes ≡ lib.sha1 m) × (p.size ≡ lib.sha_digest_length)
IsDigest lib sha256 m p = (p.bytes ≡ lib.sha256 m) × (p.size ≡ lib.sha256_digest_length)
IsDigest lib ripemd160 m p = (p.bytes ≡ lib.ripemd160 m) × (p.size ≡ lib.ripemd160_digest_length)
IsDigest lib blake2 m p = (lib.blake2s 32 m [] ≡ some p.bytes) × (p.size ≡ 32)

pub buffer_to_hash-message :
    (nonce data_buffer aid : List ℕ) (n : ℕ)
    → length aid ≡ 16
    → length nonce + length data_buffer + 16 < 2 ^ 32
    → buffer_to_hash nonce data_buffer aid n ≡ ok (message nonce data_buffer aid n)
unfolding buffer_to_hash
buffer_to_hash-message nonce data_buffer aid n e small = rw (take_all 16 aid e) (
    ground (
      arith,
      length-append nonce data_buffer,
      length-append (nonce ++ data_buffer) aid,
      length-append (nonce ++ data_buffer ++ aid) (to_bytes 8 n),
      length-to_bytes 8 n,
    ))

-- What the libraries document: a digest has the length they declare, and blake2s does not fail without a
-- key for an output of 32 bytes.
pub record IsStandard (lib : Libraries) : Type 0 where
  pub md5_sized : (m : List ℕ) → length (lib.md5 m) ≡ lib.md5_digest_length
  pub sha1_sized : (m : List ℕ) → length (lib.sha1 m) ≡ lib.sha_digest_length
  pub sha256_sized : (m : List ℕ) → length (lib.sha256 m) ≡ lib.sha256_digest_length
  pub ripemd160_sized : (m : List ℕ) → length (lib.ripemd160 m) ≡ lib.ripemd160_digest_length
  pub blake2s_sized : (m : List ℕ) → (d : List ℕ) × (lib.blake2s 32 m [] ≡ some d) × (length d ≡ 32)
  pub md5_short : lib.md5_digest_length < 2 ^ 32
  pub sha1_short : lib.sha_digest_length < 2 ^ 32
  pub sha256_short : lib.sha256_digest_length < 2 ^ 32
  pub ripemd160_short : lib.ripemd160_digest_length < 2 ^ 32

packed : List ℕ → ℕ → Packed
packed d size = record { bytes = d; size = size }

pack_buffer-message :
    (nonce data_buffer aid : List ℕ) (n : ℕ) (hash : List ℕ → Option (List ℕ)) (d : List ℕ)
    (size : ℕ)
    → length aid ≡ 16
    → length nonce + length data_buffer + 16 < 2 ^ 32
    → hash (message nonce data_buffer aid n) ≡ some d
    → pack_buffer true true nonce data_buffer aid n hash size ≡ ok (success, some (packed d size))
unfolding pack_buffer pack packed
pack_buffer-message nonce data_buffer aid n hash d size e small h =
    rw (buffer_to_hash-message nonce data_buffer aid n e small, h)

-- Each version of ra_do_hash without a key succeeds with the digest of the nonce, the data, the
-- AID and the attestator number, laid end to end in this order, and the size it reports is the
-- length of that digest. Conditions: both allocations succeed, the libraries keep to their
-- documentation, the AID has 16 bytes, and the nonce and the data together with the AID are below
-- 2^32 bytes.
pub do_hash-IsDigest :
    (lib : Libraries) (algorithm : Algorithm) (nonce data_buffer aid : List ℕ) (n : ℕ)
    → length aid ≡ 16
    → length nonce + length data_buffer + 16 < 2 ^ 32
    → IsStandard lib
    → (p : Packed) × (do_hash lib algorithm true true nonce data_buffer aid n []
        ≡ ok (success, some p))
      × IsDigest lib algorithm (message nonce data_buffer aid n) p
      × (p.size ≡ length p.bytes)
      × (p.size < 2 ^ 32)
unfolding do_hash packed
do_hash-IsDigest lib md5 nonce data_buffer aid n e small s = (
  packed (lib.md5 (message nonce data_buffer aid n)) lib.md5_digest_length,
  pack_buffer-message nonce data_buffer aid n _ _ _ e small refl,
  (refl, refl),
  sym (s.md5_sized _),
  s.md5_short,
)
do_hash-IsDigest lib sha1 nonce data_buffer aid n e small s = (
  packed (lib.sha1 (message nonce data_buffer aid n)) lib.sha_digest_length,
  pack_buffer-message nonce data_buffer aid n _ _ _ e small refl,
  (refl, refl),
  sym (s.sha1_sized _),
  s.sha1_short,
)
do_hash-IsDigest lib sha256 nonce data_buffer aid n e small s = (
  packed (lib.sha256 (message nonce data_buffer aid n)) lib.sha256_digest_length,
  pack_buffer-message nonce data_buffer aid n _ _ _ e small refl,
  (refl, refl),
  sym (s.sha256_sized _),
  s.sha256_short,
)
do_hash-IsDigest lib ripemd160 nonce data_buffer aid n e small s = (
  packed (lib.ripemd160 (message nonce data_buffer aid n)) lib.ripemd160_digest_length,
  pack_buffer-message nonce data_buffer aid n _ _ _ e small refl,
  (refl, refl),
  sym (s.ripemd160_sized _),
  s.ripemd160_short,
)
do_hash-IsDigest lib blake2 nonce data_buffer aid n e small s =
    let (d, b, l) = s.blake2s_sized (message nonce data_buffer aid n) in
    (
      packed d 32,
      pack_buffer-message nonce data_buffer aid n (λ m. lib.blake2s 32 m []) d 32 e small b,
      (b, refl),
      sym l,
      omega arith,
    )

pack_buffer-split :
    (buffer packed : Bool) (nonce more data_buffer aid : List ℕ) (n : ℕ)
    (hash : List ℕ → Option (List ℕ)) (size : ℕ)
    → pack_buffer buffer packed (nonce ++ more) data_buffer aid n hash size
      ≡ pack_buffer buffer packed nonce (more ++ data_buffer) aid n hash size
unfolding pack_buffer buffer_to_hash
pack_buffer-split buffer packed nonce more data_buffer aid n hash size =
    let regroup : length nonce + length more + length data_buffer
        ≡ length nonce + (length more + length data_buffer) =
      omega arith in
    rw (
      length-append nonce more,
      length-append more data_buffer,
      append_assoc nonce more data_buffer,
      regroup,
    )

-- ra_do_hash does not tell where the nonce ends and the data begins: bytes moved from the end of
-- the nonce to the beginning of the data give the same result, for every version, key and outcome
-- of the allocations.
do_hash-split :
    (lib : Libraries) (algorithm : Algorithm) (buffer packed : Bool)
    (nonce more data_buffer aid : List ℕ) (n : ℕ) (key : List ℕ)
    → do_hash lib algorithm buffer packed (nonce ++ more) data_buffer aid n key
      ≡ do_hash lib algorithm buffer packed nonce (more ++ data_buffer) aid n key
unfolding do_hash
do_hash-split lib md5 buffer packed nonce more data_buffer aid n key =
    pack_buffer-split buffer packed nonce more data_buffer aid n _ _
do_hash-split lib sha1 buffer packed nonce more data_buffer aid n key =
    pack_buffer-split buffer packed nonce more data_buffer aid n _ _
do_hash-split lib sha256 buffer packed nonce more data_buffer aid n key =
    pack_buffer-split buffer packed nonce more data_buffer aid n _ _
do_hash-split lib ripemd160 buffer packed nonce more data_buffer aid n key =
    pack_buffer-split buffer packed nonce more data_buffer aid n _ _
do_hash-split lib blake2 buffer packed nonce more data_buffer aid n key =
    pack_buffer-split buffer packed nonce more data_buffer aid n _ _
