-- ===== src/DoHash.antt =====
-- src/client-parametric-files/cond/ra_do_hash_{md5,sha1,sha256,ripemd160,blake2}.c: the five versions of
-- ra_do_hash, of which a build links one. The digests of OpenSSL and blake2s are parameters. A buffer is
-- passed as the list of its bytes, which stands for the pointer and the size.
pub mod Laws
mod Tests
use remote_attestation.Prelude.{
  ℕ, ◌+◌, ◌%◌, ◌^◌, Bool, true, false, Option, none, some, List, ◌++◌, leb, if◌then◌else◌, length,
  take,
}
use remote_attestation.Prelude.Bytes.{to_bytes}
use remote_attestation.Prelude.RaResult.{RaResult, success, error_memory, error_generic}
use remote_attestation.Prelude.Run.{Run, ok, fault, ◌>>=◌}
use remote_attestation.Client.{aid_size}

-- What the libraries provide: the digests, the lengths OpenSSL declares, and blake2s of an output length,
-- an input and a key, which is `none` when it does not return 0.
pub record Libraries : Type 0 where
  pub md5 : List ℕ → List ℕ
  pub md5_digest_length : ℕ
  pub sha1 : List ℕ → List ℕ
  pub sha_digest_length : ℕ
  pub sha256 : List ℕ → List ℕ
  pub sha256_digest_length : ℕ
  pub ripemd160 : List ℕ → List ℕ
  pub ripemd160_digest_length : ℕ
  pub blake2s : ℕ → List ℕ → List ℕ → Option (List ℕ)

pub data Algorithm : Type 0 where
  md5 sha1 sha256 ripemd160 blake2 : Algorithm

abbrev pub blake_hash_size : ℕ
blake_hash_size = 32

-- `*packed_data` and `*packed_data_size`
pub record Packed : Type 0 where
  pub bytes : List ℕ
  pub size : ℕ

-- buffer_to_hash: the size that is allocated is computed in 32 bits up to the last summand, and the
-- copies behind a buffer that is too small are faults.
unfoldable pub buffer_to_hash :
    (nonce data_buffer aid : List ℕ) (attestator_number : ℕ) → Run (List ℕ)
buffer_to_hash nonce data_buffer aid attestator_number =
    let size : ℕ = (length nonce + length data_buffer + aid_size) % 2 ^ 32 + 8 in
    let buffer : List ℕ =
      nonce ++ data_buffer ++ take aid_size aid ++ to_bytes 8 attestator_number in
    if leb (length buffer) size then ok buffer else fault

-- The end that the five versions share.
unfoldable pub pack : (malloc : Bool) → Option (List ℕ) → ℕ → RaResult × Option Packed
pack malloc digest size =
    if malloc
    then elim digest [
      | none ↦ (error_generic, none)
      | some d ↦ (success, some (record { bytes = d; size = size }))
    ]
    else (error_memory, none)

-- The statements that the five versions share, around the call `hash` of the library.
unfoldable pub pack_buffer :
    (malloc_buffer malloc_packed : Bool)
    → (nonce data_buffer aid : List ℕ) (attestator_number : ℕ)
    → (hash : List ℕ → Option (List ℕ)) (digest_length : ℕ) → Run (RaResult × Option Packed)
pack_buffer malloc_buffer malloc_packed nonce data_buffer aid attestator_number hash digest_length =
    if malloc_buffer
    then (buffer_to_hash nonce data_buffer aid attestator_number >>= λ buffer.
        ok (pack malloc_packed (hash buffer) digest_length))
    else ok (error_memory, none)

module _ (lib : Libraries) (malloc_buffer malloc_packed : Bool) (nonce data_buffer aid : List ℕ)
    (attestator_number : ℕ) where
  abbrev version : (List ℕ → Option (List ℕ)) → ℕ → Run (RaResult × Option Packed)
  version = pack_buffer malloc_buffer malloc_packed nonce data_buffer aid attestator_number

  do_hash_md5 : Run (RaResult × Option Packed)
  do_hash_md5 = version (λ m. some (lib.md5 m)) lib.md5_digest_length

  do_hash_sha1 : Run (RaResult × Option Packed)
  do_hash_sha1 = version (λ m. some (lib.sha1 m)) lib.sha_digest_length

  do_hash_sha256 : Run (RaResult × Option Packed)
  do_hash_sha256 = version (λ m. some (lib.sha256 m)) lib.sha256_digest_length

  do_hash_ripemd160 : Run (RaResult × Option Packed)
  do_hash_ripemd160 = version (λ m. some (lib.ripemd160 m)) lib.ripemd160_digest_length

  do_hash_blake2 : (key : List ℕ) → Run (RaResult × Option Packed)
  do_hash_blake2 key = version (λ m. lib.blake2s blake_hash_size m key) blake_hash_size

-- ra_do_hash of the version that is linked; only blake2 uses the key.
unfoldable pub do_hash :
    Libraries
    → Algorithm
    → (malloc_buffer malloc_packed : Bool)
    → (nonce data_buffer aid : List ℕ) (attestator_number : ℕ) (key : List ℕ)
    → Run (RaResult × Option Packed)
unfolding do_hash_md5 do_hash_sha1 do_hash_sha256 do_hash_ripemd160 do_hash_blake2
do_hash lib md5 mb mp nonce data_buffer aid n key = do_hash_md5 lib mb mp nonce data_buffer aid n
do_hash lib sha1 mb mp nonce data_buffer aid n key = do_hash_sha1 lib mb mp nonce data_buffer aid n
do_hash lib sha256 mb mp nonce data_buffer aid n key =
    do_hash_sha256 lib mb mp nonce data_buffer aid n
do_hash lib ripemd160 mb mp nonce data_buffer aid n key =
    do_hash_ripemd160 lib mb mp nonce data_buffer aid n
do_hash lib blake2 mb mp nonce data_buffer aid n key =
    do_hash_blake2 lib mb mp nonce data_buffer aid n key
