-- ===== src/Nonce.antt =====
-- src/client-parametric-files/cond/ra_nonce_interpretation_{1,2,3,4}.c: the four diversified versions
-- of decode_nonce, of which a build links one. `is_prime` is OpenSSL's test; `malloc` says whether the
-- list of labels can be allocated. Integers are read little-endian; a read outside the nonce, a NULL
-- nonce and a remainder by 0 are faults.
pub mod Decode
pub mod Agreement
mod Tests
use remote_attestation.Prelude.{
  ℕ, ◌+◌, ◌-◌, ◌%◌, ◌^◌, Bool, true, false, ◌||◌, Option, none, some, List, ◌==◌, leb,
  if◌then◌else◌, length, take, drop, get_elem?,
}
use remote_attestation.Prelude.Bytes.{of_bytes}
use remote_attestation.Prelude.RaResult.{RaResult, success, error_memory, error_generic, is_success}
use remote_attestation.Prelude.Run.{Run, ok, fault, ◌>>=◌, deref}
use remote_attestation.Memory.{Area}
use remote_attestation.DataTable.{Table, get_labels_list, get_memory_area}
use remote_attestation.Primes.{closest_prime}

-- decoded_info
pub record DecodedInfo : Type 0 where
  pub area_label : ℕ
  pub buffer_size : ℕ
  pub actual_buffer_size : ℕ
  pub generator : ℕ
  pub initial_offset : ℕ

pub data Version : Type 0 where
  v1 v2 v3 v4 : Version

-- The integer of `width` bytes at `nonce + place`.
unfoldable pub read_at : List ℕ → (place width : ℕ) → Run ℕ
read_at nonce place width =
    if leb (place + width) (length nonce)
    then ok (of_bytes (take width (drop place nonce)))
    else fault

-- `a % b`
unfoldable pub remainder : ℕ → ℕ → Run ℕ
remainder a b = if b == 0 then fault else ok (a % b)

-- The two bytes at `nonce + nonce_size - 3`.
label_bytes : Table → List ℕ → Run ℕ
unfolding read_at
label_bytes t nonce =
    if leb 3 t.current_nonce_size then read_at nonce (t.current_nonce_size - 3) 2 else fault

-- The common beginning: the label that the nonce chooses and the size of its area; `none` when the
-- list of labels cannot be allocated.
unfoldable pub chosen_area : (malloc : Bool) → Table → List ℕ → Run (Option (ℕ × ℕ))
unfolding label_bytes remainder
chosen_area malloc t nonce = label_bytes t nonce >>= λ n.
    remainder n t.memory_areas_count >>= λ label_index.
    if malloc
    then (get_labels_list t false >>= λ (r, labels).
        deref (get_elem? labels label_index) >>= λ label.
        deref (get_memory_area t label) >>= λ area. ok (some (label, area.total_size)))
    else ok none

abbrev pub at_least_two : ℕ → ℕ
at_least_two g = if g == 1 || g == 0 then 2 else g

-- The difference of two uint32_t.
abbrev pub difference : ℕ → ℕ → ℕ
difference a b = (a + 2 ^ 32 - b) % 2 ^ 32

module _ (is_prime : ℕ → Bool) where
  -- Version 1 compares the result of closest_prime with -1, which no RA_RESULT is, so on an error it
  -- goes on with the `raw` value of `actual_buffer_size`.
  decode1 : (raw : ℕ) → List ℕ → (label size : ℕ) → Run (RaResult × Option DecodedInfo)
  unfolding read_at remainder
  decode1 raw nonce label size = closest_prime is_prime size >>= λ (r, out).
      let actual : ℕ = elim out [ none ↦ raw | some p ↦ p ] in
      (if size == actual
        then ok 0
        else (read_at nonce 4 4 >>= λ n. remainder n (difference size actual)))
      >>= λ offset. read_at nonce 0 4 >>= λ n. remainder n actual >>= λ g. ok (
        success,
        some (record {
          area_label = label;
          buffer_size = size;
          actual_buffer_size = actual;
          generator = at_least_two g;
          initial_offset = offset;
        }),
      )

  -- Version 2: the whole area, and the closest prime as the generator.
  decode2 : (label size : ℕ) → Run (RaResult × Option DecodedInfo)
  decode2 label size = closest_prime is_prime size >>= λ (r, out). elim out [
    | none ↦ ok (error_generic, none)
    | some p ↦ ok (
      success,
      some (record {
        area_label = label;
        buffer_size = size;
        actual_buffer_size = size;
        generator = at_least_two p;
        initial_offset = 0;
      }),
    )
  ]

  -- Version 3: the same choices as in version 2.
  decode3 : (label size : ℕ) → Run (RaResult × Option DecodedInfo)
  decode3 label size = closest_prime is_prime size >>= λ (r, out). elim out [
    | none ↦ ok (error_generic, none)
    | some p ↦ ok (
      success,
      some (record {
        area_label = label;
        buffer_size = size;
        actual_buffer_size = size;
        generator = at_least_two p;
        initial_offset = 0;
      }),
    )
  ]

  -- Version 4: a prime number of bytes, and the closest prime below it as the generator.
  decode4 : (label size : ℕ) → Run (RaResult × Option DecodedInfo)
  decode4 label size = closest_prime is_prime size >>= λ (r, out). elim out [
    | none ↦ ok (error_generic, none)
    | some actual ↦ closest_prime is_prime (difference actual 1) >>= λ (r', out'). elim out' [
      | none ↦ ok (error_generic, none)
      | some p ↦ ok (
        success,
        some (record {
          area_label = label;
          buffer_size = size;
          actual_buffer_size = actual;
          generator = at_least_two p;
          initial_offset = 0;
        }),
      )
    ]
  ]

  unfoldable pub decode_chosen :
      Version → (raw : ℕ) → List ℕ → (label size : ℕ) → Run (RaResult × Option DecodedInfo)
  unfolding decode1 decode2 decode3 decode4
  decode_chosen v1 raw nonce label size = decode1 raw nonce label size
  decode_chosen v2 raw nonce label size = decode2 label size
  decode_chosen v3 raw nonce label size = decode3 label size
  decode_chosen v4 raw nonce label size = decode4 label size

  -- decode_nonce; what it stores on an error is of no use to its callers, and is left out.
  unfoldable pub decode_nonce :
      Version → (malloc : Bool) (raw : ℕ) → Table → Run (RaResult × Option DecodedInfo)
  decode_nonce v malloc raw t = deref t.current_nonce >>= λ nonce.
      chosen_area malloc t nonce >>= λ chosen. elim chosen [
        | none ↦ ok (error_memory, none)
        | some (label, size) ↦ decode_chosen v raw nonce label size
      ]
