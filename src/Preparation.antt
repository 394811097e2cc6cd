-- ===== src/Preparation.antt =====
-- src/client-parametric-files/cond/ra_data_preparation.c: the random walk over the attested area. The
-- version of decode_nonce that the build links, OpenSSL's prime test and the attested memory are
-- parameters.
pub mod Walk
pub mod Agreement
pub mod Places
pub mod Goldbach
mod Tests
use remote_attestation.Prelude.{
  ℕ, zero, suc, ◌+◌, ◌*◌, ◌%◌, ◌^◌, Bool, true, false, ◌||◌, Option, none, some, List, [], ◌∷◌,
  ◌==◌, if◌then◌else◌,
}
use remote_attestation.Prelude.RaResult.{
  RaResult, success, error_memory, error_generic, error_undefined_parameters, error_empty_area,
  is_success,
}
use remote_attestation.Prelude.Run.{Run, ok, fault, ◌>>=◌}
use remote_attestation.Memory.{Area, get_byte}
use remote_attestation.DataTable.{
  Table, is_null, get_memory_area, reset_prepared_data, set_prepared_data,
}
use remote_attestation.Nonce.{DecodedInfo, Version, decode_nonce}

-- calculate_index: BN_mod_mul multiplies, and fails for the modulus 0.
unfoldable pub calculate_index : (base exponent modulo : ℕ) → RaResult × ℕ
calculate_index base exponent modulo =
    if modulo == 0 then (error_generic, 0) else (success, (base * exponent) % modulo)

-- The results of the allocations of one call: the list of labels, the buffer of the walk, and the
-- buffer of the table.
pub record Mallocs : Type 0 where
  pub labels : Bool
  pub walk : Bool
  pub prepared : Bool

-- The end of ra_prepare_data: the walk is stored, or the prepared data is reset.
pub finish : Mallocs → Table → RaResult × List ℕ → Table × RaResult
finish m t (r, bs) =
    if is_success r
    then ((set_prepared_data m.prepared t (some bs)).0, success)
    else (reset_prepared_data t, r)

module _ (memory : ℕ → ℕ) (base : ℕ) where
  -- One byte of the walk. A byte that is not stored would stay as malloc gave it: a fault.
  pub walk_byte : DecodedInfo → Area → ℕ → Run (RaResult × ℕ)
  unfolding calculate_index
  walk_byte info a i =
      let (r, index) = calculate_index info.generator i info.actual_buffer_size in
      if is_success r
      then (get_byte memory base a ((index + info.initial_offset) % 2 ^ 32) >>= λ (s, byte).
          if is_success s then elim byte [ none ↦ fault | some b ↦ ok (success, b) ] else ok (s, 0))
      else ok (r, 0)

  -- The loop from `i`, with the rounds that are left: the bytes of the buffer, or the first error.
  pub walk_loop : DecodedInfo → Area → ℕ → ℕ → Run (RaResult × List ℕ)
  walk_loop info a zero i = ok (success, [])
  walk_loop info a (suc n) i = walk_byte info a i >>= λ (r, b). elim (is_success r) [
    | true ↦ walk_loop info a n (i + 1) >>= λ (s, bs). ok (s, b ∷ bs)
    | false ↦ ok (r, [])
  ]

  pub walk_area : Mallocs → Table → DecodedInfo → Option Area → Run (Table × RaResult)
  unfolding walk_loop finish
  walk_area m t info none = ok (t, error_empty_area)
  walk_area m t info (some a) =
      if m.walk
      then (walk_loop info a info.actual_buffer_size 0 >>= λ out. ok (finish m t out))
      else ok (reset_prepared_data t, error_memory)

  -- ra_prepare_data
  unfoldable pub prepare_data :
      (ℕ → Bool) → Version → Mallocs → (raw : ℕ) → Table → Run (Table × RaResult)
  unfolding walk_area
  prepare_data is_prime v m raw t =
      if is_null t.current_nonce || t.current_nonce_size == 0
      then ok (reset_prepared_data t, error_undefined_parameters)
      else (decode_nonce is_prime v m.labels raw t >>= λ (r, out). elim out [
        | none ↦ ok (t, error_generic)
        | some info ↦
            if is_success r
            then walk_area m t info (get_memory_area t info.area_label)
            else ok (t, error_generic)
      ])
