-- ===== src/Preparation/Goldbach.antt =====
-- src/client-parametric-files/cond/ra_data_preparation_goldbach.c: the walk with two generators over the
-- two parts of the attested area. The table of partitions, which
-- src/headers/ra_goldback_partitions.h lists for the even numbers from 4 on, is a parameter.
pub mod Sums
use native.Mathlib.Nat.{mod-lt}
use remote_attestation.Prelude.{
  ℕ, zero, suc, ◌+◌, ◌-◌, ◌*◌, ◌/◌, ◌%◌, ◌^◌, ◌<◌, ◌≤◌, ◌≡◌, refl, Bool, true, false, ◌||◌, Option,
  none, some, List, [], ◌∷◌, ◌==◌, ltb, length, get_elem?, if◌then◌else◌, arith,
}
use remote_attestation.Prelude.RaResult.{
  RaResult, success, error_memory, error_generic, error_undefined_parameters, error_empty_area,
  is_success,
}
use remote_attestation.Prelude.Run.{Run, ok, fault, ◌>>=◌, deref}
use remote_attestation.Memory.{Area, get_byte}
use remote_attestation.Memory.Bytes as MemoryBytes
use remote_attestation.Memory.Bytes.{byte_at, byte_at-some, get_byte_lem, has_blocks}
use remote_attestation.DataTable.{Table, is_null, get_memory_area, reset_prepared_data}
use remote_attestation.Nonce.{DecodedInfo, Version, remainder, decode_nonce}
use remote_attestation.Nonce.Decode.{IsReady, IsDecoded, least_size}
use remote_attestation.Preparation.{Mallocs, calculate_index, finish}
use remote_attestation.Preparation.Walk.{all_mallocs, set_prepared}
use remote_attestation.Preparation.Places.{decoded}

-- goldbach_left and goldbach_right: the entry (x / 2) - 2 of the table, whose index wraps around.
unfoldable pub partition : List (ℕ × ℕ) → ℕ → Run (ℕ × ℕ)
partition partitions x = deref (get_elem? partitions ((x / 2 + 2 ^ 32 - 2) % 2 ^ 32))

-- The actual size, made even.
unfoldable pub even_size : ℕ → ℕ
even_size size = if size % 2 == 0 then size else size - 1

-- The sizes of the two parts and the generators of the walk.
pub record Split : Type 0 where
  pub lefthand_size : ℕ
  pub righthand_size : ℕ
  pub lefthand_generator : ℕ
  pub righthand_generator : ℕ

unfoldable pub split : List (ℕ × ℕ) → DecodedInfo → Run Split
split partitions info = partition partitions (even_size info.actual_buffer_size) >>= λ (l, r).
    remainder info.generator l >>= λ lefthand_generator.
    remainder info.generator r >>= λ righthand_generator. ok (record {
      lefthand_size = l;
      righthand_size = r;
      lefthand_generator = lefthand_generator;
      righthand_generator = righthand_generator;
    })

unfoldable pub max_size : Split → ℕ
max_size p = if ltb p.righthand_size p.lefthand_size then p.lefthand_size else p.righthand_size

module _ (memory : ℕ → ℕ) (base : ℕ) where
  -- ra_mA_get_byte into a local variable. A byte that is not stored would be left as it was: a fault.
  unfoldable pub read_byte : Area → ℕ → Run (RaResult × ℕ)
  read_byte a i = get_byte memory base a (i % 2 ^ 32) >>= λ (s, byte).
      if is_success s then elim byte [ none ↦ fault | some b ↦ ok (success, b) ] else ok (s, 0)

  -- The two reads of a round, at the indices in the two parts, and their sum in 8 bits.
  unfoldable pub sum_bytes : DecodedInfo → Split → Area → ℕ → ℕ → Run (RaResult × ℕ)
  sum_bytes info p a lefthand_index righthand_index =
      read_byte a (lefthand_index + info.initial_offset) >>= λ (r, x). elim (is_success r) [
        | true ↦ read_byte a (righthand_index + p.lefthand_size + info.initial_offset) >>= λ (s, y).
            if is_success s then ok (success, (x + y) % 2 ^ 8) else ok (s, 0)
        | false ↦ ok (r, 0)
      ]

  -- One round of the walk.
  unfoldable pub goldbach_byte : DecodedInfo → Split → Area → ℕ → Run (RaResult × ℕ)
  goldbach_byte info p a i =
      let (r, lefthand_index) = calculate_index p.righthand_generator i p.lefthand_size in
      let (s, righthand_index) = calculate_index p.lefthand_generator i p.righthand_size in
      if is_success r
      then (if is_success s then sum_bytes info p a lefthand_index righthand_index else ok (s, 0))
      else ok (r, 0)

  -- The loop from `i`, with the rounds that are left: the bytes of the buffer, or the first error.
  unfoldable pub goldbach_loop : DecodedInfo → Split → Area → ℕ → ℕ → Run (RaResult × List ℕ)
  goldbach_loop info p a zero i = ok (success, [])
  goldbach_loop info p a (suc n) i = goldbach_byte info p a i >>= λ (r, b). elim (is_success r) [
    | true ↦ goldbach_loop info p a n (i + 1) >>= λ (s, bs). ok (s, b ∷ bs)
    | false ↦ ok (r, [])
  ]

  unfoldable pub goldbach_area :
      Mallocs → Table → DecodedInfo → Split → Option Area → Run (Table × RaResult)
  goldbach_area m t info p none = ok (t, error_empty_area)
  goldbach_area m t info p (some a) =
      if m.walk
      then (goldbach_loop info p a (max_size p) 0 >>= λ out. ok (finish m t out))
      else ok (reset_prepared_data t, error_memory)

  -- ra_prepare_data of this file.
  unfoldable pub prepare_data_goldbach :
      List (ℕ × ℕ) → (ℕ → Bool) → Version → Mallocs → (raw : ℕ) → Table → Run (Table × RaResult)
  prepare_data_goldbach partitions is_prime v m raw t =
      if is_null t.current_nonce || t.current_nonce_size == 0
      then ok (reset_prepared_data t, error_undefined_parameters)
      else (decode_nonce is_prime v m.labels raw t >>= λ (r, out). elim out [
        | none ↦ ok (t, error_generic)
        | some info ↦
            if is_success r
            then (split partitions info >>= λ p.
                goldbach_area m t info p (get_memory_area t info.area_label))
            else ok (t, error_generic)
      ])
