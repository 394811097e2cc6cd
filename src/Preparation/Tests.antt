-- ===== src/Preparation/Tests.antt =====
-- The walk of a small area.
use remote_attestation.Prelude.{
  List, [], ◌∷◌, length, ◌+◌, ◌≤◌, ℕ, ◌%◌, ◌≡◌, ◌≢◌, ◌||◌, ◌==◌, inl, refl, Bool, true, some, arith,
}
use remote_attestation.Prelude.RaResult.{success}
use remote_attestation.Prelude.Run.{ok, Returns}
use remote_attestation.Prelude.Bytes.{of_bytes}
use remote_attestation.DataTable.{get_labels_list, get_memory_area}
use remote_attestation.Primes.{closest_prime}
use remote_attestation.Nonce.{DecodedInfo, v1, v2, chosen_area, decode_chosen, decode_nonce}
use remote_attestation.Preparation.{calculate_index, prepare_data}
use remote_attestation.Preparation.Walk.{Prepares, all_mallocs, prepare_data-Prepares}
use remote_attestation.Memory.{Area}
use remote_attestation.Preparation.Goldbach.{
  Split, even_size, split, max_size, prepare_data_goldbach,
}
use remote_attestation.Preparation.Goldbach.Sums.{Summed, prepare_data_goldbach-Summed}
use remote_attestation.Preparation.Places.{IsSound, place-differs, place-constant}
use remote_attestation.Examples.{memory, base, is_prime, nonce, table, table-IsReady}

prepare_data-Prepares_example :
    Returns
      (Prepares memory base is_prime v2 table nonce)
      (prepare_data memory base is_prime v2 all_mallocs 0 table)
prepare_data-Prepares_example =
    prepare_data-Prepares memory base is_prime v2 0 table nonce refl refl table-IsReady

-- The walk over the first bytes of the area of `table`.
abbrev walked : (actual generator offset : ℕ) → DecodedInfo
walked actual generator offset = record {
  area_label = 5;
  buffer_size = 7;
  actual_buffer_size = actual;
  generator = generator;
  initial_offset = offset;
}

-- A test that knows the primes below five.
abbrev is_small_prime : ℕ → Bool
is_small_prime n = n == 2 || n == 3

decoded_v1 : decode_nonce is_small_prime v1 true 0 table ≡ ok (success, some (walked 3 2 3))
unfolding decode_nonce chosen_area decode_chosen get_labels_list get_memory_area of_bytes
    closest_prime
decoded_v1 = refl

decoded_v2 : decode_nonce is_prime v2 true 0 table ≡ ok (success, some (walked 7 7 0))
unfolding decode_nonce chosen_area decode_chosen get_labels_list get_memory_area of_bytes
    closest_prime
decoded_v2 = refl

is_small_prime-IsSound : IsSound is_small_prime
is_small_prime-IsSound p e d above below = λ h.
    let three : p ≡ 3 = ground arith in
    let two : d ≡ 2 = omega arith in let divided : 3 % 2 ≡ 0 = cc in omega (arith, divided)

place-differs_example : calculate_index 2 1 3 ≢ calculate_index 2 2 3
place-differs_example =
    place-differs is_small_prime refl refl v1 0 table nonce (walked 3 2 3) (inl refl)
      is_small_prime-IsSound table-IsReady decoded_v1 (omega arith) 1 2 (omega arith) (omega arith)

place-constant_example : ◌≡◌ {A = ℕ} (calculate_index 7 3 7).1 0
place-constant_example =
    place-constant is_prime refl refl v2 0 table nonce (walked 7 7 0) (inl refl) table-IsReady
      decoded_v2 refl 3

-- The first partitions.
abbrev partitions : List (ℕ × ℕ)
partitions = (2, 2) ∷ (3, 3) ∷ []

prepare_data_goldbach-Summed_example :
    (a : Area) × (p : Split) × (bs : List ℕ) × (get_memory_area table 5 ≡ some a)
    × (split partitions (walked 7 7 0) ≡ ok p)
    × (length bs ≡ max_size p)
    × Summed memory base (walked 7 7 0) p a 0 bs
    × (0 + (p.lefthand_size + p.righthand_size) ≤ a.total_size)
    × (prepare_data_goldbach memory base partitions is_prime v2 all_mallocs 0 table
        ≡ ok (record table { prepared_data = some bs; prepared_data_size = length bs }, success))
unfolding even_size
prepare_data_goldbach-Summed_example =
    prepare_data_goldbach-Summed memory base partitions is_prime v2 0 table nonce (walked 7 7 0) 3 3
      refl refl table-IsReady decoded_v2 (omega arith) (omega arith) refl refl (omega arith)
      (omega arith)
