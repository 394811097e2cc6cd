-- ===== src/Memory/Tests.antt =====
-- An area of two blocks.
use remote_attestation.Prelude.{ℕ, ◌<◌, ◌≤◌, ◌≡◌, refl, true, some, [], ◌∷◌, ◌++◌, arith}
use remote_attestation.Prelude.Input.{Sink, sink, input}
use remote_attestation.Prelude.RaResult.{success}
use remote_attestation.Prelude.Run.{ok}
use remote_attestation.Memory.{Block, is_empty, get_byte, get_buffer}
use remote_attestation.Memory.Bytes.{byte_at, get_byte_lem, get_buffer-get_byte}
use remote_attestation.Memory.Codec.{dump_area, parse_area}
use remote_attestation.Memory.Codec.RoundTrip.{parse_area-dump_area}
use remote_attestation.Examples.{memory, base, area, area-IsValid}

abbrev block : Block
block = record { offset = 500; size = 9 }

get_byte_lem_example : get_byte memory base area 4 ≡ ok (success, some 202)
unfolding byte_at
get_byte_lem_example = get_byte_lem memory base area 4 area-IsValid (λ e. omega arith) (omega arith)

get_buffer-get_byte_example :
    (filled : ℕ → ℕ) × (get_buffer memory base area (some (λ i. 0)) ≡ (success, some filled))
    × ((i : ℕ) → i < 7 → get_byte memory base area i ≡ ok (success, some (filled i)))
    × ((i : ℕ) → 7 ≤ i → filled i ≡ 0)
get_buffer-get_byte_example =
    get_buffer-get_byte memory base area (λ i. 0) area-IsValid (λ e. omega arith)

parse_area-dump_area_example :
    (s : Sink) × (j : ℕ) × (dump_area (λ k. true) area (sink [] 0) ≡ ok (success, s))
    × (parse_area (λ k. true) (input (s.content ++ 1 ∷ 2 ∷ []) 0)
        ≡ ok (some area, input (1 ∷ 2 ∷ []) j))
unfolding is_empty
parse_area-dump_area_example =
    parse_area-dump_area (λ k. true) (λ k. true) area (1 ∷ 2 ∷ []) (λ k. refl) (λ k. refl)
      area-IsValid (omega arith)
      (
        record { offset_small = omega arith; size_small = omega arith },
        (record { offset_small = omega arith; size_small = omega arith }, tt),
      )
      refl
