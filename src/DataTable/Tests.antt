-- ===== src/DataTable/Tests.antt =====
-- A table with one area.
use remote_attestation.Prelude.{
  ◌++◌, reverse, ℕ, ◌≡◌, refl, false, true, some, [], ◌∷◌, drop, length, arith,
}
use remote_attestation.Prelude.RaResult.{success}
use remote_attestation.Prelude.Run.{ok}
use remote_attestation.Memory.{is_empty}
use remote_attestation.DataTable.{Table, Raw, find_area, get_aid_reference, get_attestator_number}
use remote_attestation.DataTable.Areas.{IsValid}
use remote_attestation.DataTable.Ads.{parse_binary_ads}
use remote_attestation.DataTable.Ads.Encoded.{encode_areas, parse_binary_ads-encode}
use remote_attestation.DataTable.Dump.{
  HasContent, bytes_of, dump_table_info, encode_table, dump_table_info-encode,
}
use remote_attestation.Prelude.Bytes.{to_bytes}
use remote_attestation.Prelude.Input.{input}
use remote_attestation.Examples.{aid, area-IsValid, area, table, table-IsValid}

abbrev raw : Raw
raw = record { raw_aid = []; raw_attestator_number = 0; raw_is_attestator_number_set = false }

parse_binary_ads-encode_example :
    (t : Table) × (j : ℕ) × (parse_binary_ads true raw
        (λ k. true)
        (input
          (aid ++ (to_bytes 8 300 ++ (to_bytes 4 1 ++ (encode_areas (area ∷ []) ++ 9 ∷ []))))
          0)
      ≡ ok (some t, input (9 ∷ []) j))
    × IsValid t
    × (t.areas ≡ area ∷ [])
    × ((get_aid_reference t).1 ≡ some (reverse aid))
    × ((get_attestator_number t).1 ≡ some 300)
unfolding find_area
parse_binary_ads-encode_example =
    parse_binary_ads-encode (λ k. true) (λ k. refl) raw aid 300 (area ∷ []) (9 ∷ []) refl
      (omega arith) (omega arith)
      (
        record {
          valid = area-IsValid;
          label_small = omega arith;
          blocks_small = (
            record { offset_small = omega arith; size_small = omega arith },
            (record { offset_small = omega arith; size_small = omega arith }, tt),
          );
        },
        tt,
      )
      (refl, tt)

area-HasContent : HasContent area
unfolding is_empty
area-HasContent = record { full = refl; some_block = λ e. ground arith }

dump_table_info-encode_example :
    dump_table_info (λ k. true) true (some aid) table
    ≡ ok (
      success,
      some (encode_table table ++ drop (length (encode_table table)) (bytes_of (some aid))),
    )
dump_table_info-encode_example =
    dump_table_info-encode (λ k. true) (λ k. refl) (some aid) table table-IsValid refl refl
      (area-HasContent, tt)
