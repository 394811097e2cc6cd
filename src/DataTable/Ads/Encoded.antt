-- ===== src/DataTable/Ads/Encoded.antt =====
-- The parser on the bytes of a table.
use remote_attestation.Prelude.{
  ℕ, suc, ◌+◌, ◌^◌, ◌<◌, ◌≡◌, refl, sym, ◌∙◌, Bool, true, false, none, some, List, [], ◌∷◌, ◌++◌,
  append_assoc, append-nil, reverse, All, length, length-append, arith,
}
use remote_attestation.Prelude.Bytes.{to_bytes, length-to_bytes, of_bytes-to_bytes, byte_bound}
use remote_attestation.Prelude.Input.{Input, input, malloc, read-append}
use remote_attestation.Prelude.RaResult.{success}
use remote_attestation.Prelude.Run.{ok}
use remote_attestation.Memory.{Area}
use remote_attestation.Memory.Bytes as MemoryBytes
use remote_attestation.Memory.Codec.{parse_area}
use remote_attestation.Memory.Codec.RoundTrip.{IsBlock, encode_area, parse_area-encode}
use remote_attestation.DataTable.{
  Table, Raw, create_table, set_aid, set_attestator_number, insert_table_item, insert_memory_area,
  get_memory_area, find_area, get_aid_reference, get_attestator_number,
}
use remote_attestation.DataTable.Areas.{IsValid, insert_memory_area-item}
use remote_attestation.DataTable.Ads.{parse_areas, parse_table, parse_binary_ads}

-- The bytes of the areas, one behind the other.
unfoldable pub encode_areas : List Area → List ℕ
encode_areas [] = []
encode_areas (a ∷ xs) = encode_area a ++ encode_areas xs

-- An area that the format can hold.
pub record IsArea (a : Area) : Type 0 where
  pub valid : MemoryBytes.IsValid a
  pub label_small : a.label < 2 ^ 16
  pub blocks_small : All IsBlock a.blocks

abbrev pub insert_all : Table → List Area → Table
insert_all t [] = t
insert_all t (a ∷ xs) = insert_all (insert_table_item t a) xs

-- No area has a label that an area before it has.
abbrev pub Fresh : (before : List Area) → List Area → Type 0
Fresh before [] = Unit {0}
Fresh before (a ∷ xs) = (find_area a.label before ≡ none) × Fresh (before ++ a ∷ []) xs

-- The table that ra_create_table makes.
new_table : Raw → Table
new_table raw = record {
  prepared_data = none;
  prepared_data_size = 0;
  current_nonce = none;
  current_nonce_size = 0;
  current_key = none;
  current_key_size = 0;
  areas = [];
  memory_areas_count = 0;
  app_aid = raw.raw_aid;
  app_attestator_number = raw.raw_attestator_number;
  is_aid_set = false;
  is_attestator_number_set = raw.raw_is_attestator_number_set;
}

-- The table with areas behind those that it has, and its other fields as they are.
insert_all-areas :
    (xs : List Area) (t : Table)
    → ((insert_all t xs).areas ≡ t.areas ++ xs)
      × ((insert_all t xs).app_aid ≡ t.app_aid)
      × ((insert_all t xs).is_aid_set ≡ t.is_aid_set)
      × ((insert_all t xs).app_attestator_number ≡ t.app_attestator_number)
      × ((insert_all t xs).is_attestator_number_set ≡ t.is_attestator_number_set)
unfolding insert_table_item
insert_all-areas [] t = (sym (append-nil t.areas), refl, refl, refl, refl)
insert_all-areas (a ∷ xs) t =
    let (e, f, g, h, i) = insert_all-areas xs (insert_table_item t a) in
    (e ∙ append_assoc t.areas (a ∷ []) xs, f, g, h, i)

longer : (t : Table) (a : Area) → length (insert_table_item t a).areas ≡ length t.areas + 1
unfolding insert_table_item
longer t a = omega (arith, length-append t.areas (a ∷ []))

module _ (grants : ℕ → Bool) (all : (k : ℕ) → grants k ≡ true) where
  parse_areas_step :
      (n : ℕ) (t : Table) (a : Area) (s : Input) (rest : List ℕ) (j : ℕ)
      → parse_area grants s ≡ ok (some a, input rest j)
      → insert_memory_area true t (some a) ≡ ok (insert_table_item t a, success)
      → parse_areas (suc n) t grants s
        ≡ parse_areas n (insert_table_item t a) grants (input rest (j + 1))
  unfolding parse_areas malloc
  parse_areas_step n t a s rest j e i = ground (arith, e, i, all j)

  parse_areas-encode :
      (xs : List Area) (t : Table) (rest : List ℕ) (k : ℕ)
      → All IsArea xs
      → IsValid t
      → length t.areas + length xs < 2 ^ 16
      → Fresh t.areas xs
      → IsValid (insert_all t xs)
        × ((j : ℕ) × (parse_areas (length xs) t grants (input (encode_areas xs ++ rest) k)
              ≡ ok (some (insert_all t xs), input rest j)))
  unfolding encode_areas get_memory_area insert_table_item
  parse_areas-encode [] t rest k h v room f = (v, (k, unfold parse_areas in refl))
  parse_areas-encode (a ∷ xs) t rest k h v room f =
      let (j, e) =
        parse_area-encode grants all a (encode_areas xs ++ rest) k h.0.valid h.0.label_small
          h.0.blocks_small in
      let (inserted, v') = insert_memory_area-item t a v (omega arith) f.0 in
      let (valid, (i, more)) =
        parse_areas-encode xs (insert_table_item t a) rest (j + 1) h.1 v'
          (omega (arith, longer t a)) f.1 in
      (
        valid,
        (
          i,
          rw (append_assoc (encode_area a) (encode_areas xs) rest)
              (parse_areas_step (length xs) t a _ (encode_areas xs ++ rest) j e inserted ∙ more),
        ),
      )

  parse_table_start :
      (t : Table) (stored : List ℕ) (n count : ℕ) (more : List ℕ) (k : ℕ)
      → length stored ≡ 16
      → n < byte_bound 8
      → count < byte_bound 4
      → parse_table
          (some t)
          grants
          (input (stored ++ (to_bytes 8 n ++ (to_bytes 4 count ++ more))) k)
        ≡ parse_areas count
            (set_attestator_number (set_aid t (reverse stored)) n)
            grants
            (input more k)
  unfolding parse_table
  parse_table_start t stored n count more k l b c = ground (
    arith,
    read-append grants 16 stored (to_bytes 8 n ++ (to_bytes 4 count ++ more)) k l,
    read-append grants 8 (to_bytes 8 n) (to_bytes 4 count ++ more) k (length-to_bytes 8 n),
    read-append grants 4 (to_bytes 4 count) more k (length-to_bytes 4 count),
    of_bytes-to_bytes 8 n b,
    of_bytes-to_bytes 4 count c,
  )

  -- ra_parse_binary_ads on a blob that holds 16 bytes of an AID, a number in eight bytes, the
  -- number of areas in four, the areas in the format of the dump, and any bytes behind them,
  -- succeeds with a valid table of exactly these areas in their order, whose AID is the reverse of
  -- the stored one and whose attestator number is set, and stops right behind the areas.
  -- Conditions: every allocation succeeds, the number fits 64 bits, there are fewer than 2^16
  -- areas, each is valid and fits the format, and no two have one label.
  pub parse_binary_ads-encode :
      (raw : Raw) (stored : List ℕ) (n : ℕ) (xs : List Area) (rest : List ℕ)
      → length stored ≡ 16
      → n < byte_bound 8
      → length xs < 2 ^ 16
      → All IsArea xs
      → Fresh [] xs
      → (t : Table) × (j : ℕ) × (parse_binary_ads true raw grants (
            input
              (stored ++ (to_bytes 8 n ++ (to_bytes 4 (length xs) ++ (encode_areas xs ++ rest))))
              0)
          ≡ ok (some t, input rest j))
        × IsValid t
        × (t.areas ≡ xs)
        × ((get_aid_reference t).1 ≡ some (reverse stored))
        × ((get_attestator_number t).1 ≡ some n)
  unfolding parse_binary_ads malloc create_table new_table set_attestator_number set_aid
      get_aid_reference get_attestator_number
  parse_binary_ads-encode raw stored n xs rest l b few h f =
      let t = new_table raw in
      let t1 = set_attestator_number (set_aid t (reverse stored)) n in
      let empty : IsValid t1 = record { distinct = tt; counted = refl; small = omega arith } in
      let (valid, (j, e)) = parse_areas-encode xs t1 rest 1 h empty (omega arith) f in
      let (areas, aid, aid_set, number, number_set) = insert_all-areas xs t1 in
      let start =
        parse_table_start t stored n (length xs) (encode_areas xs ++ rest) 1 l b (omega arith) in
      (
        insert_all t1 xs,
        j,
        rw (all 0) (start ∙ e),
        valid,
        areas,
        rw (aid_set, aid),
        rw (number_set, number),
      )
