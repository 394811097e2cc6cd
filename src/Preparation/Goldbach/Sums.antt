-- ===== src/Preparation/Goldbach/Sums.antt =====
-- The bytes that the Goldbach variant of the walk stores.
use native.Mathlib.Nat.{mod-lt}
use remote_attestation.Prelude.{
  ℕ, zero, suc, ◌+◌, ◌-◌, ◌*◌, ◌/◌, ◌%◌, ◌^◌, ◌<◌, ◌≤◌, ◌≡◌, refl, Bool, true, false, some, List,
  [], ◌∷◌, ◌==◌, ltb, length, get_elem?, arith,
}
use remote_attestation.Prelude.RaResult.{success}
use remote_attestation.Prelude.Run.{ok}
use remote_attestation.Memory.{Area}
use remote_attestation.Memory.Bytes as MemoryBytes
use remote_attestation.Memory.Bytes.{byte_at, byte_at-some, get_byte_lem, has_blocks}
use remote_attestation.DataTable.{Table, get_memory_area}
use remote_attestation.Nonce.{DecodedInfo, Version, remainder, decode_nonce}
use remote_attestation.Nonce.Decode.{IsReady, least_size}
use remote_attestation.Preparation.{calculate_index}
use remote_attestation.Preparation.Walk.{all_mallocs, set_prepared}
use remote_attestation.Preparation.Places.{decoded}
use remote_attestation.Preparation.Goldbach.{
  partition, even_size, Split, split, max_size, read_byte, sum_bytes, goldbach_byte, goldbach_loop,
  goldbach_area, prepare_data_goldbach,
}

module _ (memory : ℕ → ℕ) (base : ℕ) where
  -- The places of round `i` in the two parts.
  abbrev pub lefthand_place : DecodedInfo → Split → ℕ → ℕ
  lefthand_place info p i = (p.righthand_generator * i) % p.lefthand_size + info.initial_offset

  abbrev pub righthand_place : DecodedInfo → Split → ℕ → ℕ
  righthand_place info p i =
      (p.lefthand_generator * i) % p.righthand_size + p.lefthand_size + info.initial_offset

  -- `bs` are the sums of the rounds `i`, `i + 1`, … of the walk.
  abbrev pub Summed : DecodedInfo → Split → Area → ℕ → List ℕ → Type 0
  Summed info p a i [] = Unit {0}
  Summed info p a i (b ∷ bs) =
      ((x : ℕ) × (y : ℕ) × (byte_at memory base a.blocks (lefthand_place info p i) ≡ some x)
        × (byte_at memory base a.blocks (righthand_place info p i) ≡ some y)
        × (b ≡ (x + y) % 2 ^ 8))
      × Summed info p a (i + 1) bs

  module _ (info : DecodedInfo) (p : Split) (a : Area) (v : MemoryBytes.IsValid a)
      (left : 0 < p.lefthand_size) (right : 0 < p.righthand_size)
      (within : info.initial_offset + (p.lefthand_size + p.righthand_size) ≤ a.total_size) where
    read_byte-byte_at :
        (i : ℕ)
        → i < a.total_size
        → (b : ℕ) × (byte_at memory base a.blocks i ≡ some b)
          × (read_byte memory base a i ≡ ok (success, b))
    unfolding read_byte
    read_byte-byte_at i inside =
        let (b, e) = byte_at-some memory base a.blocks i (omega (arith, v.size_counted)) in
        let short : i % 2 ^ 32 ≡ i = omega (arith, v.size_counted, v.small) in
        let in_area : ltb i a.total_size ≡ true = ground arith in
        let blocks = has_blocks a v (omega (arith, inside)) in
        (
          b,
          e,
          rw (
            short,
            get_byte_lem memory base a i v blocks (omega (arith, v.size_counted, v.small)),
            in_area,
            e,
          ),
        )

    sum_bytes-read :
        (l r x y : ℕ)
        → read_byte memory base a (l + info.initial_offset) ≡ ok (success, x)
        → read_byte memory base a (r + p.lefthand_size + info.initial_offset) ≡ ok (success, y)
        → sum_bytes memory base info p a l r ≡ ok (success, (x + y) % 2 ^ 8)
    unfolding sum_bytes
    sum_bytes-read l r x y read_x read_y = ground (arith, read_x, read_y)

    goldbach_byte-sum :
        (i : ℕ)
        → (x : ℕ) × (y : ℕ) × (byte_at memory base a.blocks (lefthand_place info p i) ≡ some x)
          × (byte_at memory base a.blocks (righthand_place info p i) ≡ some y)
          × (goldbach_byte memory base info p a i ≡ ok (success, (x + y) % 2 ^ 8))
    unfolding goldbach_byte calculate_index
    goldbach_byte-sum i =
        let l = mod-lt (p.righthand_generator * i) {m = p.lefthand_size} left in
        let r = mod-lt (p.lefthand_generator * i) {m = p.righthand_size} right in
        let (x, at_x, read_x) =
          read_byte-byte_at (lefthand_place info p i) (omega (arith, l, within)) in
        let (y, at_y, read_y) =
          read_byte-byte_at (righthand_place info p i) (omega (arith, r, within)) in
        let some_left : (p.lefthand_size == 0) ≡ false = ground arith in
        let some_right : (p.righthand_size == 0) ≡ false = ground arith in
        (x, y, at_x, at_y, rw (some_left, some_right) (sum_bytes-read _ _ x y read_x read_y))

    goldbach_loop-Summed :
        (n i : ℕ)
        → (bs : List ℕ) × (goldbach_loop memory base info p a n i ≡ ok (success, bs))
          × (length bs ≡ n)
          × Summed info p a i bs
    unfolding goldbach_loop
    goldbach_loop-Summed zero i = ([], refl, refl, tt)
    goldbach_loop-Summed (suc n) i =
        let (x, y, at_x, at_y, one) = goldbach_byte-sum i in
        let (bs, more, l, w) = goldbach_loop-Summed n (i + 1) in
        (
          (x + y) % 2 ^ 8 ∷ bs,
          ground (arith, one, more),
          omega arith,
          ((x, y, at_x, at_y, refl), w),
        )

  -- The walk of an area that is found, with both parts inside of it.
  goldbach_area-Summed :
      (info : DecodedInfo) (p : Split) (t : Table) (a : Area)
      → MemoryBytes.IsValid a
      → 0 < p.lefthand_size
      → 0 < p.righthand_size
      → info.initial_offset + (p.lefthand_size + p.righthand_size) ≤ a.total_size
      → (bs : List ℕ) × (length bs ≡ max_size p)
        × Summed info p a 0 bs
        × (goldbach_area memory base all_mallocs t info p (some a)
            ≡ ok (record t { prepared_data = some bs; prepared_data_size = length bs }, success))
  unfolding goldbach_area
  goldbach_area-Summed info p t a v left right within =
      let (bs, loop, l, w) = goldbach_loop-Summed info p a v left right within (max_size p) 0 in
      (bs, l, w, rw (loop, set_prepared t bs))

  split_parts :
      (partitions : List (ℕ × ℕ)) (info : DecodedInfo) (l r : ℕ)
      → 4 ≤ info.actual_buffer_size
      → info.actual_buffer_size < 2 ^ 32
      → get_elem? partitions (info.actual_buffer_size / 2 - 2) ≡ some (l, r)
      → 0 < l
      → 0 < r
      → split partitions info
        ≡ ok (record {
          lefthand_size = l;
          righthand_size = r;
          lefthand_generator = info.generator % l;
          righthand_generator = info.generator % r;
        })
  unfolding split partition remainder even_size
  split_parts partitions info l r big small found left right =
      let entry : (even_size info.actual_buffer_size / 2 + 2 ^ 32 - 2) % 2 ^ 32
          ≡ info.actual_buffer_size / 2 - 2 =
        ground arith in
      let some_left : (l == 0) ≡ false = ground arith in
      let some_right : (r == 0) ≡ false = ground arith in
      rw (entry, found, some_left, some_right) refl

  -- ra_prepare_data of the Goldbach variant, for decoded values whose actual size, made even, is
  -- the sum of its entry in the table of partitions, succeeds and stores, for each round up to the
  -- larger part, the sum modulo 256 of the bytes at (generator mod right * i) mod left + offset
  -- and at (generator mod left * i) mod right + left + offset of the area, which both lie within
  -- the area. Conditions: the allocations succeed, the prime test accepts 2 and 3, the table is
  -- ready, the actual size is from 4 on and below 2^32, and neither part is 0.
  pub prepare_data_goldbach-Summed :
      (partitions : List (ℕ × ℕ)) (is_prime : ℕ → Bool) (v : Version) (raw : ℕ) (t : Table)
      (nonce : List ℕ) (info : DecodedInfo) (l r : ℕ)
      → is_prime 2 ≡ true
      → is_prime 3 ≡ true
      → IsReady (least_size v) t nonce
      → decode_nonce is_prime v true raw t ≡ ok (success, some info)
      → 4 ≤ info.actual_buffer_size
      → info.actual_buffer_size < 2 ^ 32
      → get_elem? partitions (info.actual_buffer_size / 2 - 2) ≡ some (l, r)
      → l + r ≡ even_size info.actual_buffer_size
      → 0 < l
      → 0 < r
      → (a : Area) × (p : Split) × (bs : List ℕ) × (get_memory_area t info.area_label ≡ some a)
        × (split partitions info ≡ ok p)
        × (length bs ≡ max_size p)
        × Summed info p a 0 bs
        × (info.initial_offset + (p.lefthand_size + p.righthand_size) ≤ a.total_size)
        × (prepare_data_goldbach memory base partitions is_prime v all_mallocs raw t
            ≡ ok (record t { prepared_data = some bs; prepared_data_size = length bs }, success))
  unfolding prepare_data_goldbach even_size
  prepare_data_goldbach-Summed partitions is_prime v raw t nonce info l r two three ready e big
        small found sum left right =
      let (done, d, law, named) = decoded is_prime two three v raw t nonce ready e in
      let parts = split_parts partitions info l r big small found left right in
      let within : info.initial_offset + (l + r) ≤ d.area.total_size =
        ground (arith, sum, d.within) in
      let (bs, size, w, walk) =
        goldbach_area-Summed info
          (record {
            lefthand_size = l;
            righthand_size = r;
            lefthand_generator = info.generator % l;
            righthand_generator = info.generator % r;
          })
          t d.area d.area_valid left right within in
      (
        d.area,
        _,
        bs,
        d.found,
        parts,
        size,
        w,
        within,
        ground
            (arith, ready.nonce_set, ready.nonce_sized, ready.nonce_long, e, d.found, parts, walk),
      )
