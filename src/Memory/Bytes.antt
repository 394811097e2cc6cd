-- ===== src/Memory/Bytes.antt =====
-- The bytes of an area in order, and how ra_mA_get_byte and ra_mA_get_buffer read them.
use remote_attestation.Prelude.{
  ℕ, ◌+◌, ◌-◌, ◌%◌, ◌^◌, ◌<◌, ◌≤◌, ◌≡◌, ◌≢◌, inl, inr, refl, true, false, ◌&&◌, ◌||◌, Option, none,
  some, List, [], ◌∷◌, ◌++◌, ltb, leb, if◌then◌else◌, Bool-cases, length, length-append, arith,
}
use remote_attestation.Prelude.RaResult.{success}
use remote_attestation.Prelude.Run.{ok, fault}
use remote_attestation.Memory.{
  Block, Area, append_block, is_blank, get_block_byte, copy_block, get_buffer_loop, get_buffer,
  find_block, store_byte, get_byte,
}

unfoldable pub sum_sizes : List Block → ℕ
sum_sizes [] = 0
sum_sizes (b ∷ bs) = b.size + sum_sizes bs

-- The counters are those of the chain, and did not wrap.
pub record IsValid (a : Area) : Type 0 where
  pub blocks_counted : a.total_blocks ≡ length a.blocks
  pub size_counted : a.total_size ≡ sum_sizes a.blocks
  pub few : length a.blocks < 2 ^ 32
  pub small : sum_sizes a.blocks < 2 ^ 32

pub sum_sizes-append : (bs cs : List Block) → sum_sizes (bs ++ cs) ≡ sum_sizes bs + sum_sizes cs
unfolding sum_sizes
sum_sizes-append [] cs = omega arith
sum_sizes-append (b ∷ bs) cs = omega (arith, sum_sizes-append bs cs)

no_blocks : (bs : List Block) → length bs ≡ 0 → sum_sizes bs ≡ 0
unfolding sum_sizes
no_blocks [] h = refl
no_blocks (b ∷ bs) h = absurd (omega arith)

-- An area with a byte has a block.
pub has_blocks : (a : Area) → IsValid a → 0 < a.total_size → a.total_blocks ≢ 0
has_blocks a v h e =
    omega (arith, v.size_counted, no_blocks a.blocks (omega (arith, v.blocks_counted)))

-- Appending a block to a valid area keeps the counters of blocks and bytes right and adds the size
-- of the block to the size of the area. Condition: both counters have room in 32 bits.
append_block-IsValid :
    (a : Area) (b : Block)
    → IsValid a
    → length a.blocks + 1 < 2 ^ 32
    → a.total_size + b.size < 2 ^ 32
    → IsValid (append_block a b) × (sum_sizes (append_block a b).blocks ≡ a.total_size + b.size)
unfolding append_block sum_sizes
append_block-IsValid a b v few small =
    let longer = length-append a.blocks (b ∷ []) in
    let larger = sum_sizes-append a.blocks (b ∷ []) in
    (
      record {
        blocks_counted = omega (arith, v.blocks_counted, longer);
        size_counted = omega (arith, v.size_counted, larger);
        few = omega (arith, longer);
        small = omega (arith, v.size_counted, larger);
      },
      omega (arith, v.size_counted, larger),
    )

module _ (memory : ℕ → ℕ) (base : ℕ) where
  -- The byte at an index of the blocks laid end to end.
  unfoldable pub byte_at : List Block → ℕ → Option ℕ
  byte_at [] i = none
  byte_at (b ∷ bs) i =
      if ltb i b.size
      then some (memory ((b.offset + i + base) % 2 ^ 64))
      else byte_at bs (i - b.size)

  pub byte_at-some :
      (bs : List Block) (i : ℕ) → i < sum_sizes bs → (b : ℕ) × (byte_at bs i ≡ some b)
  unfolding byte_at sum_sizes
  byte_at-some [] i h = absurd (omega arith)
  byte_at-some (b ∷ bs) i h = elim (Bool-cases (ltb i b.size)) [
    | inl inside ↦ (memory ((b.offset + i + base) % 2 ^ 64), rw inside)
    | inr outside ↦ let (v, e) = byte_at-some bs (i - b.size) (ground arith) in (v, rw outside e)
  ]

  -- Within the area the search ends in a block and reads the byte at the index; behind it the search
  -- reads through NULL.
  find_block-byte_at :
      (index lower moving : ℕ) (bs : List Block)
      → index ≡ lower + moving
      → lower + sum_sizes bs < 2 ^ 32
      → index < 2 ^ 32
      → store_byte memory base (find_block index lower moving bs)
        ≡ (if ltb moving (sum_sizes bs) then ok (success, byte_at bs moving) else fault)
  unfolding find_block store_byte sum_sizes byte_at get_block_byte
  find_block-byte_at index lower moving [] e h k = ground arith
  find_block-byte_at index lower moving (b ∷ bs) e h k =
      let next : (lower + b.size) % 2 ^ 32 ≡ lower + b.size = omega arith in
      elim (Bool-cases (ltb moving b.size)) [
        | inl inside ↦
            let stop : (ltb index lower || leb (lower + b.size) index) ≡ false = ground arith in
            let here : ltb moving (b.size + sum_sizes bs) ≡ true = ground arith in
            rw (next, stop, inside, here)
        | inr outside ↦
            let go : (ltb index lower || leb (lower + b.size) index) ≡ true = ground arith in
            let left : (moving + 2 ^ 32 - b.size) % 2 ^ 32 ≡ moving - b.size = ground arith in
            let same : ltb moving (b.size + sum_sizes bs) ≡ ltb (moving - b.size) (sum_sizes bs) =
              ground arith in
            rw (next, go, outside, left, same)
              (find_block-byte_at index (lower + b.size) (moving - b.size) bs (ground arith)
                (omega arith) k)
      ]

  blank_false : (a : Area) → IsValid a → a.total_blocks ≢ 0 → is_blank a ≡ false
  blank_false a v h = ground (arith, v.blocks_counted)

  -- ra_mA_get_byte on a valid area that has blocks delivers the byte at the index of the blocks
  -- laid end to end when the index is below the size of the area, and reads through NULL for every
  -- other index of 32 bits.
  pub get_byte_lem :
      (a : Area) (index : ℕ)
      → IsValid a
      → a.total_blocks ≢ 0
      → index < 2 ^ 32
      → get_byte memory base a index
        ≡ (if ltb index a.total_size then ok (success, byte_at a.blocks index) else fault)
  unfolding get_byte
  get_byte_lem a index v h k =
      rw (blank_false a v h, v.size_counted)
        (find_block-byte_at index 0 index a.blocks (omega arith) (omega (arith, v.small)) k)

  -- The memcpys of ra_mA_get_buffer, block by block.
  get_buffer_loop-byte_at :
      (place : ℕ) (bs : List Block) (buffer : ℕ → ℕ) (i : ℕ)
      → place + sum_sizes bs < 2 ^ 32
      → some (get_buffer_loop memory base place bs buffer i) ≡ (
          if leb place i && ltb i (place + sum_sizes bs)
          then byte_at bs (i - place)
          else some (buffer i))
  unfolding get_buffer_loop copy_block sum_sizes byte_at
  get_buffer_loop-byte_at place [] buffer i h = ground arith
  get_buffer_loop-byte_at place (b ∷ bs) buffer i h =
      let next : (place + b.size) % 2 ^ 32 ≡ place + b.size = omega arith in
      let rest =
        get_buffer_loop-byte_at (place + b.size) bs (copy_block memory base b place buffer) i
          (omega arith) in
      let regroup : i - (place + b.size) ≡ i - place - b.size = omega arith in
      rw (next, rest, regroup) (ground arith)

  -- ra_mA_get_buffer on a valid area that has blocks succeeds and fills a buffer with, at each
  -- place below the size of the area, the byte that ra_mA_get_byte delivers for that place, and
  -- leaves the buffer as it was behind that size.
  pub get_buffer-get_byte :
      (a : Area) (buffer : ℕ → ℕ)
      → IsValid a
      → a.total_blocks ≢ 0
      → (filled : ℕ → ℕ) × (get_buffer memory base a (some buffer) ≡ (success, some filled))
        × ((i : ℕ) → i < a.total_size → get_byte memory base a i ≡ ok (success, some (filled i)))
        × ((i : ℕ) → a.total_size ≤ i → filled i ≡ buffer i)
  unfolding get_buffer
  get_buffer-get_byte a buffer v h = (
    get_buffer_loop memory base 0 a.blocks buffer,
    refl,
    λ i k. rw (get_byte_lem a i v h (omega (arith, v.small, v.size_counted))) (
        ground (
          arith,
          v.size_counted,
          get_buffer_loop-byte_at 0 a.blocks buffer i (omega (arith, v.small)),
        )),
    λ i k. ground (
      arith,
      v.size_counted,
      get_buffer_loop-byte_at 0 a.blocks buffer i (omega (arith, v.small)),
    ),
  )
