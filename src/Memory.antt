-- ===== src/Memory.antt =====
-- src/client-parametric-files/cond/ra_memory.c: blocks of attested memory, and areas made of blocks.
-- An area's chain of nodes is a list of blocks, head first; `total_blocks` and `total_size` are the
-- 32-bit counters kept beside it. The attested memory is a function from 64-bit addresses to bytes,
-- and `base` is the global base_address.
pub mod Bytes
pub mod Codec
mod Tests
use remote_attestation.Prelude.{
  ℕ, zero, suc, ◌+◌, ◌-◌, ◌%◌, ◌^◌, Bool, true, false, ◌&&◌, ◌||◌, Option, none, some, List, [],
  ◌∷◌, ◌++◌, ◌==◌, ltb, leb, if◌then◌else◌,
}
use remote_attestation.Prelude.RaResult.{
  RaResult, success, error_memory, error_empty_area, error_null_pointer,
}
use remote_attestation.Prelude.Run.{Run, ok, fault}

-- struct memory_block_t
pub record Block : Type 0 where
  pub offset : ℕ
  pub size : ℕ

-- struct memory_area_t
pub record Area : Type 0 where
  pub label : ℕ
  pub total_blocks : ℕ
  pub total_size : ℕ
  pub blocks : List Block

-- ra_mA_create; `malloc` says whether the allocation succeeds.
unfoldable pub create : (malloc : Bool) → ℕ → Option Area
create malloc label =
    if malloc
    then some (record { label = label; total_blocks = 0; total_size = 0; blocks = [] })
    else none

-- ra_mA_create_empty
unfoldable pub create_empty : (malloc : Bool) → Option Area
create_empty malloc =
    if malloc
    then some (record { label = 0xffff; total_blocks = 0; total_size = 0; blocks = [] })
    else none

unfoldable pub is_empty : Area → Bool
is_empty a = a.total_blocks == 0 || a.total_size == 0

-- The node goes to the tail, and the counters wrap.
unfoldable pub append_block : Area → Block → Area
append_block a b = record {
  label = a.label;
  total_blocks = (a.total_blocks + 1) % 2 ^ 32;
  total_size = (a.total_size + b.size) % 2 ^ 32;
  blocks = a.blocks ++ b ∷ [];
}

-- ra_mA_insert_block: one allocation, for the node.
unfoldable pub insert_block : (malloc : Bool) → Area → Block → Area × RaResult
unfolding append_block
insert_block malloc a b = if malloc then (append_block a b, success) else (a, error_memory)

-- ra_mA_insert_new_block: one allocation for the node and one for the block.
unfoldable pub insert_new_block :
    (malloc_node malloc_block : Bool) → Area → (offset size : ℕ) → Area × RaResult
unfolding append_block
insert_new_block malloc_node malloc_block a offset size =
    if malloc_node
    then (if malloc_block
        then (append_block a (record { offset = offset; size = size }), success)
        else (a, error_memory))
    else (a, error_memory)

abbrev pub has_no_nodes : List Block → Bool
has_no_nodes [] = true
has_no_nodes (b ∷ bs) = false

-- The guard of the operations that search the chain.
abbrev pub is_blank : Area → Bool
is_blank a = has_no_nodes a.blocks && (a.total_blocks == 0 && a.total_size == 0)

-- What ra_mA_remove_block leaves: the area as it was, the area without a node that is neither first
-- nor last, or an area whose head or tail still points to the freed node.
pub data Removal : Type 0 where
  unchanged : Removal
  unlinked : Area → Removal
  dangling : Removal

same_block : Block → Block → Bool
same_block b c = b.offset == c.offset && b.size == c.size

-- The search behind the first node; `before` is the chain up to it. The test of the loop reads the
-- node before it asks whether there is one.
remove_behind : Area → Block → (before : List Block) → List Block → Run Removal
unfolding same_block
remove_behind a key before [] = fault
remove_behind a key before (b ∷ bs) =
    let rest = remove_behind a key (before ++ b ∷ []) bs in
    if same_block b key
    then ok (if has_no_nodes bs then dangling else unlinked (record a { blocks = before ++ bs }))
    else rest

remove_from : Area → Block → List Block → Run Removal
unfolding same_block remove_behind
remove_from a key [] = fault
remove_from a key (b ∷ bs) =
    if same_block b key then ok dangling else remove_behind a key (b ∷ []) bs

unfoldable pub remove_block : Area → Block → Run Removal
unfolding remove_from
remove_block a key = if is_blank a then ok unchanged else remove_from a key a.blocks

-- The loop of ra_mA_get_block and ra_mA_get_byte: the block with the index, or `none` when the loop
-- ends with no block, and the index within it. At the end of the chain the loop's first test can
-- stop it; the second one reads through NULL.
pub find_block :
    (byte_index current_lower_bound moving_index : ℕ) → List Block → Run (Option (Block × ℕ))
find_block byte_index lower moving [] = if ltb byte_index lower then ok none else fault
find_block byte_index lower moving (b ∷ bs) =
    if ltb byte_index lower || leb ((lower + b.size) % 2 ^ 32) byte_index
    then find_block byte_index ((lower + b.size) % 2 ^ 32) ((moving + 2 ^ 32 - b.size) % 2 ^ 32) bs
    else ok (some (b, moving))

pub store_block : Run (Option (Block × ℕ)) → Run (RaResult × Option Block)
store_block (ok (some (b, index))) = ok (success, some b)
store_block (ok none) = ok (success, none)
store_block _ = fault

unfoldable pub get_block : Area → ℕ → Run (RaResult × Option Block)
unfolding find_block store_block
get_block a byte_index =
    if is_blank a
    then ok (error_empty_area, none)
    else store_block (find_block byte_index 0 byte_index a.blocks)

module _ (memory : ℕ → ℕ) (base : ℕ) where
  -- ra_mB_get_byte
  unfoldable pub get_block_byte : Block → ℕ → ℕ
  get_block_byte b index = memory ((b.offset + index + base) % 2 ^ 64)

  -- ra_mB_get_buffer at a place in a buffer: the memcpy of the block.
  unfoldable pub copy_block : Block → (place : ℕ) → (ℕ → ℕ) → ℕ → ℕ
  copy_block b place buffer i =
      if leb place i && ltb i (place + b.size)
      then memory ((b.offset + (i - place) + base) % 2 ^ 64)
      else buffer i

  pub get_buffer_loop : (current_size : ℕ) → List Block → (ℕ → ℕ) → ℕ → ℕ
  unfolding copy_block
  get_buffer_loop current_size [] buffer = buffer
  get_buffer_loop current_size (b ∷ bs) buffer =
      get_buffer_loop ((current_size + b.size) % 2 ^ 32) bs (copy_block b current_size buffer)

  -- ra_mA_get_buffer; `none` is a NULL buffer.
  unfoldable pub get_buffer : Area → Option (ℕ → ℕ) → RaResult × Option (ℕ → ℕ)
  unfolding get_buffer_loop
  get_buffer a none = (error_null_pointer, none)
  get_buffer a (some buffer) = (success, some (get_buffer_loop 0 a.blocks buffer))

  -- The byte that is stored through the out parameter; `none` if nothing is stored.
  pub store_byte : Run (Option (Block × ℕ)) → Run (RaResult × Option ℕ)
  unfolding get_block_byte
  store_byte (ok (some (b, index))) = ok (success, some (get_block_byte b index))
  store_byte (ok none) = ok (success, none)
  store_byte _ = fault

  unfoldable pub get_byte : Area → ℕ → Run (RaResult × Option ℕ)
  unfolding find_block store_byte
  get_byte a byte_index =
      if is_blank a
      then ok (error_empty_area, none)
      else store_byte (find_block byte_index 0 byte_index a.blocks)
