-- ===== src/Memory/Codec.antt =====
-- The binary form of an area in src/client-parametric-files/cond/ra_memory.c, parsed from a blob and
-- written to a file: a label of two bytes, the number of blocks in four, and for each block an
-- offset of eight bytes and a size of four, all little-endian.
pub mod RoundTrip
use remote_attestation.Prelude.{
  ℕ, zero, suc, ◌+◌, Bool, true, false, Option, none, some, List, [], ◌∷◌, ◌++◌, if◌then◌else◌,
}
use remote_attestation.Prelude.Bytes.{to_bytes, of_bytes}
use remote_attestation.Prelude.Input.{Parser, pure, undefined, ◌>>=◌, read, malloc, Sink, write}
use remote_attestation.Prelude.RaResult.{RaResult, success, error_generic, is_success}
use remote_attestation.Prelude.Run.{Run, ok, fault, diverges}
use remote_attestation.Memory.{Block, Area, is_empty, append_block, insert_block}

-- ra_mB_parse_info_diablo: the result of the allocation is used without a check.
unfoldable pub parse_block : Parser Block
parse_block = do
  m ← malloc
  if m
      then (do
        offset ← read 8
        size ← read 4
        pure (record { offset = of_bytes offset; size = of_bytes size }))
      else undefined

-- The loop of ra_mA_parse_ads_binary_info, with the rounds that are left.
unfoldable pub parse_blocks : ℕ → Area → Parser (Option Area)
parse_blocks zero a = pure (some a)
parse_blocks (suc n) a = do
  b ← parse_block
  m ← malloc
  elim (is_success (insert_block m a b).1) [
    | true ↦ parse_blocks n (insert_block m a b).0
    | false ↦ pure none
  ]

-- ra_mA_parse_ads_binary_info: NULL, `none`, when a node cannot be allocated.
unfoldable pub parse_area : Parser (Option Area)
parse_area = do
  m ← malloc
  if m
      then (do
        label ← read 2
        total_blocks ← read 4
        parse_blocks (of_bytes total_blocks)
            (record { label = of_bytes label; total_blocks = 0; total_size = 0; blocks = [] }))
      else undefined

-- ra_mB_dump_info
unfoldable pub dump_block : (ℕ → Bool) → Block → Sink → RaResult × Sink
dump_block accepts b s =
    let (o, s') = write accepts (to_bytes 8 b.offset) s in
    let (p, s'') = write accepts (to_bytes 4 b.size) s' in
    if o then (if p then (success, s'') else (error_generic, s'')) else (error_generic, s')

-- The do-while loop of ra_mA_dump_info_binary; with no node its first round reads through NULL.
unfoldable pub dump_blocks : (ℕ → Bool) → List Block → Sink → Run (RaResult × Sink)
dump_blocks accepts [] s = fault
dump_blocks accepts (b ∷ []) s = ok (dump_block accepts b s)
dump_blocks accepts (b ∷ c ∷ bs) s =
    let (r, s') = dump_block accepts b s in
    elim (is_success r) [ true ↦ dump_blocks accepts (c ∷ bs) s' | false ↦ ok (error_generic, s') ]

-- ra_mA_dump_info_binary
unfoldable pub dump_area : (ℕ → Bool) → Area → Sink → Run (RaResult × Sink)
unfolding is_empty
dump_area accepts a s =
    let (o, s') = write accepts (to_bytes 2 a.label) s in
    let (p, s'') = write accepts (to_bytes 4 a.total_blocks) s' in
    if is_empty a
    then ok (error_generic, s)
    else if o
    then (if p then dump_blocks accepts a.blocks s'' else ok (error_generic, s''))
    else ok (error_generic, s')
