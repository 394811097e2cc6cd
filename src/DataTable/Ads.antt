-- ===== src/DataTable/Ads.antt =====
-- ra_parse_binary_ads in src/client-parametric-files/cond/ra_data_table.c: the table from the blob that the
-- build embeds in the application. The AID is stored in reverse; the integers are little-endian.
pub mod Encoded
use remote_attestation.Prelude.{ℕ, zero, suc, Bool, true, false, Option, none, some, List, reverse}
use remote_attestation.Prelude.Bytes.{of_bytes}
use remote_attestation.Prelude.Input.{Input, Parser, pure, undefined, ◌>>=◌, read, malloc}
use remote_attestation.Prelude.RaResult.{RaResult, success, is_success}
use remote_attestation.Prelude.Run.{Run, ok, fault, diverges}
use remote_attestation.Client.{aid_size}
use remote_attestation.Memory.{Area}
use remote_attestation.Memory.Codec.{parse_area}
use remote_attestation.DataTable.{
  Table, Raw, create_table, set_aid, set_attestator_number, insert_memory_area,
}

-- A call that does not read from the blob.
abbrev pub call : {A : Type 0} → Run A → Parser A
call (ok a) grants s = ok (a, s)
call fault grants s = fault
call diverges grants s = diverges

-- The loop, with the rounds that are left; `none` when the table is destroyed.
unfoldable pub parse_areas : ℕ → Table → Parser (Option Table)
parse_areas zero t = pure (some t)
parse_areas (suc n) t = do
  area ← parse_area
  m ← malloc
  out ← call (insert_memory_area m t area)
  elim (is_success out.1) [ true ↦ parse_areas n out.0 | false ↦ pure none ]

-- From the AID on. The result of the allocation of the table is used without a check.
unfoldable pub parse_table : Option Table → Parser (Option Table)
parse_table none = undefined
parse_table (some t) = do
  aid ← read aid_size
  number ← read 8
  count ← read 4
  parse_areas (of_bytes count) (set_attestator_number (set_aid t (reverse aid)) (of_bytes number))

-- ra_parse_binary_ads; `present` says that the blob is neither NULL nor the placeholder 0x1.
unfoldable pub parse_binary_ads : (present : Bool) → Raw → Parser (Option Table)
unfolding parse_table
parse_binary_ads present raw = do
  m ← malloc
  elim present [ true ↦ parse_table (create_table m raw) | false ↦ pure none ]
