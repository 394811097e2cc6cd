-- ===== src/Client.antt =====
-- src/ra-additionals/ra_client.c: a client of the attestation server, and the comparison by which the
-- client list and the scheduler queue recognise it. An AID is a list of AID_SIZE bytes; integers
-- are numbers below the bound of their C type.
pub mod Compare
use remote_attestation.Prelude.{
  ℕ, ◌+◌, ◌-◌, ◌%◌, ◌^◌, Bool, true, false, ◌&&◌, Option, none, some, List, ◌==◌, ltb,
  if◌then◌else◌,
}
use remote_attestation.Prelude.Int.{ℤ, pos, negsuc, is_zero}
use remote_attestation.Prelude.Bytes.{memcmp, hex_string}

abbrev pub aid_size : ℕ
aid_size = 16

-- struct ra_client_t
pub record Client : Type 0 where
  pub aid : List ℕ
  pub attestator_number : ℕ
  pub attestator_id : ℕ
  pub sleep_avg_seconds : ℕ
  pub sleep_var_seconds : ℕ
  pub session_id : ℕ

-- RA_CLI_create: `malloc` says whether the allocation succeeds; the connection is not stored.
unfoldable pub create :
    (malloc : Bool) (aid : List ℕ)
    (attestator_number attestator_id sleep_avg_seconds sleep_var_seconds session_id : ℕ)
    → Option Client
create malloc aid attestator_number attestator_id sleep_avg_seconds sleep_var_seconds session_id =
    if malloc
    then some (record {
      aid = aid;
      attestator_number = attestator_number;
      attestator_id = attestator_id;
      sleep_avg_seconds = sleep_avg_seconds;
      sleep_var_seconds = sleep_var_seconds;
      session_id = session_id;
    })
    else none

-- A 32-bit pattern read as a C `int`.
abbrev pub to_int : ℕ → ℤ
to_int w = if ltb w (2 ^ 31) then pos w else negsuc (2 ^ 32 - w - 1)

-- `(int) (a - b)` of two uint64_t: the difference wraps, and then its low 32 bits are kept.
unfoldable pub difference : ℕ → ℕ → ℤ
difference a b = to_int ((a + 2 ^ 64 - b % 2 ^ 64) % 2 ^ 64 % 2 ^ 32)

-- RA_CLI_compare
unfoldable pub compare : Client → Client → ℤ
unfolding difference
compare first second =
    if first.attestator_number == second.attestator_number && is_zero (memcmp first.aid second.aid)
    then pos 0
    else if is_zero (memcmp first.aid second.aid)
    then difference first.attestator_number second.attestator_number
    else memcmp first.aid second.aid

-- RA_CLI_get_AID_as_string: snprintf always writes the two digits of a byte.
unfoldable pub get_aid_as_string : Client → List ℕ
get_aid_as_string c = hex_string c.aid

-- The setters.
pub set_aid : Client → List ℕ → Client
set_aid c a = record c { aid = a }

pub set_attestator_number : Client → ℕ → Client
set_attestator_number c n = record c { attestator_number = n }

pub set_attestator_id : Client → ℕ → Client
set_attestator_id c n = record c { attestator_id = n }

pub set_sleep_avg_seconds : Client → ℕ → Client
set_sleep_avg_seconds c n = record c { sleep_avg_seconds = n }

pub set_sleep_var_seconds : Client → ℕ → Client
set_sleep_var_seconds c n = record c { sleep_var_seconds = n }

unfoldable pub set_session_id : Client → ℕ → Client
set_session_id c n = record c { session_id = n }
