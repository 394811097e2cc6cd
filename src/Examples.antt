-- ===== src/Examples.antt =====
-- Concrete data for the tests: a small attested memory, a table with one area, and stand-ins for OpenSSL
-- and blake2s.
use remote_attestation.Prelude.{
  ℕ, zero, suc, ◌+◌, ◌%◌, ◌^◌, ◌<◌, ◌≡◌, refl, Bool, true, ◌||◌, none, some, List, [], ◌∷◌, ◌==◌,
  length, arith,
}
use remote_attestation.Prelude.Int.{ℤ, pos, ◌+ℤ◌, ◌-ℤ◌, ltb_ℤ}
use remote_attestation.Prelude.Float.{FloatOps, IsExact}
use remote_attestation.Prelude.Bytes.{to_bytes, length-to_bytes}
use remote_attestation.Memory.{Area}
use remote_attestation.Memory.Bytes as MemoryBytes
use remote_attestation.Memory.Bytes.{sum_sizes}
use remote_attestation.DataTable.{Table, get_memory_area}
use remote_attestation.DataTable.Areas as Areas
use remote_attestation.Nonce.Decode.{IsReady}
use remote_attestation.DoHash.{Libraries}
use remote_attestation.DoHash.Laws.{IsStandard}
use remote_attestation.Client.{Client}
use remote_attestation.Database.Tables.{Database, PreparedData, Server, IsUp, reaction_status_none}

abbrev pub memory : ℕ → ℕ
memory a = (a + a) % 256

abbrev pub base : ℕ
base = 4096

abbrev pub is_prime : ℕ → Bool
is_prime n = n == 2 || (n == 3 || (n == 5 || n == 7))

abbrev pub area : Area
area = record {
  label = 5;
  total_blocks = 2;
  total_size = 7;
  blocks = record { offset = 10; size = 3 } ∷ record { offset = 100; size = 4 } ∷ [];
}

abbrev pub nonce : List ℕ
nonce = 11 ∷ 12 ∷ 13 ∷ 14 ∷ 15 ∷ 16 ∷ 17 ∷ 18 ∷ 19 ∷ []

abbrev pub aid : List ℕ
aid = 0 ∷ 1 ∷ 2 ∷ 3 ∷ 4 ∷ 5 ∷ 6 ∷ 7 ∷ 8 ∷ 9 ∷ 10 ∷ 11 ∷ 12 ∷ 13 ∷ 14 ∷ 15 ∷ []

abbrev pub table : Table
table = record {
  prepared_data = none;
  prepared_data_size = 0;
  current_nonce = some nonce;
  current_nonce_size = 9;
  current_key = none;
  current_key_size = 0;
  areas = area ∷ [];
  memory_areas_count = 1;
  app_aid = aid;
  app_attestator_number = 300;
  is_aid_set = true;
  is_attestator_number_set = true;
}

abbrev pub lib : Libraries
lib = record {
  md5 = λ m. length m % 256 ∷ [];
  md5_digest_length = 1;
  sha1 = λ m. length m % 256 ∷ 1 ∷ [];
  sha_digest_length = 2;
  sha256 = λ m. length m % 256 ∷ 2 ∷ [];
  sha256_digest_length = 2;
  ripemd160 = λ m. length m % 256 ∷ 3 ∷ [];
  ripemd160_digest_length = 2;
  blake2s = λ size m key. some (to_bytes size (length m));
}

pub area-IsValid : MemoryBytes.IsValid area
unfolding sum_sizes
area-IsValid = record {
  blocks_counted = refl;
  size_counted = refl;
  few = omega arith;
  small = omega arith;
}

pub table-IsValid : Areas.IsValid table
table-IsValid = record { distinct = (refl, tt); counted = refl; small = omega arith }

pub table-IsReady : IsReady 2 table nonce
table-IsReady = record {
  valid = table-IsValid;
  some_area = λ e. omega arith;
  areas_valid = ((area-IsValid, omega arith), tt);
  nonce_set = refl;
  nonce_sized = refl;
  nonce_long = omega arith;
}

pub lib-IsStandard : IsStandard lib
lib-IsStandard = record {
  md5_sized = λ m. refl;
  sha1_sized = λ m. refl;
  sha256_sized = λ m. refl;
  ripemd160_sized = λ m. refl;
  blake2s_sized = λ m. (to_bytes 32 (length m), refl, length-to_bytes 32 (length m));
  md5_short = omega arith;
  sha1_short = omega arith;
  sha256_short = omega arith;
  ripemd160_short = omega arith;
}

-- The only area is short.
pub areas_small :
    (a : Area) (label : ℕ)
    → get_memory_area table label ≡ some a
    → length nonce + a.total_size + 16 < 2 ^ 32
unfolding get_memory_area
areas_small a label e = ground arith

-- A server on which every call succeeds.
abbrev pub up : Server
up = record { init = true; connect = true; accepts = λ n. true; choice = 3 }

pub up-IsUp : IsUp up
up-IsUp = record { init = refl; connect = refl; accepts = λ n. refl }

-- Rows of prepared data with the ids below a number.
abbrev pub prepared : ℕ → List PreparedData
prepared zero = []
prepared (suc n) =
    record { id = n; attestator_id = 4; nonce = n ∷ 9 ∷ []; data_bytes = n ∷ []; memory_area = 1 }
    ∷ prepared n

-- One application with one attestator, an open session, and as many valid nonces.
abbrev pub tables : (nonces : ℕ) → Database
tables n = record {
  applications = record { id = 2; aid = b'0' ∷ b'1' ∷ [] } ∷ [];
  attestators =
      record { id = 4; application_id = 2; attestator_no = 0; sleep_avg = 10; sleep_var = 1 } ∷ [];
  startup_areas = record { attestator_id = 4; memory_area = 1 } ∷ [];
  prepared_data = prepared n;
  next_prepared_data_id = n;
  reactions = record { application_id = 2; reaction_status = reaction_status_none } ∷ [];
  requests = [];
  next_request_id = 7;
  sessions = record { id = 5; attestator_id = 4; is_active = true } ∷ [];
  next_session_id = 6;
}

abbrev pub client : Client
client = record {
  aid = 1 ∷ [];
  attestator_number = 0;
  attestator_id = 4;
  sleep_avg_seconds = 10;
  sleep_var_seconds = 1;
  session_id = 5;
}

-- The integers in place of the floats.
abbrev pub exact : FloatOps
exact = record { Float = ℤ; add = ◌+ℤ◌; sub = ◌-ℤ◌; ltb = ltb_ℤ; literal = pos }

abbrev pub exact-IsExact : IsExact exact
exact-IsExact = record {
  units = λ x. x;
  units-add = λ a b. refl;
  units-sub = λ a b. refl;
  ltb-units = λ a b. refl;
}
