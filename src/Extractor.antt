-- ===== src/Extractor.antt =====
-- src/server-components/extractor.c, the loop of the extractor: random nonces, the data that they prepare,
-- and the rows of ra_prepared_data; and random_generate_nonce of
-- src/client-parametric-files/cond/ra_nonce_generation.c. Everything before the loop loads files.
pub mod Attempt
pub mod Rounds
pub mod Prepared
mod Tests
use remote_attestation.Prelude.{
  ℕ, zero, suc, ◌+◌, ◌-◌, ◌^◌, Bool, true, false, Option, none, some, List, [], ◌∷◌, ◌==◌, leb,
  length, take, if◌then◌else◌,
}
use remote_attestation.Prelude.Int.{ℤ, pos, sub_ℕ, is_zero}
use remote_attestation.Prelude.RaResult.{RaResult, success, error_random_generator, is_success}
use remote_attestation.Prelude.Run.{Run, ok, fault, diverges, ◌>>=◌, deref}
use remote_attestation.DataTable.{Table, set_current_nonce}
use remote_attestation.Nonce.{DecodedInfo, Version, decode_nonce}
use remote_attestation.Preparation.{Mallocs, prepare_data}
use remote_attestation.Database.Tables.{Database}
use remote_attestation.Database.Nonces.{insert_data}

-- random_generate_nonce, on the result of RAND_bytes: only 0 is taken for an error.
unfoldable pub random_generate_nonce : (rand_bytes : ℤ) → RaResult
random_generate_nonce r = if is_zero r then error_random_generator else success

-- The environment of one round: the result of RAND_bytes and the buffer after it, the allocations, the
-- values of the variables that decode_nonce may leave unset, and whether the statement succeeds.
pub record Try : Type 0 where
  pub rand_bytes : ℤ
  pub nonce : List ℕ
  pub malloc_nonce : Bool
  pub preparation : Mallocs
  pub raw : ℕ
  pub malloc_data : Bool
  pub malloc_query : Bool
  pub malloc_labels : Bool
  pub inserts : Bool

-- What a round does to the two counters of the loop: a failure is an error that takes back the count
-- of the round, an unset nonce is one that does not.
pub data Outcome : Type 0 where
  failed unset extracted : Outcome

-- The prepared data of the table and its size, as they are read.
unfoldable pub stored_bytes : (size : ℕ) → Option (List ℕ) → Run (List ℕ)
stored_bytes size none = if size == 0 then ok [] else fault
stored_bytes size (some bs) = if leb size (length bs) then ok (take size bs) else fault

unfoldable pub stored : Table → Run (List ℕ)
unfolding stored_bytes
stored t = stored_bytes t.prepared_data_size t.prepared_data

abbrev pub extractor_max_error_allowed : ℕ
extractor_max_error_allowed = 20

-- The end of the program: the two counters that it prints, and its exit code.
pub record Extraction : Type 0 where
  pub database : Database
  pub total_data_extracted : ℤ
  pub error_counter : ℕ
  pub exit_code : ℕ

unfoldable pub finish : Database → ℤ → ℕ → Extraction
finish db total errors = record {
  database = db;
  total_data_extracted = total;
  error_counter = errors;
  exit_code = if errors == extractor_max_error_allowed then 1 else 0;
}

module _ (memory : ℕ → ℕ) (base : ℕ) (is_prime : ℕ → Bool) (v : Version) (attestator_id : ℕ) where
  -- The statement. mysql_real_escape_string and the quotes of the statement cancel. The label is read
  -- although decode_nonce may not have set it.
  unfoldable pub insert_prepared :
      Try → Table → Database → RaResult × Option DecodedInfo → Run (Table × Database × Outcome)
  insert_prepared t table db (r, info) = stored table >>= λ bytes. deref info >>= λ i.
      if t.malloc_query
      then (if t.inserts
          then ok (table, insert_data attestator_id t.nonce bytes i.area_label db, extracted)
          else ok (table, db, failed))
      else fault

  -- From ra_prepare_data on, whose result is not read.
  unfoldable pub prepare_and_insert : Try → Table → Database → Run (Table × Database × Outcome)
  prepare_and_insert t table db =
      prepare_data memory base is_prime v t.preparation t.raw table >>= λ (prepared, r).
      if t.malloc_data
      then (decode_nonce is_prime v t.malloc_labels t.raw prepared >>= λ info.
          insert_prepared t prepared db info)
      else ok (prepared, db, failed)

  -- The body of the loop.
  unfoldable pub attempt : Try → Table → Database → Run (Table × Database × Outcome)
  attempt t table db =
      if is_success (random_generate_nonce t.rand_bytes)
      then (let (with_nonce, r) = set_current_nonce t.malloc_nonce table t.nonce in
          if is_success r then prepare_and_insert t with_nonce db else ok (with_nonce, db, unset))
      else ok (table, db, failed)

  -- The loop, at `total_data_extracted < total_data_to_extract`. A `break` leaves out the increment of
  -- the loop, so the counter ends one lower after a failure. `fuel` bounds the rounds.
  unfoldable pub extract :
      (fuel : ℕ) (round : ℕ)
      → (ℕ → Try)
      → (target total errors : ℕ) → Table
      → Database
      → Run Extraction
  unfolding finish
  extract zero round tries target total errors table db =
      if leb target total then ok (finish db (pos total) errors) else diverges
  extract (suc fuel) round tries target total errors table db =
      if leb target total
      then ok (finish db (pos total) errors)
      else (attempt (tries round) table db >>= λ (table', db', outcome). elim outcome [
        | extracted ↦ extract fuel (round + 1) tries target (total + 1) errors table' db'
        | failed ↦
            if leb extractor_max_error_allowed (errors + 1)
            then ok (finish db' (sub_ℕ total 1) (errors + 1))
            else extract fuel (round + 1) tries target total (errors + 1) table' db'
        | unset ↦
            if leb extractor_max_error_allowed (errors + 1)
            then ok (finish db' (pos total) (errors + 1))
            else extract fuel (round + 1) tries target (total + 1) (errors + 1) table' db'
      ])
