-- ===== src/Prelude/RaResult.antt =====
-- src/headers/ra_results.h: the result codes of the whole program, in the order of the enumeration.
use mathlib.Core.Bool.{Bool, true, false}

pub data RaResult : Type 0 where
  success : RaResult
  error_memory : RaResult
  error_index_violation : RaResult
  error_undefined_whole_code_area : RaResult
  error_undefined_serial_number : RaResult
  error_undefined_attestator_number : RaResult
  error_undefined_nonce : RaResult
  error_undefined_memory_label : RaResult
  error_undefined_key : RaResult
  error_label_already_defined : RaResult
  error_block_offset_already_defined : RaResult
  error_undefined_parameters : RaResult
  error_generic : RaResult
  error_malformed_memory_area : RaResult
  error_memory_label_already_defined : RaResult
  error_empty_area : RaResult
  error_null_pointer : RaResult
  error_random_generator : RaResult
  error_empty_prepared_data : RaResult
  error_db_query : RaResult
  error_db_mysql : RaResult
  error_db_no_data : RaResult
  error_verifier_not_found : RaResult
  error_verifier_already_present : RaResult
  error_multiple_active_session : RaResult
  error_no_active_session : RaResult
  error_session_table_anomaly : RaResult

-- The C test `r == RA_SUCCESS`.
abbrev pub is_success : RaResult → Bool
is_success success = true
is_success _ = false
