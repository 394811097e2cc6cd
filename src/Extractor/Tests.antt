-- ===== src/Extractor/Tests.antt =====
-- Two rows, with nonces that are random and tables that accept them.
use remote_attestation.Prelude.{ℕ, ◌+◌, ◌≤◌, ◌<◌, ◌≡◌, refl, true, length, All, arith}
use remote_attestation.Prelude.Int.{pos}
use remote_attestation.Prelude.Run.{Returns}
use remote_attestation.Examples.{memory, base, is_prime, nonce, table, table-IsReady, tables}
use remote_attestation.Nonce.{v1}
use remote_attestation.Preparation.Walk.{all_mallocs}
use remote_attestation.Extractor.{Try, extract}
use remote_attestation.Extractor.Attempt.{HasAreas, IsUnchecked}
use remote_attestation.Extractor.Rounds.{extract-ends}
use remote_attestation.Extractor.Prepared.{IsRow, extract-IsRow}

abbrev try : ℕ → Try
try n = record {
  rand_bytes = pos n;
  nonce = nonce;
  malloc_nonce = true;
  preparation = all_mallocs;
  raw = 0;
  malloc_data = true;
  malloc_query = true;
  malloc_labels = true;
  inserts = true;
}

unchecked : (n : ℕ) → IsUnchecked (try n)
unchecked n = record {
  preparation = refl;
  malloc_query = refl;
  malloc_labels = refl;
  nonce_long = omega arith;
}

areas : HasAreas 2 table
areas = record {
  valid = table-IsReady.valid;
  some_area = table-IsReady.some_area;
  areas_valid = table-IsReady.areas_valid;
}

extract-ends_example :
    Returns
      (λ out.
        (out.error_counter ≤ 20)
        × (length out.database.prepared_data ≤ 0 + 2)
        × (out.error_counter < 20
            → (out.total_data_extracted ≡ pos 2)
              × (0 + 2 ≤ length out.database.prepared_data + out.error_counter)))
      (extract memory base is_prime v1 4 (2 + 20) 0 try 2 0 0 table (tables 0))
extract-ends_example =
    extract-ends memory base is_prime v1 4 refl refl try 2 table (tables 0) unchecked areas

extract-IsRow_example :
    Returns
      (λ out. All (IsRow memory base is_prime v1 4 refl refl 9 table) out.database.prepared_data)
      (extract memory base is_prime v1 4 (2 + 20) 0 try 2 0 0 table (tables 0))
extract-IsRow_example =
    extract-IsRow memory base is_prime v1 4 refl refl 9 table try 2 (tables 0) unchecked
      (λ n. omega arith) areas tt
