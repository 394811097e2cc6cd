-- ===== src/Manager/Startup.antt =====
-- The loop of attest_client_at_startup that waits for prepared data: when it ends.
use remote_attestation.Prelude.{
  ℕ, zero, suc, ◌+◌, ◌-◌, ◌≤◌, ◌<◌, ◌≡◌, refl, ap, ◌∙◌, Bool, true, false, Option, some, List, [],
  ◌∷◌, if◌then◌else◌, arith,
}
use remote_attestation.Prelude.RaResult.{RaResult, success, error_db_no_data, is_success}
use remote_attestation.Prelude.Run.{Run, ok}
use remote_attestation.Client.{Client, get_aid_as_string}
use remote_attestation.Database.Tables.{Database, PreparedData}
use remote_attestation.Database.Nonces.{get_valid_nonce_by_area_label}
use remote_attestation.Manager.Request.{Event, extractor}
use remote_attestation.Manager.Serve.{Attempt, after_attempt, find_data}

-- The first tries of an endless sequence.
unfoldable pub first_tries : ℕ → (ℕ → Attempt) → List Attempt
first_tries zero tries = []
first_tries (suc n) tries = tries 0 ∷ first_tries n (λ k. tries (suc k))

-- The tables that a try sees, by its number.
unfoldable pub seen : (ℕ → Attempt) → ℕ → Database → Database
seen tries zero db = (tries 0).change db
seen tries (suc n) db = seen (λ k. tries (suc k)) n ((tries 0).change db)

unfoldable pub launches : Client → ℕ → List Event
launches c zero = []
launches c (suc n) = extractor (get_aid_as_string c) c.attestator_number ∷ launches c n

-- Results other than success and RA_ERROR_DB_NO_DATA.
abbrev pub is_counted : RaResult → Bool
is_counted success = false
is_counted error_db_no_data = false
is_counted _ = true

module _ (c : Client) (label : ℕ) where
  -- The answer that a try gets.
  abbrev pub answer : (ℕ → Attempt) → ℕ → Database → RaResult × Option PreparedData
  answer tries n db =
      get_valid_nonce_by_area_label (tries n).server (tries n).malloc c.attestator_id label
        (seen tries n db)

  -- The number of errors before a try.
  unfoldable pub errors_before : (ℕ → Attempt) → ℕ → Database → ℕ
  errors_before tries zero db = 0
  errors_before tries (suc n) db =
      (if is_counted (answer tries 0 db).0 then 1 else 0)
      + errors_before (λ k. tries (suc k)) n ((tries 0).change db)

  errors_before-le : (tries : ℕ → Attempt) (n : ℕ) (db : Database) → errors_before tries n db ≤ n
  unfolding errors_before
  errors_before-le tries zero db = omega arith
  errors_before-le tries (suc n) db =
      ground (arith, errors_before-le (λ k. tries (suc k)) n ((tries 0).change db))

  -- One try that is not the last.
  after_attempt-fails :
      (errors n : ℕ) (db last : Database) (r : RaResult × Option PreparedData) {d : PreparedData}
      {again next : Run (Database × List Event × Option PreparedData)}
      → is_success r.0 ≡ false
      → errors + (if is_counted r.0 then 1 else 0) < 5
      → (is_counted r.0 ≡ false → again ≡ ok (last, launches c n, some d))
      → (is_counted r.0 ≡ true → next ≡ ok (last, launches c n, some d))
      → after_attempt c errors db r again next
        ≡ ok (last, launches c (if is_counted r.0 then n else suc n), some d)
  unfolding after_attempt launches
  after_attempt-fails errors n db last (success, o) failed few e e' = cc
  after_attempt-fails errors n db last (error_db_no_data, o) failed few e e' = rw (e refl) refl
  after_attempt-fails errors n db last (_, o) failed few e e' = ground (arith, e' refl)

  -- The wait of attest_client_at_startup for prepared data of an area ends as soon as there is
  -- some: when the tries before the n-th get none, and fewer than five of them get another error
  -- than RA_ERROR_DB_NO_DATA, and the n-th gets a row, the loop ends with that row after the n-th
  -- try, having launched the extractor once for each answer RA_ERROR_DB_NO_DATA. Nothing is
  -- assumed of what other processes do to the tables between the tries.
  pub find_data-ends :
      (tries : ℕ → Attempt) (n m errors : ℕ) (db : Database) {d : PreparedData}
      → ((k : ℕ) → k < n → is_success (answer tries k db).0 ≡ false)
      → errors + errors_before tries n db < 5
      → answer tries n db ≡ (success, some d)
      → n < m
      → find_data c label errors (first_tries m tries) db
        ≡ ok (seen tries n db, launches c (n - errors_before tries n db), some d)
  unfolding find_data first_tries seen errors_before launches
  find_data-ends tries n zero errors db waits few e h = absurd (omega arith)
  find_data-ends tries zero (suc m) errors db waits few e h = rw e refl
  find_data-ends tries (suc n) (suc m) errors db {d} waits few e h =
      let next = λ (k : ℕ). tries (suc k) in
      let db' = (tries 0).change db in
      let rest = errors_before next n db' in
      let count : (if is_counted (answer tries 0 db).0 then n - rest else suc (n - rest))
          ≡ suc n - ((if is_counted (answer tries 0 db).0 then 1 else 0) + rest) =
        ground (arith, errors_before-le next n db') in
      let ih : (errors' : ℕ)
          → errors' + rest < 5
          → find_data c label errors' (first_tries m next) db'
            ≡ ok (seen next n db', launches c (n - rest), some d) =
        λ errors' few'.
          find_data-ends next n m errors' db' (λ k lt. waits (suc k) (omega arith)) few' e
            (omega arith) in
      after_attempt-fails errors (n - rest) db' (seen next n db') (answer tries 0 db)
        (waits 0 (omega arith)) (omega arith) (λ same. ih errors (ground arith))
        (λ more. ih (errors + 1) (ground arith))
      ∙ ap (λ k. ok (seen next n db', launches c k, some d)) count
