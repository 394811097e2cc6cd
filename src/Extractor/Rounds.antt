-- ===== src/Extractor/Rounds.antt =====
-- The loop of the extractor: it ends, and how many rows it adds.
use remote_attestation.Prelude.{
  ℕ, zero, suc, ◌+◌, ◌-◌, ◌≤◌, ◌<◌, ◌≡◌, ap, inl, inr, Bool, true, leb, length, if◌then◌else◌,
  Bool-cases, arith,
}
use remote_attestation.Prelude.Int.{ℤ, pos, sub_ℕ}
use remote_attestation.Prelude.Run.{Run, ok, Returns, returns, Returns-ok}
use remote_attestation.DataTable.{Table}
use remote_attestation.Nonce.{Version}
use remote_attestation.Nonce.Decode.{least_size}
use remote_attestation.Database.Tables.{Database}
use remote_attestation.Extractor.{
  Try, Outcome, failed, unset, extracted, Extraction, extract, finish,
}
use remote_attestation.Extractor.Attempt.{HasAreas, IsUnchecked, rows, attempt-Ends}

module _ (memory : ℕ → ℕ) (base : ℕ) (is_prime : ℕ → Bool) (v : Version) (attestator_id : ℕ)
    (two : is_prime 2 ≡ true) (three : is_prime 3 ≡ true) where
  -- What the loop promises from a state with its counters within bounds.
  abbrev Promises : (target total errors : ℕ) → Database → Extraction → Type 0
  Promises target total errors db out =
      (out.error_counter ≤ 20)
      × (errors ≤ out.error_counter)
      × (length out.database.prepared_data + total ≤ length db.prepared_data + target)
      × (out.error_counter < 20
          → (out.total_data_extracted ≡ pos target)
            × (length db.prepared_data + target
                ≤ length out.database.prepared_data + total + (out.error_counter - errors)))

  -- A promise of the rest of the loop, after a round.
  weaken :
      (target total errors total' errors' : ℕ) (db db' : Database) {m : Run Extraction}
      → errors ≤ errors'
      → length db'.prepared_data + total ≤ length db.prepared_data + total'
      → length db.prepared_data + total' ≤ length db'.prepared_data + total + (errors' - errors)
      → Returns (Promises target total' errors' db') m
      → Returns (Promises target total errors db) m
  weaken target total errors total' errors' db db' e l u (returns (few, more, added, rest)) =
      returns (
        few,
        omega (arith, more),
        omega (arith, added),
        λ lt. let (all, bound) = rest lt in (all, omega (arith, bound, more)),
      )

  extract-Promises :
      (fuel round : ℕ) (tries : ℕ → Try) (target total errors : ℕ) (table : Table) (db : Database)
      → ((n : ℕ) → IsUnchecked (tries n))
      → HasAreas (least_size v) table
      → total ≤ target
      → errors < 20
      → target + 20 ≤ fuel + total + errors
      → Returns (Promises target total errors db) (
          extract memory base is_prime v attestator_id fuel round tries target total errors table
            db)
  unfolding extract finish
  extract-Promises zero round tries target total errors table db g h le few enough =
      absurd (omega arith)
  extract-Promises (suc fuel) round tries target total errors table db g h le few enough =
      elim (Bool-cases (leb target total)) [
        | inl done ↦
            let same : total ≡ target = ground arith in
            rw done
              (returns (omega arith, omega arith, omega arith, λ lt. (ap pos same, omega arith)))
        | inr more ↦
            let ((table', db', o), ended, (h', kept, added, new)) = Returns-ok _ _ (
              attempt-Ends memory base is_prime v attestator_id two three (tries round) table db
                (g round) h) in
            rw (more, ended)
              (go
                (λ total' errors' table'' db'' le' few' enough' h''.
                  extract-Promises fuel (round + 1) tries target total' errors' table'' db'' g h''
                    le' few' enough')
                o table' db' h' added (ground arith))
      ]
    where
      after : Outcome → Table → Database → Run Extraction
      after o table' db' = elim o [
        | extracted ↦
            extract memory base is_prime v attestator_id fuel (round + 1) tries target (total + 1)
              errors table' db'
        | failed ↦
            if leb 20 (errors + 1)
            then ok (finish db' (sub_ℕ total 1) (errors + 1))
            else extract memory base is_prime v attestator_id fuel (round + 1) tries target total
                (errors + 1) table' db'
        | unset ↦
            if leb 20 (errors + 1)
            then ok (finish db' (pos total) (errors + 1))
            else extract memory base is_prime v attestator_id fuel (round + 1) tries target
                (total + 1) (errors + 1) table' db'
      ]

      stopped :
          (db' : Database) (count : ℤ)
          → 20 ≤ errors + 1
          → length db'.prepared_data ≡ length db.prepared_data + 0
          → total < target
          → Returns (Promises target total errors db) (ok (finish db' count (errors + 1)))
      stopped db' count many added more =
          returns (omega arith, omega arith, omega (arith, added), λ lt. absurd (omega arith))

      go :
          ((total' errors' : ℕ) (table' : Table) (db' : Database)
            → total' ≤ target
            → errors' < 20
            → target + 20 ≤ fuel + total' + errors'
            → HasAreas (least_size v) table'
            → Returns (Promises target total' errors' db') (
                extract memory base is_prime v attestator_id fuel
                  (round + 1)
                  tries
                  target
                  total'
                  errors'
                  table'
                  db'))
          → (o : Outcome) (table' : Table) (db' : Database) → HasAreas (least_size v) table'
          → length db'.prepared_data ≡ length db.prepared_data + rows o
          → total < target
          → Returns (Promises target total errors db) (after o table' db')
      go ih extracted table' db' h' added more =
          weaken target total errors (total + 1) errors db db' (omega arith) (omega (arith, added))
            (omega (arith, added))
            (ih (total + 1) errors table' db' (omega arith) few (omega arith) h')
      go ih failed table' db' h' added more = elim (Bool-cases (leb 20 (errors + 1))) [
        | inl enough_errors ↦
            rw enough_errors (stopped db' (sub_ℕ total 1) (ground arith) added more)
        | inr another ↦ rw another (
            weaken target total errors total (errors + 1) db db' (omega arith)
              (omega (arith, added)) (omega (arith, added))
              (ih total (errors + 1) table' db' le (ground arith) (omega arith) h'))
      ]
      go ih unset table' db' h' added more = elim (Bool-cases (leb 20 (errors + 1))) [
        | inl enough_errors ↦ rw enough_errors (stopped db' (pos total) (ground arith) added more)
        | inr another ↦ rw another (
            weaken target total errors (total + 1) (errors + 1) db db' (omega arith)
              (omega (arith, added)) (omega (arith, added))
              (ih (total + 1) (errors + 1) table' db' (omega arith) (ground arith) (omega arith)
                h'))
      ]

  -- The loop of the extractor ends within as many rounds as rows are asked for and twenty more,
  -- whatever RAND_bytes, the allocations of the nonce and of the data and the insertions do in
  -- each of them. It ends with at most twenty errors and never adds more rows than were asked for.
  -- With fewer than twenty errors it reports all as extracted, and at most as many rows as there
  -- were errors are missing. Conditions: the calls whose results the loop does not read succeed,
  -- the nonces have eight bytes or more, the table has areas as prepare_data needs them, and the
  -- prime test accepts 2 and 3.
  pub extract-ends :
      (tries : ℕ → Try) (target : ℕ) (table : Table) (db : Database)
      → ((n : ℕ) → IsUnchecked (tries n))
      → HasAreas (least_size v) table
      → Returns
          (λ out.
            (out.error_counter ≤ 20)
            × (length out.database.prepared_data ≤ length db.prepared_data + target)
            × (out.error_counter < 20
                → (out.total_data_extracted ≡ pos target)
                  × (length db.prepared_data + target
                      ≤ length out.database.prepared_data + out.error_counter)))
          (extract memory base is_prime v attestator_id (target + 20) 0 tries target 0 0 table db)
  extract-ends tries target table db g h =
      let (out, ends, (few, more, added, rest)) = Returns-ok _ _ (
        extract-Promises (target + 20) 0 tries target 0 0 table db g h (omega arith) (omega arith)
          (omega arith)) in
      rw ends (
        returns (
          few,
          omega (arith, added),
          λ lt. let (all, bound) = rest lt in (all, omega (arith, bound)),
        ))
