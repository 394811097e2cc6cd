-- ===== src/Extractor/Prepared.antt =====
-- What the rows hold that the extractor adds to ra_prepared_data.
use remote_attestation.Prelude.{
  ℕ, zero, suc, ◌+◌, ◌≤◌, ◌≡◌, ◌≢◌, refl, sym, ap, ◌∙◌, ◌⊎◌, inl, inr, Bool, true, false, [], ◌∷◌,
  leb, length, if◌then◌else◌, All, All-append, arith,
}
use remote_attestation.Prelude.Int.{ℤ, pos, sub_ℕ}
use remote_attestation.Prelude.Run.{Run, ok, Returns, returns, Returns-ok, ◌>>=◌}
use remote_attestation.DataTable.{Table}
use remote_attestation.Nonce.{Version}
use remote_attestation.Nonce.Decode.{least_size}
use remote_attestation.Nonce.Agreement.{IsAgreed}
use remote_attestation.Preparation.Agreement.{IsWalk, IsWalk-agreed}
use remote_attestation.Database.Tables.{Database, PreparedData}
use remote_attestation.Extractor.{
  Try, Outcome, failed, unset, extracted, Extraction, extract, finish,
}
use remote_attestation.Extractor.Attempt.{
  HasAreas, IsUnchecked, with_nonce, nonce-IsReady, Ends, attempt-Ends,
}
use remote_attestation.Extractor.Rounds.{extract-ends}

module _ (memory : ℕ → ℕ) (base : ℕ) (is_prime : ℕ → Bool) (v : Version) (attestator_id : ℕ)
    (two : is_prime 2 ≡ true) (three : is_prime 3 ≡ true) (most : ℕ) (areas : Table) where
  -- A row whose data is the walk of its nonce over the areas of the attestator.
  pub record IsPrepared (d : PreparedData) : Type 0 where
    pub long : 8 ≤ length d.nonce
    pub short : length d.nonce ≤ most
    pub walk : IsWalk is_prime two v memory base (with_nonce areas d.nonce) d.data_bytes

  -- The rows of other attestators are left open.
  abbrev pub IsRow : PreparedData → Type 0
  IsRow d = (d.attestator_id ≢ attestator_id) ⊎ IsPrepared d

  attempt-rows :
      (t : Try) (table table' : Table) (db db' : Database) (o : Outcome)
      → IsUnchecked t
      → length t.nonce ≤ most
      → HasAreas (least_size v) areas
      → HasAreas (least_size v) table
      → IsAgreed areas table
      → All IsRow db.prepared_data
      → Ends memory base is_prime v attestator_id two three table t db (table', db', o)
      → All IsRow db'.prepared_data
  attempt-rows t table table' db db' o g short h0 h a rs (h', kept, added, inl same) = rw same rs
  attempt-rows t table table' db db' o g short h0 h a rs
        (h', kept, added, inr (d, more, (own, e, w))) =
      let long : 8 ≤ length d.nonce = omega (arith, ap length e, g.nonce_long) in
      let walk =
        IsWalk-agreed is_prime two v memory base (with_nonce areas d.nonce)
          (with_nonce table d.nonce) d.nonce d.data_bytes (nonce-IsReady d.nonce h0 long)
          (nonce-IsReady d.nonce h long) (record { areas = a.areas; counts = a.counts }) w in
      let row : IsRow d =
        inr (record { long = long; short = omega (arith, ap length e); walk = walk }) in
      rw more (All-append IsRow db.prepared_data (d ∷ []) rs (row, tt))

  ended :
      (db : Database) (count : ℤ) (errors : ℕ) (out : Extraction)
      → All IsRow db.prepared_data
      → ok (finish db count errors) ≡ ok out
      → All IsRow out.database.prepared_data
  unfolding finish
  ended db count errors out rs e =
      let same : out ≡ finish db count errors = cc in rw (ap (λ x. x.database) same) rs

  chosen :
      {P : Type 0} (b : Bool) (m n : Run Extraction) (out : Extraction)
      → (if b then m else n) ≡ ok out
      → (m ≡ ok out → P)
      → (n ≡ ok out → P)
      → P
  chosen true m n out e f g = f e
  chosen false m n out e f g = g e

  extract-rows :
      (fuel round : ℕ) (tries : ℕ → Try) (target total errors : ℕ) (table : Table) (db : Database)
      (out : Extraction)
      → ((n : ℕ) → IsUnchecked (tries n))
      → ((n : ℕ) → length (tries n).nonce ≤ most)
      → HasAreas (least_size v) areas
      → HasAreas (least_size v) table
      → IsAgreed areas table
      → All IsRow db.prepared_data
      → extract memory base is_prime v attestator_id fuel round tries target total errors table db
        ≡ ok out
      → All IsRow out.database.prepared_data
  unfolding extract
  extract-rows zero round tries target total errors table db out g s h0 h a rs e =
      chosen (leb target total) _ _ out e (ended db (pos total) errors out rs) (λ d. absurd cc)
  extract-rows (suc fuel) round tries target total errors table db out g s h0 h a rs e =
      let ((table', db', o), attempted, (h', kept, added, new)) = Returns-ok _ _ (
        attempt-Ends memory base is_prime v attestator_id two three (tries round) table db (g round)
          h) in
      let rs' =
        attempt-rows (tries round) table table' db db' o (g round) (s round) h0 h a rs
          (h', kept, added, new) in
      let a' : IsAgreed areas table' = record {
        areas = kept.areas ∙ a.areas;
        counts = kept.counts ∙ a.counts;
      } in
      chosen (leb target total) _ _ out e (ended db (pos total) errors out rs) (λ rest.
        go table' db'
          (λ total' errors' e'.
            extract-rows fuel (round + 1) tries target total' errors' table' db' out g s h0 h' a'
              rs' e')
          rs' o (sym (ap (λ m. m >>= after) attempted) ∙ rest))
    where
      after : Table × Database × Outcome → Run Extraction
      after (table', db', o) = elim o [
        | extracted ↦
            extract memory base is_prime v attestator_id fuel (round + 1) tries target (total + 1)
              errors table' db'
        | failed ↦
            if leb 20 (errors + 1)
            then ok (finish db' (sub_ℕ total 1) (errors + 1))
            else extract memory base is_prime v attestator_id fuel (round + 1) tries target total
                (errors + 1) table' db'
        | unset ↦
            if leb 20 (errors + 1)
            then ok (finish db' (pos total) (errors + 1))
            else extract memory base is_prime v attestator_id fuel (round + 1) tries target
                (total + 1) (errors + 1) table' db'
      ]

      go :
          (table' : Table) (db' : Database)
          → ((total' errors' : ℕ)
              → extract memory base is_prime v attestator_id fuel
                  (round + 1)
                  tries
                  target
                  total'
                  errors'
                  table'
                  db'
                ≡ ok out
              → All IsRow out.database.prepared_data)
          → All IsRow db'.prepared_data
          → (o : Outcome) → after (table', db', o) ≡ ok out
          → All IsRow out.database.prepared_data
      go table' db' ih rs' extracted rest = ih (total + 1) errors rest
      go table' db' ih rs' failed rest =
          chosen (leb 20 (errors + 1)) _ _ out rest (ended db' (sub_ℕ total 1) (errors + 1) out rs')
            (ih total (errors + 1))
      go table' db' ih rs' unset rest =
          chosen (leb 20 (errors + 1)) _ _ out rest (ended db' (pos total) (errors + 1) out rs')
            (ih (total + 1) (errors + 1))

  -- The loop of the extractor ends, and each row it adds holds the data that ra_prepare_data makes
  -- of the nonce of the row over the areas of the extractor's table and the image that it is
  -- given: when every row of the attestator was such a row before, every row of the attestator is
  -- one afterwards. Conditions: the calls whose results the loop does not read succeed, the nonces
  -- have eight bytes or more and not more than the bound, the table has areas as prepare_data
  -- needs them, and the prime test accepts 2 and 3.
  pub extract-IsRow :
      (tries : ℕ → Try) (target : ℕ) (db : Database)
      → ((n : ℕ) → IsUnchecked (tries n))
      → ((n : ℕ) → length (tries n).nonce ≤ most)
      → HasAreas (least_size v) areas
      → All IsRow db.prepared_data
      → Returns
          (λ out. All IsRow out.database.prepared_data)
          (extract memory base is_prime v attestator_id (target + 20) 0 tries target 0 0 areas db)
  extract-IsRow tries target db g s h rs =
      let (out, ends, promised) =
        Returns-ok _ _
          (extract-ends memory base is_prime v attestator_id two three tries target areas db g h) in
      rw ends (
        returns (
          extract-rows (target + 20) 0 tries target 0 0 areas db out g s h h
            (record { areas = refl; counts = refl }) rs ends))
