-- ===== src/Extractor/Attempt.antt =====
-- One round of the extractor: it ends, keeps the areas, and adds at most one row.
use remote_attestation.Prelude.{
  ℕ, ◌+◌, ◌≤◌, ◌≡◌, ◌≢◌, refl, ◌⊎◌, inl, inr, Bool, true, Option, none, some, List, [], ◌∷◌, ◌++◌,
  length, length-append, take_all, Bool-cases, All, arith,
}
use remote_attestation.Prelude.RaResult.{RaResult, is_success}
use remote_attestation.Prelude.Run.{ok, Returns, returns, Returns-ok}
use remote_attestation.Memory.Bytes as MemoryBytes
use remote_attestation.DataTable.{Table, set_current_nonce}
use remote_attestation.DataTable.Areas.{IsValid}
use remote_attestation.Nonce.{DecodedInfo, Version}
use remote_attestation.Nonce.Decode.{IsReady, least_size, Decodes, decode_nonce-Decodes}
use remote_attestation.Nonce.Agreement.{IsAgreed}
use remote_attestation.Preparation.Agreement.{IsWalk, prepare_data-IsWalk}
use remote_attestation.Preparation.Walk.{all_mallocs}
use remote_attestation.Database.Tables.{Database, PreparedData}
use remote_attestation.Database.Nonces.{insert_data}
use remote_attestation.Extractor.{
  Try, Outcome, failed, unset, extracted, random_generate_nonce, stored, insert_prepared,
  prepare_and_insert, attempt,
}

-- What the rounds keep of the table: its areas.
pub record HasAreas (least : ℕ) (t : Table) : Type 0 where
  pub valid : IsValid t
  pub some_area : t.memory_areas_count ≢ 0
  pub areas_valid : All (λ a. MemoryBytes.IsValid a × (least ≤ a.total_size)) t.areas

-- The calls whose results the loop does not read succeed.
pub record IsUnchecked (t : Try) : Type 0 where
  pub preparation : t.preparation ≡ all_mallocs
  pub malloc_query : t.malloc_query ≡ true
  pub malloc_labels : t.malloc_labels ≡ true
  pub nonce_long : 8 ≤ length t.nonce

-- The number of rows that a round adds.
abbrev pub rows : Outcome → ℕ
rows failed = 0
rows unset = 0
rows extracted = 1

abbrev pub with_nonce : Table → List ℕ → Table
with_nonce t nonce = record t { current_nonce = some nonce; current_nonce_size = length nonce }

pub nonce-IsReady :
    {least : ℕ} {t : Table} (nonce : List ℕ)
    → HasAreas least t
    → 8 ≤ length nonce
    → IsReady least (with_nonce t nonce) nonce
nonce-IsReady nonce h long = record {
  valid = record { distinct = h.valid.distinct; counted = h.valid.counted; small = h.valid.small };
  some_area = h.some_area;
  areas_valid = h.areas_valid;
  nonce_set = refl;
  nonce_sized = refl;
  nonce_long = long;
}

stored_all :
    (t : Table) (bs : List ℕ)
    → t.prepared_data ≡ some bs
    → t.prepared_data_size ≡ length bs
    → stored t ≡ ok bs
unfolding stored
stored_all t bs e l = ground (arith, take_all (length bs) bs)

module _ (memory : ℕ → ℕ) (base : ℕ) (is_prime : ℕ → Bool) (v : Version) (attestator_id : ℕ)
    (two : is_prime 2 ≡ true) (three : is_prime 3 ≡ true) where
  -- A row of a round: its data is the walk of its nonce over the areas of the table.
  abbrev pub IsExtracted : Table → Try → PreparedData → Type 0
  IsExtracted table t d =
      (d.attestator_id ≡ attestator_id)
      × (d.nonce ≡ t.nonce)
      × IsWalk is_prime two v memory base (with_nonce table d.nonce) d.data_bytes

  -- What a round leaves: the areas, and the rows with at most one more.
  abbrev pub Ends : Table → Try → Database → Table × Database × Outcome → Type 0
  Ends table t db (t', db', o) =
      HasAreas (least_size v) t'
      × IsAgreed table t'
      × (length db'.prepared_data ≡ length db.prepared_data + rows o)
      × ((db'.prepared_data ≡ db.prepared_data)
          ⊎ ((d : PreparedData) × (db'.prepared_data ≡ db.prepared_data ++ (d ∷ []))
              × IsExtracted table t d))

  -- The table after ra_prepare_data.
  prepared-IsReady :
      {least : ℕ} {t : Table} (nonce bs : List ℕ)
      → IsReady least t nonce
      → IsReady least (record t { prepared_data = some bs; prepared_data_size = length bs }) nonce
  prepared-IsReady nonce bs r = record {
    valid = record {
      distinct = r.valid.distinct;
      counted = r.valid.counted;
      small = r.valid.small;
    };
    some_area = r.some_area;
    areas_valid = r.areas_valid;
    nonce_set = r.nonce_set;
    nonce_sized = r.nonce_sized;
    nonce_long = r.nonce_long;
  }

  ready-HasAreas :
      {least : ℕ} {t : Table} (nonce : List ℕ) → IsReady least t nonce → HasAreas least t
  ready-HasAreas nonce r = record {
    valid = r.valid;
    some_area = r.some_area;
    areas_valid = r.areas_valid;
  }

  insert_prepared-Ends :
      (t : Try) (origin table : Table) (bs : List ℕ) (db : Database)
      (out : RaResult × Option DecodedInfo)
      → IsUnchecked t
      → HasAreas (least_size v) table
      → IsAgreed origin table
      → table.prepared_data ≡ some bs
      → table.prepared_data_size ≡ length bs
      → IsWalk is_prime two v memory base (with_nonce origin t.nonce) bs
      → Decodes is_prime v table t.nonce out
      → Returns
          (Ends origin t db)
          (insert_prepared memory base is_prime v attestator_id t table db out)
  unfolding insert_prepared insert_data
  insert_prepared-Ends t origin table bs db (r, none) g h o e l w d = absurd d
  insert_prepared-Ends t origin table bs db (r, some info) g h o e l w d =
      rw (stored_all table bs e l, g.malloc_query)
        (elim (Bool-cases t.inserts) [
          | inl inserted ↦ rw inserted (
              returns (
                h,
                o,
                omega (arith, length-append db.prepared_data (_ ∷ [])),
                inr (_, refl, (refl, refl, w)),
              ))
          | inr refused ↦ rw refused (returns (h, o, omega arith, inl refl))
        ])

  prepare_and_insert-Ends :
      (t : Try) (origin : Table) (db : Database)
      → IsUnchecked t
      → IsReady (least_size v) (with_nonce origin t.nonce) t.nonce
      → Returns
          (Ends origin t db)
          (prepare_and_insert memory base is_prime v attestator_id t (with_nonce origin t.nonce) db)
  unfolding prepare_and_insert insert_prepared
  prepare_and_insert-Ends t origin db g ready =
      let table = with_nonce origin t.nonce in
      let (bs, w, walked) =
        prepare_data-IsWalk is_prime two v three memory base t.raw table t.nonce ready in
      let prepared : Table = record table {
        prepared_data = some bs;
        prepared_data_size = length bs;
      } in
      let still : IsReady (least_size v) prepared t.nonce = prepared-IsReady t.nonce bs ready in
      let kept : IsAgreed origin prepared = record { areas = refl; counts = refl } in
      rw (g.preparation, walked)
        (elim (Bool-cases t.malloc_data) [
          | inr full ↦ rw full (returns (ready-HasAreas t.nonce still, kept, omega arith, inl refl))
          | inl room ↦
              let (out, decoded, decodes) =
                Returns-ok _ _
                  (decode_nonce-Decodes is_prime two v t.raw prepared t.nonce three still) in
              rw (room, g.malloc_labels, decoded)
                (insert_prepared-Ends t origin prepared bs db out g (ready-HasAreas t.nonce still)
                  kept refl refl w decodes)
        ])

  -- Every round ends, whether its nonce is random and stored, its buffer is allocated and its row is
  -- inserted or not, and keeps the areas.
  pub attempt-Ends :
      (t : Try) (table : Table) (db : Database)
      → IsUnchecked t
      → HasAreas (least_size v) table
      → Returns (Ends table t db) (attempt memory base is_prime v attestator_id t table db)
  unfolding attempt set_current_nonce prepare_and_insert insert_prepared
  attempt-Ends t table db g h =
      elim (Bool-cases (is_success (random_generate_nonce t.rand_bytes))) [
        | inr none_generated ↦
            rw none_generated
              (returns (h, record { areas = refl; counts = refl }, omega arith, inl refl))
        | inl generated ↦ elim (Bool-cases t.malloc_nonce) [
          | inl room ↦
              rw (generated, room)
                (prepare_and_insert-Ends t table db g (nonce-IsReady t.nonce h g.nonce_long))
          | inr full ↦
              rw (generated, full)
                (returns (
                  record {
                    valid = record {
                      distinct = h.valid.distinct;
                      counted = h.valid.counted;
                      small = h.valid.small;
                    };
                    some_area = h.some_area;
                    areas_valid = h.areas_valid;
                  },
                  record { areas = refl; counts = refl },
                  omega arith,
                  inl refl,
                ))
        ]
      ]
