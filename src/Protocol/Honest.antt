-- ===== src/Protocol/Honest.antt =====
-- An application that is not modified, from the request to the verdict.
use remote_attestation.Prelude.{
  ℕ, ◌+◌, ◌-◌, ◌%◌, ◌^◌, ◌≤◌, ◌<◌, ◌≡◌, ◌≢◌, sym, ap, subst, inl, inr, Bool, true, false, Option,
  some, List, [], ◌∷◌, ◌==◌, if◌then◌else◌, map, length, take, drop, All, Bool-cases, arith,
}
use remote_attestation.Prelude.Bytes.{byte_bound}
use remote_attestation.Prelude.Int.{pos}
use remote_attestation.Prelude.RaResult.{RaResult}
use remote_attestation.Prelude.Run.{ok}
use remote_attestation.Memory.{Area}
use remote_attestation.Memory.Bytes.{byte_at}
use remote_attestation.DataTable.{
  Table, get_memory_area, get_aid_reference, get_attestator_number, reset_prepared_data,
}
use remote_attestation.Nonce.{Version}
use remote_attestation.Nonce.Decode.{least_size}
use remote_attestation.Nonce.Agreement.{IsAgreed}
use remote_attestation.Preparation.Agreement.{IsWalk-unique, prepare_data-IsWalk}
use remote_attestation.DoHash.{Libraries, Algorithm, Packed}
use remote_attestation.DoHash.Laws.{IsStandard, IsDigest, message, do_hash-IsDigest}
use remote_attestation.Database.Sql.{select}
use remote_attestation.Database.Tables.{Database, PreparedData, Server, IsUp}
use remote_attestation.Database.Nonces.{valid_data, get_data_to_verify}
use remote_attestation.Client.{Client, get_aid_as_string}
use remote_attestation.Extractor.Attempt.{HasAreas, nonce-IsReady}
use remote_attestation.Extractor.Prepared.{IsPrepared, IsRow}
use remote_attestation.Manager.Request.{packet, request_packet}
use remote_attestation.Manager.Serve.{Outside, serve_client}
use remote_attestation.Manager.Delivery.{
  HasFreshIds, Succeeds, recorded, serve_client-get_data_to_verify,
}
use remote_attestation.Attestator.{attestator_routine}
use remote_attestation.Attestator.Response.{
  response, mallocs_succeed, with_nonce, attestator_routine-sends,
}
use remote_attestation.VerifierForwarder.{Forwarded, verifier_forwarder}
use remote_attestation.VerifierForwarder.Forwarding.{joined, verifier_forwarder-response}
use remote_attestation.Verifier.{
  success, expired_success, DataToVerify, finalize_request, is_in_time, verifier,
}
use remote_attestation.Verifier.Verdict.{verifier-response}

All-select :
    (P : PreparedData → Type 0) (q : PreparedData → Bool) (ds : List PreparedData)
    → All P ds
    → All P (select q ds)
unfolding select
All-select P q [] h = tt
All-select P q (x ∷ ds) h = elim (Bool-cases (q x)) [
  | inl hit ↦ rw hit (h.0, All-select P q ds h.1)
  | inr miss ↦ rw miss (All-select P q ds h.1)
]

-- The areas of a table that agrees with one that has areas.
agreed-HasAreas : {least : ℕ} (t t' : Table) → IsAgreed t t' → HasAreas least t → HasAreas least t'
agreed-HasAreas t t' g h = record {
  valid = record {
    distinct = rw g.areas h.valid.distinct;
    counted = rw (g.areas, g.counts) h.valid.counted;
    small = rw g.areas h.valid.small;
  };
  some_area = rw g.counts h.some_area;
  areas_valid = rw g.areas h.areas_valid;
}

-- What the verifier is to find for a request that was sent for a row.
abbrev pub kept : (mktime : ℕ → ℕ) → Outside → PreparedData → DataToVerify
kept mktime o d = record {
  nonce = d.nonce;
  prepared_data = d.data_bytes;
  send_time = mktime o.now;
  validity_time_sec = 1800;
}

module _ (is_prime : ℕ → Bool) (two : is_prime 2 ≡ true) (three : is_prime 3 ≡ true) (v : Version)
    (lib : Libraries) (algorithm : Algorithm) (memory image : ℕ → ℕ) (base image_base raw : ℕ)
    (most : ℕ) (t reference : Table) where
  -- The row of the extractor holds the bytes that the attestator will hash.
  row-IsPrepared :
      (a : ℕ) (db : Database) (d : PreparedData)
      → All (IsRow image image_base is_prime v a two three most reference) db.prepared_data
      → d.attestator_id ≡ a
      → select (λ r. r.id == d.id) db.prepared_data ≡ d ∷ []
      → IsPrepared image image_base is_prime v a two three most reference d
  row-IsPrepared a db d rows own only =
      let selected =
        All-select (IsRow image image_base is_prime v a two three most reference)
          (λ r. r.id == d.id) db.prepared_data rows in
      let one : All (IsRow image image_base is_prime v a two three most reference) (d ∷ []) =
        subst (All (IsRow image image_base is_prime v a two three most reference)) only selected in
      elim one.0 [ inl other ↦ absurd (other own) | inr prepared ↦ prepared ]

  -- What the attestator hashes and sends for the nonce of the row.
  row-answered :
      (a : ℕ) (d : PreparedData) (aid : List ℕ) (n req_id : ℕ)
      → IsStandard lib
      → HasAreas (least_size v) t
      → IsAgreed t reference
      → ((x : Area) (label k : ℕ)
          → get_memory_area t label ≡ some x
          → byte_at image image_base x.blocks k ≡ byte_at memory base x.blocks k)
      → ((x : Area) (label : ℕ)
          → get_memory_area t label ≡ some x
          → most + x.total_size + 16 < 2 ^ 32)
      → IsPrepared image image_base is_prime v a two three most reference d
      → (get_aid_reference t).1 ≡ some aid
      → length aid ≡ 16
      → (get_attestator_number t).1 ≡ some n
      → req_id < byte_bound 8
      → (p : Packed) × IsDigest lib algorithm (message d.nonce d.data_bytes aid n) p
        × (p.size ≡ length p.bytes)
        × (p.size < 2 ^ 32)
        × (length d.nonce + length d.data_bytes + 16 < 2 ^ 32)
        × (attestator_routine memory base is_prime v raw lib algorithm false
              (some (request_packet req_id d.nonce))
              mallocs_succeed
              t
            ≡ ok (reset_prepared_data (with_nonce t d.nonce), some (response aid n req_id p)))
  unfolding request_packet get_memory_area
  row-answered a d aid n req_id standard h g agree small r aid_set sized n_set id_small =
      let ready = nonce-IsReady d.nonce h r.long in
      let ready' = nonce-IsReady d.nonce (agreed-HasAreas t reference g h) r.long in
      let (bs, w, prepares) =
        prepare_data-IsWalk is_prime two v three memory base raw (with_nonce t d.nonce) d.nonce
          ready in
      let same : bs ≡ d.data_bytes =
        IsWalk-unique is_prime two v memory image base image_base (with_nonce t d.nonce)
          (with_nonce reference d.nonce) d.nonce bs d.data_bytes ready ready'
          (record { areas = g.areas; counts = g.counts }) agree w r.walk in
      let (info, e, decoded, sized_bs, walked) = w in
      let bound : length d.nonce + length d.data_bytes + 16 < 2 ^ 32 = omega (
        arith,
        ap length same,
        decoded.within,
        small decoded.area info.area_label decoded.found,
        r.short,
      ) in
      let (p, hashed, digest, sized_p, small_p) =
        do_hash-IsDigest lib algorithm d.nonce d.data_bytes aid n sized bound standard in
      (
        p,
        digest,
        sized_p,
        small_p,
        bound,
        attestator_routine-sends memory base is_prime v raw lib algorithm t d.nonce aid d.data_bytes
            n req_id p two three ready (rw (sym same) prepares) hashed sized_p aid_set sized n_set
            id_small (omega arith),
      )

  -- An attestation of an application that is not modified ends in a success, from the manager to
  -- the verdict: serve_client records and sends one request; on its packet the attestator runs
  -- without undefined behaviour and sends a response; the forwarder, given the response in any
  -- pieces that are not empty, starts the verifier with an input on which the verifier finalizes
  -- that request as a success, or as an expired success when the response came too late, with the
  -- elapsed time in 32 bits, and writes nothing else. Conditions: each row of the attestator holds
  -- the walk of its nonce over the areas of the extractor's table and the image that the extractor
  -- loads; the attestator's table has the same areas, and on them the image agrees with the
  -- attested memory; the calls and allocations succeed and the verifier finds what
  -- ra_db_get_data_to_verify delivers; ten or more rows are valid, and ids are distinct and new as
  -- the server gives them out; the libraries keep to their documentation and the prime test
  -- accepts 2 and 3; the areas are valid and of at least the least size of the version, and each
  -- of them with the longest nonce and the AID is below 2^32 bytes; the AID has 16 bytes, it and
  -- the number are set, and numbers, id and time fit their fields.
  pub serve_client-verified :
      (o : Outside) (c : Client) (db : Database) (s : Server) (mktime : ℕ → ℕ) (aid : List ℕ)
      (n time : ℕ) (pieces : List ℕ → List (List ℕ)) (get_application_id : List ℕ → Option ℕ)
      (get_data : Database → ℕ → Option DataToVerify)
      → ((db' : Database) (i : ℕ) (r : RaResult) (out : Option DataToVerify)
          → get_data_to_verify s mktime true true i db' ≡ ok (r, out)
          → get_data db' i ≡ out)
      → ((bs : List ℕ) → joined (pieces bs) ≡ bs)
      → ((bs : List ℕ) → All (λ x. length x ≢ 0) (pieces bs))
      → Succeeds o
      → IsUp s
      → c.attestator_number < 10
      → 10 ≤ length (valid_data c.attestator_id db)
      → HasFreshIds db
      → All
          (IsRow image image_base is_prime v c.attestator_id two three most reference)
          db.prepared_data
      → IsStandard lib
      → HasAreas (least_size v) t
      → IsAgreed t reference
      → ((x : Area) (label k : ℕ)
          → get_memory_area t label ≡ some x
          → byte_at image image_base x.blocks k ≡ byte_at memory base x.blocks k)
      → ((x : Area) (label : ℕ)
          → get_memory_area t label ≡ some x
          → most + x.total_size + 16 < 2 ^ 32)
      → (get_aid_reference t).1 ≡ some aid
      → length aid ≡ 16
      → (get_attestator_number t).1 ≡ some n
      → db.next_request_id < byte_bound 8
      → n < byte_bound 8
      → time < byte_bound 8
      → (d : PreparedData) × (db' : Database) × (sent : List ℕ) × (f : Forwarded) × (serve_client o
            c db
          ≡ ok (
            db',
            packet c.attestator_number
                  (get_aid_as_string c)
                  (request_packet db.next_request_id d.nonce)
                  true
                ∷ [],
            true,
          ))
        × (attestator_routine memory base is_prime v raw lib algorithm false
              (some (request_packet db.next_request_id d.nonce))
              mallocs_succeed
              t
            ≡ ok (reset_prepared_data (with_nonce t d.nonce), some sent))
        × (verifier_forwarder (some (pos (length sent))) time (map some (pieces sent))
            ≡ ok (some f))
        × (verifier lib algorithm get_application_id
              (get_data db')
              (take 44 f.input)
              (drop 44 f.input)
              true
              true
              true
            ≡ ok (
                finalize_request db.next_request_id
                  (if is_in_time time (kept mktime o d) then success else expired_success)
                  ((time + 2 ^ 64 - mktime o.now) % 2 ^ 32)
                ∷ []))
  serve_client-verified o c db s mktime aid n time pieces get_application_id get_data answers whole
        nonempty up verifier_up number many ids rows standard h g agree small aid_set sized n_set
        id_small n_small time_small =
      let (d, only, own, unused, served, found) =
        serve_client-get_data_to_verify o c db s mktime up verifier_up number many ids in
      let (p, digest, sized_p, small_p, bound, answered) =
        row-answered c.attestator_id d aid n db.next_request_id standard h g agree small
          (row-IsPrepared c.attestator_id db d rows own only) aid_set sized n_set id_small in
      let sent = response aid n db.next_request_id p in
      (
        d,
        recorded o c d db,
        sent,
        _,
        served,
        answered,
        verifier_forwarder-response (pieces sent) time aid n db.next_request_id p (nonempty sent)
            (whole sent) sized,
        verifier-response lib algorithm get_application_id (get_data (recorded o c d db))
            (kept mktime o d) aid time n db.next_request_id p standard
            (answers (recorded o c d db) db.next_request_id _ _ found) digest sized_p small_p sized
            bound time_small n_small id_small,
      )
