-- ===== src/Manager/Delivery.antt =====
-- From the manager to the verifier through the database: the request that serve_client sends, and what
-- ra_db_get_data_to_verify finds for it.
use remote_attestation.Prelude.{
  ℕ, ◌+◌, ◌%◌, ◌≤◌, ◌<◌, ◌≡◌, refl, ap, ◌∙◌, inl, inr, true, false, none, ◌&&◌, some, List, [], ◌∷◌,
  ◌++◌, ◌==◌, Option-cases, ltb, length, All, arith,
}
use remote_attestation.Prelude.RaResult.{success}
use remote_attestation.Prelude.Run.{ok}
use remote_attestation.Client.{Client, get_aid_as_string}
use remote_attestation.Database.Sql.{select, fetch_row, select-append, join}
use remote_attestation.Database.Keys.{DistinctKeys, join_one, beside_all}
use remote_attestation.Database.Tables.{Database, PreparedData, Request, Server, IsUp}
use remote_attestation.Verifier.{pending}
use remote_attestation.Database.Nonces.{
  valid_data, copied, get_valid_nonce, new_request, insert_request, delivered, get_data_to_verify,
}
use remote_attestation.Database.Unused.{
  valid_data-only, valid_data-IsValidFor, unused-requests_for, fetch_row-none,
}
use remote_attestation.Manager.Request.{
  packet, begin, execute, commit, closed, request_packet, send_ra_request,
}
use remote_attestation.Manager.Serve.{Outside, request_for, serve_found, serve_client}

-- Ids as the server gives them out.
pub record HasFreshIds (db : Database) : Type 0 where
  pub prepared_data : DistinctKeys (λ d. d.id) db.prepared_data
  pub requests : All (λ r. r.id < db.next_request_id) db.requests

-- Every call that serve_client makes succeeds.
pub record Succeeds (o : Outside) : Type 0 where
  pub nonce_server : IsUp o.nonce_server
  pub request_server : IsUp o.request_server
  pub malloc_nonce : o.malloc_nonce ≡ true
  pub malloc_packet : o.malloc_packet ≡ true
  pub sends : o.sends ≡ true

old_requests :
    (d : PreparedData) (i : ℕ) (rs : List Request)
    → All (λ r. r.id < i) rs
    → select (λ r. d.id == r.prepared_data_id && r.id == i) rs ≡ []
unfolding select
old_requests d i [] h = refl
old_requests d i (r ∷ rs) h = ground (arith, h.0, old_requests d i rs h.1)

-- A request with a new id meets its prepared data only.
joined :
    (db : Database) (d : PreparedData) (r : Request)
    → All (λ q. q.id < r.id) db.requests
    → r.prepared_data_id ≡ d.id
    → select (λ c. c.id == d.id) db.prepared_data ≡ d ∷ []
    → join
        (λ c q. c.id == q.prepared_data_id && q.id == r.id)
        db.prepared_data
        (db.requests ++ (r ∷ []))
      ≡ (d, r) ∷ []
unfolding select beside_all
joined db d r fresh e only =
    rw
      (
        join_one (λ c q. c.id == q.prepared_data_id && q.id == r.id) (λ c. c.id == d.id)
            db.prepared_data (db.requests ++ (r ∷ [])) r
            (λ c.
              rw
                (
                  select-append (λ q. c.id == q.prepared_data_id && q.id == r.id) db.requests
                      (r ∷ []),
                  old_requests c r.id db.requests fresh,
                )
                (ground arith)),
        only,
      )
      refl

request_for-sent :
    (o : Outside) (c : Client) (d : PreparedData) (db : Database)
    → Succeeds o
    → c.attestator_number < 10
    → request_for o c false d db
      ≡ ok (
        insert_request o.now d.id c.session_id 1800 false db,
        packet c.attestator_number
              (get_aid_as_string c)
              (request_packet db.next_request_id d.nonce)
              true
            ∷ [],
        true,
      )
unfolding request_for send_ra_request begin execute commit closed insert_request
request_for-sent o c d db up n =
    let in_bounds : ltb c.attestator_number 10 ≡ true = ground arith in
    let s = up.request_server in
    rw
      (
        s.init,
        s.connect,
        s.accepts 0,
        s.accepts 1,
        s.accepts 2,
        s.accepts 3,
        in_bounds,
        up.malloc_packet,
        up.sends,
      )
      refl

fetched :
    (choice : ℕ) (rows : List PreparedData)
    → 10 ≤ length rows
    → (d : PreparedData) × (fetch_row choice rows ≡ some d)
fetched choice rows h = elim (Option-cases (fetch_row choice rows)) [
  | inr found ↦ found
  | inl e ↦
      let none_left = fetch_row-none choice rows e in absurd (ground (arith, ap length none_left))
]

serve_client-sent :
    (o : Outside) (c : Client) (d : PreparedData) (db : Database)
    → Succeeds o
    → c.attestator_number < 10
    → 10 ≤ length (valid_data c.attestator_id db)
    → fetch_row o.nonce_server.choice (valid_data c.attestator_id db) ≡ some d
    → serve_client o c db ≡ request_for o c false d db
unfolding serve_client get_valid_nonce copied serve_found
serve_client-sent o c d db up n many e =
    let s = up.nonce_server in
    let enough : ltb (length (valid_data c.attestator_id db)) 10 ≡ false = ground arith in
    rw (s.init, s.connect, s.accepts 0, e, up.malloc_nonce, enough) refl

-- The tables with one more request, from the time of the call on, for a row of prepared data.
abbrev pub recorded : Outside → Client → PreparedData → Database → Database
recorded o c d db = record db {
  requests =
      db.requests
      ++ (record {
        id = db.next_request_id;
        prepared_data_id = d.id;
        session_id = c.session_id;
        send_time = o.now;
        response_time = none;
        status = pending;
        validity_time = 1800;
        is_startup = false;
      }
          ∷ []);
  next_request_id = db.next_request_id + 1;
}

-- When the attestator has ten or more valid nonces and every call succeeds, serve_client takes a
-- row of prepared data of this attestator that no request refers to, and sends exactly one packet:
-- the tables it leaves are the old ones with one more request, pending, for this row and session
-- and with the time of the call, and from then on ra_db_get_data_to_verify of the id in the packet
-- delivers the nonce in the packet, the data prepared for it and the time of the request, where
-- the nonce and the data are those of the row. Conditions: ids are distinct and new as the server
-- gives them out, the attestator's number is below the size of the table of contexts, and the
-- verifier's calls succeed.
pub serve_client-get_data_to_verify :
    (o : Outside) (c : Client) (db : Database) (s : Server) (mktime : ℕ → ℕ)
    → Succeeds o
    → IsUp s
    → c.attestator_number < 10
    → 10 ≤ length (valid_data c.attestator_id db)
    → HasFreshIds db
    → (d : PreparedData) × (select (λ x. x.id == d.id) db.prepared_data ≡ d ∷ [])
      × (d.attestator_id ≡ c.attestator_id)
      × (select (λ r. r.prepared_data_id == d.id) db.requests ≡ [])
      × (serve_client o c db
          ≡ ok (
            recorded o c d db,
            packet c.attestator_number
                  (get_aid_as_string c)
                  (request_packet db.next_request_id d.nonce)
                  true
                ∷ [],
            true,
          ))
      × (get_data_to_verify s mktime true true db.next_request_id (recorded o c d db)
          ≡ ok (
            success,
            some (record {
              nonce = d.nonce;
              prepared_data = d.data_bytes;
              send_time = mktime o.now;
              validity_time_sec = 1800;
            }),
          ))
unfolding get_data_to_verify delivered insert_request new_request fetch_row
serve_client-get_data_to_verify o c db s mktime up verifier n many ids =
    let (d, e) = fetched o.nonce_server.choice (valid_data c.attestator_id db) many in
    let only = valid_data-only o.nonce_server.choice c.attestator_id db ids.prepared_data e in
    let valid = valid_data-IsValidFor o.nonce_server.choice c.attestator_id db e in
    let r = new_request o.now d.id c.session_id 1800 false db in
    let first : s.choice % 1 ≡ 0 = omega arith in
    (
      d,
      only,
      valid.attestator,
      unused-requests_for db d valid.unused,
      serve_client-sent o c d db up n many e ∙ request_for-sent o c d db up n,
      rw
          (
            verifier.init,
            verifier.connect,
            verifier.accepts 0,
            joined db d r ids.requests refl only,
            first,
          )
          refl,
    )
