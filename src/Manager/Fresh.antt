-- ===== src/Manager/Fresh.antt =====
-- serve_client: what it does on every outcome of its calls, and that no nonce is used twice.
use remote_attestation.Prelude.{
  ℕ, ◌≤◌, ◌<◌, ◌≡◌, refl, sym, subst, ◌⊎◌, inl, inr, Bool, true, false, Option, List, [], ◌∷◌, ◌++◌,
  Bool-cases, ltb, length, arith,
}
use remote_attestation.Prelude.RaResult.{RaResult}
use remote_attestation.Prelude.Run.{Run, ok, Returns, returns}
use remote_attestation.Client.{Client, get_aid_as_string}
use remote_attestation.Database.Tables.{Database, PreparedData, Request}
use remote_attestation.Database.Nonces.{valid_data, new_request, insert_request}
use remote_attestation.Database.Unused.{
  NoReuse, IsValidFor, valid_data-IsValidFor, insert_request-NoReuse, ValidNonce, unreadable,
  no_memory, no_data, valid, get_valid_nonce-ValidNonce,
}
use remote_attestation.Manager.Request.{
  Event, packet, begin, execute, commit, rollback, closed, request_packet, executes,
  send_ra_request,
}
use remote_attestation.Manager.Serve.{Outside, request_for, serve_found, serve_client}

-- What send_ra_request leaves behind: the old requests, or one more, and one packet when it answers
-- that it was sent.
pub record IsRequested (c : Client) (d : PreparedData) (r : Request) (db : Database)
    (out : Database × List Event × Bool) : Type 0 where
  pub requests : (out.0.requests ≡ db.requests) ⊎ (out.0.requests ≡ db.requests ++ (r ∷ []))
  pub event :
      out.2 ≡ true
      → out.1
        ≡ packet c.attestator_number
            (get_aid_as_string c)
            (request_packet db.next_request_id d.nonce)
            true
          ∷ []

-- The ends of the transaction.
grown_or_same :
    (b0 b2 b3 : Bool) (db : Database) (change : Database → Database)
    → ((closed (commit b3 (commit b2 (execute change (begin b0 db))))).requests ≡ db.requests)
      ⊎ ((closed (commit b3 (commit b2 (execute change (begin b0 db))))).requests
          ≡ (change db).requests)
unfolding begin execute commit closed
grown_or_same b0 b2 b3 db change = ground arith

rolled_back :
    (b0 b2 b3 : Bool) (db : Database) (change : Database → Database)
    → ((closed (commit b3 (rollback b2 (execute change (begin b0 db))))).requests ≡ db.requests)
      ⊎ ((closed (commit b3 (rollback b2 (execute change (begin b0 db))))).requests
          ≡ (change db).requests)
unfolding begin execute commit rollback closed
rolled_back b0 b2 b3 db change = ground arith

-- The same when the statement is refused, or no packet can be allocated.
refused :
    (b0 b2 : Bool) (db : Database) → (closed (rollback b2 (begin b0 db))).requests ≡ db.requests
unfolding begin rollback closed
refused b0 b2 db = ground arith

unsent :
    (b0 b2 : Bool) (db : Database) (change : Database → Database)
    → ((closed (commit b2 (execute change (begin b0 db)))).requests ≡ db.requests)
      ⊎ ((closed (commit b2 (execute change (begin b0 db)))).requests ≡ (change db).requests)
unfolding begin execute commit closed
unsent b0 b2 db change = ground arith

pub request_for-IsRequested :
    (o : Outside) (c : Client) (is_startup : Bool) (d : PreparedData) (db : Database)
    → o.request_server.init ≡ true
    → c.attestator_number < 10
    → Returns
        (IsRequested c d (new_request o.now d.id c.session_id 1800 is_startup db) db)
        (request_for o c is_startup d db)
unfolding request_for send_ra_request insert_request
request_for-IsRequested o c is_startup d db i n =
    let in_bounds : ltb c.attestator_number 10 ≡ true = ground arith in
    let change = insert_request o.now d.id c.session_id 1800 is_startup in
    rw (i, in_bounds)
      (elim (Bool-cases (executes o.request_server 1)) [
        | inr rejected ↦
            rw rejected (returns (record { requests = inl (refused _ _ db); event = λ h. cc }))
        | inl accepted ↦ elim (Bool-cases o.malloc_packet) [
          | inr full ↦
              rw (accepted, full)
                (returns (record { requests = unsent _ _ db change; event = λ h. cc }))
          | inl room ↦ elim (Bool-cases o.sends) [
            | inr lost ↦
                rw (accepted, room, lost)
                  (returns (record { requests = rolled_back _ _ _ db change; event = λ h. cc }))
            | inl sent ↦
                rw (accepted, room, sent)
                  (returns (record { requests = grown_or_same _ _ _ db change; event = λ h. refl }))
          ]
        ]
      ])

-- What serve_client leaves behind, when it answers that it served the client in particular.
pub record IsServed (c : Client) (db : Database) (out : Database × List Event × Bool) : Type 0 where
  pub once : NoReuse out.0.requests
  pub fresh :
      out.2 ≡ true
      → (d : PreparedData) × IsValidFor c.attestator_id db d
        × (10 ≤ length (valid_data c.attestator_id db))
        × (out.1
            ≡ packet c.attestator_number
                (get_aid_as_string c)
                (request_packet db.next_request_id d.nonce)
                true
              ∷ [])

request_for-IsServed :
    (o : Outside) (c : Client) (d : PreparedData) (db : Database)
    → IsValidFor c.attestator_id db d
    → 10 ≤ length (valid_data c.attestator_id db)
    → NoReuse db.requests
    → {m : Run (Database × List Event × Bool)}
    → Returns (IsRequested c d (new_request o.now d.id c.session_id 1800 false db) db) m
    → Returns (IsServed c db) m
unfolding new_request
request_for-IsServed o c d db v many once (returns r) = returns (record {
  once = elim r.requests [
    | inl same ↦ subst NoReuse (sym same) once
    | inr grown ↦ subst NoReuse (sym grown) (
        insert_request-NoReuse db d (new_request o.now d.id c.session_id 1800 false db) v.unused
          refl once)
  ];
  fresh = λ h. (d, v, many, r.event h);
})

refusal-IsServed :
    (c : Client) (db : Database) (es : List Event)
    → NoReuse db.requests
    → Returns (IsServed c db) (ok (db, es, false))
refusal-IsServed c db es once = returns (record { once = once; fresh = λ h. cc })

serve_found-IsServed :
    (o : Outside) (c : Client) (db : Database) {r : (RaResult × Option PreparedData) × Option ℕ}
    → o.request_server.init ≡ true
    → c.attestator_number < 10
    → NoReuse db.requests
    → ValidNonce o.nonce_server c.attestator_id db r
    → Returns (IsServed c db) (serve_found o c db r)
unfolding serve_found
serve_found-IsServed o c db i n once unreadable = refusal-IsServed c db _ once
serve_found-IsServed o c db i n once (no_memory left) = refusal-IsServed c db _ once
serve_found-IsServed o c db i n once no_data = refusal-IsServed c db _ once
serve_found-IsServed o c db i n once (valid d e) =
    elim (Bool-cases (ltb (length (valid_data c.attestator_id db)) 10)) [
      | inl few ↦ rw few (refusal-IsServed c db _ once)
      | inr many ↦ rw many (
          request_for-IsServed o c d db
            (valid_data-IsValidFor o.nonce_server.choice c.attestator_id db e) (ground arith) once
            (request_for-IsRequested o c false d db i n))
    ]

-- serve_client always ends, whatever its allocations, the statements and the send do, and no
-- prepared data gets a second request. When it answers true it has sent one packet, with the new
-- request's id and the nonce of prepared data of the client's attestator that no request had used,
-- and at least ten such rows were there before. Conditions: mysql_init succeeds, the attestator's
-- number is below the size of the table of contexts, and no prepared data has two requests before.
pub serve_client-IsServed :
    (o : Outside) (c : Client) (db : Database)
    → o.request_server.init ≡ true
    → c.attestator_number < 10
    → NoReuse db.requests
    → Returns (IsServed c db) (serve_client o c db)
unfolding serve_client
serve_client-IsServed o c db i n once =
    serve_found-IsServed o c db i n once
      (get_valid_nonce-ValidNonce o.nonce_server o.malloc_nonce c.attestator_id db)
