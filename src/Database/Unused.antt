-- ===== src/Database/Unused.antt =====
-- The nonces that the services of Database.Nonces deliver, and those that requests have used.
use remote_attestation.Prelude.{
  ℕ, ◌%◌, ◌≤◌, ◌≡◌, refl, subst, inl, inr, Bool, true, false, ◌&&◌, Option, none, some, List, [],
  ◌∷◌, ◌++◌, append-nil, ◌==◌, if◌then◌else◌, Bool-cases, length, get_elem?-some, arith,
}
use remote_attestation.Prelude.RaResult.{
  RaResult, success, error_db_mysql, error_db_no_data, error_memory,
}
use remote_attestation.Database.Sql.{select, exists, fetch_row, select-append}
use remote_attestation.Database.Keys.{DistinctKeys, fetch_row-select, fetch_row-only, select-exists}
use remote_attestation.Database.Tables.{Database, Server, PreparedData, Request}
use remote_attestation.Database.Nonces.{is_unused, valid_data, copied, get_valid_nonce}

abbrev pub requests_for : (prepared_data_id : ℕ) → List Request → List Request
requests_for p rs = select (λ r. r.prepared_data_id == p) rs

-- No prepared data, and so no nonce, has two requests.
abbrev pub NoReuse : List Request → Type 0
NoReuse rs = (p : ℕ) → length (requests_for p rs) ≤ 1

-- A row of prepared data that a request for the attestator may use.
pub record IsValidFor (a : ℕ) (db : Database) (d : PreparedData) : Type 0 where
  pub attestator : d.attestator_id ≡ a
  pub unused : is_unused db d ≡ true

fetched_row :
    (choice a : ℕ) (db : Database) {d : PreparedData}
    → fetch_row choice (valid_data a db) ≡ some d
    → fetch_row choice (select (λ c. c.attestator_id == a && is_unused db c) db.prepared_data)
      ≡ some d
unfolding valid_data fetch_row
fetched_row choice a db e = elim (Bool-cases (exists (λ t. t.id == a) db.attestators)) [
  | inl known ↦ ground arith
  | inr unknown ↦ absurd (ground arith)
]

-- The row that ra_db_get_valid_nonce fetches is valid, and the only one with its id.
pub valid_data-IsValidFor :
    (choice a : ℕ) (db : Database) {d : PreparedData}
    → fetch_row choice (valid_data a db) ≡ some d
    → IsValidFor a db d
valid_data-IsValidFor choice a db {d} e =
    let passed : (d.attestator_id == a && is_unused db d) ≡ true =
      fetch_row-select choice (λ c. c.attestator_id == a && is_unused db c) db.prepared_data
        (fetched_row choice a db e) in
    record { attestator = ground arith; unused = ground arith }

pub valid_data-only :
    (choice a : ℕ) (db : Database) {d : PreparedData}
    → DistinctKeys (λ c. c.id) db.prepared_data
    → fetch_row choice (valid_data a db) ≡ some d
    → select (λ c. c.id == d.id) db.prepared_data ≡ d ∷ []
valid_data-only choice a db u e =
    fetch_row-only (λ c. c.id) choice (λ c. c.attestator_id == a && is_unused db c) db.prepared_data
      u (fetched_row choice a db e)

pub unused-requests_for :
    (db : Database) (d : PreparedData) → is_unused db d ≡ true → requests_for d.id db.requests ≡ []
unfolding is_unused
unused-requests_for db d h =
    select-exists (λ r. r.prepared_data_id == d.id) db.requests (ground arith)

-- A request for prepared data that had none keeps each at one request at most.
pub insert_request-NoReuse :
    (db : Database) (d : PreparedData) (r : Request)
    → is_unused db d ≡ true
    → r.prepared_data_id ≡ d.id
    → NoReuse db.requests
    → NoReuse (db.requests ++ (r ∷ []))
unfolding select
insert_request-NoReuse db d r h e once p =
    let grown = select-append (λ q. q.prepared_data_id == p) db.requests (r ∷ []) in
    elim (Bool-cases (r.prepared_data_id == p)) [
      | inl same ↦
          let at : d.id ≡ p = ground arith in
          let before : requests_for p db.requests ≡ [] =
            subst (λ k. requests_for k db.requests ≡ []) at (unused-requests_for db d h) in
          rw (grown, same, before) (omega arith)
      | inr other ↦ rw (grown, other, append-nil (requests_for p db.requests)) (once p)
    ]

pub fetch_row-none :
    (choice : ℕ) (rows : List PreparedData) → fetch_row choice rows ≡ none → rows ≡ []
unfolding fetch_row
fetch_row-none choice [] e = refl
fetch_row-none choice (d ∷ ds) e =
    let (x, at) = get_elem?-some (d ∷ ds) (choice % length (d ∷ ds)) (omega arith) in cc

-- What ra_db_get_valid_nonce answers.
pub data ValidNonce (s : Server) (a : ℕ) (db : Database)
    : (RaResult × Option PreparedData) × Option ℕ → Type 0 where
  unreadable : ValidNonce s a db ((error_db_mysql, none), none)
  no_memory : (n : ℕ) → ValidNonce s a db ((error_memory, none), some n)
  no_data : ValidNonce s a db ((error_db_no_data, none), some 0)
  valid :
      (d : PreparedData)
      → fetch_row s.choice (valid_data a db) ≡ some d
      → ValidNonce s a db ((success, some d), some (length (valid_data a db)))

copied-ValidNonce :
    (s : Server) (malloc : Bool) (a : ℕ) (db : Database) (r : Option PreparedData)
    → fetch_row s.choice (valid_data a db) ≡ r
    → ValidNonce s a db (copied malloc r, some (length (valid_data a db)))
unfolding copied
copied-ValidNonce s malloc a db none e = rw (fetch_row-none s.choice (valid_data a db) e) no_data
copied-ValidNonce s true a db (some d) e = valid d e
copied-ValidNonce s false a db (some d) e = no_memory _

pub get_valid_nonce-ValidNonce :
    (s : Server) (malloc : Bool) (a : ℕ) (db : Database)
    → ValidNonce s a db (get_valid_nonce s malloc a db)
unfolding get_valid_nonce
get_valid_nonce-ValidNonce s malloc a db = go s.init s.connect (s.accepts 0)
  where
    go :
        (i c r : Bool)
        → ValidNonce s a db (
            if i
            then (if c
                then (if r
                    then (
                      copied malloc (fetch_row s.choice (valid_data a db)),
                      some (length (valid_data a db)),
                    )
                    else ((error_db_mysql, none), none))
                else ((error_db_mysql, none), none))
            else ((error_db_mysql, none), none))
    go true true true = copied-ValidNonce s malloc a db _ refl
    go true true false = unreadable
    go true false r = unreadable
    go false c r = unreadable
