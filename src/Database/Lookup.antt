-- ===== src/Database/Lookup.antt =====
-- The services that look up an application and its attestators, and set the reaction status. An AID is
-- compared as the server compares strings in the collation of the column, which does not tell upper
-- from lower case: the parameter `same_aid`.
use remote_attestation.Prelude.{ℕ, Bool, ◌&&◌, Option, none, some, List, ◌==◌, if◌then◌else◌}
use remote_attestation.Prelude.RaResult.{RaResult, success, error_db_mysql, error_db_query}
use remote_attestation.Database.Sql.{select, update, fetch_row, join}
use remote_attestation.Database.Tables.{
  Application, Attestator, ReactionStatus, Database, Server, connected,
}

-- What ra_db_get_attestation_parameters sets.
pub record Parameters : Type 0 where
  pub application_id : ℕ
  pub attestator_id : ℕ
  pub sleep_avg : ℕ
  pub sleep_var : ℕ

-- The result of a query that is expected to have a row.
unfoldable pub found {ℓ} : {A : Type ℓ} → Option A → RaResult × Option A
found none = (error_db_query, none)
found (some a) = (success, some a)

module _ (same_aid : List ℕ → List ℕ → Bool) where
  -- DBMS_QUERY_GET_APPLICATION_ID, the id of the first row.
  pub application_row : ℕ → List Application → Option ℕ
  application_row choice rows = elim (fetch_row choice rows) [ none ↦ none | some r ↦ some r.id ]

  -- ra_db_get_application_id
  unfoldable pub get_application_id : Server → (aid : List ℕ) → Database → RaResult × Option ℕ
  get_application_id s aid db =
      connected s (error_db_mysql, none)
        (if s.accepts 0
          then found (application_row s.choice (select (λ r. same_aid r.aid aid) db.applications))
          else (error_db_mysql, none))

  -- The condition of DBMS_QUERY_EXTRACT_ATTESTATOR_ID and DBMS_QUERY_EXTRACT_PRODUCT_PARAMETERS.
  abbrev pub is_attestator_of : (aid : List ℕ) (number : ℕ) → Attestator → Application → Bool
  is_attestator_of aid number att app =
      att.application_id == app.id && same_aid app.aid aid && att.attestator_no == number

  -- ra_db_get_attestation_parameters
  unfoldable pub get_attestation_parameters :
      Server → (aid : List ℕ) (attestator_no : ℕ) → Database → RaResult × Option Parameters
  get_attestation_parameters s aid number db =
      connected s (error_db_mysql, none)
        (if s.accepts 0
          then found
              (elim (fetch_row s.choice
                (join (is_attestator_of aid number) db.attestators db.applications)) [
                  | none ↦ none
                  | some (att, app) ↦ some (record {
                    application_id = app.id;
                    attestator_id = att.id;
                    sleep_avg = att.sleep_avg;
                    sleep_var = att.sleep_var;
                  })
                ])
          else (error_db_mysql, none))

  -- ra_db_get_attestator_id
  unfoldable pub get_attestator_id :
      Server → (aid : List ℕ) (attestator_number : ℕ) → Database → RaResult × Option ℕ
  get_attestator_id s aid number db =
      connected s (error_db_mysql, none)
        (if s.accepts 0
          then found
              (elim (fetch_row s.choice
                (join (is_attestator_of aid number) db.attestators db.applications)) [
                  | none ↦ none
                  | some (att, app) ↦ some att.id
                ])
          else (error_db_mysql, none))

-- ra_db_set_reaction_status, DBMS_QUERY_SET_REACTION_STATUS
unfoldable pub set_reaction_status :
    Server → (application_id : ℕ) → ReactionStatus → Database → Database × RaResult
set_reaction_status s i status db =
    connected s (db, error_db_mysql)
      (if s.accepts 0
        then (
          record db {
            reactions =
                update (λ r. r.application_id == i) (λ r. record r { reaction_status = status })
                  db.reactions;
          },
          success,
        )
        else (db, error_db_mysql))
