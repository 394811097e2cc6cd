-- ===== src/VerifiersList.antt =====
-- src/ra-additionals/verifiers_list.c: the running verifier processes and the clients that each one
-- serves. The chain of nodes is a list, head first; `verifiers_count` is the 32-bit counter kept
-- beside it. A process id is a number, and -1, "no process", is `none`. `malloc` says whether an
-- allocation succeeds.
pub mod Laws
pub mod MapView
pub mod History
pub mod Files
mod Tests
use remote_attestation.Prelude.{
  ℕ, ◌+◌, ◌-◌, ◌%◌, ◌^◌, Bool, true, false, ◌||◌, Option, none, some, List, [], ◌∷◌, ◌==◌,
  if◌then◌else◌,
}
use remote_attestation.Prelude.RaResult.{
  RaResult, success, error_memory, error_verifier_not_found, error_verifier_already_present,
}

-- struct verifier
pub record Verifier : Type 0 where
  pub id : ℕ
  pub client_count : ℕ
  pub pid : ℕ

-- struct verifiers_t
pub record Verifiers : Type 0 where
  pub verifiers_count : ℕ
  pub nodes : List Verifier

-- The loops `iterator != NULL && iterator->id != id`.
pub find : ℕ → List Verifier → Option Verifier
find id [] = none
find id (v ∷ vs) = if v.id == id then some v else find id vs

pub update_first : (Verifier → Verifier) → ℕ → List Verifier → List Verifier
update_first f id [] = []
update_first f id (v ∷ vs) = if v.id == id then f v ∷ vs else v ∷ update_first f id vs

pub unlink : ℕ → List Verifier → List Verifier
unlink id [] = []
unlink id (v ∷ vs) = if v.id == id then vs else v ∷ unlink id vs

pub create : (malloc : Bool) → Option Verifiers
create malloc = if malloc then some (record { verifiers_count = 0; nodes = [] }) else none

pub count : Verifiers → ℕ
count l = l.verifiers_count

unfoldable pub insert_with_count :
    (malloc : Bool) → Verifiers → (id pid n : ℕ) → Verifiers × RaResult
unfolding find
insert_with_count malloc l id pid n = elim (find id l.nodes) [
  | some v ↦ (l, error_verifier_already_present)
  | none ↦
      if malloc
      then (
        record {
          verifiers_count = (l.verifiers_count + 1) % 2 ^ 32;
          nodes = record { id = id; client_count = n; pid = pid } ∷ l.nodes;
        },
        success,
      )
      else (l, error_memory)
]

-- RA_VER_insert: the new verifier is already serving one client.
unfoldable pub insert : (malloc : Bool) → Verifiers → (id pid : ℕ) → Verifiers × RaResult
unfolding find
insert malloc l id pid = elim (find id l.nodes) [
  | some v ↦ (l, error_verifier_already_present)
  | none ↦
      if malloc
      then (
        record {
          verifiers_count = (l.verifiers_count + 1) % 2 ^ 32;
          nodes = record { id = id; client_count = 1; pid = pid } ∷ l.nodes;
        },
        success,
      )
      else (l, error_memory)
]

-- RA_VER_update: one more client.
unfoldable pub update : Verifiers → ℕ → Verifiers × RaResult
unfolding find update_first
update l id = elim (find id l.nodes) [
  | some v ↦ (
    record {
      verifiers_count = l.verifiers_count;
      nodes =
          update_first (λ w. record w { client_count = (w.client_count + 1) % 2 ^ 32 }) id l.nodes;
    },
    success,
  )
  | none ↦ (l, error_verifier_not_found)
]

-- RA_VER_is_running: the number of clients, 0 if there is no such verifier. (The C function returns
-- the 32-bit pattern as an int.)
unfoldable pub is_running : Verifiers → ℕ → ℕ
unfolding find
is_running l id = elim (find id l.nodes) [ some v ↦ v.client_count | none ↦ 0 ]

unfoldable pub get_pid : Verifiers → ℕ → Option ℕ
unfolding find
get_pid l id = elim (find id l.nodes) [ some v ↦ some v.pid | none ↦ none ]

-- The list without the node of `id`, and one less on the counter.
pub drop_verifier : Verifiers → ℕ → Verifiers
unfolding unlink
drop_verifier l id = record {
  verifiers_count = (l.verifiers_count + 2 ^ 32 - 1) % 2 ^ 32;
  nodes = unlink id l.nodes;
}

abbrev pub is_empty : List Verifier → Bool
is_empty [] = true
is_empty (v ∷ vs) = false

-- RA_VER_remove
unfoldable pub remove : Verifiers → ℕ → Verifiers × Option ℕ
unfolding find drop_verifier
remove l id =
    if is_empty l.nodes || l.verifiers_count == 0
    then (l, none)
    else elim (find id l.nodes) [ some v ↦ (drop_verifier l id, some v.pid) | none ↦ (l, none) ]

-- RA_VER_dec_clients: one client less; the process to be killed when none is left.
unfoldable pub dec_clients : Verifiers → ℕ → Verifiers × RaResult × Option ℕ
unfolding find update_first drop_verifier
dec_clients l id =
    if is_empty l.nodes || l.verifiers_count == 0
    then (l, error_verifier_not_found, none)
    else elim (find id l.nodes) [
      | none ↦ (l, error_verifier_not_found, none)
      | some v ↦
          if (v.client_count + 2 ^ 32 - 1) % 2 ^ 32 == 0
          then (drop_verifier l id, success, some v.pid)
          else (
            record {
              verifiers_count = l.verifiers_count;
              nodes =
                  update_first
                    (λ w. record w { client_count = (w.client_count + 2 ^ 32 - 1) % 2 ^ 32 }) id
                    l.nodes;
            },
            success,
            none,
          )
    ]
