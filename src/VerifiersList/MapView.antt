-- ===== src/VerifiersList/MapView.antt =====
-- What each operation of verifiers_list.c does to the map from ids to verifiers.
use remote_attestation.Prelude.{
  ℕ, ◌+◌, ◌-◌, ◌%◌, ◌^◌, ◌<◌, ◌≡◌, inl, inr, refl, Bool, true, false, ◌||◌, Option, none, some,
  List, [], ◌∷◌, ◌==◌, if◌then◌else◌, Bool-cases, length, arith,
}
use remote_attestation.Prelude.RaResult.{success}
use remote_attestation.VerifiersList.{
  Verifier, Verifiers, find, update_first, insert, update, drop_verifier, is_empty, remove,
  dec_clients,
}
use remote_attestation.VerifiersList.Laws.{
  WellFormed, IsValid, lookup, find-unlink, unlink-WellFormed, length-unlink, find-update_first,
  length-update_first, update_first-WellFormed,
}

-- A list with a verifier passes the test at the head of RA_VER_remove and RA_VER_dec_clients.
not_empty :
    (l : Verifiers) (id : ℕ) (v : Verifier)
    → IsValid l
    → find id l.nodes ≡ some v
    → (is_empty l.nodes || l.verifiers_count == 0) ≡ false
unfolding find
not_empty l id v w h = go l.nodes w.counted h
  where
    go :
        (vs : List Verifier)
        → l.verifiers_count ≡ length vs
        → find id vs ≡ some v
        → (is_empty vs || l.verifiers_count == 0) ≡ false
    go [] c e = cc
    go (x ∷ xs) c e = ground arith

drop_verifier-IsValid :
    (l : Verifiers) (id : ℕ) (v : Verifier)
    → IsValid l
    → find id l.nodes ≡ some v
    → IsValid (drop_verifier l id)
unfolding drop_verifier
drop_verifier-IsValid l id v w h = record {
  well_formed = unlink-WellFormed id l.nodes w.well_formed;
  counted = omega (arith, w.counted, w.small, length-unlink id l.nodes v h);
  small = omega (arith, w.small, length-unlink id l.nodes v h);
}

-- RA_VER_insert keeps the invariant while the counter has room.
pub insert-IsValid :
    (malloc : Bool) (l : Verifiers) (id pid : ℕ)
    → IsValid l
    → length l.nodes + 1 < 2 ^ 32
    → IsValid (insert malloc l id pid).0
unfolding insert find
insert-IsValid malloc l id pid v room = ground (arith, v.counted)

-- RA_VER_insert of an id that is not in the list, with a successful allocation, succeeds;
-- afterwards the id has the given process and one client, and every other id is as it was.
pub insert-lookup :
    (l : Verifiers) (id pid k : ℕ)
    → lookup l id ≡ none
    → ((insert true l id pid).1 ≡ success)
      × (lookup (insert true l id pid).0 k ≡ (
          if id == k then some (record { id = id; client_count = 1; pid = pid }) else lookup l k))
unfolding insert find
insert-lookup l id pid k h = rw (h, insert) (refl, refl)

one_more : Verifier → Verifier
one_more u = record u { client_count = (u.client_count + 1) % 2 ^ 32 }

-- RA_VER_update for a verifier that is in a valid list succeeds, keeps the list valid, gives that
-- verifier one more client and leaves every other one as it was. Condition: the number of clients
-- has room in 32 bits.
pub update_lem :
    (l : Verifiers) (id : ℕ) (v : Verifier)
    → IsValid l
    → lookup l id ≡ some v
    → v.client_count + 1 < 2 ^ 32
    → ((update l id).1 ≡ success)
      × IsValid (update l id).0
      × ((k : ℕ)
          → lookup (update l id).0 k ≡ (
              if id == k
              then some (record v { client_count = v.client_count + 1 })
              else lookup l k))
unfolding update one_more
update_lem l id v w h room =
    rw (h, update)
      (
        refl,
        record {
          well_formed =
              update_first-WellFormed one_more (λ u. refl) id l.nodes v h (omega arith)
                (omega arith) w.well_formed;
          counted = omega (arith, w.counted, length-update_first one_more (λ u. refl) id l.nodes);
          small = omega (arith, w.small, length-update_first one_more (λ u. refl) id l.nodes);
        },
        λ k. rw (find-update_first one_more (λ u. refl) id k l.nodes v h) (ground arith),
      )

-- RA_VER_remove for a verifier that is in a valid list returns its process, keeps the list valid,
-- drops that verifier and leaves every other one as it was.
pub remove_lem :
    (l : Verifiers) (id : ℕ) (v : Verifier)
    → IsValid l
    → lookup l id ≡ some v
    → ((remove l id).1 ≡ some v.pid)
      × IsValid (remove l id).0
      × ((k : ℕ) → lookup (remove l id).0 k ≡ (if id == k then none else lookup l k))
unfolding remove
remove_lem l id v w h =
    rw (not_empty l id v w h, h, remove)
      (
        refl,
        drop_verifier-IsValid l id v w h,
        λ k. unfold drop_verifier in find-unlink id k l.nodes w.well_formed,
      )

-- The clients that are left when one leaves: the verifier itself goes with its last client.
abbrev pub after_leave : Verifier → Option Verifier
after_leave v =
    if v.client_count == 1 then none else some (record v { client_count = v.client_count - 1 })

find-positive :
    (id : ℕ) (vs : List Verifier) (v : Verifier)
    → WellFormed vs
    → find id vs ≡ some v
    → (0 < v.client_count) × (v.client_count < 2 ^ 32)
unfolding find
find-positive id [] v w h = cc
find-positive id (u ∷ vs) v w h = ground (arith, find-positive id vs v)

dec_last :
    (l : Verifiers) (id : ℕ) (v : Verifier)
    → IsValid l
    → lookup l id ≡ some v
    → v.client_count ≡ 1
    → dec_clients l id ≡ (drop_verifier l id, success, some v.pid)
unfolding dec_clients
dec_last l id v w h e = rw (not_empty l id v w h, h, dec_clients) (ground arith)

one_less : Verifier → Verifier
one_less u = record u { client_count = (u.client_count + 2 ^ 32 - 1) % 2 ^ 32 }

dec_more :
    (l : Verifiers) (id : ℕ) (v : Verifier)
    → IsValid l
    → lookup l id ≡ some v
    → 1 < v.client_count
    → dec_clients l id ≡ (
      record { verifiers_count = l.verifiers_count; nodes = update_first one_less id l.nodes },
      success,
      none,
    )
unfolding dec_clients one_less
dec_more l id v w h e =
    let b = (find-positive id l.nodes v w.well_formed h).1 in
    rw (not_empty l id v w h, h, dec_clients) (ground arith)

dec_more-IsValid :
    (l : Verifiers) (id : ℕ) (v : Verifier)
    → IsValid l
    → lookup l id ≡ some v
    → 1 < v.client_count
    → IsValid
        (record { verifiers_count = l.verifiers_count; nodes = update_first one_less id l.nodes })
unfolding one_less
dec_more-IsValid l id v w h e =
    let b = (find-positive id l.nodes v w.well_formed h).1 in
    record {
      well_formed =
          update_first-WellFormed one_less (λ u. refl) id l.nodes v h (omega arith) (omega arith)
            w.well_formed;
      counted = omega (arith, w.counted, length-update_first one_less (λ u. refl) id l.nodes);
      small = omega (arith, w.small, length-update_first one_less (λ u. refl) id l.nodes);
    }

dec_more-find :
    (l : Verifiers) (id : ℕ) (v : Verifier)
    → IsValid l
    → lookup l id ≡ some v
    → 1 < v.client_count
    → (k : ℕ)
    → find k (update_first one_less id l.nodes)
      ≡ (if id == k then some (record v { client_count = v.client_count - 1 }) else find k l.nodes)
unfolding one_less
dec_more-find l id v w h e k =
    let b = (find-positive id l.nodes v w.well_formed h).1 in
    rw (find-update_first one_less (λ u. refl) id k l.nodes v h) (ground arith)

-- RA_VER_dec_clients for a verifier that is in a valid list succeeds, keeps the list valid, takes
-- one client from that verifier or drops it with its last client, reports its process exactly when
-- it was dropped, and leaves every other verifier as it was.
pub dec_clients_lem :
    (l : Verifiers) (id : ℕ) (v : Verifier)
    → IsValid l
    → lookup l id ≡ some v
    → ((dec_clients l id).1 ≡ success)
      × ((dec_clients l id).2 ≡ (if v.client_count == 1 then some v.pid else none))
      × IsValid (dec_clients l id).0
      × ((k : ℕ) → lookup (dec_clients l id).0 k ≡ (if id == k then after_leave v else lookup l k))
dec_clients_lem l id v w h = elim (Bool-cases (v.client_count == 1)) [
  | inl last ↦
      rw (dec_last l id v w h (ground arith), last)
        (
          refl,
          refl,
          drop_verifier-IsValid l id v w h,
          λ k. unfold drop_verifier in find-unlink id k l.nodes w.well_formed,
        )
  | inr more ↦
      let b = find-positive id l.nodes v w.well_formed h in
      rw (dec_more l id v w h (ground arith), more)
        (
          refl,
          refl,
          dec_more-IsValid l id v w h (ground arith),
          dec_more-find l id v w h (ground arith),
        )
]
