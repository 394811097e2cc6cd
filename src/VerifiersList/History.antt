-- ===== src/VerifiersList/History.antt =====
-- The list of verifiers refines a map from ids, over every history of operations.
use remote_attestation.Prelude.{
  ℕ, suc, ◌+◌, ◌^◌, ◌<◌, ◌≤◌, ◌≡◌, ◌⊎◌, inl, inr, refl, subst, sym, ◌∙◌, Bool, true, false, Option,
  none, some, List, [], ◌∷◌, ◌==◌, if◌then◌else◌, Bool-cases, length, arith,
}
use remote_attestation.VerifiersList.{
  Verifier, Verifiers, find, insert, update, remove, dec_clients, drop_verifier,
}
use remote_attestation.VerifiersList.Laws.{IsValid, lookup}
use remote_attestation.VerifiersList.MapView.{
  after_leave, insert-IsValid, insert-lookup, update_lem, remove_lem, dec_clients_lem,
}

pub data Operation : Type 0 where
  inserting : (malloc : Bool) (id pid : ℕ) → Operation
  updating : ℕ → Operation
  removing : ℕ → Operation
  leaving : ℕ → Operation

-- The list after an operation.
abbrev pub apply : Operation → Verifiers → Verifiers
apply (inserting malloc id pid) l = (insert malloc l id pid).0
apply (updating id) l = (update l id).0
apply (removing id) l = (remove l id).0
apply (leaving id) l = (dec_clients l id).0

abbrev pub Map : Type 0
Map = ℕ → Option Verifier

-- The map after an operation.
abbrev pub spec : Operation → Map → Map
spec (inserting malloc id pid) m k = elim (m id) [
  | some v ↦ m k
  | none ↦
      if malloc
      then (if id == k then some (record { id = id; client_count = 1; pid = pid }) else m k)
      else m k
]
spec (updating id) m k = elim (m id) [
  | some v ↦ if id == k then some (record v { client_count = v.client_count + 1 }) else m k
  | none ↦ m k
]
spec (removing id) m k = if id == k then none else m k
spec (leaving id) m k = elim (m id) [ some v ↦ if id == k then after_leave v else m k | none ↦ m k ]

-- The list and the map agree, and both are small enough.
pub record Agrees (n : ℕ) (l : Verifiers) (m : Map) : Type 0 where
  pub valid : IsValid l
  pub short : l.verifiers_count ≤ n
  pub few : (k : ℕ) (v : Verifier) → m k ≡ some v → v.client_count ≤ n
  pub same : (k : ℕ) → lookup l k ≡ m k

-- What a missing id does.
update_missing : (l : Verifiers) (id : ℕ) → lookup l id ≡ none → (update l id).0 ≡ l
unfolding update
update_missing l id h = ground (arith, h)

remove_missing : (l : Verifiers) (id : ℕ) → lookup l id ≡ none → (remove l id).0 ≡ l
unfolding remove
remove_missing l id h = ground (arith, h)

dec_missing : (l : Verifiers) (id : ℕ) → lookup l id ≡ none → (dec_clients l id).0 ≡ l
unfolding dec_clients
dec_missing l id h = ground (arith, h)

insert_present :
    (malloc : Bool) (l : Verifiers) (id pid : ℕ) (v : Verifier)
    → lookup l id ≡ some v
    → (insert malloc l id pid).0 ≡ l
unfolding insert
insert_present malloc l id pid v h = ground (arith, h)

insert_unallocated : (l : Verifiers) (id pid : ℕ) → (insert false l id pid).0 ≡ l
unfolding insert
insert_unallocated l id pid = ground arith

Option-cases : (o : Option Verifier) → (o ≡ none) ⊎ ((v : Verifier) × (o ≡ some v))
Option-cases none = inl refl
Option-cases (some v) = inr (v, refl)

-- The counter of an operation's list.
apply_count :
    (op : Operation) (l : Verifiers)
    → l.verifiers_count + 1 < 2 ^ 32
    → (apply op l).verifiers_count ≤ l.verifiers_count + 1
unfolding insert update remove dec_clients drop_verifier
apply_count (inserting malloc id pid) l h = ground arith
apply_count (updating id) l h = ground arith
apply_count (removing id) l h = ground arith
apply_count (leaving id) l h = ground arith

-- No operation gives a verifier more than one client.
spec_few :
    (op : Operation) (m : Map) (n : ℕ)
    → ((k : ℕ) (v : Verifier) → m k ≡ some v → v.client_count ≤ n)
    → (k : ℕ) (v : Verifier) → spec op m k ≡ some v
    → v.client_count ≤ suc n
spec_few (inserting malloc id pid) m n few k v h = ground (arith, few k v)
spec_few (updating id) m n few k v h = elim (Option-cases (m id)) [
  | inl none_there ↦ ground (arith, none_there, few k v)
  | inr (u, there) ↦ ground (arith, there, few k v, few id u)
]
spec_few (removing id) m n few k v h = ground (arith, few k v)
spec_few (leaving id) m n few k v h = elim (Option-cases (m id)) [
  | inl none_there ↦ ground (arith, none_there, few k v)
  | inr (u, there) ↦ ground (arith, there, few k v, few id u)
]

-- What an operation does on a list that agrees with a map.
abbrev Steps : Operation → Verifiers → Map → Type 0
Steps op l m = IsValid (apply op l) × ((k : ℕ) → lookup (apply op l) k ≡ spec op m k)

unchanged :
    {n : ℕ} {m : Map} {l l' : Verifiers} (s : Map)
    → Agrees n l m
    → l' ≡ l
    → ((k : ℕ) → s k ≡ m k)
    → IsValid l' × ((k : ℕ) → lookup l' k ≡ s k)
unchanged s a e h = rw e (a.valid, λ k. a.same k ∙ sym (h k))

gone : (m : Map) (id k : ℕ) → m id ≡ none → spec (removing id) m k ≡ m k
gone m id k h = elim (Bool-cases (id == k)) [
  | inl same ↦
      let here : id ≡ k = ground arith in rw (spec, same) (sym (subst (λ j. m j ≡ none) here h))
  | inr other ↦ ground arith
]

empty-Agrees : Agrees 0 (record { verifiers_count = 0; nodes = [] }) (λ id. none)
unfolding find
empty-Agrees = record {
  valid = record { well_formed = tt; counted = refl; small = omega arith };
  short = omega arith;
  few = λ k v h. absurd (ground arith);
  same = λ k. refl;
}

insert_fresh :
    (malloc : Bool) (id pid : ℕ) (n : ℕ) (l : Verifiers) (m : Map)
    → Agrees n l m
    → n + 1 < 2 ^ 32
    → m id ≡ none
    → Steps (inserting malloc id pid) l m
insert_fresh true id pid n l m a small fresh = (
  insert-IsValid true l id pid a.valid (omega (arith, a.short, a.valid.counted)),
  λ k. (insert-lookup l id pid k (a.same id ∙ fresh)).1 ∙ ground (arith, fresh, a.same k),
)
insert_fresh false id pid n l m a small fresh =
    unchanged (spec (inserting false id pid) m) a (insert_unallocated l id pid)
      (λ k. ground (arith, fresh))

apply-Steps :
    (op : Operation) (n : ℕ) (l : Verifiers) (m : Map)
    → Agrees n l m
    → n + 1 < 2 ^ 32
    → Steps op l m
apply-Steps (inserting malloc id pid) n l m a small = elim (Option-cases (m id)) [
  | inr (v, there) ↦
      unchanged (spec (inserting malloc id pid) m) a
        (insert_present malloc l id pid v (a.same id ∙ there)) (λ k. ground (arith, there))
  | inl fresh ↦ insert_fresh malloc id pid n l m a small fresh
]
apply-Steps (updating id) n l m a small = elim (Option-cases (m id)) [
  | inr (v, there) ↦
      let (done, valid, same) =
        update_lem l id v a.valid (a.same id ∙ there) (omega (arith, a.few id v there)) in
      (valid, λ k. same k ∙ ground (arith, there, a.same k))
  | inl missing ↦
      unchanged (spec (updating id) m) a (update_missing l id (a.same id ∙ missing))
        (λ k. ground (arith, missing))
]
apply-Steps (removing id) n l m a small = elim (Option-cases (m id)) [
  | inr (v, there) ↦
      let (done, valid, same) = remove_lem l id v a.valid (a.same id ∙ there) in
      (valid, λ k. same k ∙ ground (arith, there, a.same k))
  | inl missing ↦
      unchanged (spec (removing id) m) a (remove_missing l id (a.same id ∙ missing))
        (λ k. gone m id k missing)
]
apply-Steps (leaving id) n l m a small = elim (Option-cases (m id)) [
  | inr (v, there) ↦
      let (done, process, valid, same) = dec_clients_lem l id v a.valid (a.same id ∙ there) in
      (valid, λ k. same k ∙ ground (arith, there, a.same k))
  | inl missing ↦
      unchanged (spec (leaving id) m) a (dec_missing l id (a.same id ∙ missing))
        (λ k. ground (arith, missing))
]

apply-Agrees :
    (op : Operation) (n : ℕ) (l : Verifiers) (m : Map)
    → Agrees n l m
    → n + 1 < 2 ^ 32
    → Agrees (suc n) (apply op l) (spec op m)
apply-Agrees op n l m a small =
    let (valid, same) = apply-Steps op n l m a small in
    record {
      valid = valid;
      short = omega (arith, apply_count op l (omega (arith, a.short)), a.short);
      few = spec_few op m n a.few;
      same = same;
    }

-- The list and the map after the operations of a history, the first one first.
abbrev pub apply_each : List Operation → Verifiers → Verifiers
apply_each [] l = l
apply_each (op ∷ ops) l = apply_each ops (apply op l)

abbrev pub spec_each : List Operation → Map → Map
spec_each [] m = m
spec_each (op ∷ ops) m = spec_each ops (spec op m)

each-Agrees :
    (ops : List Operation) (n : ℕ) (l : Verifiers) (m : Map)
    → Agrees n l m
    → n + length ops < 2 ^ 32
    → Agrees (n + length ops) (apply_each ops l) (spec_each ops m)
each-Agrees [] n l m a small = subst (λ k. Agrees k l m) (omega arith) a
each-Agrees (op ∷ ops) n l m a small =
    subst (λ k. Agrees k (apply_each ops (apply op l)) (spec_each ops (spec op m))) (omega arith)
      (each-Agrees ops (suc n) (apply op l) (spec op m) (apply-Agrees op n l m a (omega arith))
        (omega arith))

-- The list of RA_VER_create.
abbrev pub empty : Verifiers
empty = record { verifiers_count = 0; nodes = [] }

-- The list of verifiers refines a map from ids to processes and clients: after any history of
-- RA_VER_insert, RA_VER_update, RA_VER_remove and RA_VER_dec_clients on a new list, of present and
-- missing ids and with any outcome of the allocations, the list is valid, and each id is found
-- exactly as in the map after the same history. Condition: there are fewer than 2^32 operations.
pub apply_each-spec_each :
    (ops : List Operation)
    → length ops < 2 ^ 32
    → IsValid (apply_each ops empty)
      × ((k : ℕ) → lookup (apply_each ops empty) k ≡ spec_each ops (λ id. none) k)
apply_each-spec_each ops small =
    let a = each-Agrees ops 0 empty (λ id. none) empty-Agrees (omega arith) in (a.valid, a.same)
