-- ===== src/VerifiersList/Laws.antt =====
-- The verifier list as a map from ids to processes, and its invariant.
use remote_attestation.Prelude.{
  ℕ, suc, ◌^◌, ◌<◌, ◌≡◌, refl, Option, none, some, List, [], ◌∷◌, ◌==◌, if◌then◌else◌, length,
  arith,
}
use remote_attestation.VerifiersList.{Verifier, Verifiers, find, update_first, unlink}

-- Ids are distinct, and every verifier serves a client.
abbrev pub WellFormed : List Verifier → Type 0
WellFormed [] = Unit {0}
WellFormed (v ∷ vs) =
    (find v.id vs ≡ none) × (0 < v.client_count) × (v.client_count < 2 ^ 32) × WellFormed vs

pub record IsValid (l : Verifiers) : Type 0 where
  pub well_formed : WellFormed l.nodes
  pub counted : l.verifiers_count ≡ length l.nodes
  pub small : length l.nodes < 2 ^ 32

-- What a caller sees of the verifier `id`: its process and its clients.
abbrev pub lookup : Verifiers → ℕ → Option Verifier
lookup l id = find id l.nodes

pub find-id : (id : ℕ) (vs : List Verifier) (v : Verifier) → find id vs ≡ some v → v.id ≡ id
unfolding find
find-id id [] v h = cc
find-id id (w ∷ vs) v h = ground (arith, find-id id vs v)

pub find-unlink :
    (id k : ℕ) (vs : List Verifier)
    → WellFormed vs
    → find k (unlink id vs) ≡ (if id == k then none else find k vs)
unfolding find unlink
find-unlink id k [] w = ground arith
find-unlink id k (v ∷ vs) w = ground (arith, find-unlink id k vs w.3)

pub unlink-WellFormed : (id : ℕ) (vs : List Verifier) → WellFormed vs → WellFormed (unlink id vs)
unfolding find unlink
unlink-WellFormed id [] w = tt
unlink-WellFormed id (v ∷ vs) w =
    ground (arith, find-unlink id v.id vs w.3, unlink-WellFormed id vs w.3)

pub length-unlink :
    (id : ℕ) (vs : List Verifier) (v : Verifier)
    → find id vs ≡ some v
    → length vs ≡ suc (length (unlink id vs))
unfolding find unlink
length-unlink id [] v h = cc
length-unlink id (w ∷ vs) v h = ground (arith, length-unlink id vs v)

module _ (f : Verifier → Verifier) (keeps : (v : Verifier) → (f v).id ≡ v.id) where
  pub find-update_first :
      (id k : ℕ) (vs : List Verifier) (v : Verifier)
      → find id vs ≡ some v
      → find k (update_first f id vs) ≡ (if id == k then some (f v) else find k vs)
  unfolding find update_first
  find-update_first id k [] v h = cc
  find-update_first id k (w ∷ vs) v h = ground (arith, keeps w, find-update_first id k vs v)

  pub find-update_first-none :
      (id k : ℕ) (vs : List Verifier) → find k vs ≡ none → find k (update_first f id vs) ≡ none
  unfolding find update_first
  find-update_first-none id k [] h = refl
  find-update_first-none id k (w ∷ vs) h = ground (arith, keeps w, find-update_first-none id k vs)

  pub length-update_first :
      (id : ℕ) (vs : List Verifier) → length (update_first f id vs) ≡ length vs
  unfolding update_first
  length-update_first id [] = refl
  length-update_first id (w ∷ vs) = ground (arith, length-update_first id vs)

  pub update_first-WellFormed :
      (id : ℕ) (vs : List Verifier) (v : Verifier)
      → find id vs ≡ some v
      → 0 < (f v).client_count
      → (f v).client_count < 2 ^ 32
      → WellFormed vs
      → WellFormed (update_first f id vs)
  unfolding find update_first
  update_first-WellFormed id [] v h a b w = cc
  update_first-WellFormed id (u ∷ vs) v h a b w =
      ground
        (arith, keeps u, find-update_first-none id u.id vs w.0, update_first-WellFormed id vs v)
