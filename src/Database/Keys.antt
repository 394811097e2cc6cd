-- ===== src/Database/Keys.antt =====
-- Rows that are told apart by a key, such as the id of a table, and the row that a query fetches.
use remote_attestation.Prelude.{
  ℕ, zero, suc, ◌%◌, ◌≡◌, refl, ap, subst, inl, inr, Bool, true, false, some, List, [], ◌∷◌, ◌==◌,
  if◌then◌else◌, ==_iff, Bool-cases, get_elem?, length, All, arith,
}
use remote_attestation.Database.Sql.{select, exists, fetch_row, beside, join}

module _ {ℓ} {A : Type ℓ} where
  pub select-exists : (p : A → Bool) (xs : List A) → exists p xs ≡ false → select p xs ≡ []
  unfolding select exists
  select-exists p [] h = refl
  select-exists p (x ∷ xs) h = ground (arith, select-exists p xs)

  select-All : (p : A → Bool) (xs : List A) → All (λ x. p x ≡ true) (select p xs)
  unfolding select
  select-All p [] = tt
  select-All p (x ∷ xs) = elim (Bool-cases (p x)) [
    | inl hit ↦ rw hit (hit, select-All p xs)
    | inr miss ↦ rw miss (select-All p xs)
  ]

  get_elem?-All {κ} :
      (P : A → Type κ) (xs : List A) (i : ℕ) {x : A} → All P xs → get_elem? xs i ≡ some x → P x
  get_elem?-All P [] i h e = cc
  get_elem?-All P (y ∷ ys) zero {x} h e = let same : y ≡ x = cc in subst P same h.0
  get_elem?-All P (y ∷ ys) (suc i) h e = get_elem?-All P ys i h.1 e

  -- The fetched row is one of the rows, at some place.
  pub fetch_row-get_elem? :
      (choice : ℕ) (xs : List A) {x : A}
      → fetch_row choice xs ≡ some x
      → (i : ℕ) × (get_elem? xs i ≡ some x)
  unfolding fetch_row
  fetch_row-get_elem? choice [] e = cc
  fetch_row-get_elem? choice (y ∷ ys) e = (choice % length (y ∷ ys), e)

  -- A fetched row passes the test of its query.
  pub fetch_row-select :
      (choice : ℕ) (p : A → Bool) (xs : List A) {x : A}
      → fetch_row choice (select p xs) ≡ some x
      → p x ≡ true
  fetch_row-select choice p xs e =
      let (i, at) = fetch_row-get_elem? choice (select p xs) e in
      get_elem?-All (λ y. p y ≡ true) (select p xs) i (select-All p xs) at

  module _ (key : A → ℕ) where
    -- No two rows have the same key.
    abbrev pub DistinctKeys : List A → Type 0
    DistinctKeys [] = Unit {0}
    DistinctKeys (x ∷ xs) = (exists (λ y. key y == key x) xs ≡ false) × DistinctKeys xs

    key_apart :
        (x d : A) (xs : List A)
        → exists (λ y. key y == key x) xs ≡ false
        → select (λ y. key y == key d) xs ≡ d ∷ []
        → (key x == key d) ≡ false
    key_apart x d xs gone only = elim (Bool-cases (key x == key d)) [
      | inl same ↦
          let gone' : exists (λ y. key y == key d) xs ≡ false =
            subst (λ k. exists (λ y. key y == k) xs ≡ false) ((==_iff (key x) (key d)).0 same)
              gone in
          let empty = select-exists (λ y. key y == key d) xs gone' in cc
      | inr apart ↦ apart
    ]

    head_only :
        (x d : A) (xs : List A)
        → exists (λ y. key y == key x) xs ≡ false
        → x ≡ d
        → select (λ y. key y == key d) (x ∷ xs) ≡ d ∷ []
    unfolding select
    head_only x d xs gone e =
        let empty : select (λ y. key y == key d) xs ≡ [] =
          subst (λ z. select (λ y. key y == key z) xs ≡ []) e
            (select-exists (λ y. key y == key x) xs gone) in
        let same : (key x == key d) ≡ true = (==_iff (key x) (key d)).1 (ap key e) in
        rw (same, empty) (ap (λ z. z ∷ []) e)

    -- A row that a query can fetch is the only one with its key.
    pub only_with_key :
        (p : A → Bool) (xs : List A) (i : ℕ) {d : A}
        → DistinctKeys xs
        → get_elem? (select p xs) i ≡ some d
        → select (λ y. key y == key d) xs ≡ d ∷ []
    unfolding select
    only_with_key p [] i u e = cc
    only_with_key p (x ∷ xs) i {d} u e =
        let skip : (j : ℕ)
            → get_elem? (select p xs) j ≡ some d
            → select (λ y. key y == key d) (x ∷ xs) ≡ d ∷ [] =
          λ j at. let only = only_with_key p xs j u.1 at in rw (key_apart x d xs u.0 only) only in
        go (p x) i e skip
      where
        go :
            (b : Bool) (i : ℕ)
            → get_elem? (if b then x ∷ select p xs else select p xs) i ≡ some d
            → ((j : ℕ)
                → get_elem? (select p xs) j ≡ some d
                → select (λ y. key y == key d) (x ∷ xs) ≡ d ∷ [])
            → select (λ y. key y == key d) (x ∷ xs) ≡ d ∷ []
        go true zero at skip = head_only x d xs u.0 cc
        go true (suc i) at skip = skip i at
        go false i at skip = skip i at

  -- The row of a query is the only one with its key.
  pub fetch_row-only :
      (key : A → ℕ) (choice : ℕ) (p : A → Bool) (xs : List A) {d : A}
      → DistinctKeys key xs
      → fetch_row choice (select p xs) ≡ some d
      → select (λ y. key y == key d) xs ≡ d ∷ []
  fetch_row-only key choice p xs u e =
      let (i, at) = fetch_row-get_elem? choice (select p xs) e in only_with_key key p xs i u at

module _ {ℓ κ} {A : Type ℓ} {B : Type κ} where
  unfoldable pub beside_all : B → List A → List (A × B)
  beside_all y [] = []
  beside_all y (x ∷ xs) = (x, y) ∷ beside_all y xs

  -- Each row of the first table meets the same row of the second or none.
  pub join_one :
      (on : A → B → Bool) (p : A → Bool) (xs : List A) (ys : List B) (y : B)
      → ((x : A) → select (on x) ys ≡ (if p x then y ∷ [] else []))
      → join on xs ys ≡ beside_all y (select p xs)
  unfolding select join beside beside_all
  join_one on p [] ys y h = refl
  join_one on p (x ∷ xs) ys y h = ground (arith, h x, join_one on p xs ys y h)
