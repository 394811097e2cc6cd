-- ===== src/Database/Sql.antt =====
-- The clauses of SQL that the statements of src/headers/ra_database.h use, on a table as a list of
-- rows. The order in which a SELECT delivers its rows is the server's, so the first row is any of
-- them.
use remote_attestation.Prelude.{
  ℕ, ◌%◌, ◌≤◌, ◌≡◌, refl, subst, inl, inr, Bool, true, false, not, ◌||◌, Option, none, List, [],
  ◌∷◌, ◌++◌, if◌then◌else◌, Bool-cases, get_elem?, length, All, arith,
}

module _ {ℓ} {A : Type ℓ} where
  -- SELECT * FROM t WHERE p
  unfoldable pub select : (A → Bool) → List A → List A
  select p [] = []
  select p (x ∷ xs) = let rest = select p xs in if p x then x ∷ rest else rest

  -- UPDATE t SET f WHERE p
  unfoldable pub update : (A → Bool) → (A → A) → List A → List A
  update p f [] = []
  update p f (x ∷ xs) = (if p x then f x else x) ∷ update p f xs

  -- DELETE FROM t WHERE p
  unfoldable pub delete : (A → Bool) → List A → List A
  unfolding select
  delete p = select (λ x. not (p x))

  -- The row that mysql_fetch_row delivers first, by a number of the server's choice.
  unfoldable pub fetch_row : ℕ → List A → Option A
  fetch_row choice [] = none
  fetch_row choice (x ∷ xs) = get_elem? (x ∷ xs) (choice % length (x ∷ xs))

  -- Whether a table has a row that passes.
  unfoldable pub exists : (A → Bool) → List A → Bool
  exists p [] = false
  exists p (x ∷ xs) = p x || exists p xs

  pub select-append :
      (p : A → Bool) (xs ys : List A) → select p (xs ++ ys) ≡ select p xs ++ select p ys
  unfolding select
  select-append p [] ys = refl
  select-append p (x ∷ xs) ys = ground (arith, select-append p xs ys)

  -- Rows that no longer pass after an update are gone from the selection.
  pub select-update_none :
      (p q : A → Bool) (f : A → A) (xs : List A)
      → ((x : A) → q x ≡ false → p x ≡ false)
      → ((x : A) → p (f x) ≡ false)
      → select p (update q f xs) ≡ []
  unfolding select update
  select-update_none p q f [] out gone = refl
  select-update_none p q f (x ∷ xs) out gone =
      ground (arith, out x, gone x, select-update_none p q f xs out gone)

  -- An update of rows that the selection does not see, before or after, leaves it as it is.
  pub select-update_other :
      (p q : A → Bool) (f : A → A) (xs : List A)
      → ((x : A) → q x ≡ true → (p x ≡ false) × (p (f x) ≡ false))
      → select p (update q f xs) ≡ select p xs
  unfolding select update
  select-update_other p q f [] other = refl
  select-update_other p q f (x ∷ xs) other =
      ground (arith, other x, select-update_other p q f xs other)

  -- Removing rows and updates that only take rows out of a selection do not lengthen it.
  pub length-select-delete :
      (p q : A → Bool) (xs : List A) → length (select p (delete q xs)) ≤ length (select p xs)
  unfolding select delete
  length-select-delete p q [] = omega arith
  length-select-delete p q (x ∷ xs) = ground (arith, length-select-delete p q xs)

  pub length-select-update :
      (p q : A → Bool) (f : A → A) (xs : List A)
      → ((x : A) → p (f x) ≡ false)
      → length (select p (update q f xs)) ≤ length (select p xs)
  unfolding select update
  length-select-update p q f [] gone = omega arith
  length-select-update p q f (x ∷ xs) gone =
      ground (arith, gone x, length-select-update p q f xs gone)

  -- An update of every selected row that takes rows out of the selection empties it.
  pub select-update_gone :
      (p q : A → Bool) (f : A → A) (xs : List A)
      → All (λ x. q x ≡ true) (select p xs)
      → ((x : A) → p (f x) ≡ false)
      → select p (update q f xs) ≡ []
  unfolding select update
  select-update_gone p q f [] all gone = refl
  select-update_gone p q f (x ∷ xs) all gone =
      let passed : (b : Bool)
          → p x ≡ b
          → All (λ y. q y ≡ true) (if b then x ∷ select p xs else select p xs) =
        λ b e.
          subst (λ c. All (λ y. q y ≡ true) (if c then x ∷ select p xs else select p xs)) e all in
      elim (Bool-cases (p x)) [
        | inl hit ↦
            let (changed, others) = passed true hit in
            rw (changed, gone x) (select-update_gone p q f xs others gone)
        | inr miss ↦ ground (arith, gone x, select-update_gone p q f xs (passed false miss) gone)
      ]

module _ {ℓ κ} {A : Type ℓ} {B : Type κ} where
  -- The rows of one table beside a row of another.
  unfoldable pub beside : A → List B → List (A × B)
  beside x [] = []
  beside x (y ∷ ys) = (x, y) ∷ beside x ys

  -- SELECT * FROM t, u WHERE on
  unfoldable pub join : (A → B → Bool) → List A → List B → List (A × B)
  unfolding select beside
  join on [] ys = []
  join on (x ∷ xs) ys = beside x (select (on x) ys) ++ join on xs ys
