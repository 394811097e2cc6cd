-- ===== src/GenericList/Laws.antt =====
-- The list as a finite set of items up to the comparator: what gl_insert, gl_remove and gl_delete do
-- to the answers of gl_get_reference.
use remote_attestation.Prelude.{
  suc, ◌≡◌, inl, inr, refl, ap, Bool, true, false, Option, none, some, List, [], ◌∷◌, Bool-cases,
  any, length, arith,
}
use remote_attestation.Prelude.Int.{ℤ, is_zero}
use remote_attestation.Prelude.Run.{ok}
use remote_attestation.GenericList.{find_from, unlink_from, remove_items}

-- What the list needs of a comparator: answering 0 is an equivalence.
pub record IsEquivalence {ℓ} {A : Type ℓ} (compare : A → A → ℤ) : Type ℓ where
  pub symm : (x y : A) → is_zero (compare x y) ≡ true → is_zero (compare y x) ≡ true
  pub trans :
      (x y z : A)
      → is_zero (compare x y) ≡ true
      → is_zero (compare y z) ≡ true
      → is_zero (compare x z) ≡ true

module _ {ℓ} {A : Type ℓ} (compare : A → A → ℤ) where
  abbrev pub matches : A → A → Bool
  matches x key = is_zero (compare x key)

  -- No two items of the chain are equal to the comparator.
  abbrev pub Distinct : List A → Type 0
  Distinct [] = Unit {0}
  Distinct (x ∷ xs) = (any (λ y. matches y x) xs ≡ false) × Distinct xs

  -- `key` matches `y` first, and `ys` is the chain `xs` without that node.
  pub data Unlinks (key y : A) : List A → List A → Type ℓ where
    here : {xs : List A} → matches y key ≡ true → Unlinks key y (y ∷ xs) xs
    there :
        {x : A} {xs ys : List A}
        → matches x key ≡ false
        → Unlinks key y xs ys
        → Unlinks key y (x ∷ xs) (x ∷ ys)

  -- The two outcomes of a search of the chain `xs`.
  pub data Search (key : A) (xs : List A) : Option (A × List A) → Type ℓ where
    absent : any (λ x. matches x key) xs ≡ false → Search key xs none
    found : {y : A} {ys : List A} → Unlinks key y xs ys → Search key xs (some (y, ys))

  step-Search :
      {key x : A} {xs : List A} {r : Option (A × List A)}
      → matches x key ≡ false
      → Search key xs r
      → Search key (x ∷ xs) (elim r [ none ↦ none | some (y, ys) ↦ some (y, x ∷ ys) ])
  step-Search miss (absent h) = absent (rw miss h)
  step-Search miss (found u) = found (there miss u)

  pub unlink_from-Search : (key : A) (xs : List A) → Search key xs (unlink_from compare key xs)
  unfolding unlink_from
  unlink_from-Search key [] = absent refl
  unlink_from-Search key (x ∷ xs) = elim (Bool-cases (matches x key)) [
    | inl hit ↦ rw (hit, unlink_from) (found (here hit))
    | inr miss ↦ rw (miss, unlink_from) (step-Search miss (unlink_from-Search key xs))
  ]

  pub Unlinks-find :
      {key y : A} {xs ys : List A} → Unlinks key y xs ys → find_from compare key xs ≡ some y
  unfolding find_from
  Unlinks-find (here hit) = rw hit
  Unlinks-find (there miss u) = rw miss (Unlinks-find u)

  pub Unlinks-length :
      {key y : A} {xs ys : List A} → Unlinks key y xs ys → length xs ≡ suc (length ys)
  Unlinks-length (here hit) = refl
  Unlinks-length (there miss u) = ap suc (Unlinks-length u)

  Unlinks-any :
      {key y : A} {xs ys : List A} (p : A → Bool)
      → Unlinks key y xs ys
      → any p xs ≡ false
      → any p ys ≡ false
  Unlinks-any p (here hit) h = ground arith
  Unlinks-any p (there miss u) h = ground (arith, Unlinks-any p u)

  pub Unlinks-Distinct :
      {key y : A} {xs ys : List A} → Unlinks key y xs ys → Distinct xs → Distinct ys
  Unlinks-Distinct (here hit) d = d.1
  Unlinks-Distinct (there {x} miss u) d =
      (Unlinks-any (λ z. matches z x) u d.0, Unlinks-Distinct u d.1)

  pub find_from-any :
      (key : A) (xs : List A)
      → any (λ x. matches x key) xs ≡ false
      → find_from compare key xs ≡ none
  unfolding find_from
  find_from-any key [] h = refl
  find_from-any key (x ∷ xs) h = ground (arith, find_from-any key xs)

module _ {ℓ} {A : Type ℓ} {compare : A → A → ℤ} (eqv : IsEquivalence compare) where
  -- An item that differs from the key is found as before.
  pub Unlinks-find_other :
      {key y : A} {xs ys : List A} (k : A)
      → Unlinks compare key y xs ys
      → is_zero (compare key k) ≡ false
      → find_from compare k ys ≡ find_from compare k xs
  unfolding find_from
  Unlinks-find_other {key} {y} k (here hit) ne = ground (arith, eqv.symm y key, eqv.trans key y k)
  Unlinks-find_other k (there miss u) ne = ground (arith, Unlinks-find_other k u ne)

  any_other :
      (key y : A) (xs : List A)
      → is_zero (compare y key) ≡ true
      → any (λ x. is_zero (compare x y)) xs ≡ false
      → any (λ x. is_zero (compare x key)) xs ≡ false
  any_other key y [] hit h = refl
  any_other key y (x ∷ xs) hit h =
      ground (arith, eqv.symm y key, eqv.trans x key y, any_other key y xs)

  -- Nothing in a chain of distinct items matches the key any more.
  pub Unlinks-find_gone :
      {key y : A} {xs ys : List A}
      → Unlinks compare key y xs ys
      → Distinct compare xs
      → any (λ x. is_zero (compare x key)) ys ≡ false
  Unlinks-find_gone {key} {y} (here {xs} hit) d = any_other key y xs hit d.0
  Unlinks-find_gone (there miss u) d = rw miss (Unlinks-find_gone u d.1)

module _ {ℓ} {A : Type ℓ} (compare : A → A → ℤ) where
  -- On a list that is not empty gl_remove is the search of the whole chain.
  pub remove_items-cons :
      (key x : A) (xs : List A)
      → remove_items compare key (x ∷ xs) ≡ ok (unlink_from compare key (x ∷ xs))
  unfolding remove_items unlink_from
  remove_items-cons key x xs = ground arith
