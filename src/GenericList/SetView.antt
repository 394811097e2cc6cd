-- ===== src/GenericList/SetView.antt =====
-- What the operations of generic_list.c promise: a set of items, distinct up to the comparator, with
-- a counter.
use remote_attestation.Prelude.{
  ℕ, suc, ◌%◌, ◌^◌, ◌<◌, ◌≡◌, ◌≢◌, refl, sym, subst, inl, inr, Bool, true, false, Option, none,
  some, List, [], ◌∷◌, if◌then◌else◌, Bool-cases, any, length, arith,
}
use remote_attestation.Prelude.Int.{ℤ, is_zero}
use remote_attestation.Prelude.Run.{Run, ok, fault, diverges, Returns, returns}
use remote_attestation.GenericList.{
  GenericList, gl_success, gl_error_item_not_found, unlink_from, remove_items, after_remove,
  delete_items, after_delete, is_containing, get_reference, insert, remove, delete,
}
use remote_attestation.GenericList.Laws.{
  IsEquivalence, Distinct, Search, absent, found, unlink_from-Search, Unlinks-find, Unlinks-length,
  Unlinks-Distinct, find_from-any, Unlinks-find_other, Unlinks-find_gone, remove_items-cons,
}

-- The invariant: distinct items, counted modulo 2 ^ 32.
pub record IsValid {ℓ} {A : Type ℓ} (compare : A → A → ℤ) (l : GenericList A) : Type 0 where
  pub distinct : Distinct compare l.items
  pub counted : l.items_count ≡ length l.items % 2 ^ 32

module _ {ℓ} {A : Type ℓ} (compare : A → A → ℤ) where
  -- gl_insert keeps the items distinct up to the comparator and the counter equal to their number
  -- modulo 2^32, whatever its two allocations do. Condition: the list is valid before.
  pub insert-IsValid :
      (m n : Bool) (l : GenericList A) (a : A)
      → IsValid compare l
      → IsValid compare (insert compare m n l a).0
  unfolding insert is_containing
  insert-IsValid m n l a v = ground (arith, Bool-cases (any (λ x. is_zero (compare x a)) l.items))

  -- gl_insert of an item that the list does not contain, with successful allocations, succeeds,
  -- and afterwards gl_get_reference finds the new item for the keys it equals and answers as
  -- before for all others.
  insert-get_reference :
      (l : GenericList A) (a key : A)
      → is_containing compare l a ≡ false
      → ((insert compare true true l a).1 ≡ gl_success)
        × (get_reference compare (insert compare true true l a).0 key
            ≡ (if is_zero (compare a key) then some a else get_reference compare l key))
  unfolding insert get_reference
  insert-get_reference l a key fresh = rw fresh (refl, refl)

  abbrev pub Removed : GenericList A → A → GenericList A × Option A → Type ℓ
  Removed l key (l', r) =
      (r ≡ get_reference compare l key)
      × (get_reference compare l' key ≡ none)
      × ((k : A)
          → is_zero (compare key k) ≡ false
          → get_reference compare l' k ≡ get_reference compare l k)

module _ {ℓ} {A : Type ℓ} {compare : A → A → ℤ} (eqv : IsEquivalence compare) where
  after_remove-Removed :
      (l : GenericList A) (key : A) (r : Option (A × List A))
      → IsValid compare l
      → Search compare key l.items r
      → Returns
          (λ (out : GenericList A × Option A). Removed compare l key out × IsValid compare out.0)
          (after_remove l (ok r))
  unfolding after_remove get_reference
  after_remove-Removed l key none v (absent h) =
      let gone = find_from-any compare key l.items h in returns ((rw gone, gone, λ k ne. refl), v)
  after_remove-Removed l key (some (y, ys)) v (found u) =
      let gone = find_from-any compare key ys (Unlinks-find_gone eqv u v.distinct) in
      returns (
        (rw (Unlinks-find compare u), gone, λ k ne. Unlinks-find_other eqv k u ne),
        record {
          distinct = Unlinks-Distinct compare u v.distinct;
          counted = omega (arith, v.counted, Unlinks-length compare u);
        },
      )

  -- gl_remove on a valid list with nodes returns what gl_get_reference found for the key, keeps
  -- the list valid, and afterwards gl_get_reference finds nothing for the key and answers as
  -- before for every key that the comparator does not take for it. Condition: answering 0 is
  -- symmetric and transitive for the comparator.
  pub remove-Removed :
      (l : GenericList A) (key : A)
      → l.items ≢ []
      → IsValid compare l
      → Returns
          (λ (out : GenericList A × Option A). Removed compare l key out × IsValid compare out.0)
          (remove compare l key)
  unfolding remove
  remove-Removed l key ne v = go l.items refl
    where
      go :
          (xs : List A)
          → l.items ≡ xs
          → Returns
              (λ (out : GenericList A × Option A).
                Removed compare l key out × IsValid compare out.0)
              (after_remove l (remove_items compare key xs))
      go [] e = absurd (ne e)
      go (x ∷ xs) e = rw (remove_items-cons compare key x xs) (
          after_remove-Removed l key _ v (
            subst (λ zs. Search compare key zs (unlink_from compare key (x ∷ xs))) (sym e)
              (unlink_from-Search compare key (x ∷ xs))))

module _ {ℓ} {A : Type ℓ} (compare : A → A → ℤ) where
  -- gl_delete on a list of two items reports the key as missing and changes nothing when the first
  -- item does not match it, even if the second one does.
  delete_second :
      (x y : A) (n : ℕ) (key : A)
      → is_zero (compare x key) ≡ false
      → delete compare (record { items = x ∷ y ∷ []; items_count = n }) key
        ≡ ok (record { items = x ∷ y ∷ []; items_count = n }, gl_error_item_not_found)
  unfolding delete unlink_from
  delete_second x y n key miss = rw miss

  behind_second :
      {key : A} {zs : List A} (x y : A) {r : Option (A × List A)} {ys : List A}
      → Search compare key zs r
      → elim r [ none ↦ none | some (w, ws) ↦ some (x ∷ y ∷ ws) ] ≡ some ys
      → length (x ∷ y ∷ zs) ≡ suc (length ys)
  behind_second x y (absent h) e = cc
  behind_second x y (found u) e = ground (arith, Unlinks-length compare u)

  delete_items-length :
      (key : A) (xs : List A) {ys : List A}
      → delete_items compare key xs ≡ ok (some ys)
      → length xs ≡ suc (length ys)
  unfolding delete_items
  delete_items-length key [] h = cc
  delete_items-length key (x ∷ []) h = ground arith
  delete_items-length key (x ∷ y ∷ zs) {ys} h = elim (Bool-cases (is_zero (compare x key))) [
    | inl hit ↦ ground arith
    | inr miss ↦ behind_second x y (unlink_from-Search compare key zs) (ground arith)
  ]

  after_delete_cases :
      (l : GenericList A) (r : Run (Option (List A))) {l' : GenericList A}
      → after_delete l r ≡ ok (l', gl_success)
      → (ys : List A) × (r ≡ ok (some ys))
        × (l' ≡ record { items = ys; items_count = l.items_count })
  unfolding after_delete
  after_delete_cases l (ok none) h = cc
  after_delete_cases l (ok (some ys)) h = (ys, refl, cc)
  after_delete_cases l fault h = cc
  after_delete_cases l diverges h = cc

  -- After a successful gl_delete the counter is one too high.
  pub delete-count :
      (l : GenericList A) (key : A) {l' : GenericList A}
      → IsValid compare l
      → length l.items < 2 ^ 32
      → delete compare l key ≡ ok (l', gl_success)
      → l'.items_count ≡ suc (length l'.items)
  unfolding delete
  delete-count l key v small h =
      let (ys, e, e') = after_delete_cases l (delete_items compare key l.items) h in
      rw e' (omega (arith, v.counted, delete_items-length key l.items e))
