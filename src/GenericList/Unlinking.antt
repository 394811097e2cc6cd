-- ===== src/GenericList/Unlinking.antt =====
-- gl_remove of an item that the list contains, by the node that it takes out.
use remote_attestation.Prelude.{◌≡◌, true, Option, none, some, List, [], ◌∷◌, any, arith}
use remote_attestation.Prelude.Int.{ℤ, is_zero}
use remote_attestation.Prelude.Run.{ok, Returns, returns}
use remote_attestation.GenericList.{GenericList, unlink_from, remove_items, after_remove, remove}
use remote_attestation.GenericList.Laws.{
  Unlinks, here, there, Search, absent, found, unlink_from-Search, Unlinks-length, Unlinks-Distinct,
  remove_items-cons,
}
use remote_attestation.GenericList.SetView.{IsValid}

module _ {ℓ} {A : Type ℓ} (compare : A → A → ℤ) where
  Unlinks-matches :
      {key y : A} {xs ys : List A} → Unlinks compare key y xs ys → is_zero (compare y key) ≡ true
  Unlinks-matches (here hit) = hit
  Unlinks-matches (there miss u) = Unlinks-matches u

  -- What gl_remove leaves of a list that contains the key.
  pub record IsUnlinked (l : GenericList A) (key : A) (out : GenericList A × Option A)
      : Type ℓ where
    pub item : A
    pub matches : is_zero (compare item key) ≡ true
    pub unlinks : Unlinks compare key item l.items out.0.items
    pub is_valid : IsValid compare out.0

  after_remove-IsUnlinked :
      (l : GenericList A) (key : A) (r : Option (A × List A))
      → IsValid compare l
      → any (λ x. is_zero (compare x key)) l.items ≡ true
      → Search compare key l.items r
      → Returns (IsUnlinked l key) (after_remove l (ok r))
  unfolding after_remove
  after_remove-IsUnlinked l key none v has (absent h) = cc
  after_remove-IsUnlinked l key (some (y, ys)) v has (found u) = returns (record {
    item = y;
    matches = Unlinks-matches u;
    unlinks = u;
    is_valid = record {
      distinct = Unlinks-Distinct compare u v.distinct;
      counted = omega (arith, v.counted, Unlinks-length compare u);
    };
  })

  remove_items-any :
      (key : A) (xs : List A)
      → any (λ x. is_zero (compare x key)) xs ≡ true
      → remove_items compare key xs ≡ ok (unlink_from compare key xs)
  remove_items-any key [] has = cc
  remove_items-any key (x ∷ xs) has = remove_items-cons compare key x xs

  -- gl_remove of a key that the list contains takes out one node that matches it.
  pub remove-IsUnlinked :
      (l : GenericList A) (key : A)
      → IsValid compare l
      → any (λ x. is_zero (compare x key)) l.items ≡ true
      → Returns (IsUnlinked l key) (remove compare l key)
  unfolding remove
  remove-IsUnlinked l key v has = rw (remove_items-any key l.items has) (
      after_remove-IsUnlinked l key (unlink_from compare key l.items) v has
        (unlink_from-Search compare key l.items))
