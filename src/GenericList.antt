-- ===== src/GenericList.antt =====
-- src/ra-additionals/generic_list.c: a singly linked list without duplicates. The chain of nodes is a
-- list of items, head first; `items_count` is the 32-bit counter kept beside it. The comparator is
-- the argument `compare` of each operation. Each `malloc` is an argument that says whether it
-- succeeds. Reading through a NULL head is a fault.
pub mod Laws
pub mod SetView
pub mod Unlinking
mod Tests
use remote_attestation.Prelude.{
  ℕ, ◌+◌, ◌-◌, ◌%◌, ◌^◌, Bool, true, false, Option, none, some, List, [], ◌∷◌, if◌then◌else◌, any,
}
use remote_attestation.Prelude.Int.{ℤ, is_zero}
use remote_attestation.Prelude.Run.{Run, ok, fault}

-- gl_results_e
pub data GlResult : Type 0 where
  gl_success gl_error_memory gl_error_item_already_present gl_error_item_not_found : GlResult

-- struct generic_list, less the name and the callbacks.
pub record GenericList {ℓ} (A : Type ℓ) : Type ℓ where
  pub items : List A
  pub items_count : ℕ

module _ {ℓ} {A : Type ℓ} where
  -- gl_create, where `comparator` and `destructor` say that the callbacks are not NULL.
  pub create : (comparator destructor malloc : Bool) → Option (GenericList A)
  create comparator destructor malloc =
      if destructor
      then (if comparator
          then (if malloc then some (record { items = []; items_count = 0 }) else none)
          else none)
      else none

  unfoldable pub count : GenericList A → ℕ
  count l = l.items_count

  pub after_remove : GenericList A → Run (Option (A × List A)) → Run (GenericList A × Option A)
  after_remove l (ok none) = ok (l, none)
  after_remove l (ok (some (y, ys))) =
      ok (record { items = ys; items_count = (l.items_count + 2 ^ 32 - 1) % 2 ^ 32 }, some y)
  after_remove l _ = fault

  pub after_delete : GenericList A → Run (Option (List A)) → Run (GenericList A × GlResult)
  after_delete l (ok none) = ok (l, gl_error_item_not_found)
  after_delete l (ok (some ys)) =
      ok (record { items = ys; items_count = l.items_count }, gl_success)
  after_delete l _ = fault

module _ {ℓ} {A : Type ℓ} (compare : A → A → ℤ) where
  pub find_from : A → List A → Option A
  find_from key [] = none
  find_from key (x ∷ xs) = if is_zero (compare x key) then some x else find_from key xs

  unfoldable pub is_containing : GenericList A → A → Bool
  is_containing l key = any (λ x. is_zero (compare x key)) l.items

  -- gl_get_reference
  pub get_reference : GenericList A → A → Option A
  unfolding find_from
  get_reference l key = find_from key l.items

  -- gl_insert copies the item into a new node at the head: two allocations.
  unfoldable pub insert :
      (malloc_node malloc_data : Bool) → GenericList A → A → GenericList A × GlResult
  insert malloc_node malloc_data l a =
      if is_containing l a
      then (l, gl_error_item_already_present)
      else if malloc_node
      then (if malloc_data
          then (
            record { items = a ∷ l.items; items_count = (l.items_count + 1) % 2 ^ 32 },
            gl_success,
          )
          else (l, gl_error_memory))
      else (l, gl_error_memory)

  -- The search behind a node that stays: the removed item, and the chain without it.
  pub unlink_from : A → List A → Option (A × List A)
  unlink_from key [] = none
  unlink_from key (x ∷ xs) =
      let rest = unlink_from key xs in
      if is_zero (compare x key)
      then some (x, xs)
      else elim rest [ none ↦ none | some (y, ys) ↦ some (y, x ∷ ys) ]

  -- gl_remove: the removed item or NULL. On an empty list the head is read through NULL.
  pub remove_items : A → List A → Run (Option (A × List A))
  unfolding unlink_from
  remove_items key [] = fault
  remove_items key (x ∷ xs) =
      if is_zero (compare x key)
      then ok (some (x, xs))
      else ok (elim (unlink_from key xs) [ none ↦ none | some (y, ys) ↦ some (y, x ∷ ys) ])

  unfoldable pub remove : GenericList A → A → Run (GenericList A × Option A)
  unfolding remove_items after_remove
  remove l key = after_remove l (remove_items key l.items)

  -- gl_delete starts its search behind the second node, and leaves `items_count` as it is.
  pub delete_items : A → List A → Run (Option (List A))
  unfolding unlink_from
  delete_items key [] = fault
  delete_items key (x ∷ []) = if is_zero (compare x key) then ok (some []) else fault
  delete_items key (x ∷ y ∷ ys) =
      if is_zero (compare x key)
      then ok (some (y ∷ ys))
      else ok (elim (unlink_from key ys) [ none ↦ none | some (z, zs) ↦ some (x ∷ y ∷ zs) ])

  pub delete : GenericList A → A → Run (GenericList A × GlResult)
  unfolding delete_items after_delete
  delete l key = after_delete l (delete_items key l.items)

module _ {ℓ} {A : Type ℓ} where
  destroy_items : List A → Run (Unit {0})
  destroy_items [] = ok tt
  destroy_items (x ∷ xs) = fault

  -- gl_destroy reads the link of each node after it has freed the node.
  unfoldable pub destroy : GenericList A → Run (Unit {0})
  unfolding destroy_items
  destroy l = destroy_items l.items
