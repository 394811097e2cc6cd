-- ===== src/DataTable/Areas.antt =====
-- The areas of a table as a map from labels.
use mathlib.Core.Option.{some-injective}
use remote_attestation.Prelude.{
  ℕ, zero, suc, ◌+◌, ◌^◌, ◌<◌, ◌≡◌, refl, subst, Bool, true, false, none, some, List, [], ◌∷◌, ◌++◌,
  ◌==◌, if◌then◌else◌, map, any, All, length, length-append, get_elem?, arith,
}
use remote_attestation.Prelude.RaResult.{success, error_memory_label_already_defined}
use remote_attestation.Prelude.Run.{ok}
use remote_attestation.Memory.{Area}
use remote_attestation.DataTable.{
  Table, label_loop, is_label_defined, insert_table_item, insert_memory_area, find_area,
  get_memory_area, labels_loop, get_labels_list,
}

abbrev pub has_label : ℕ → List Area → Bool
has_label label xs = any (λ a. label == a.label) xs

-- No two areas have one label.
abbrev pub DistinctLabels : List Area → Type 0
DistinctLabels [] = Unit {0}
DistinctLabels (a ∷ xs) = (has_label a.label xs ≡ false) × DistinctLabels xs

pub record IsValid (t : Table) : Type 0 where
  pub distinct : DistinctLabels t.areas
  pub counted : t.memory_areas_count ≡ length t.areas
  pub small : length t.areas < 2 ^ 16

-- With the counter right, no search runs off the chain.
label_loop-has_label :
    (label : ℕ) (xs : List Area) → label_loop label (length xs) xs ≡ ok (has_label label xs)
unfolding label_loop
label_loop-has_label label [] = refl
label_loop-has_label label (a ∷ xs) = ground (arith, label_loop-has_label label xs)

is_label_defined-has_label :
    (t : Table) (label : ℕ) → IsValid t → is_label_defined t label ≡ ok (has_label label t.areas)
unfolding is_label_defined
is_label_defined-has_label t label v = rw v.counted (label_loop-has_label label t.areas)

has_label-append :
    (label : ℕ) (a : Area) (xs : List Area)
    → has_label label xs ≡ false
    → (label == a.label) ≡ false
    → has_label label (xs ++ a ∷ []) ≡ false
has_label-append label a [] h k = rw k
has_label-append label a (x ∷ xs) h k = ground (arith, has_label-append label a xs)

DistinctLabels-append :
    (a : Area) (xs : List Area)
    → has_label a.label xs ≡ false
    → DistinctLabels xs
    → DistinctLabels (xs ++ a ∷ [])
DistinctLabels-append a [] h d = (refl, tt)
DistinctLabels-append a (x ∷ xs) h d = (
  has_label-append x.label a xs d.0 (ground arith),
  DistinctLabels-append a xs (ground arith) d.1,
)

find_area-append :
    (label : ℕ) (a : Area) (xs : List Area)
    → has_label a.label xs ≡ false
    → find_area label (xs ++ a ∷ []) ≡ (if a.label == label then some a else find_area label xs)
unfolding find_area
find_area-append label a [] h = refl
find_area-append label a (x ∷ xs) h = ground (arith, find_area-append label a xs)

find_area-has_label :
    (label : ℕ) (xs : List Area) → find_area label xs ≡ none → has_label label xs ≡ false
unfolding find_area
find_area-has_label label [] h = refl
find_area-has_label label (a ∷ xs) h = ground (arith, find_area-has_label label xs)

-- The table that an insertion leaves.
pub insert_memory_area-item :
    (t : Table) (a : Area)
    → IsValid t
    → length t.areas + 1 < 2 ^ 16
    → get_memory_area t a.label ≡ none
    → (insert_memory_area true t (some a) ≡ ok (insert_table_item t a, success))
      × IsValid (insert_table_item t a)
unfolding insert_memory_area get_memory_area insert_table_item
insert_memory_area-item t a v room new =
    let fresh = find_area-has_label a.label t.areas new in
    (
      rw (insert_memory_area, is_label_defined-has_label t a.label v, fresh),
      record {
        distinct = DistinctLabels-append a t.areas fresh v.distinct;
        counted = omega (arith, v.counted, length-append t.areas (a ∷ []));
        small = omega (arith, length-append t.areas (a ∷ []));
      },
    )

-- ra_insert_memory_area of an area with a new label into a valid table, with a successful
-- allocation and room for the 16-bit counter, succeeds, keeps the table valid, and afterwards
-- ra_get_memory_area finds the area under its label and answers as before for every other label.
insert_memory_area-new :
    (t : Table) (a : Area)
    → IsValid t
    → length t.areas + 1 < 2 ^ 16
    → get_memory_area t a.label ≡ none
    → (t' : Table) × (insert_memory_area true t (some a) ≡ ok (t', success))
      × IsValid t'
      × ((label : ℕ)
          → get_memory_area t' label
            ≡ (if a.label == label then some a else get_memory_area t label))
unfolding insert_memory_area get_memory_area insert_table_item
insert_memory_area-new t a v room new =
    let fresh = find_area-has_label a.label t.areas new in
    (
      insert_table_item t a,
      rw (insert_memory_area, is_label_defined-has_label t a.label v, fresh),
      record {
        distinct = DistinctLabels-append a t.areas fresh v.distinct;
        counted = omega (arith, v.counted, length-append t.areas (a ∷ []));
        small = omega (arith, length-append t.areas (a ∷ []));
      },
      λ label. find_area-append label a t.areas fresh,
    )

-- ra_insert_memory_area of an area whose label ra_get_memory_area finds in a valid table reports
-- that the label is defined and leaves the table as it was, whether or not an allocation would
-- succeed.
insert_memory_area-defined :
    (malloc : Bool) (t : Table) (a b : Area)
    → IsValid t
    → get_memory_area t a.label ≡ some b
    → insert_memory_area malloc t (some a) ≡ ok (t, error_memory_label_already_defined)
unfolding insert_memory_area get_memory_area
insert_memory_area-defined malloc t a b v old =
    rw (insert_memory_area, is_label_defined-has_label t a.label v, defined t.areas old)
  where
    defined : (xs : List Area) → find_area a.label xs ≡ some b → has_label a.label xs ≡ true
    defined [] h = cc
    defined (x ∷ xs) h = ground (arith, defined xs)

labels_loop-map : (xs : List Area) → labels_loop (length xs) xs ≡ ok (map (λ a. a.label) xs)
unfolding labels_loop
labels_loop-map [] = refl
labels_loop-map (a ∷ xs) = ground (arith, labels_loop-map xs)

-- ra_get_labels_list on a valid table succeeds and stores the labels of the areas in their order,
-- without reading behind the chain.
pub get_labels_list-map :
    (t : Table) → IsValid t → get_labels_list t false ≡ ok (success, map (λ a. a.label) t.areas)
unfolding get_labels_list
get_labels_list-map t v = rw (get_labels_list, v.counted, labels_loop-map t.areas)

not_labelled :
    (label i : ℕ) (xs : List Area) {a : Area}
    → has_label label xs ≡ false
    → get_elem? xs i ≡ some a
    → (a.label == label) ≡ false
not_labelled label i [] h e = cc
not_labelled label zero (x ∷ xs) h e = ground arith
not_labelled label (suc i) (x ∷ xs) {a} h e = not_labelled label i xs {a = a} (ground arith) e

-- The area at an index is found by the label at that index.
pub find_area-get_elem? :
    (xs : List Area) (i : ℕ) {a : Area}
    → DistinctLabels xs
    → get_elem? xs i ≡ some a
    → (find_area a.label xs ≡ some a) × (get_elem? (map (λ x. x.label) xs) i ≡ some a.label)
unfolding find_area
find_area-get_elem? [] i d e = cc
find_area-get_elem? (x ∷ xs) zero {a} d e = ground arith
find_area-get_elem? (x ∷ xs) (suc i) {a} d e =
    let (f, l) = find_area-get_elem? xs i {a = a} d.1 e in
    (ground (arith, not_labelled x.label i xs {a = a} d.0 e), l)

pub All-get_elem? {ℓ κ} :
    {A : Type ℓ} (P : A → Type κ) (xs : List A) (i : ℕ) {a : A}
    → All P xs
    → get_elem? xs i ≡ some a
    → P a
All-get_elem? P [] i h e = cc
All-get_elem? P (x ∷ xs) zero h e = subst P (some-injective x _ e) h.0
All-get_elem? P (x ∷ xs) (suc i) h e = All-get_elem? P xs i h.1 e
