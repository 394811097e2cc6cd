-- ===== src/DataTable.antt =====
-- src/client-parametric-files/cond/ra_data_table.c: the table of the attestation data. The chain of
-- nodes is a list of areas, head first; `memory_areas_count` is the 16-bit counter kept beside it. A
-- buffer is NULL or a list of bytes. The fields that ra_create_table leaves as malloc gave them are
-- its argument `raw`.
pub mod Areas
pub mod Ads
pub mod Dump
mod Tests
use remote_attestation.Prelude.{
  ℕ, zero, suc, ◌+◌, ◌%◌, ◌^◌, Bool, true, false, ◌||◌, not, Option, none, some, List, [], ◌∷◌,
  ◌++◌, ◌==◌, if◌then◌else◌, length,
}
use remote_attestation.Prelude.RaResult.{
  RaResult, success, error_memory, error_null_pointer, error_undefined_serial_number,
  error_undefined_attestator_number, error_undefined_nonce, error_undefined_key,
  error_malformed_memory_area, error_memory_label_already_defined, error_empty_prepared_data,
}
use remote_attestation.Prelude.Run.{Run, ok, fault, ◌>>=◌}
use remote_attestation.Memory.{Area}

-- struct ra_table_t
pub record Table : Type 0 where
  pub prepared_data : Option (List ℕ)
  pub prepared_data_size : ℕ
  pub current_nonce : Option (List ℕ)
  pub current_nonce_size : ℕ
  pub current_key : Option (List ℕ)
  pub current_key_size : ℕ
  pub areas : List Area
  pub memory_areas_count : ℕ
  pub app_aid : List ℕ
  pub app_attestator_number : ℕ
  pub is_aid_set : Bool
  pub is_attestator_number_set : Bool

-- What the memory of a new table holds before anything is stored there.
pub record Raw : Type 0 where
  pub raw_aid : List ℕ
  pub raw_attestator_number : ℕ
  pub raw_is_attestator_number_set : Bool

-- ra_create_table does not set `is_attestator_number_set`.
unfoldable pub create_table : (malloc : Bool) → Raw → Option Table
create_table malloc raw =
    if malloc
    then some (record {
      prepared_data = none;
      prepared_data_size = 0;
      current_nonce = none;
      current_nonce_size = 0;
      current_key = none;
      current_key_size = 0;
      areas = [];
      memory_areas_count = 0;
      app_aid = raw.raw_aid;
      app_attestator_number = raw.raw_attestator_number;
      is_aid_set = false;
      is_attestator_number_set = raw.raw_is_attestator_number_set;
    })
    else none

unfoldable pub set_aid : Table → List ℕ → Table
set_aid t aid = record t { app_aid = aid; is_aid_set = true }

unfoldable pub get_aid_reference : Table → RaResult × Option (List ℕ)
get_aid_reference t =
    if t.is_aid_set then (success, some t.app_aid) else (error_undefined_serial_number, none)

unfoldable pub set_attestator_number : Table → ℕ → Table
set_attestator_number t n = record t { app_attestator_number = n; is_attestator_number_set = true }

unfoldable pub get_attestator_number : Table → RaResult × Option ℕ
get_attestator_number t =
    if t.is_attestator_number_set
    then (success, some t.app_attestator_number)
    else (error_undefined_attestator_number, none)

abbrev pub is_null {ℓ} : {A : Type ℓ} → Option A → Bool
is_null none = true
is_null (some a) = false

-- The old nonce is freed before the new one is allocated, so a failed allocation loses it.
unfoldable pub set_current_nonce : (malloc : Bool) → Table → List ℕ → Table × RaResult
set_current_nonce malloc t nonce =
    if malloc
    then (record t { current_nonce = some nonce; current_nonce_size = length nonce }, success)
    else (
      record t {
        current_nonce = none;
        current_nonce_size = if is_null t.current_nonce then t.current_nonce_size else 0;
      },
      error_memory,
    )

-- ra_get_current_nonce: what is copied to the caller's buffer, which may be NULL.
unfoldable pub get_current_nonce : Table → (buffer_is_null : Bool) → RaResult × Option (List ℕ)
get_current_nonce t buffer_is_null =
    if buffer_is_null
    then (error_null_pointer, none)
    else if is_null t.current_nonce || t.current_nonce_size == 0
    then (error_undefined_nonce, none)
    else (success, t.current_nonce)

unfoldable pub set_current_key : (malloc : Bool) → Table → List ℕ → Table × RaResult
set_current_key malloc t key =
    if malloc
    then (record t { current_key = some key; current_key_size = length key }, success)
    else (
      record t {
        current_key = none;
        current_key_size = if is_null t.current_key then t.current_key_size else 0;
      },
      error_memory,
    )

-- ra_get_current_key tests `current_key_size` where ra_get_current_nonce tests `!current_nonce_size`.
unfoldable pub get_current_key : Table → (buffer_is_null : Bool) → RaResult × Option (List ℕ)
get_current_key t buffer_is_null =
    if is_null t.current_key || not (t.current_key_size == 0)
    then (error_undefined_key, none)
    else if buffer_is_null
    then (error_null_pointer, none)
    else (success, t.current_key)

-- The loop of ra_is_label_defined, with the rounds that are left.
pub label_loop : ℕ → ℕ → List Area → Run Bool
label_loop label zero xs = ok false
label_loop label (suc n) [] = fault
label_loop label (suc n) (a ∷ xs) =
    let rest = label_loop label n xs in if label == a.label then ok true else rest

unfoldable pub is_label_defined : Table → ℕ → Run Bool
unfolding label_loop
is_label_defined t label = label_loop label t.memory_areas_count t.areas

-- insert_table_item: the node goes to the tail.
unfoldable pub insert_table_item : Table → Area → Table
insert_table_item t a = record t {
  areas = t.areas ++ a ∷ [];
  memory_areas_count = (t.memory_areas_count + 1) % 2 ^ 16;
}

-- ra_insert_memory_area
unfoldable pub insert_memory_area : (malloc : Bool) → Table → Option Area → Run (Table × RaResult)
unfolding is_label_defined insert_table_item
insert_memory_area malloc t none = ok (t, error_malformed_memory_area)
insert_memory_area malloc t (some a) = is_label_defined t a.label >>= λ defined. ok (
    if defined
    then (t, error_memory_label_already_defined)
    else if malloc
    then (insert_table_item t a, success)
    else (t, error_memory))

-- The loop of ra_get_memory_area.
pub find_area : ℕ → List Area → Option Area
find_area label [] = none
find_area label (a ∷ xs) = if a.label == label then some a else find_area label xs

unfoldable pub get_memory_area : Table → ℕ → Option Area
unfolding find_area
get_memory_area t label = find_area label t.areas

-- The loop of ra_get_labels_list, with the rounds that are left: what is stored in the caller's array.
pub labels_loop : ℕ → List Area → Run (List ℕ)
labels_loop zero xs = ok []
labels_loop (suc n) [] = fault
labels_loop (suc n) (a ∷ xs) = labels_loop n xs >>= λ ls. ok (a.label ∷ ls)

unfoldable pub get_labels_list : Table → (list_is_null : Bool) → Run (RaResult × List ℕ)
unfolding labels_loop
get_labels_list t list_is_null =
    if list_is_null
    then ok (error_memory, [])
    else (labels_loop t.memory_areas_count t.areas >>= λ ls. ok (success, ls))

unfoldable pub reset_prepared_data : Table → Table
reset_prepared_data t = record t { prepared_data = none; prepared_data_size = 0 }

-- ra_set_prepared_data; the buffer that was there is not freed. `size` is the length of a buffer that
-- is not NULL.
unfoldable pub set_prepared_data : (malloc : Bool) → Table → Option (List ℕ) → Table × RaResult
unfolding reset_prepared_data
set_prepared_data malloc t none = (reset_prepared_data t, success)
set_prepared_data malloc t (some buffer) =
    if malloc
    then (record t { prepared_data = some buffer; prepared_data_size = length buffer }, success)
    else (record t { prepared_data = none }, error_memory)

unfoldable pub get_prepared_data : Table → (buffer_is_null : Bool) → RaResult × Option (List ℕ)
get_prepared_data t buffer_is_null =
    if buffer_is_null
    then (error_null_pointer, none)
    else if is_null t.prepared_data || t.prepared_data_size == 0
    then (error_empty_prepared_data, none)
    else (success, t.prepared_data)
