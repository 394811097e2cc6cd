-- ===== src/SchedulerQueue.antt =====
-- src/ra-additionals/scheduler_queue.c: the clients to be served, each with the time to sleep after
-- the one before it (a delta queue). The chain of nodes is a list, head first; `items_count` is the
-- 32-bit counter kept beside it. `float` is the parameter `f`.
pub mod Schedule
pub mod Clients
mod Tests
use remote_attestation.Prelude.{
  ℕ, zero, suc, ◌+◌, ◌-◌, ◌%◌, ◌^◌, Bool, true, false, Option, none, some, List, [], ◌∷◌,
  if◌then◌else◌,
}
use remote_attestation.Prelude.Int.{is_zero}
use remote_attestation.Prelude.Float.{FloatOps}
use remote_attestation.Prelude.Run.{Run, ok, fault}
use remote_attestation.Client.{Client, compare}

-- sq_results_e
pub data SqResult : Type 0 where
  sq_success sq_error_memory sq_error_item_already_present sq_error_item_not_found : SqResult
  sq_error_invalid_time : SqResult

module _ (f : FloatOps) where
  open f use {Float, add, sub, ltb, literal}

  -- struct scheduler_queue_item
  pub record Item : Type 0 where
    pub client : Client
    pub delta_time_to_sleep : Float

  -- struct scheduler_queue
  pub record Queue : Type 0 where
    pub items : List Item
    pub items_count : ℕ

  pub create : (malloc : Bool) → Option Queue
  create malloc = if malloc then some (record { items = []; items_count = 0 }) else none

  pub count : Queue → ℕ
  count q = q.items_count

  -- The last statement of sq_insert: what follows the new node sleeps less.
  pub shorten_first : Float → List Item → List Item
  shorten_first d [] = []
  shorten_first d (i ∷ is) = record i { delta_time_to_sleep = sub i.delta_time_to_sleep d } ∷ is

  -- The loop of sq_insert, over the nodes behind `iter`.
  pub insert_behind : (client : Client) (time_to_sleep time_sum : Float) → List Item → List Item
  unfolding shorten_first
  insert_behind c t sum [] = record { client = c; delta_time_to_sleep = sub t sum } ∷ []
  insert_behind c t sum (i ∷ is) =
      if ltb (add sum i.delta_time_to_sleep) t
      then i ∷ insert_behind c t (add sum i.delta_time_to_sleep) is
      else record { client = c; delta_time_to_sleep = sub t sum }
        ∷ shorten_first (sub t sum) (i ∷ is)

  pub insert_items : Client → Float → List Item → List Item
  unfolding shorten_first insert_behind
  insert_items c t [] = record { client = c; delta_time_to_sleep = t } ∷ []
  insert_items c t (i ∷ is) =
      if ltb t i.delta_time_to_sleep
      then record { client = c; delta_time_to_sleep = t } ∷ shorten_first t (i ∷ is)
      else i ∷ insert_behind c t i.delta_time_to_sleep is

  unfoldable pub insert : (malloc : Bool) → Queue → Client → Float → Queue × SqResult
  unfolding insert_items
  insert malloc q c t =
      if malloc
      then (
        record { items = insert_items c t q.items; items_count = (q.items_count + 1) % 2 ^ 32 },
        sq_success,
      )
      else (q, sq_error_memory)

  update_items : Float → List Item → List Item × SqResult
  update_items t [] = ([], sq_success)
  update_items t (i ∷ is) =
      if ltb i.delta_time_to_sleep t
      then (i ∷ is, sq_error_invalid_time)
      else (record i { delta_time_to_sleep = t } ∷ is, sq_success)

  unfoldable pub update_time_unslept : Queue → Float → Queue × SqResult
  unfolding update_items
  update_time_unslept q t = (
    record { items = (update_items t q.items).0; items_count = q.items_count },
    (update_items t q.items).1,
  )

  first_delta : List Item → Float
  first_delta [] = literal 3600
  first_delta (i ∷ is) = i.delta_time_to_sleep

  unfoldable pub get_time_to_sleep : Queue → Float
  unfolding first_delta
  get_time_to_sleep q = first_delta q.items

  remove_first : Queue → List Item → Queue × Option Client
  remove_first q [] = (q, none)
  remove_first q (i ∷ is) =
      (record { items = is; items_count = (q.items_count + 2 ^ 32 - 1) % 2 ^ 32 }, some i.client)

  unfoldable pub remove : Queue → Queue × Option Client
  unfolding remove_first
  remove q = remove_first q q.items

  -- The node behind a removed one sleeps its time too.
  pub lengthen_first : Float → List Item → List Item
  lengthen_first d [] = []
  lengthen_first d (i ∷ is) = record i { delta_time_to_sleep = add i.delta_time_to_sleep d } ∷ is

  -- The search of sq_remove_all_scheduled, which ends at the first node of the client.
  pub unschedule : Client → List Item → Option (Client × List Item)
  unfolding lengthen_first
  unschedule c [] = none
  unschedule c (i ∷ is) =
      let rest = unschedule c is in
      if is_zero (compare i.client c)
      then some (i.client, lengthen_first i.delta_time_to_sleep is)
      else elim rest [ none ↦ none | some (d, js) ↦ some (d, i ∷ js) ]

  unfoldable pub remove_all_scheduled : Queue → Client → Queue × Option Client
  unfolding unschedule
  remove_all_scheduled q c = elim (unschedule c q.items) [
    | none ↦ (q, none)
    | some (d, js) ↦
        (record { items = js; items_count = (q.items_count + 2 ^ 32 - 1) % 2 ^ 32 }, some d)
  ]

  -- The loop of sq_destroy frees `items_count` nodes; it reads the head through NULL when there are
  -- fewer.
  pub destroy_items : ℕ → List Item → Run (List Item)
  destroy_items zero is = ok is
  destroy_items (suc n) [] = fault
  destroy_items (suc n) (i ∷ is) = destroy_items n is

  -- The nodes that are left, never to be freed.
  unfoldable pub destroy : Queue → Run (List Item)
  unfolding destroy_items
  destroy q = destroy_items q.items_count q.items
