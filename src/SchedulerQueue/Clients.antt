-- ===== src/SchedulerQueue/Clients.antt =====
-- The clients of a queue, without their times: what the operations of scheduler_queue.c do to them.
use remote_attestation.Prelude.{
  ℕ, suc, ◌+◌, ◌-◌, ◌%◌, ◌^◌, ◌<◌, ◌≡◌, refl, ap, inl, inr, true, false, Option, none, some, List,
  [], ◌∷◌, if◌then◌else◌, Bool-cases, length, All, arith,
}
use remote_attestation.Prelude.Int.{is_zero}
use remote_attestation.Prelude.Float.{FloatOps}
use remote_attestation.Client.{Client, compare}
use remote_attestation.SchedulerQueue.{
  Item, Queue, shorten_first, insert_behind, insert_items, insert, update_time_unslept,
  update_items, remove, remove_first, lengthen_first, unschedule, remove_all_scheduled,
}

-- How many clients a key stands for.
unfoldable pub times : Client → List Client → ℕ
times k [] = 0
times k (c ∷ cs) = (if is_zero (compare c k) then 1 else 0) + times k cs

module _ (f : FloatOps) where
  abbrev pub scheduled : List (Item f) → List Client
  scheduled [] = []
  scheduled (i ∷ is) = i.client ∷ scheduled is

  abbrev pub clients : Queue f → List Client
  clients q = scheduled q.items

  -- The counter of a queue is the number of its nodes modulo 2 ^ 32.
  abbrev pub IsCounted : Queue f → Type 0
  IsCounted q = q.items_count ≡ length q.items % 2 ^ 32

  scheduled-shorten_first :
      (d : f.Float) (is : List (Item f)) → scheduled (shorten_first f d is) ≡ scheduled is
  unfolding shorten_first
  scheduled-shorten_first d [] = refl
  scheduled-shorten_first d (i ∷ is) = refl

  scheduled-lengthen_first :
      (d : f.Float) (is : List (Item f)) → scheduled (lengthen_first f d is) ≡ scheduled is
  unfolding lengthen_first
  scheduled-lengthen_first d [] = refl
  scheduled-lengthen_first d (i ∷ is) = refl

  -- Adding a client to some place of the others.
  data Inserted (c : Client) : List Client → List Client → Type 0 where
    at_head : {cs : List Client} → Inserted c cs (c ∷ cs)
    behind : {d : Client} {cs ds : List Client} → Inserted c cs ds → Inserted c (d ∷ cs) (d ∷ ds)

  insert_behind-Inserted :
      (c : Client) (t sum : f.Float) (is : List (Item f))
      → Inserted c (scheduled is) (scheduled (insert_behind f c t sum is))
  unfolding insert_behind
  insert_behind-Inserted c t sum [] = at_head
  insert_behind-Inserted c t sum (i ∷ is) =
      elim (Bool-cases (f.ltb (f.add sum i.delta_time_to_sleep) t)) [
        | inl before ↦
            rw before (behind (insert_behind-Inserted c t (f.add sum i.delta_time_to_sleep) is))
        | inr after ↦ rw after at_head
      ]

  insert_items-Inserted :
      (c : Client) (t : f.Float) (is : List (Item f))
      → Inserted c (scheduled is) (scheduled (insert_items f c t is))
  unfolding insert_items
  insert_items-Inserted c t [] = at_head
  insert_items-Inserted c t (i ∷ is) = elim (Bool-cases (f.ltb t i.delta_time_to_sleep)) [
    | inl before ↦ rw before at_head
    | inr after ↦ rw after (behind (insert_behind-Inserted c t i.delta_time_to_sleep is))
  ]

  Inserted-times :
      (k : Client) {c : Client} {cs ds : List Client}
      → Inserted c cs ds
      → times k ds ≡ (if is_zero (compare c k) then 1 else 0) + times k cs
  unfolding times
  Inserted-times k at_head = refl
  Inserted-times k (behind i) = ground (arith, Inserted-times k i)

  Inserted-length :
      {c : Client} {cs ds : List Client} → Inserted c cs ds → length ds ≡ suc (length cs)
  Inserted-length at_head = refl
  Inserted-length (behind i) = ap suc (Inserted-length i)

  Inserted-All {κ} :
      (P : Client → Type κ) {c : Client} {cs ds : List Client}
      → Inserted c cs ds
      → P c
      → All P cs
      → All P ds
  Inserted-All P at_head p h = (p, h)
  Inserted-All P (behind i) p h = (h.0, Inserted-All P i p h.1)

  length-scheduled : (is : List (Item f)) → length (scheduled is) ≡ length is
  length-scheduled [] = refl
  length-scheduled (i ∷ is) = ap suc (length-scheduled is)

  -- sq_insert schedules the client once more, and no other.
  pub insert-clients {κ} :
      (P : Client → Type κ) (q : Queue f) (c : Client) (t : f.Float)
      → IsCounted q
      → P c
      → All P (clients q)
      → ((k : Client)
          → times k (clients (insert f true q c t).0)
            ≡ (if is_zero (compare c k) then 1 else 0) + times k (clients q))
        × IsCounted (insert f true q c t).0
        × All P (clients (insert f true q c t).0)
  unfolding insert
  insert-clients P q c t n p h =
      let i = insert_items-Inserted c t q.items in
      (
        λ k. Inserted-times k i,
        omega (
          arith,
          n,
          Inserted-length i,
          length-scheduled q.items,
          length-scheduled (insert_items f c t q.items),
        ),
        Inserted-All P i p h,
      )

  -- The outcomes of sq_remove.
  pub data Removed (q : Queue f) : Queue f × Option Client → Type 0 where
    empty : Removed q (q, none)
    first :
        {q' : Queue f} (c : Client)
        → clients q ≡ c ∷ clients q'
        → IsCounted q'
        → Removed q (q', some c)

  pub remove-Removed : (q : Queue f) → IsCounted q → Removed q (remove f q)
  unfolding remove remove_first
  remove-Removed q n = go q.items refl
    where
      go : (is : List (Item f)) → q.items ≡ is → Removed q (remove_first f q is)
      go [] e = empty
      go (i ∷ is) e = first i.client (ap scheduled e) (ground (arith, n, ap length e))

  -- sq_update_time_unslept changes no client.
  pub update_time_unslept-clients :
      (q : Queue f) (t : f.Float)
      → (clients (update_time_unslept f q t).0 ≡ clients q)
        × (IsCounted q → IsCounted (update_time_unslept f q t).0)
  unfolding update_time_unslept update_items
  update_time_unslept-clients q t = go q.items
    where
      go :
          (is : List (Item f))
          → (scheduled (update_items f t is).0 ≡ scheduled is)
            × (q.items_count ≡ length is % 2 ^ 32
                → q.items_count ≡ length (update_items f t is).0 % 2 ^ 32)
      go [] = (refl, λ h. h)
      go (i ∷ is) = elim (Bool-cases (f.ltb i.delta_time_to_sleep t)) [
        | inl late ↦ rw late (refl, λ h. h)
        | inr good ↦ rw good (refl, λ h. h)
      ]

  -- The outcomes of the search of sq_remove_all_scheduled.
  data Unscheduled (c : Client) (is : List (Item f))
      : Option (Client × List (Item f)) → Type 1 where
    absent : times c (scheduled is) ≡ 0 → Unscheduled c is none
    found :
        (d : Client) (js : List (Item f))
        → is_zero (compare d c) ≡ true
        → Inserted d (scheduled js) (scheduled is)
        → Unscheduled c is (some (d, js))

  later :
      {c : Client} {is : List (Item f)} {r : Option (Client × List (Item f))} (i : Item f)
      → is_zero (compare i.client c) ≡ false
      → Unscheduled c is r
      → Unscheduled c (i ∷ is) (elim r [ none ↦ none | some (d, js) ↦ some (d, i ∷ js) ])
  unfolding times
  later i miss (absent h) = absent (ground arith)
  later i miss (found d js hit at) = found d (i ∷ js) hit (behind at)

  head_found :
      (c : Client) (i : Item f) (is : List (Item f))
      → Inserted i.client
          (scheduled (lengthen_first f i.delta_time_to_sleep is))
          (scheduled (i ∷ is))
  head_found c i is = rw (scheduled-lengthen_first i.delta_time_to_sleep is) at_head

  unschedule-Unscheduled : (c : Client) (is : List (Item f)) → Unscheduled c is (unschedule f c is)
  unfolding unschedule times
  unschedule-Unscheduled c [] = absent refl
  unschedule-Unscheduled c (i ∷ is) = elim (Bool-cases (is_zero (compare i.client c))) [
    | inl hit ↦ rw hit (found i.client _ hit (head_found c i is))
    | inr miss ↦ rw miss (later i miss (unschedule-Unscheduled c is))
  ]

  Inserted-rest {κ} :
      (P : Client → Type κ) {c : Client} {cs ds : List Client}
      → Inserted c cs ds
      → All P ds
      → All P cs
  Inserted-rest P at_head h = h.1
  Inserted-rest P (behind i) h = (h.0, Inserted-rest P i h.1)

  -- sq_remove_all_scheduled takes out one of the clients that the key stands for, and no other.
  pub remove_all_scheduled-clients {κ} :
      (P : Client → Type κ) (q : Queue f) (c : Client)
      → IsCounted q
      → 0 < times c (clients q)
      → All P (clients q)
      → (d : Client) × (is_zero (compare d c) ≡ true)
        × ((k : Client)
            → times k (clients q)
              ≡ (if is_zero (compare d k) then 1 else 0)
                + times k (clients (remove_all_scheduled f q c).0))
        × IsCounted (remove_all_scheduled f q c).0
        × All P (clients (remove_all_scheduled f q c).0)
  unfolding remove_all_scheduled
  remove_all_scheduled-clients P q c n some_client h =
      go (unschedule f c q.items) (unschedule-Unscheduled c q.items)
    where
      outcome : Option (Client × List (Item f)) → Queue f × Option Client
      outcome r = elim r [
        | none ↦ (q, none)
        | some (d, js) ↦
            (record { items = js; items_count = (q.items_count + 2 ^ 32 - 1) % 2 ^ 32 }, some d)
      ]

      go :
          (r : Option (Client × List (Item f)))
          → Unscheduled c q.items r
          → (d : Client) × (is_zero (compare d c) ≡ true)
            × ((k : Client)
                → times k (clients q)
                  ≡ (if is_zero (compare d k) then 1 else 0) + times k (clients (outcome r).0))
            × IsCounted (outcome r).0
            × All P (clients (outcome r).0)
      go none (absent e) = absurd (omega (arith, e))
      go (some (_, _)) (found d js hit at) = (
        d,
        hit,
        λ k. Inserted-times k at,
        omega (arith, n, Inserted-length at, length-scheduled q.items, length-scheduled js),
        Inserted-rest P at h,
      )
