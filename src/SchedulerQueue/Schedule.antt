-- ===== src/SchedulerQueue/Schedule.antt =====
-- The delta queue as a list of absolute wake-up times, where no float operation rounds.
use mathlib.Core.List.{Perm}
use mathlib.Core.List.Perm
use remote_attestation.Prelude.{
  ◌≡◌, inl, inr, refl, ap, ap₂, true, Option, none, some, List, [], ◌∷◌, if◌then◌else◌, Bool-cases,
  Option-cases, arith,
}
use remote_attestation.Prelude.Int.{ℤ, pos, ◌+ℤ◌, ◌≤ℤ◌, ltb_ℤ, is_zero, int_laws}
use remote_attestation.Prelude.Float.{FloatOps, IsExact}
use remote_attestation.Client.{Client, compare}
use remote_attestation.SchedulerQueue.{
  Item, Queue, shorten_first, insert_behind, insert_items, insert, lengthen_first, unschedule,
  remove_all_scheduled,
}

-- Each client with the time at which it is to be served.
abbrev pub Agenda : Type 0
Agenda = List (Client × ℤ)

-- Before the first entry that is not earlier.
place_behind : Client → ℤ → Agenda → Agenda
place_behind c t [] = (c, t) ∷ []
place_behind c t ((d, u) ∷ r) =
    if ltb_ℤ u t then (d, u) ∷ place_behind c t r else (c, t) ∷ (d, u) ∷ r

-- The agenda with one more client: before a head that is later, and otherwise behind the head, before
-- the first of the others that is not earlier.
unfoldable pub place : Client → ℤ → Agenda → Agenda
unfolding place_behind
place c t [] = (c, t) ∷ []
place c t ((d, u) ∷ r) = if ltb_ℤ t u then (c, t) ∷ (d, u) ∷ r else (d, u) ∷ place_behind c t r

-- Times that never fall, none before `t`.
abbrev pub SortedFrom : ℤ → Agenda → Type 0
SortedFrom t [] = Unit {0}
SortedFrom t ((d, u) ∷ r) = (t ≤ℤ u) × SortedFrom u r

place_behind-SortedFrom :
    (b : ℤ) (c : Client) (t : ℤ) (r : Agenda)
    → b ≤ℤ t
    → SortedFrom b r
    → SortedFrom b (place_behind c t r)
unfolding place_behind
place_behind-SortedFrom b c t [] h s = (h, tt)
place_behind-SortedFrom b c t ((d, u) ∷ r) h s = elim (Bool-cases (ltb_ℤ u t)) [
  | inl before ↦ rw before (s.0, place_behind-SortedFrom u c t r (ground arith) s.1)
  | inr after ↦ rw after (h, (ground arith, s.1))
]

place-SortedFrom :
    (b : ℤ) (c : Client) (t : ℤ) (r : Agenda) → b ≤ℤ t → SortedFrom b r → SortedFrom b (place c t r)
unfolding place
place-SortedFrom b c t [] h s = (h, tt)
place-SortedFrom b c t ((d, u) ∷ r) h s = elim (Bool-cases (ltb_ℤ t u)) [
  | inl before ↦ rw before (h, (ground arith, s.1))
  | inr after ↦ rw after (s.0, place_behind-SortedFrom u c t r (ground arith) s.1)
]

place_behind-perm : (c : Client) (t : ℤ) (r : Agenda) → Perm (place_behind c t r) ((c, t) ∷ r)
unfolding place_behind
place_behind-perm c t [] = Perm.refl _
place_behind-perm c t ((d, u) ∷ r) = elim (Bool-cases (ltb_ℤ u t)) [
  | inl before ↦
      rw before
        (Perm.trans (Perm.cons (d, u) (place_behind-perm c t r)) (Perm.swap (c, t) (d, u) r))
  | inr after ↦ rw after (Perm.refl _)
]

place-perm : (c : Client) (t : ℤ) (r : Agenda) → Perm (place c t r) ((c, t) ∷ r)
unfolding place
place-perm c t [] = Perm.refl _
place-perm c t ((d, u) ∷ r) = elim (Bool-cases (ltb_ℤ t u)) [
  | inl before ↦ rw before (Perm.refl _)
  | inr after ↦
      rw after (Perm.trans (Perm.cons (d, u) (place_behind-perm c t r)) (Perm.swap (c, t) (d, u) r))
]

-- The agenda without the first entry of a client.
unfoldable pub drop_client : Client → Agenda → Agenda
drop_client c [] = []
drop_client c ((d, u) ∷ r) = if is_zero (compare d c) then r else (d, u) ∷ drop_client c r

module _ (f : FloatOps) (e : IsExact f) where
  open e use {units, units-add, units-sub, ltb-units}

  -- The wake-up times of a chain of nodes behind time `b`.
  unfoldable pub agenda_from : ℤ → List (Item f) → Agenda
  agenda_from b [] = []
  agenda_from b (i ∷ is) =
      (i.client, b +ℤ units i.delta_time_to_sleep)
      ∷ agenda_from (b +ℤ units i.delta_time_to_sleep) is

  shorten_first-agenda :
      (b : ℤ) (d : f.Float) (is : List (Item f))
      → agenda_from (b +ℤ units d) (shorten_first f d is) ≡ agenda_from b is
  unfolding agenda_from shorten_first
  shorten_first-agenda b d [] = refl
  shorten_first-agenda b d (i ∷ is) =
      let same : (b +ℤ units d) +ℤ units (f.sub i.delta_time_to_sleep d)
          ≡ b +ℤ units i.delta_time_to_sleep =
        rw units-sub (omega int_laws) in
      rw same

  insert_behind-agenda :
      (b : ℤ) (c : Client) (t sum : f.Float) (is : List (Item f))
      → units sum ≡ b
      → agenda_from b (insert_behind f c t sum is) ≡ place_behind c (units t) (agenda_from b is)
  unfolding agenda_from insert_behind place_behind
  insert_behind-agenda b c t sum [] h = ap (λ u. (c, u) ∷ []) (rw (units-sub, h) (omega int_laws))
  insert_behind-agenda b c t sum (i ∷ is) h =
      let d = i.delta_time_to_sleep in
      let moved : units (f.add sum d) ≡ b +ℤ units d = rw (units-add, h) in
      let test : f.ltb (f.add sum d) t ≡ ltb_ℤ (b +ℤ units d) (units t) = rw (ltb-units, moved) in
      elim (Bool-cases (ltb_ℤ (b +ℤ units d) (units t))) [
        | inl before ↦
            rw (test, before)
              (ap (λ r. (i.client, b +ℤ units d) ∷ r)
                (insert_behind-agenda (b +ℤ units d) c t (f.add sum d) is moved))
        | inr after ↦
            rw (test, after)
              (ap₂ (λ u r. (c, u) ∷ r) (rw (units-sub, h) (omega int_laws))
                (shorten_first-agenda b (f.sub t sum) (i ∷ is)))
      ]

  insert_items-agenda :
      (c : Client) (t : f.Float) (is : List (Item f))
      → agenda_from (pos 0) (insert_items f c t is) ≡ place c (units t) (agenda_from (pos 0) is)
  unfolding agenda_from insert_items place
  insert_items-agenda c t [] = ap (λ u. (c, u) ∷ []) (omega int_laws)
  insert_items-agenda c t (i ∷ is) =
      let d = i.delta_time_to_sleep in
      let start : units d ≡ pos 0 +ℤ units d = omega int_laws in
      let test : f.ltb t d ≡ ltb_ℤ (units t) (pos 0 +ℤ units d) = rw (ltb-units, ← start) in
      elim (Bool-cases (ltb_ℤ (units t) (pos 0 +ℤ units d))) [
        | inl before ↦
            rw (test, before)
              (ap₂ (λ u r. (c, u) ∷ r) (omega int_laws) (shorten_first-agenda (pos 0) t (i ∷ is)))
        | inr after ↦
            rw (test, after)
              (ap (λ r. (i.client, pos 0 +ℤ units d) ∷ r)
                (insert_behind-agenda (pos 0 +ℤ units d) c t d is start))
      ]

  -- The wake-up times of a queue, from now.
  abbrev pub agenda : Queue f → Agenda
  agenda q = agenda_from (pos 0) q.items

  -- sq_insert with a successful allocation refines the insertion of an entry into a list of
  -- absolute wake-up times: the entry is placed before a head that is later, and otherwise behind
  -- the head, before the first of the other entries that is not earlier; the times keep rising,
  -- and the new list is a permutation of the old one with the entry. Conditions: no float
  -- operation rounds, the time is not negative, and the times of the queue do not fall.
  pub insert-agenda :
      (q : Queue f) (c : Client) (t : f.Float)
      → pos 0 ≤ℤ units t
      → SortedFrom (pos 0) (agenda q)
      → (agenda (insert f true q c t).0 ≡ place c (units t) (agenda q))
        × SortedFrom (pos 0) (agenda (insert f true q c t).0)
        × Perm (agenda (insert f true q c t).0) ((c, units t) ∷ agenda q)
  unfolding insert
  insert-agenda q c t h s =
      let same = insert_items-agenda c t q.items in
      (
        same,
        rw same (place-SortedFrom (pos 0) c (units t) (agenda q) h s),
        rw same (place-perm c (units t) (agenda q)),
      )

  lengthen_first-agenda :
      (b : ℤ) (d : f.Float) (is : List (Item f))
      → agenda_from b (lengthen_first f d is) ≡ agenda_from (b +ℤ units d) is
  unfolding agenda_from lengthen_first
  lengthen_first-agenda b d [] = refl
  lengthen_first-agenda b d (i ∷ is) =
      let same : b +ℤ units (f.add i.delta_time_to_sleep d)
          ≡ (b +ℤ units d) +ℤ units i.delta_time_to_sleep =
        rw units-add (omega int_laws) in
      rw same

  abbrev left_over : List (Item f) → Option (Client × List (Item f)) → List (Item f)
  left_over is none = is
  left_over is (some (d, js)) = js

  left_over-cons :
      (i : Item f) (is : List (Item f)) (r : Option (Client × List (Item f)))
      → left_over (i ∷ is) (elim r [ none ↦ none | some (d, js) ↦ some (d, i ∷ js) ])
        ≡ i ∷ left_over is r
  left_over-cons i is none = refl
  left_over-cons i is (some (d, js)) = refl

  unschedule-agenda :
      (b : ℤ) (c : Client) (is : List (Item f))
      → agenda_from b (left_over is (unschedule f c is)) ≡ drop_client c (agenda_from b is)
  unfolding agenda_from unschedule drop_client
  unschedule-agenda b c [] = refl
  unschedule-agenda b c (i ∷ is) = elim (Bool-cases (is_zero (compare i.client c))) [
    | inl hit ↦ rw hit (lengthen_first-agenda b i.delta_time_to_sleep is)
    | inr miss ↦
        rw (miss, left_over-cons i is (unschedule f c is))
          (ap (λ r. (i.client, b +ℤ units i.delta_time_to_sleep) ∷ r)
            (unschedule-agenda (b +ℤ units i.delta_time_to_sleep) c is))
  ]

  remove_items-agenda :
      (q : Queue f) (c : Client)
      → (remove_all_scheduled f q c).0.items ≡ left_over q.items (unschedule f c q.items)
  unfolding remove_all_scheduled
  remove_items-agenda q c = elim (Option-cases (unschedule f c q.items)) [
    | inl e ↦ rw (e, remove_all_scheduled)
    | inr (d, e) ↦ rw (e, remove_all_scheduled)
  ]

  -- sq_remove_all_scheduled refines the removal of the first entry of a client from the list of
  -- absolute wake-up times: every other client keeps its time. Condition: no float operation
  -- rounds.
  pub remove_all_scheduled-agenda :
      (q : Queue f) (c : Client) → agenda (remove_all_scheduled f q c).0 ≡ drop_client c (agenda q)
  remove_all_scheduled-agenda q c =
      rw (remove_items-agenda q c) (unschedule-agenda (pos 0) c q.items)
