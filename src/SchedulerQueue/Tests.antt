-- ===== src/SchedulerQueue/Tests.antt =====
-- A queue of two clients, with the integers in place of the floats.
use mathlib.Core.List.{Perm}
use remote_attestation.Prelude.{ℕ, ◌≡◌, true, [], ◌∷◌, arith}
use remote_attestation.Prelude.Int.{pos, ◌+ℤ◌}
use remote_attestation.Examples.{exact, exact-IsExact}
use remote_attestation.Client.{Client}
use remote_attestation.SchedulerQueue.{Queue, insert, remove_all_scheduled}
use remote_attestation.SchedulerQueue.Schedule.{
  agenda, agenda_from, place, SortedFrom, drop_client, insert-agenda, remove_all_scheduled-agenda,
}

abbrev client : ℕ → Client
client n = record {
  aid = 1 ∷ 2 ∷ [];
  attestator_number = n;
  attestator_id = n;
  sleep_avg_seconds = 10;
  sleep_var_seconds = 5;
  session_id = 0;
}

abbrev queue : Queue exact
queue = record {
  items =
      record { client = client 1; delta_time_to_sleep = pos 3 }
      ∷ record { client = client 2; delta_time_to_sleep = pos 4 }
      ∷ [];
  items_count = 2;
}

insert-agenda_example :
    (agenda exact exact-IsExact (insert exact true queue (client 3) (pos 5)).0
      ≡ place (client 3) (pos 5) (agenda exact exact-IsExact queue))
    × SortedFrom (pos 0) (agenda exact exact-IsExact (insert exact true queue (client 3) (pos 5)).0)
    × Perm
        (agenda exact exact-IsExact (insert exact true queue (client 3) (pos 5)).0)
        ((client 3, pos 5) ∷ agenda exact exact-IsExact queue)
unfolding agenda_from ◌+ℤ◌
insert-agenda_example =
    insert-agenda exact exact-IsExact queue (client 3) (pos 5) (omega arith)
      (omega arith, (omega arith, tt))

remove_all_scheduled-agenda_example :
    agenda exact exact-IsExact (remove_all_scheduled exact queue (client 1)).0
    ≡ drop_client (client 1) (agenda exact exact-IsExact queue)
remove_all_scheduled-agenda_example =
    remove_all_scheduled-agenda exact exact-IsExact queue (client 1)
