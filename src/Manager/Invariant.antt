-- ===== src/Manager/Invariant.antt =====
-- What the rounds of an actual manager keep: the clients that are served are those that are scheduled.
use remote_attestation.Prelude.{
  ℕ, ◌+◌, ◌<◌, ◌≡◌, refl, ap, sym, ◌∙◌, subst, inl, inr, true, false, Option, some, List, [], ◌∷◌,
  ◌==◌, if◌then◌else◌, Bool-cases, any, All, arith,
}
use remote_attestation.Prelude.Int.{is_zero}
use remote_attestation.Prelude.Float.{FloatOps}
use remote_attestation.Prelude.Run.{ok, Returns, returns, Returns-ok}
use remote_attestation.Client.{Client, compare}
use remote_attestation.Client.Compare.{compare-IsEquivalence}
use remote_attestation.GenericList.{is_containing, insert, count}
use remote_attestation.GenericList.Laws.{Unlinks, here, there}
use remote_attestation.GenericList.SetView.{IsValid}
use remote_attestation.GenericList.Unlinking.{remove-IsUnlinked}
use remote_attestation.SchedulerQueue.{Queue}
use remote_attestation.SchedulerQueue as SchedulerQueue
use remote_attestation.SchedulerQueue.Clients.{
  times, clients, IsCounted, insert-clients, Removed, empty, first, update_time_unslept-clients,
  remove_all_scheduled-clients,
}
use remote_attestation.Database.Tables.{Database}
use remote_attestation.Database.Unused.{NoReuse}
use remote_attestation.Manager.Request.{Event}
use remote_attestation.Manager.Serve.{Outside, attest_client_at_startup}
use remote_attestation.Manager.Fresh.{serve_client-IsServed}
use remote_attestation.Manager.Sleep.{sleep_range, compute_random_sleep}
use remote_attestation.Manager.Routine.{
  ActualManager, Startup, reschedule, serve, after_wait, after_insert, on_client_up, contains,
  on_client_down,
}

times-any :
    (k : Client) (cs : List Client) → any (λ c. is_zero (compare c k)) cs ≡ true → 0 < times k cs
unfolding times
times-any k [] h = absurd cc
times-any k (c ∷ cs) h = ground (arith, times-any k cs)

times-none :
    (k : Client) (cs : List Client) → any (λ c. is_zero (compare c k)) cs ≡ false → times k cs ≡ 0
unfolding times
times-none k [] h = refl
times-none k (c ∷ cs) h = ground (arith, times-none k cs)

times-Unlinks :
    {key y : Client} {xs ys : List Client} (k : Client)
    → Unlinks compare key y xs ys
    → times k xs ≡ (if is_zero (compare y k) then 1 else 0) + times k ys
unfolding times
times-Unlinks k (here hit) = refl
times-Unlinks k (there miss u) = ground (arith, times-Unlinks k u)

-- Two clients that a key stands for are the same to every key.
same_times :
    (d y c k : Client)
    → is_zero (compare d c) ≡ true
    → is_zero (compare y c) ≡ true
    → is_zero (compare d k) ≡ is_zero (compare y k)
same_times d y c k h h' =
    let e = compare-IsEquivalence in
    ground (
      arith,
      e.trans d c y h (e.symm y c h'),
      e.trans y c d h' (e.symm d c h),
      e.trans d y k,
      e.trans y d k,
    )

-- A client for which no round faults.
pub record IsServable (c : Client) : Type 0 where
  pub attestator : c.attestator_number < 10
  pub sleep : (sleep_range c == 0) ≡ false

module _ (f : FloatOps) (of_milliseconds : ℕ → f.Float) where
  -- The served clients are distinct and counted, for the listener too, and each is scheduled, once.
  pub record IsConsistent (m : ActualManager f of_milliseconds) : Type 0 where
    pub served : IsValid compare m.clients_list
    pub counted : m.clients_count ≡ m.clients_list.items_count
    pub queued : IsCounted f m.scheduled_clients
    pub scheduled :
        (k : Client) → times k (clients f m.scheduled_clients) ≡ times k m.clients_list.items
    pub servable : All IsServable (clients f m.scheduled_clients)

  abbrev pub Keeps : ActualManager f of_milliseconds × Database × List Event → Type 0
  Keeps out = IsConsistent out.0

  compute_random_sleep-ends :
      (rd : ℕ) (c : Client) → IsServable c → Returns (λ n. Unit {0}) (compute_random_sleep rd c)
  unfolding compute_random_sleep
  compute_random_sleep-ends rd c s = rw s.sleep (returns tt)

  -- sq_insert puts a client back that was taken out.
  reschedule-IsConsistent :
      (m : ActualManager f of_milliseconds) (q : Queue f) (c : Client) (t : f.Float)
      → IsConsistent m
      → clients f m.scheduled_clients ≡ c ∷ clients f q
      → IsCounted f q
      → IsConsistent (reschedule f of_milliseconds true c t (record m { scheduled_clients = q }))
  unfolding reschedule times
  reschedule-IsConsistent m q c t v e n =
      let all = subst (All IsServable) e v.servable in
      let (same, queued, servable) = insert-clients f IsServable q c t n all.0 all.1 in
      record {
        served = v.served;
        counted = v.counted;
        queued = queued;
        scheduled = λ k. same k ∙ (sym (ap (times k) e) ∙ v.scheduled k);
        servable = servable;
      }

  serve-IsConsistent :
      (o : Outside) (rd : ℕ) (c : Client) (m : ActualManager f of_milliseconds) (q : Queue f)
      (db : Database)
      → IsConsistent m
      → clients f m.scheduled_clients ≡ c ∷ clients f q
      → IsCounted f q
      → o.request_server.init ≡ true
      → NoReuse db.requests
      → Returns Keeps (serve f of_milliseconds o rd true c (record m { scheduled_clients = q }) db)
  unfolding serve
  serve-IsConsistent o rd c m q db v e n i once =
      let servable = (subst (All IsServable) e v.servable).0 in
      let ((db', es, served), ends, left) =
        Returns-ok _ _ (serve_client-IsServed o c db i servable.attestator once) in
      let (ms, slept, done) = Returns-ok _ _ (compute_random_sleep-ends rd c servable) in
      rw ends (elim (Bool-cases served) [
        | inl well ↦ rw (well, slept) (returns (reschedule-IsConsistent m q c _ v e n))
        | inr badly ↦ rw badly (returns (reschedule-IsConsistent m q c _ v e n))
      ])

  pub after_wait-IsConsistent :
      (o : Outside) (rd : ℕ) (m : ActualManager f of_milliseconds) (db : Database)
      {r : Queue f × Option Client}
      → IsConsistent m
      → o.request_server.init ≡ true
      → NoReuse db.requests
      → Removed f m.scheduled_clients r
      → Returns Keeps (after_wait f of_milliseconds o rd true r m db)
  unfolding after_wait
  after_wait-IsConsistent o rd m db v i once empty = returns v
  after_wait-IsConsistent o rd m db v i once (first {q'} c e n) =
      serve-IsConsistent o rd c m q' db v e n i once

  -- A new client is listed and scheduled.
  after_insert-IsConsistent :
      (rd : ℕ) (c : Client) (m : ActualManager f of_milliseconds)
      → IsConsistent m
      → IsServable c
      → Returns IsConsistent
          (after_insert f of_milliseconds rd true c (insert compare true true m.clients_list c) m)
  unfolding after_insert insert times is_containing reschedule count
  after_insert-IsConsistent rd c m v servable =
      elim (Bool-cases (is_containing compare m.clients_list c)) [
        | inl present ↦ rw present (returns v)
        | inr absent ↦
            let (ms, slept, done) = Returns-ok _ _ (compute_random_sleep-ends rd c servable) in
            let (same, queued, all) =
              insert-clients f IsServable m.scheduled_clients c (of_milliseconds ms) v.queued
                servable v.servable in
            rw (absent, slept)
              (returns (record {
                served = record {
                  distinct = (absent, v.served.distinct);
                  counted = omega (arith, v.served.counted);
                };
                counted = refl;
                queued = queued;
                scheduled = λ k.
                    same k ∙ ap (λ n. (if is_zero (compare c k) then 1 else 0) + n) (v.scheduled k);
                servable = all;
              }))
      ]

  -- A signal updates the time of the first client.
  pub updated-IsConsistent :
      (left : f.Float) (m : ActualManager f of_milliseconds)
      → IsConsistent m
      → IsConsistent (record m {
        scheduled_clients = (SchedulerQueue.update_time_unslept f m.scheduled_clients left).0;
      })
  updated-IsConsistent left m v =
      let (same, queued) = update_time_unslept-clients f m.scheduled_clients left in
      record {
        served = v.served;
        counted = v.counted;
        queued = queued v.queued;
        scheduled = λ k. rw same (v.scheduled k);
        servable = rw same v.servable;
      }

  pub on_client_up-IsConsistent :
      (startup : Startup) (rd : ℕ) (c : Client) (m : ActualManager f of_milliseconds)
      (db : Database) {out : Database × List Event}
      → IsConsistent m
      → IsServable c
      → attest_client_at_startup startup.server startup.malloc startup.runs c db ≡ ok out
      → Returns Keeps (on_client_up f of_milliseconds startup rd true true true (some c) m db)
  unfolding on_client_up
  on_client_up-IsConsistent startup rd c m db v servable ends =
      let (m', inserted, v') = Returns-ok _ _ (after_insert-IsConsistent rd c m v servable) in
      rw (ends, inserted) (returns v')

  -- A client that is down is neither listed nor scheduled any more.
  pub on_client_down-IsConsistent :
      (c : Client) (m : ActualManager f of_milliseconds) (db : Database)
      → IsConsistent m
      → m.passing_client ≡ some c
      → Returns Keeps (on_client_down f of_milliseconds m db)
  unfolding on_client_down contains is_containing count
  on_client_down-IsConsistent c m db v e =
      elim (Bool-cases (any (λ x. is_zero (compare x c)) m.clients_list.items)) [
        | inr absent ↦
            rw (e, absent)
              (returns (record {
                served = v.served;
                counted = v.counted;
                queued = v.queued;
                scheduled = v.scheduled;
                servable = v.servable;
              }))
        | inl present ↦
            let some_client : 0 < times c (clients f m.scheduled_clients) =
              rw (v.scheduled c) (times-any c m.clients_list.items present) in
            let (d, hit, gone, queued, all) =
              remove_all_scheduled-clients f IsServable m.scheduled_clients c v.queued some_client
                v.servable in
            let (out, removed, u) =
              Returns-ok _ _ (remove-IsUnlinked compare m.clients_list c v.served present) in
            rw (e, present, removed)
              (returns (record {
                served = u.is_valid;
                counted = refl;
                queued = queued;
                scheduled = λ k. ground (
                  arith,
                  gone k,
                  v.scheduled k,
                  times-Unlinks k u.unlinks,
                  same_times d u.item c k hit u.matches,
                );
                servable = all;
              }))
      ]
