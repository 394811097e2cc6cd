-- ===== src/Manager/Assignment.antt =====
-- The connection listener on a client that connects: which manager gets it, and its session.
use remote_attestation.Prelude.{
  ℕ, zero, suc, ◌+◌, ◌≤◌, ◌<◌, ◌≡◌, ◌≢◌, refl, ap, ◌∙◌, inl, inr, Bool, true, Option, some, List,
  [], ◌∷◌, ltb, Bool-cases, get_elem?, take, All, arith,
}
use remote_attestation.Prelude.Bytes.{parse_hex}
use remote_attestation.Prelude.RaResult.{success}
use remote_attestation.Prelude.Run.{Returns, returns, Returns-ok}
use remote_attestation.Client.{Client, create, set_session_id}
use remote_attestation.Database.Tables.{
  Database, Server, IsUp, ReactionStatus, reaction_status_unknown,
}
use remote_attestation.Database.Lookup.{Parameters, get_attestation_parameters, set_reaction_status}
use remote_attestation.Database.Sessions.{get_active_session}
use remote_attestation.Database.Active.{started, start_session-started, get_active_started}
use remote_attestation.Manager.Routine.{Action, client_up}
use remote_attestation.Manager.Listener.{
  Mailbox, AsclResult, ascl_success, Calls, message_open, search, least_loaded, pass, pass_to,
  opened, handle, known, dispatch,
}

All-weaken :
    {P Q : Mailbox → Type 0} (xs : List Mailbox) → ((x : Mailbox) → P x → Q x) → All P xs → All Q xs
All-weaken [] w h = tt
All-weaken (x ∷ xs) w h = (w x h.0, All-weaken xs w h.1)

-- The manager of a number has the fewest clients, and those before it have more.
pub record IsFirstLeast (ms : List Mailbox) (i : ℕ) : Type 0 where
  pub manager : Mailbox
  pub at : get_elem? ms i ≡ some manager
  pub least : All (λ m. manager.clients_count ≤ m.clients_count) ms
  pub first : All (λ m. manager.clients_count < m.clients_count) (take i ms)

-- The outcomes of the search with a candidate.
data Searched (i i_min min_count : ℕ) (ms : List Mailbox) : ℕ → Type 0 where
  kept : All (λ m. min_count ≤ m.clients_count) ms → Searched i i_min min_count ms i_min
  changed :
      {j r : ℕ} (l : IsFirstLeast ms j)
      → l.manager.clients_count < min_count
      → r ≡ i + j
      → Searched i i_min min_count ms r

step_better :
    {i i_min min_count : ℕ} {m : Mailbox} {ms : List Mailbox} {r : ℕ}
    → m.clients_count < min_count
    → Searched (i + 1) i m.clients_count ms r
    → Searched i i_min min_count (m ∷ ms) r
step_better {i} {i_min} {min_count} {m} {ms} h (kept least) =
    changed {j = 0} (record { manager = m; at = refl; least = (omega arith, least); first = tt }) h
      (omega arith)
step_better {i} {i_min} {min_count} {m} {ms} h (changed {j} l less e) =
    changed {j = suc j}
      (record {
        manager = l.manager;
        at = l.at;
        least = (omega (arith, less), l.least);
        first = (less, l.first);
      })
      (omega (arith, less)) (omega (arith, e))

step_same :
    {i i_min min_count : ℕ} {m : Mailbox} {ms : List Mailbox} {r : ℕ}
    → min_count ≤ m.clients_count
    → Searched (i + 1) i_min min_count ms r
    → Searched i i_min min_count (m ∷ ms) r
step_same h (kept least) = kept (h, least)
step_same {i} {i_min} {min_count} {m} {ms} h (changed {j} l less e) =
    changed {j = suc j}
      (record {
        manager = l.manager;
        at = l.at;
        least = (omega (arith, less), l.least);
        first = (omega (arith, less), l.first);
      })
      less (omega (arith, e))

search-Searched :
    (i i_min min_count : ℕ) (ms : List Mailbox)
    → Searched i i_min min_count ms (search i i_min min_count ms)
unfolding search
search-Searched i i_min min_count [] = kept tt
search-Searched i i_min min_count (m ∷ ms) = elim (Bool-cases (ltb m.clients_count min_count)) [
  | inl better ↦
      rw better (step_better (ground arith) (search-Searched (i + 1) i m.clients_count ms))
  | inr same ↦ rw same (step_same (ground arith) (search-Searched (i + 1) i_min min_count ms))
]

first_least :
    (m : Mailbox) (ms : List Mailbox) {r : ℕ}
    → Searched 1 0 m.clients_count ms r
    → IsFirstLeast (m ∷ ms) r
first_least m ms (kept least) = record {
  manager = m;
  at = refl;
  least = (omega arith, least);
  first = tt;
}
first_least m ms (changed {j} l less e) =
    let next : 1 + j ≡ suc j = omega arith in
    rw (e, next)
      (record {
        manager = l.manager;
        at = l.at;
        least = (omega (arith, less), l.least);
        first = (less, l.first);
      })

least_loaded-IsFirstLeast : (ms : List Mailbox) → ms ≢ [] → IsFirstLeast ms (least_loaded ms)
unfolding least_loaded
least_loaded-IsFirstLeast [] ne = absurd (ne refl)
least_loaded-IsFirstLeast (m ∷ ms) ne = first_least m ms (search-Searched 1 0 m.clients_count ms)

-- Only the mailbox of the number is written.
pub record IsPassed (i : ℕ) (a : Action) (c : Option Client) (ms ms' : List Mailbox) : Type 0 where
  pub passed : (m : Mailbox) → get_elem? ms i ≡ some m → get_elem? ms' i ≡ some (pass a c m)
  pub others : (j : ℕ) → j ≢ i → get_elem? ms' j ≡ get_elem? ms j

here-IsPassed :
    (a : Action) (c : Option Client) (m : Mailbox) (ms : List Mailbox)
    → IsPassed 0 a c (m ∷ ms) (pass a c m ∷ ms)
here-IsPassed a c m ms = record { passed = written; others = others }
  where
    written : (n : Mailbox) → some m ≡ some n → some (pass a c m) ≡ some (pass a c n)
    written n at = let same : m ≡ n = cc in ap (λ x. some (pass a c x)) same

    others : (j : ℕ) → j ≢ 0 → get_elem? (pass a c m ∷ ms) j ≡ get_elem? (m ∷ ms) j
    others zero ne = absurd (ne refl)
    others (suc j) ne = refl

there-IsPassed :
    {i : ℕ} {a : Action} {c : Option Client} {ms ms' : List Mailbox} (m : Mailbox)
    → IsPassed i a c ms ms'
    → IsPassed (suc i) a c (m ∷ ms) (m ∷ ms')
there-IsPassed {i} {a} {c} {ms} {ms'} m p = record { passed = p.passed; others = others }
  where
    others : (j : ℕ) → j ≢ suc i → get_elem? (m ∷ ms') j ≡ get_elem? (m ∷ ms) j
    others zero ne = refl
    others (suc j) ne = p.others j (λ e. ne (ap suc e))

pass_to-IsPassed :
    (i : ℕ) (a : Action) (c : Option Client) (ms : List Mailbox) {m : Mailbox}
    → get_elem? ms i ≡ some m
    → Returns (IsPassed i a c ms) (pass_to i a c ms)
unfolding pass_to
pass_to-IsPassed i a c [] e = cc
pass_to-IsPassed zero a c (m ∷ ms) e = returns (here-IsPassed a c m ms)
pass_to-IsPassed (suc i) a c (m ∷ ms) e =
    let (rest, written, p) = Returns-ok _ _ (pass_to-IsPassed i a c ms e) in
    rw written (returns (there-IsPassed m p))

-- The result of a client that connects.
pub record IsAssigned (s : Server) (aid : List ℕ) (number : ℕ) (p : Parameters) (ms : List Mailbox)
    (out : AsclResult × Database × List Mailbox) : Type 0 where
  pub accepted : out.0 ≡ ascl_success
  pub manager : ℕ
  pub least : IsFirstLeast ms manager
  pub session_id : ℕ
  pub written :
      IsPassed manager client_up
        (some (record {
          aid = parse_hex aid;
          attestator_number = number;
          attestator_id = p.attestator_id;
          sleep_avg_seconds = p.sleep_avg;
          sleep_var_seconds = p.sleep_var;
          session_id = session_id;
        }))
        ms
        out.2
  pub active : get_active_session s p.attestator_id out.1 ≡ (success, some session_id)

-- Every call on the way succeeds.
pub record Succeed (calls : Calls) : Type 0 where
  pub session : IsUp calls.session
  pub reaction : IsUp calls.reaction
  pub malloc : calls.malloc ≡ true

reaction_session :
    (s s' : Server) (i a : ℕ) (r : ReactionStatus) (db : Database)
    → get_active_session s a (set_reaction_status s' i r db).0 ≡ get_active_session s a db
unfolding get_active_session set_reaction_status
reaction_session s s' i a r db = ground arith

reaction_set :
    (s : Server) (i : ℕ) (r : ReactionStatus) (db : Database)
    → IsUp s
    → (set_reaction_status s i r db).1 ≡ success
unfolding set_reaction_status
reaction_set s i r db up = rw (up.init, up.connect, up.accepts 0) refl

-- A client that connects, whose attestator the database knows, is accepted when every call
-- succeeds: a session is opened for it, which is from then on the active one of its attestator,
-- and the client, with this session, goes as client_up to the manager with the fewest clients, the
-- first of them, while the mailboxes of all others stay as they are. Condition: there is a
-- manager.
pub dispatch-IsAssigned :
    (same_aid : List ℕ → List ℕ → Bool) (calls : Calls) (aid : List ℕ) (number : ℕ) (p : Parameters)
    (ms : List Mailbox) (db : Database) (s : Server)
    → Succeed calls
    → IsUp s
    → ms ≢ []
    → get_attestation_parameters same_aid calls.parameters aid number db ≡ (success, some p)
    → Returns (IsAssigned s aid number p ms) (dispatch same_aid calls message_open aid number ms db)
unfolding dispatch known handle opened set_session_id create
dispatch-IsAssigned same_aid calls aid number p ms db s up reader ne e =
    let l = least_loaded-IsFirstLeast ms ne in
    let client : Client = record {
      aid = parse_hex aid;
      attestator_number = number;
      attestator_id = p.attestator_id;
      sleep_avg_seconds = p.sleep_avg;
      sleep_var_seconds = p.sleep_var;
      session_id = db.next_session_id;
    } in
    let (ms', passed, w) =
      Returns-ok _ _ (pass_to-IsPassed (least_loaded ms) client_up (some client) ms l.at) in
    let open_db = started p.attestator_id db in
    let set =
      reaction_set calls.reaction p.application_id reaction_status_unknown open_db up.reaction in
    rw
      (e, up.malloc, start_session-started calls.session p.attestator_id db up.session, set, passed)
      (returns (record {
        accepted = refl;
        manager = least_loaded ms;
        least = l;
        session_id = db.next_session_id;
        written = w;
        active =
            reaction_session s calls.reaction p.application_id p.attestator_id
              reaction_status_unknown open_db
            ∙ get_active_started s p.attestator_id db reader;
      }))
