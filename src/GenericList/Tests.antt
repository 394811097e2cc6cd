-- ===== src/GenericList/Tests.antt =====
-- Lists of clients.
use remote_attestation.Prelude.{ℕ, refl, true, Option, [], ◌∷◌}
use remote_attestation.Prelude.Bytes.{memcmp}
use remote_attestation.Prelude.Run.{Returns}
use remote_attestation.Client.{Client, compare}
use remote_attestation.Client.Compare.{compare-IsEquivalence}
use remote_attestation.GenericList.{GenericList, insert, remove}
use remote_attestation.GenericList.SetView.{IsValid, Removed, insert-IsValid, remove-Removed}

abbrev client : ℕ → Client
client n = record {
  aid = 1 ∷ 2 ∷ [];
  attestator_number = n;
  attestator_id = n;
  sleep_avg_seconds = 10;
  sleep_var_seconds = 5;
  session_id = 0;
}

abbrev clients : GenericList Client
clients = record { items = client 1 ∷ client 2 ∷ []; items_count = 2 }

clients-IsValid : IsValid compare clients
unfolding compare memcmp
clients-IsValid = record { distinct = (refl, (refl, tt)); counted = refl }

insert-IsValid_example : IsValid compare (insert compare true true clients (client 3)).0
insert-IsValid_example = insert-IsValid compare true true clients (client 3) clients-IsValid

remove-Removed_example :
    Returns
      (λ (out : GenericList Client × Option Client).
        Removed compare clients (client 2) out × IsValid compare out.0)
      (remove compare clients (client 2))
remove-Removed_example =
    remove-Removed compare-IsEquivalence clients (client 2) (λ e. cc) clients-IsValid
