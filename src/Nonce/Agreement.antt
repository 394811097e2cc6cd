-- ===== src/Nonce/Agreement.antt =====
-- decode_nonce on two tables with the same areas and the same nonce.
use remote_attestation.Prelude.{ℕ, ◌≤◌, ◌≡◌, refl, sym, ◌∙◌, Bool, true, some, List, arith}
use remote_attestation.Prelude.Run.{ok}
use remote_attestation.DataTable.{Table, get_memory_area, get_labels_list}
use remote_attestation.Primes.Closest.{closest_prime_lem}
use remote_attestation.Nonce.{
  Version, v1, v2, v3, v4, chosen_area, decode1, decode_chosen, decode_nonce,
}
use remote_attestation.Nonce.Decode.{IsReady, least_size, chosen_area_lem}

-- What two tables share when they hold the same areas and the same nonce.
pub record IsAgreed (t t' : Table) : Type 0 where
  pub areas : t'.areas ≡ t.areas
  pub counts : t'.memory_areas_count ≡ t.memory_areas_count

chosen_area-same :
    (t t' : Table) (nonce : List ℕ)
    → IsAgreed t t'
    → t'.current_nonce_size ≡ t.current_nonce_size
    → chosen_area true t' nonce ≡ chosen_area true t nonce
unfolding chosen_area get_labels_list get_memory_area
chosen_area-same t t' nonce g e = rw (g.areas, g.counts, e) refl

module _ (is_prime : ℕ → Bool) (two : is_prime 2 ≡ true) (v : Version) where
  -- The value that is never set is not used when the area is large enough.
  decode1-raw :
      (raw raw' label size : ℕ) (nonce : List ℕ)
      → 2 ≤ size
      → decode1 is_prime raw nonce label size ≡ decode1 is_prime raw' nonce label size
  unfolding decode1
  decode1-raw raw raw' label size nonce big =
      let (p, e, c) = closest_prime_lem is_prime two size big in rw e refl

  decode_chosen-raw :
      (v' : Version) (raw raw' label size : ℕ) (nonce : List ℕ)
      → 2 ≤ size
      → decode_chosen is_prime v' raw nonce label size
        ≡ decode_chosen is_prime v' raw' nonce label size
  unfolding decode_chosen
  decode_chosen-raw v1 raw raw' label size nonce big = decode1-raw raw raw' label size nonce big
  decode_chosen-raw v2 raw raw' label size nonce big = refl
  decode_chosen-raw v3 raw raw' label size nonce big = refl
  decode_chosen-raw v4 raw raw' label size nonce big = refl

  at_least : (v' : Version) (size : ℕ) → least_size v' ≤ size → 2 ≤ size
  at_least v1 size h = h
  at_least v2 size h = h
  at_least v3 size h = h
  at_least v4 size h = omega arith

  -- Two tables with the same areas and the same nonce decode the same, whatever the variables that
  -- decode_nonce may leave unset hold.
  pub decode_nonce-same :
      (raw raw' : ℕ) (t t' : Table) (nonce : List ℕ)
      → IsReady (least_size v) t nonce
      → IsReady (least_size v) t' nonce
      → IsAgreed t t'
      → decode_nonce is_prime v true raw' t' ≡ decode_nonce is_prime v true raw t
  unfolding decode_nonce
  decode_nonce-same raw raw' t t' nonce r r' g =
      let (a, chosen, here, found, av, big) = chosen_area_lem (least_size v) t nonce r in
      let chosen' : chosen_area true t' nonce ≡ ok (some (a.label, a.total_size)) =
        chosen_area-same t t' nonce g (r'.nonce_sized ∙ sym r.nonce_sized) ∙ chosen in
      let e : decode_nonce is_prime v true raw t
          ≡ decode_chosen is_prime v raw nonce a.label a.total_size =
        ground (arith, r.nonce_set, chosen) in
      let e' : decode_nonce is_prime v true raw' t'
          ≡ decode_chosen is_prime v raw' nonce a.label a.total_size =
        ground (arith, r'.nonce_set, chosen') in
      e'
      ∙ decode_chosen-raw v raw' raw a.label a.total_size nonce (at_least v a.total_size big)
      ∙ sym e
