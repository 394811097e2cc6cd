-- ===== src/Preparation/Places.antt =====
-- Which places of the area the random walk of ra_prepare_data takes, by the version of decode_nonce.
use native.Mathlib.Nat.{mod-eq-zero_of_dvd, dvd-mul_right}
use remote_attestation.Prelude.{
  ℕ, ◌*◌, ◌%◌, ◌≤◌, ◌<◌, ◌≡◌, ◌≢◌, ◌⊎◌, sym, ap, ◌∙◌, subst, Bool, true, false, some, List, ◌==◌,
  arith, dec_lt,
}
use remote_attestation.Prelude.RaResult.{success}
use remote_attestation.Prelude.Run.{ok, Returns-ok}
use remote_attestation.DataTable.{Table}
use remote_attestation.Primes.Closest.{IsClosestPrime}
use remote_attestation.Primes.Euclid.{IsPrime, multiples_differ}
use remote_attestation.Nonce.{DecodedInfo, Version, v1, v2, v3, v4, decode_nonce}
use remote_attestation.Nonce.Decode.{IsReady, Decodes, least_size, decode_nonce-Decodes}
use remote_attestation.Preparation.{calculate_index}

-- The prime test accepts primes only.
abbrev pub IsSound : (ℕ → Bool) → Type 0
IsSound is_prime = (p : ℕ) → is_prime p ≡ true → IsPrime p

calculate_index-some : (g i m : ℕ) → 0 < m → (calculate_index g i m).1 ≡ (g * i) % m
unfolding calculate_index
calculate_index-some g i m pos =
    let some_modulus : (m == 0) ≡ false = ground arith in rw some_modulus

module _ (is_prime : ℕ → Bool) (two : is_prime 2 ≡ true) (three : is_prime 3 ≡ true) where
  -- What is known of decoded values.
  pub decoded :
      (v : Version) (raw : ℕ) (t : Table) (nonce : List ℕ) {info : DecodedInfo}
      → IsReady (least_size v) t nonce
      → decode_nonce is_prime v true raw t ≡ ok (success, some info)
      → Decodes is_prime v t nonce (success, some info)
  decoded v raw t nonce {info} ready e =
      let (out, ends, d) =
        Returns-ok _ _ (decode_nonce-Decodes is_prime two v raw t nonce three ready) in
      let same : out ≡ (success, some info) = cc in subst (Decodes is_prime v t nonce) same d

  prime_walk :
      (info : DecodedInfo)
      → IsSound is_prime
      → is_prime info.actual_buffer_size ≡ true
      → 0 < info.generator
      → info.generator < info.actual_buffer_size
      → (i j : ℕ) → i < j
      → j < info.actual_buffer_size
      → calculate_index info.generator i info.actual_buffer_size
        ≢ calculate_index info.generator j info.actual_buffer_size
  prime_walk info sound prime pos below i j lt hj e =
      let same =
        sym (calculate_index-some info.generator i info.actual_buffer_size (omega (arith, below)))
        ∙ ap (λ x. x.1) e
        ∙ calculate_index-some info.generator j info.actual_buffer_size (omega (arith, below)) in
      let met : i ≡ j =
        multiples_differ info.actual_buffer_size info.generator i j
          (sound info.actual_buffer_size prime) pos below (omega (arith, lt, hj)) hj same in
      omega (arith, met, lt)

  -- With the values that version 1 or version 4 of decode_nonce decodes, calculate_index gives
  -- different indices for different rounds of the random walk. Conditions: the prime test accepts
  -- 2 and 3, and primes only, the table is ready, and the actual size is above 2.
  pub place-differs :
      (v : Version) (raw : ℕ) (t : Table) (nonce : List ℕ) (info : DecodedInfo)
      → (v ≡ v1) ⊎ (v ≡ v4)
      → IsSound is_prime
      → IsReady (least_size v) t nonce
      → decode_nonce is_prime v true raw t ≡ ok (success, some info)
      → 2 < info.actual_buffer_size
      → (i j : ℕ) → i < j
      → j < info.actual_buffer_size
      → calculate_index info.generator i info.actual_buffer_size
        ≢ calculate_index info.generator j info.actual_buffer_size
  place-differs v1 raw t nonce info c sound ready e big i j lt hj same =
      let (done, d, (prime, below), named) = decoded v1 raw t nonce ready e in
      prime_walk info sound prime.prime (omega (arith, d.generates)) (below big) i j lt hj same
  place-differs v4 raw t nonce info c sound ready e big i j lt hj same =
      let (done, d, (prime, generator), named) = decoded v4 raw t nonce ready e in
      prime_walk info sound prime.prime (omega (arith, d.generates))
        (omega (arith, generator.below)) i j lt hj same
  place-differs v2 raw t nonce info c sound ready e big i j lt hj same = absurd (ground arith)
  place-differs v3 raw t nonce info c sound ready e big i j lt hj same = absurd (ground arith)

  closest_itself : (n p : ℕ) → IsClosestPrime is_prime n p → is_prime n ≡ true → p ≡ n
  closest_itself n p c prime = elim (dec_lt p n) [
    | yes lt ↦ absurd (ground (arith, c.largest n lt))
    | no le ↦ omega (arith, c.below)
  ]

  stands_still :
      (info : DecodedInfo)
      → info.actual_buffer_size ≡ info.buffer_size
      → IsClosestPrime is_prime info.buffer_size info.generator
      → is_prime info.buffer_size ≡ true
      → 2 ≤ info.actual_buffer_size
      → (i : ℕ) → (calculate_index info.generator i info.actual_buffer_size).1 ≡ 0
  stands_still info whole c prime some_bytes i =
      let same = closest_itself info.buffer_size info.generator c prime in
      let zero_place : (info.actual_buffer_size * i) % info.actual_buffer_size ≡ 0 =
        mod-eq-zero_of_dvd info.actual_buffer_size (dvd-mul_right info.actual_buffer_size i) in
      let start =
        calculate_index-some info.generator i info.actual_buffer_size (omega (arith, some_bytes)) in
      start ∙ rw (same, ← whole) zero_place

  -- With the values that version 2 or version 3 of decode_nonce decodes for an area whose size
  -- passes the prime test, calculate_index gives the index 0 for every round of the random walk.
  -- Conditions: the prime test accepts 2 and 3, and the table is ready.
  pub place-constant :
      (v : Version) (raw : ℕ) (t : Table) (nonce : List ℕ) (info : DecodedInfo)
      → (v ≡ v2) ⊎ (v ≡ v3)
      → IsReady (least_size v) t nonce
      → decode_nonce is_prime v true raw t ≡ ok (success, some info)
      → is_prime info.buffer_size ≡ true
      → (i : ℕ) → (calculate_index info.generator i info.actual_buffer_size).1 ≡ 0
  place-constant v2 raw t nonce info c ready e prime =
      let (done, d, (whole, closest), named) = decoded v2 raw t nonce ready e in
      stands_still info whole closest prime (omega (arith, d.some_bytes))
  place-constant v3 raw t nonce info c ready e prime =
      let (done, d, (whole, closest), named) = decoded v3 raw t nonce ready e in
      stands_still info whole closest prime (omega (arith, d.some_bytes))
  place-constant v1 raw t nonce info c ready e prime = absurd (ground arith)
  place-constant v4 raw t nonce info c ready e prime = absurd (ground arith)
