-- ===== src/Primes/Closest.antt =====
-- closest_prime of src/ra-additionals/generic_functions.c against the largest prime up to a number.
use remote_attestation.Prelude.{
  ℕ, zero, suc, ◌<◌, ◌≤◌, ◌≡◌, inl, inr, Bool, true, false, some, ltb, Bool-cases, ℕ_discrete,
  arith,
}
use remote_attestation.Prelude.RaResult.{success}
use remote_attestation.Prelude.Run.{ok}
use remote_attestation.Primes.{prime_loop, closest_prime}

-- `p` is the largest prime that is not above `n`.
pub record IsClosestPrime (is_prime : ℕ → Bool) (n p : ℕ) : Type 0 where
  pub prime : is_prime p ≡ true
  pub below : p ≤ n
  pub at_least_two : 2 ≤ p
  pub largest : (q : ℕ) → p < q → q ≤ n → is_prime q ≡ false

-- All that the search needs of BN_is_prime_ex is its answer at 2.
module _ (is_prime : ℕ → Bool) (two : is_prime 2 ≡ true) where
  prime_loop-closest :
      (n : ℕ) → 2 ≤ n → (p : ℕ) × (prime_loop is_prime n ≡ ok p) × IsClosestPrime is_prime n p
  unfolding prime_loop
  prime_loop-closest zero h = absurd (omega arith)
  prime_loop-closest (suc n) h = elim (Bool-cases (is_prime (suc n))) [
    | inl hit ↦ (
      suc n,
      rw hit,
      record {
        prime = hit;
        below = omega arith;
        at_least_two = h;
        largest = λ q a b. absurd (omega arith);
      },
    )
    | inr miss ↦
        let (p, e, c) = prime_loop-closest n (ground (arith, two)) in
        (
          p,
          rw miss e,
          record {
            prime = c.prime;
            below = omega (arith, c.below);
            at_least_two = c.at_least_two;
            largest = λ q a b. elim (ℕ_discrete q (suc n)) [
              | yes last ↦ rw last miss
              | no other ↦ c.largest q a (omega arith)
            ];
          },
        )
  ]

  -- closest_prime of a number that is at least 2 ends, succeeds, and stores the largest number up
  -- to it that the prime test accepts. Condition: the prime test accepts 2.
  pub closest_prime_lem :
      (n : ℕ)
      → 2 ≤ n
      → (p : ℕ) × (closest_prime is_prime n ≡ ok (success, some p)) × IsClosestPrime is_prime n p
  unfolding closest_prime
  closest_prime_lem n h =
      let (p, e, c) = prime_loop-closest n h in
      let enough : ltb n 2 ≡ false = ground arith in (p, rw (closest_prime, enough, e), c)
