-- ===== src/Primes.antt =====
-- src/ra-additionals/generic_functions.c: the largest prime that is not above a number. OpenSSL's test
-- BN_is_prime_ex is the argument `is_prime`, on the numbers that are not negative; a negative number
-- is no prime to it, so a search that passes 0 never ends.
pub mod Closest
pub mod Euclid
mod Tests
use remote_attestation.Prelude.{
  ℕ, zero, suc, Bool, true, false, Option, none, some, ltb, if◌then◌else◌,
}
use remote_attestation.Prelude.RaResult.{RaResult, success, error_generic}
use remote_attestation.Prelude.Run.{Run, ok, diverges}

module _ (is_prime : ℕ → Bool) where
  -- `while (1)`, downwards from `n`.
  pub prime_loop : ℕ → Run ℕ
  prime_loop zero = if is_prime zero then ok zero else diverges
  prime_loop (suc n) = let rest = prime_loop n in if is_prime (suc n) then ok (suc n) else rest

  pub found_prime : Run ℕ → Run (RaResult × Option ℕ)
  found_prime (ok p) = ok (success, some p)
  found_prime _ = diverges

  -- closest_prime: the result and what it stores through `out`, nothing on an error.
  unfoldable pub closest_prime : ℕ → Run (RaResult × Option ℕ)
  unfolding prime_loop found_prime
  closest_prime n =
      let p = prime_loop n in if ltb n 2 then ok (error_generic, none) else found_prime p
