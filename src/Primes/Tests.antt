-- ===== src/Primes/Tests.antt =====
-- The largest prime below nine.
use remote_attestation.Prelude.{ℕ, ◌≡◌, refl, some, arith}
use remote_attestation.Prelude.RaResult.{success}
use remote_attestation.Prelude.Run.{ok}
use remote_attestation.Primes.{closest_prime}
use remote_attestation.Primes.Closest.{IsClosestPrime, closest_prime_lem}
use remote_attestation.Examples.{is_prime}

closest_prime_lem_example :
    (p : ℕ) × (closest_prime is_prime 9 ≡ ok (success, some p)) × IsClosestPrime is_prime 9 p
closest_prime_lem_example = closest_prime_lem is_prime refl 9 (omega arith)
