-- ===== src/Manager/Sleep.antt =====
-- compute_random_sleep of src/server-components/manager.c, in milliseconds: the argument of its last
-- conversion to float and division by 1000. `rd` is the result of rand.
use remote_attestation.Prelude.{
  ℕ, ◌+◌, ◌-◌, ◌*◌, ◌%◌, ◌^◌, ◌≤◌, ◌<◌, ◌≡◌, false, ◌==◌, if◌then◌else◌, arith,
}
use native.Mathlib.Nat.{mod-lt}
use remote_attestation.Prelude.Run.{Run, ok, fault, Returns, returns}
use remote_attestation.Client.{Client}

-- `2 * sleep_var_seconds * 1000` of uint32_t, a divisor.
abbrev pub sleep_range : Client → ℕ
sleep_range c = 2 * c.sleep_var_seconds * 1000 % 2 ^ 32

unfoldable pub compute_random_sleep : (rd : ℕ) → Client → Run ℕ
compute_random_sleep rd c =
    if sleep_range c == 0
    then fault
    else ok (
        (1000 * (c.sleep_avg_seconds + c.sleep_var_seconds) % 2 ^ 32 + 2 ^ 32 - rd % sleep_range c)
        % 2 ^ 32)

-- A difference of uint32_t that is not negative.
no_wrap :
    (total k : ℕ) → k ≤ total → total < 2 ^ 32 → (total % 2 ^ 32 + 2 ^ 32 - k) % 2 ^ 32 ≡ total - k
no_wrap total k h s = omega arith

-- compute_random_sleep does not wrap: for every result of rand it lies above 1000 times the
-- average less the variation, and is at most 1000 times their sum. Conditions: the variation is
-- positive and at most the average, and 1000 times their sum fits 32 bits.
pub compute_random_sleep-bounds :
    (rd : ℕ) (c : Client)
    → 0 < c.sleep_var_seconds
    → c.sleep_var_seconds ≤ c.sleep_avg_seconds
    → 1000 * (c.sleep_avg_seconds + c.sleep_var_seconds) < 2 ^ 32
    → Returns
        (λ n.
          (1000 * (c.sleep_avg_seconds - c.sleep_var_seconds) < n)
          × (n ≤ 1000 * (c.sleep_avg_seconds + c.sleep_var_seconds)))
        (compute_random_sleep rd c)
unfolding compute_random_sleep
compute_random_sleep-bounds rd c v a s =
    let range : sleep_range c ≡ 2000 * c.sleep_var_seconds = omega arith in
    let some_range : (sleep_range c == 0) ≡ false = ground arith in
    let less : rd % sleep_range c < sleep_range c = mod-lt rd (omega arith) in
    rw
      (
        some_range,
        no_wrap (1000 * (c.sleep_avg_seconds + c.sleep_var_seconds)) (rd % sleep_range c)
            (omega arith) s,
      )
      (returns (omega arith, omega arith))
