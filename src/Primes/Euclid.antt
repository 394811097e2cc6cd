-- ===== src/Primes/Euclid.antt =====
-- A prime divides one factor of a product, for factors below the prime.
use native.Mathlib.Nat.{
  mod-lt, mul_assoc, div-add-mod', div-add-mod, dvd-mul_right, dvd-mul_left_of_dvd,
  dvd-add_iff_right, le_of_dvd, dvd-sub, mul-sub,
}
use Prim.Native.Nat.{◌∣◌}
use remote_attestation.Prelude.{
  ℕ, zero, suc, ◌+◌, ◌-◌, ◌*◌, ◌/◌, ◌%◌, ◌≤◌, ◌<◌, ◌≡◌, ◌≢◌, ◌⊎◌, sym, ap, subst, inl, inr, arith,
  dec_lt,
}

ℕ_trichotomy : (i j : ℕ) → (i < j) ⊎ ((i ≡ j) ⊎ (j < i))
ℕ_trichotomy i j = omega arith

-- No number from 2 up to `p` divides `p`.
abbrev pub IsPrime : ℕ → Type 0
IsPrime p = (d : ℕ) → 2 ≤ d → d < p → p % d ≢ 0

-- One step of Euclid's algorithm on the factor.
step : (p g d : ℕ) → p ∣ g * d → p ∣ (p % g) * d
step p g d h =
    let whole : p / g * (g * d) + p % g * d ≡ p * d =
      omega (arith, ap (λ n. n * d) (div-add-mod' p g), mul_assoc (p / g) g d) in
    (dvd-add_iff_right p (dvd-mul_left_of_dvd p h (p / g))).1
      (subst (λ n. p ∣ n) (sym whole) (dvd-mul_right p d))

euclid : (fuel p g d : ℕ) → IsPrime p → 0 < g → g < p → g ≤ fuel → p ∣ g * d → p ∣ d
euclid zero p g d prime pos small enough h = absurd (omega arith)
euclid (suc fuel) p g d prime pos small enough h = elim (dec_lt 1 g) [
  | no le ↦
      let one : g ≡ 1 = omega arith in
      let same : g * d ≡ d = rw one (omega arith) in subst (λ n. p ∣ n) same h
  | yes lt ↦
      let below = mod-lt p {m = g} pos in
      let rest = prime g (omega arith) small in
      euclid fuel p (p % g) d prime (ground arith) (omega (arith, below)) (omega (arith, below))
        (step p g d h)
]

earlier : (p g i j : ℕ) → IsPrime p → 0 < g → g < p → i < j → j < p → (g * i) % p ≢ (g * j) % p
earlier p g i j prime pos small hij hj e =
    let difference : p * (g * j / p) - p * (g * i / p) ≡ g * (j - i) =
      rw (mul-sub g j i) (omega (arith, div-add-mod (g * i) p, div-add-mod (g * j) p, e)) in
    let divides : p ∣ g * (j - i) =
      subst (λ n. p ∣ n) difference
        (dvd-sub p (dvd-mul_right p (g * j / p)) (dvd-mul_right p (g * i / p))) in
    let small_divides = euclid g p g (j - i) prime pos small (omega arith) divides in
    omega (arith, le_of_dvd {n = j - i} (omega arith) small_divides)

-- Multiples of a factor below the prime differ modulo the prime.
pub multiples_differ :
    (p g i j : ℕ) → IsPrime p → 0 < g → g < p → i < p → j < p → (g * i) % p ≡ (g * j) % p → i ≡ j
multiples_differ p g i j prime pos small hi hj e = elim (ℕ_trichotomy i j) [
  | inl before ↦ absurd (earlier p g i j prime pos small before hj e)
  | inr (inl same) ↦ same
  | inr (inr after) ↦ absurd (earlier p g j i prime pos small after hi (sym e))
]
