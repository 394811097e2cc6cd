-- ===== src/Client/Compare.antt =====
-- When RA_CLI_compare takes two clients for the same.
use remote_attestation.Prelude.{
  ℕ, ◌+◌, ◌*◌, ◌%◌, ◌^◌, ◌<◌, ◌≡◌, ◌↔◌, inl, inr, refl, sym, ◌∙◌, true, Bool-cases, arith,
}
use remote_attestation.Prelude.Int.{is_zero}
use remote_attestation.Prelude.Bytes.{memcmp, memcmp-eq, memcmp_self}
use remote_attestation.GenericList.Laws.{IsEquivalence}
use remote_attestation.Client.{Client, difference, compare}

difference-zero : (a b : ℕ) → (is_zero (difference a b) ≡ true) ↔ (a % 2 ^ 32 ≡ b % 2 ^ 32)
unfolding difference
difference-zero a b = ground arith

-- RA_CLI_compare answers 0 exactly for two clients with equal AIDs whose attestator numbers agree
-- modulo 2^32.
compare-zero :
    (c d : Client)
    → (is_zero (compare c d) ≡ true)
      ↔ ((c.aid ≡ d.aid) × (c.attestator_number % 2 ^ 32 ≡ d.attestator_number % 2 ^ 32))
unfolding compare
compare-zero c d = (forth, back)
  where
    forth :
        is_zero (compare c d) ≡ true
        → (c.aid ≡ d.aid) × (c.attestator_number % 2 ^ 32 ≡ d.attestator_number % 2 ^ 32)
    forth h = elim (Bool-cases (is_zero (memcmp c.aid d.aid))) [
      | inl same ↦ (
        memcmp-eq c.aid d.aid same,
        ground (arith, (difference-zero c.attestator_number d.attestator_number).0),
      )
      | inr other ↦ absurd (ground arith)
    ]

    back :
        (c.aid ≡ d.aid) × (c.attestator_number % 2 ^ 32 ≡ d.attestator_number % 2 ^ 32)
        → is_zero (compare c d) ≡ true
    back h =
        let same : is_zero (memcmp c.aid d.aid) ≡ true = rw (h.0, memcmp_self) in
        rw same (ground (arith, (difference-zero c.attestator_number d.attestator_number).1 h.1))

-- Answering 0 is symmetric and transitive for RA_CLI_compare, as the client list needs of its
-- comparator.
pub compare-IsEquivalence : IsEquivalence compare
compare-IsEquivalence = record {
  symm = λ x y h.
      (compare-zero y x).1 (sym ((compare-zero x y).0 h).0, sym ((compare-zero x y).0 h).1);
  trans = λ x y z h k. (compare-zero x z).1 (
    ((compare-zero x y).0 h).0 ∙ ((compare-zero y z).0 k).0,
    ((compare-zero x y).0 h).1 ∙ ((compare-zero y z).0 k).1,
  );
}

-- RA_CLI_compare answers 0 for a client and the same client with an attestator number that is
-- higher by a positive multiple of 2^32.
compare-collision :
    (c : Client) (k : ℕ)
    → 0 < k
    → is_zero (compare c (record c { attestator_number = c.attestator_number + k * 2 ^ 32 })) ≡ true
compare-collision c k h = (compare-zero _ _).1 (refl, omega arith)
