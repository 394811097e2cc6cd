-- ===== src/VerifiersList/Tests.antt =====
-- Two verifiers, of which the first serves one client and the second two.
use remote_attestation.Prelude.{
  ℕ, zero, suc, ◌++◌, false, List, ◌≡◌, refl, none, [], ◌∷◌, true, if◌then◌else◌, ◌==◌, arith,
}
use remote_attestation.VerifiersList.{Verifier, Verifiers, find}
use remote_attestation.VerifiersList.History.{
  Operation, inserting, updating, removing, leaving, apply_each, spec_each, empty,
  apply_each-spec_each,
}
use remote_attestation.VerifiersList.Files.{
  Directive, number, blanks, literal, Scanned, eof, matched, print_nodes, serialize, reading, parse,
}
use remote_attestation.VerifiersList.Files.Endless.{
  is_digit, skip_blanks, behind, IsStdio, only, parse-serialize,
}
use remote_attestation.VerifiersList.Laws.{IsValid, lookup}

abbrev one : Verifier
one = record { id = 1; client_count = 1; pid = 100 }

abbrev two : Verifier
two = record { id = 2; client_count = 2; pid = 200 }

abbrev verifiers : Verifiers
verifiers = record { verifiers_count = 2; nodes = one ∷ two ∷ [] }

verifiers-IsValid : IsValid verifiers
unfolding find
verifiers-IsValid = record {
  well_formed = (refl, omega arith, omega arith, (refl, omega arith, omega arith, tt));
  counted = refl;
  small = omega arith;
}

-- Two verifiers come, one of them twice, a client comes and one leaves, and a verifier is removed.
abbrev history : List Operation
history =
    inserting true 1 100
    ∷ inserting true 2 200
    ∷ inserting true 1 300
    ∷ updating 2
    ∷ leaving 1
    ∷ removing 3
    ∷ []

apply_each-spec_each_example :
    IsValid (apply_each history empty)
    × ((k : ℕ) → lookup (apply_each history empty) k ≡ spec_each history (λ id. none) k)
apply_each-spec_each_example = apply_each-spec_each history (omega arith)

-- Stand-ins for the C library's numbers: as many digits 1 as the number, and one more.
abbrev unary : ℕ → List ℕ
unary zero = 49 ∷ []
unary (suc n) = 49 ∷ unary n

-- A number at the beginning of a text, and what is behind it.
unfoldable read_digits : List ℕ → ℕ × List ℕ
read_digits [] = (0, [])
read_digits (c ∷ cs) =
    let (n, rest) = read_digits cs in if is_digit c then (suc n, rest) else (0, c ∷ cs)

unfoldable converted : (rest_of : List ℕ → Scanned) → List ℕ → Scanned
unfolding read_digits
converted rest_of [] = eof
converted rest_of (c ∷ cs) =
    let (n, rest) = read_digits cs in
    if is_digit c then behind n (rest_of rest) else matched [] (c ∷ cs)

unfoldable scan : List Directive → List ℕ → Scanned
unfolding converted
scan [] bs = matched [] bs
scan (number w ∷ ds) bs = converted (scan ds) (skip_blanks bs)
scan (blanks ∷ ds) bs = scan ds (skip_blanks bs)
scan (literal c ∷ ds) [] = eof
scan (literal c ∷ ds) (d ∷ bs) =
    let rest = scan ds bs in if d == c then rest else matched [] (d ∷ bs)

unary-first : (n : ℕ) → (c : ℕ) × (cs : List ℕ) × (unary n ≡ c ∷ cs) × (is_digit c ≡ true)
unary-first zero = (49, [], refl, refl)
unary-first (suc n) = (49, unary n, refl, refl)

read_digits-unary :
    (n c : ℕ) (bs : List ℕ)
    → is_digit c ≡ false
    → read_digits (unary n ++ (c ∷ bs)) ≡ (suc n, c ∷ bs)
unfolding read_digits
read_digits-unary zero c bs e = ground arith
read_digits-unary (suc n) c bs e = rw (read_digits-unary n c bs e) refl

scan-unary :
    (w n c : ℕ) (ds : List Directive) (bs : List ℕ)
    → is_digit c ≡ false
    → scan (number w ∷ ds) (unary n ++ (c ∷ bs)) ≡ behind n (scan ds (c ∷ bs))
unfolding scan skip_blanks read_digits
scan-unary w zero c ds bs e = rw e refl
scan-unary w (suc n) c ds bs e = rw (read_digits-unary n c bs e) refl

scan-no_number :
    (w c : ℕ) (ds : List Directive) (bs cs : List ℕ)
    → skip_blanks bs ≡ c ∷ cs
    → is_digit c ≡ false
    → scan (number w ∷ ds) bs ≡ matched [] (c ∷ cs)
unfolding scan
scan-no_number w c ds bs cs e other = rw (e, other) refl

scan-IsStdio : IsStdio unary scan
unfolding scan
scan-IsStdio = record {
  digits = unary-first;
  done = λ bs. refl;
  white = λ ds bs. refl;
  same = λ c ds bs. ground arith;
  other = λ c d ds bs apart. ground arith;
  read = λ w n c ds bs small end. scan-unary w n c ds bs end;
  no_number = λ w c ds bs cs e end plus minus. scan-no_number w c ds bs cs e end;
}

abbrev lone : Verifier
lone = record { id = 1; client_count = 1; pid = 7 }

parse-serialize_example :
    parse scan 9 true true true
      (serialize unary (record { verifiers_count = 1; nodes = lone ∷ [] }))
    ≡ reading (only unary scan scan-IsStdio lone (125 ∷ []))
unfolding print_nodes
parse-serialize_example =
    parse-serialize unary scan scan-IsStdio lone [] 1 7 (omega arith) (omega arith) (omega arith)
