-- ===== src/VerifiersList/Files/Endless.antt =====
-- RA_VER_parse on the file of RA_VER_serialize.
use remote_attestation.Prelude.{
  ℕ, zero, suc, ◌^◌, ◌<◌, ◌≡◌, ◌≢◌, refl, ap, ◌∙◌, Bool, true, false, ◌&&◌, ◌||◌, none, some, List,
  [], ◌∷◌, ◌++◌, append_assoc, ◌==◌, leb, if◌then◌else◌, arith,
}
use remote_attestation.VerifiersList.{Verifier, find, create, insert_with_count}
use remote_attestation.VerifiersList.Files.{
  colon, comma, closing, print_verifier, print_nodes, serialize, Directive, number, blanks, literal,
  format, Scanned, eof, matched, Reader, reading, insert_read, parse_round, parse_rounds, parse,
}

-- White space and digits in ASCII.
abbrev pub is_blank : ℕ → Bool
is_blank c = c == 32 || (leb 9 c && leb c 13)

abbrev pub is_digit : ℕ → Bool
is_digit c = leb 48 c && leb c 57

unfoldable pub skip_blanks : List ℕ → List ℕ
skip_blanks [] = []
skip_blanks (c ∷ cs) = let rest = skip_blanks cs in if is_blank c then rest else c ∷ cs

-- One more value in front; behind a value the end of the file is not EOF.
unfoldable pub behind : ℕ → Scanned → Scanned
behind n eof = matched (n ∷ []) []
behind n (matched values rest) = matched (n ∷ values) rest

-- What the C standard says of "%d" in fprintf and, directive by directive, of fscanf: a number is
-- printed as digits; white space skips white space; another character has to be the next one, or the
-- call ends before it; a conversion skips white space, and reads the digits of a number that fits, or
-- ends before what is no number.
pub record IsStdio (decimal : ℕ → List ℕ) (fscanf : List Directive → List ℕ → Scanned)
    : Type 0 where
  pub digits : (n : ℕ) → (c : ℕ) × (cs : List ℕ) × (decimal n ≡ c ∷ cs) × (is_digit c ≡ true)
  pub done : (bs : List ℕ) → fscanf [] bs ≡ matched [] bs
  pub white :
      (ds : List Directive) (bs : List ℕ) → fscanf (blanks ∷ ds) bs ≡ fscanf ds (skip_blanks bs)
  pub same :
      (c : ℕ) (ds : List Directive) (bs : List ℕ) → fscanf (literal c ∷ ds) (c ∷ bs) ≡ fscanf ds bs
  pub other :
      (c d : ℕ) (ds : List Directive) (bs : List ℕ)
      → d ≢ c
      → fscanf (literal c ∷ ds) (d ∷ bs) ≡ matched [] (d ∷ bs)
  pub read :
      (w n c : ℕ) (ds : List Directive) (bs : List ℕ)
      → n < 2 ^ w
      → is_digit c ≡ false
      → fscanf (number w ∷ ds) (decimal n ++ (c ∷ bs)) ≡ behind n (fscanf ds (c ∷ bs))
  pub no_number :
      (w c : ℕ) (ds : List Directive) (bs cs : List ℕ)
      → skip_blanks bs ≡ c ∷ cs
      → is_digit c ≡ false
      → c ≢ 43
      → c ≢ 45
      → fscanf (number w ∷ ds) bs ≡ matched [] (c ∷ cs)

module _ (decimal : ℕ → List ℕ) (fscanf : List Directive → List ℕ → Scanned)
    (stdio : IsStdio decimal fscanf) where
  skip_number : (n : ℕ) (bs : List ℕ) → skip_blanks (decimal n ++ bs) ≡ decimal n ++ bs
  unfolding skip_blanks
  skip_number n bs =
      let (c, cs, e, digit) = stdio.digits n in
      let kept : is_blank c ≡ false = ground arith in rw (e, kept) refl

  -- A number behind white space.
  read_behind :
      (w n c : ℕ) (ds : List Directive) (bs : List ℕ)
      → n < 2 ^ w
      → is_digit c ≡ false
      → fscanf (blanks ∷ number w ∷ ds) (32 ∷ (decimal n ++ (c ∷ bs)))
        ≡ behind n (fscanf ds (c ∷ bs))
  unfolding skip_blanks
  read_behind w n c ds bs small other =
      stdio.white (number w ∷ ds) (32 ∷ (decimal n ++ (c ∷ bs)))
      ∙ ap (λ x. fscanf (number w ∷ ds) x) (skip_number n (c ∷ bs))
      ∙ stdio.read w n c ds bs small other

  -- A character behind white space and before it.
  mark_behind :
      (c : ℕ) (ds : List Directive) (bs : List ℕ)
      → is_blank c ≡ false
      → fscanf (blanks ∷ literal c ∷ ds) (32 ∷ c ∷ bs) ≡ fscanf ds bs
  unfolding skip_blanks
  mark_behind c ds bs e =
      let skipped : skip_blanks (c ∷ bs) ≡ c ∷ bs = rw e refl in
      stdio.white (literal c ∷ ds) (32 ∷ c ∷ bs)
      ∙ ap (λ x. fscanf (literal c ∷ ds) x) skipped
      ∙ stdio.same c ds bs

  -- The three numbers of a verifier are read, and the call ends before the blank.
  scan_verifier :
      (v : Verifier) (rest : List ℕ)
      → v.id < 2 ^ 64
      → v.pid < 2 ^ 31
      → v.client_count < 2 ^ 32
      → fscanf format (print_verifier decimal v ++ rest)
        ≡ matched (v.id ∷ v.pid ∷ v.client_count ∷ []) (closing ++ rest)
  unfolding print_verifier behind
  scan_verifier v rest s1 s2 s3 =
      let third = decimal v.client_count ++ (closing ++ rest) in
      let second = decimal v.pid ++ (comma ++ third) in
      let behind_third = literal 125 ∷ [] in
      let behind_second = blanks ∷ literal 44 ∷ blanks ∷ number 32 ∷ behind_third in
      let behind_first =
        blanks ∷ literal 58 ∷ blanks ∷ literal 123 ∷ blanks ∷ number 31 ∷ behind_second in
      let shape : print_verifier decimal v ++ rest ≡ decimal v.id ++ (colon ++ second) =
        simp append_assoc in
      let count =
        read_behind 32 v.client_count 32 behind_third (125 ∷ rest) s3 refl
        ∙ ap (behind v.client_count) (stdio.other 125 32 [] (125 ∷ rest) (omega arith)) in
      let pid =
        read_behind 31 v.pid 32 behind_second (44 ∷ 32 ∷ third) s2 refl
        ∙ ap (behind v.pid)
            (mark_behind 44 (blanks ∷ number 32 ∷ behind_third) (32 ∷ third) refl ∙ count) in
      let marks =
        mark_behind 58 (blanks ∷ literal 123 ∷ blanks ∷ number 31 ∷ behind_second)
          (32 ∷ 123 ∷ 32 ∷ second) refl
        ∙ mark_behind 123 (blanks ∷ number 31 ∷ behind_second) (32 ∷ second) refl in
      ap (λ x. fscanf format x) shape
      ∙ stdio.read 64 v.id 32 behind_first (58 ∷ 32 ∷ 123 ∷ 32 ∷ second) s1 refl
      ∙ ap (behind v.id) (marks ∙ pid)

  next_round :
      (n : ℕ) (r r' : Reader)
      → parse_round fscanf true r ≡ reading r'
      → parse_rounds fscanf (suc n) true r ≡ parse_rounds fscanf n true r'
  unfolding parse_rounds
  next_round n r r' e = rw (e, parse_rounds) refl

  -- What the loop reads of the head of the list, with what is left of the file.
  abbrev pub only : Verifier → List ℕ → Reader
  only v rest = record {
    list = record { verifiers_count = 1; nodes = v ∷ [] };
    tmp_app_id = some v.id;
    tmp_pid = some v.pid;
    tmp_count = some v.client_count;
    rest = rest;
  }

  abbrev opened_file : List ℕ → Reader
  opened_file rest = record {
    list = record { verifiers_count = 0; nodes = [] };
    tmp_app_id = none;
    tmp_pid = none;
    tmp_count = none;
    rest = rest;
  }

  head_round :
      (v : Verifier) (file rest : List ℕ)
      → fscanf format file ≡ matched (v.id ∷ v.pid ∷ v.client_count ∷ []) rest
      → parse_round fscanf true (opened_file file) ≡ reading (only v rest)
  unfolding parse_round insert_read insert_with_count find
  head_round v file rest head = ground (arith, head)

  present_round :
      (v : Verifier) (rest left : List ℕ)
      → fscanf format rest ≡ matched [] left
      → parse_round fscanf true (only v rest) ≡ reading (only v left)
  unfolding parse_round insert_read insert_with_count find
  present_round v rest left h = ground (arith, h)

  stuck :
      (n : ℕ) (r : Reader)
      → parse_round fscanf true r ≡ reading r
      → parse_rounds fscanf n true r ≡ reading r
  unfolding parse_rounds
  stuck zero r e = refl
  stuck (suc n) r e = rw (e, parse_rounds) (stuck n r e)

  -- RA_VER_parse never ends on what RA_VER_serialize writes for a list that is not empty: the
  -- blank before the closing brace is not in its format, so that after its first round it stands
  -- at the brace for ever, with only the head of the list read. Conditions: the allocations
  -- succeed and the file is opened; the values of the head fit 64, 31 and 32 bits; and the C
  -- library prints digits and treats each directive of a format of fscanf as the C standard says.
  pub parse-serialize :
      (v : Verifier) (vs : List Verifier) (c n : ℕ)
      → v.id < 2 ^ 64
      → v.pid < 2 ^ 31
      → v.client_count < 2 ^ 32
      → parse fscanf
          (suc (suc n))
          true
          true
          true
          (serialize decimal (record { verifiers_count = c; nodes = v ∷ vs }))
        ≡ reading (only v (125 ∷ print_nodes decimal vs))
  unfolding parse serialize create print_nodes skip_blanks
  parse-serialize v vs c n s1 s2 s3 =
      let nodes = print_nodes decimal vs in
      let brace : fscanf format (125 ∷ nodes) ≡ matched [] (125 ∷ nodes) =
        stdio.no_number 64 125 _ (125 ∷ nodes) nodes refl refl (omega arith) (omega arith) in
      let blank : fscanf format (closing ++ nodes) ≡ matched [] (125 ∷ nodes) =
        stdio.no_number 64 125 _ (closing ++ nodes) nodes refl refl (omega arith) (omega arith) in
      next_round (suc n) _ _ (head_round v _ _ (scan_verifier v nodes s1 s2 s3))
      ∙ next_round n _ _ (present_round v _ _ blank)
      ∙ stuck n _ (present_round v _ _ brace)
