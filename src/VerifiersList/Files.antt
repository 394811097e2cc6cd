-- ===== src/VerifiersList/Files.antt =====
-- RA_VER_serialize and RA_VER_parse of src/ra-additionals/verifiers_list.c. The C library's printing of a
-- number in decimal and its fscanf are parameters; the formats are the source's.
pub mod Endless
use remote_attestation.Prelude.{
  ℕ, zero, suc, Bool, true, false, Option, none, some, List, [], ◌∷◌, ◌++◌, get_elem?,
}
use remote_attestation.VerifiersList.{Verifier, Verifiers, find, create, insert_with_count}

-- " : { ", " , " and " }" in ASCII.
abbrev pub colon : List ℕ
colon = 32 ∷ 58 ∷ 32 ∷ 123 ∷ 32 ∷ []

abbrev pub comma : List ℕ
comma = 32 ∷ 44 ∷ 32 ∷ []

abbrev pub closing : List ℕ
closing = 32 ∷ 125 ∷ []

module _ (decimal : ℕ → List ℕ) where
  -- fprintf of a verifier.
  unfoldable pub print_verifier : Verifier → List ℕ
  print_verifier v =
      decimal v.id ++ (colon ++ (decimal v.pid ++ (comma ++ (decimal v.client_count ++ closing))))

  unfoldable pub print_nodes : List Verifier → List ℕ
  print_nodes [] = []
  print_nodes (v ∷ vs) = print_verifier v ++ print_nodes vs

  -- RA_VER_serialize: the content of the file.
  unfoldable pub serialize : Verifiers → List ℕ
  serialize l = print_nodes l.nodes

-- A directive of a format of fscanf: a conversion of a number that fits some bits, white space, or a
-- character that has to be there.
pub data Directive : Type 0 where
  number : (bits : ℕ) → Directive
  blanks : Directive
  literal : ℕ → Directive

-- The format of RA_VER_parse, "%lu : { %d , %u}".
abbrev pub format : List Directive
format =
    number 64
    ∷ blanks
    ∷ literal 58
    ∷ blanks
    ∷ literal 123
    ∷ blanks
    ∷ number 31
    ∷ blanks
    ∷ literal 44
    ∷ blanks
    ∷ number 32
    ∷ literal 125
    ∷ []

-- A call of fscanf: EOF, or the values that it assigns, in order, up to the first directive that
-- fails, and what is left of the file.
pub data Scanned : Type 0 where
  eof : Scanned
  matched : (values : List ℕ) (rest : List ℕ) → Scanned

-- The loop of RA_VER_parse: the list, the variables (none before they are assigned), and the file.
pub record Reader : Type 0 where
  pub list : Verifiers
  pub tmp_app_id : Option ℕ
  pub tmp_pid : Option ℕ
  pub tmp_count : Option ℕ
  pub rest : List ℕ

-- After some rounds: the list that is returned, the state of the loop, or undefined behaviour.
pub data Parsing : Type 0 where
  returned : Verifiers → Parsing
  reading : Reader → Parsing
  undefined : Parsing

-- A variable keeps its value when it is not assigned.
abbrev pub assigned : Option ℕ → Option ℕ → Option ℕ
assigned none old = old
assigned (some n) old = some n

-- insert_with_count in the loop, on variables that must be set; its result is not used.
unfoldable pub insert_read : (malloc : Bool) → Reader → (id pid count : Option ℕ) → List ℕ → Parsing
insert_read malloc r (some id) (some pid) (some count) rest = reading (record {
  list = (insert_with_count malloc r.list id pid count).0;
  tmp_app_id = some id;
  tmp_pid = some pid;
  tmp_count = some count;
  rest = rest;
})
insert_read malloc r _ _ _ rest = undefined

module _ (fscanf : List Directive → List ℕ → Scanned) where
  -- One round of the loop.
  unfoldable pub parse_round : (malloc : Bool) → Reader → Parsing
  unfolding insert_read
  parse_round malloc r = elim (fscanf format r.rest) [
    | eof ↦ returned r.list
    | matched values rest ↦
        insert_read malloc r (assigned (get_elem? values 0) r.tmp_app_id)
          (assigned (get_elem? values 1) r.tmp_pid) (assigned (get_elem? values 2) r.tmp_count) rest
  ]

  unfoldable pub parse_rounds : ℕ → (malloc : Bool) → Reader → Parsing
  parse_rounds zero malloc r = reading r
  parse_rounds (suc n) malloc r = elim (parse_round malloc r) [
    | returned l ↦ returned l
    | reading r' ↦ parse_rounds n malloc r'
    | undefined ↦ undefined
  ]

  -- RA_VER_parse after `n` rounds; a list that is not allocated or a file that is not opened is used
  -- all the same.
  unfoldable pub parse : ℕ → (create_malloc opened malloc : Bool) → List ℕ → Parsing
  unfolding create parse_rounds
  parse n create_malloc opened malloc file = elim (create create_malloc) [
    | none ↦ undefined
    | some l ↦ elim opened [
      | false ↦ undefined
      | true ↦
          parse_rounds n malloc
            (record { list = l; tmp_app_id = none; tmp_pid = none; tmp_count = none; rest = file })
    ]
  ]
