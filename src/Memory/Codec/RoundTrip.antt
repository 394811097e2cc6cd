-- ===== src/Memory/Codec/RoundTrip.antt =====
-- The binary layout that the dump and the parser of src/client-parametric-files/cond/ra_memory.c share.
use remote_attestation.Prelude.{
  ℕ, suc, ◌+◌, ◌^◌, ◌<◌, ◌≡◌, ◌≢◌, refl, ap, ◌∙◌, Bool, true, false, some, List, [], ◌∷◌, ◌++◌,
  append_assoc, append-nil, All, length, arith,
}
use remote_attestation.Prelude.Bytes.{to_bytes, length-to_bytes, of_bytes-to_bytes}
use remote_attestation.Prelude.Input.{Input, input, read-append, malloc, Sink, sink, write-accepted}
use remote_attestation.Prelude.RaResult.{RaResult, success}
use remote_attestation.Prelude.Run.{Run, ok}
use remote_attestation.Memory.{Block, Area, is_empty, append_block, insert_block}
use remote_attestation.Memory.Bytes.{IsValid, sum_sizes}
use remote_attestation.Memory.Codec.{
  parse_block, parse_blocks, parse_area, dump_block, dump_blocks, dump_area,
}

-- The fields of a block fit their C types.
pub record IsBlock (b : Block) : Type 0 where
  pub offset_small : b.offset < 2 ^ 64
  pub size_small : b.size < 2 ^ 32

unfoldable pub encode_block : Block → List ℕ
encode_block b = to_bytes 8 b.offset ++ to_bytes 4 b.size

unfoldable pub encode_blocks : List Block → List ℕ
encode_blocks [] = []
encode_blocks (b ∷ bs) = encode_block b ++ encode_blocks bs

-- The layout that the two directions share.
unfoldable pub encode_area : Area → List ℕ
encode_area a = to_bytes 2 a.label ++ (to_bytes 4 a.total_blocks ++ encode_blocks a.blocks)

-- The content of the file after a dump, whose number of writes is of no interest.
abbrev pub Wrote : List ℕ → Sink → Run (RaResult × Sink) → Type 0
Wrote bs s r = (k : ℕ) × (r ≡ ok (success, sink (s.content ++ bs) k))

module _ (accepts : ℕ → Bool) (all : (k : ℕ) → accepts k ≡ true) where
  dump_block-encode :
      (b : Block) (s : Sink)
      → dump_block accepts b s ≡ (success, sink (s.content ++ encode_block b) (s.writes + 1 + 1))
  unfolding dump_block encode_block
  dump_block-encode b s = rw (
    write-accepted accepts (to_bytes 8 b.offset) s all,
    write-accepted accepts (to_bytes 4 b.size)
        (sink (s.content ++ to_bytes 8 b.offset) (s.writes + 1)) all,
    append_assoc,
  )

  dump_blocks_step :
      (b c : Block) (bs : List Block) (s s' : Sink)
      → dump_block accepts b s ≡ (success, s')
      → dump_blocks accepts (b ∷ c ∷ bs) s ≡ dump_blocks accepts (c ∷ bs) s'
  unfolding dump_blocks
  dump_blocks_step b c bs s s' e = ground (arith, e)

  dump_blocks-encode :
      (b : Block) (bs : List Block) (s : Sink)
      → Wrote (encode_blocks (b ∷ bs)) s (dump_blocks accepts (b ∷ bs) s)
  unfolding dump_blocks encode_blocks
  dump_blocks-encode b [] s = (s.writes + 1 + 1, rw (dump_block-encode b s, append-nil))
  dump_blocks-encode b (c ∷ bs) s =
      let (k, e) =
        dump_blocks-encode c bs (sink (s.content ++ encode_block b) (s.writes + 1 + 1)) in
      (
        k,
        dump_blocks_step b c bs s _ (dump_block-encode b s)
            ∙ e
            ∙ ap (λ u. ok (success, sink u k)) (append_assoc s.content (encode_block b) _),
      )

  pub dump_area-encode :
      (a : Area) (s : Sink)
      → is_empty a ≡ false
      → a.blocks ≢ []
      → Wrote (encode_area a) s (dump_area accepts a s)
  unfolding dump_area encode_area
  dump_area-encode a s full ne =
      let s1 = sink (s.content ++ to_bytes 2 a.label) (s.writes + 1) in
      let s2 = sink (s1.content ++ to_bytes 4 a.total_blocks) (s1.writes + 1) in
      let (k, e) = go a.blocks s2 ne in
      (
        k,
        rw
            (
              full,
              write-accepted accepts (to_bytes 2 a.label) s all,
              write-accepted accepts (to_bytes 4 a.total_blocks) s1 all,
            )
            (e
              ∙ ap (λ u. ok (success, sink u k))
                  (append_assoc (s.content ++ to_bytes 2 a.label) _ _
                    ∙ append_assoc s.content _ _)),
      )
    where
      go :
          (bs : List Block) (t : Sink)
          → bs ≢ []
          → Wrote (encode_blocks bs) t (dump_blocks accepts bs t)
      go [] t h = absurd (h refl)
      go (b ∷ bs) t h = dump_blocks-encode b bs t

-- An area with more blocks at its tail.
abbrev extend : Area → List Block → Area
extend a bs = record {
  label = a.label;
  total_blocks = a.total_blocks + length bs;
  total_size = a.total_size + sum_sizes bs;
  blocks = a.blocks ++ bs;
}

extend-nil : (a : Area) → extend a [] ≡ a
unfolding sum_sizes
extend-nil a = ground (arith, append-nil a.blocks)

extend-append_block :
    (a : Area) (b : Block) (bs : List Block)
    → a.total_blocks + suc (length bs) < 2 ^ 32
    → a.total_size + sum_sizes (b ∷ bs) < 2 ^ 32
    → extend (append_block a b) bs ≡ extend a (b ∷ bs)
unfolding sum_sizes append_block
extend-append_block a b bs h k = ground (arith, append_assoc a.blocks (b ∷ []) bs)

has_blocks : (a : Area) → IsValid a → is_empty a ≡ false → a.blocks ≢ []
unfolding is_empty
has_blocks a v full e = ground (arith, v.blocks_counted, ap length e)

module _ (grants : ℕ → Bool) (all : (k : ℕ) → grants k ≡ true) where
  parse_block-encode :
      (b : Block) (rest : List ℕ) (k : ℕ)
      → IsBlock b
      → parse_block grants (input (encode_block b ++ rest) k) ≡ ok (b, input rest (k + 1))
  unfolding parse_block encode_block malloc
  parse_block-encode b rest k h = rw (append_assoc (to_bytes 8 b.offset) (to_bytes 4 b.size) rest) (
      ground (
        arith,
        all k,
        read-append grants 8 (to_bytes 8 b.offset) (to_bytes 4 b.size ++ rest) (k + 1)
            (length-to_bytes 8 _),
        read-append grants 4 (to_bytes 4 b.size) rest (k + 1) (length-to_bytes 4 _),
        of_bytes-to_bytes 8 b.offset h.offset_small,
        of_bytes-to_bytes 4 b.size h.size_small,
      ))

  parse_blocks_step :
      (n : ℕ) (a : Area) (b : Block) (s : Input) (rest : List ℕ) (k : ℕ)
      → parse_block grants s ≡ ok (b, input rest k)
      → parse_blocks (suc n) a grants s
        ≡ parse_blocks n (append_block a b) grants (input rest (k + 1))
  unfolding parse_blocks malloc insert_block
  parse_blocks_step n a b s rest k e = ground (arith, e, all k)

  parse_blocks-encode :
      (bs : List Block) (a : Area) (rest : List ℕ) (k : ℕ)
      → All IsBlock bs
      → a.total_blocks + length bs < 2 ^ 32
      → a.total_size + sum_sizes bs < 2 ^ 32
      → (j : ℕ) × (parse_blocks (length bs) a grants (input (encode_blocks bs ++ rest) k)
          ≡ ok (some (extend a bs), input rest j))
  unfolding encode_blocks
  parse_blocks-encode [] a rest k h c d = (k, rw (extend-nil a) (unfold parse_blocks in refl))
  parse_blocks-encode (b ∷ bs) a rest k h c d =
      let block = parse_block-encode b (encode_blocks bs ++ rest) k h.0 in
      let (j, e) =
        parse_blocks-encode bs (append_block a b) rest (k + 1 + 1) h.1
          (unfold append_block in omega arith) (unfold append_block sum_sizes in omega arith) in
      (
        j,
        rw (append_assoc, parse_blocks_step (length bs) a b _ _ (k + 1) block)
            (e ∙ ap (λ x. ok (some x, input rest j)) (extend-append_block a b bs c d)),
      )

  parse_area_start :
      (label total : ℕ) (more : List ℕ) (k : ℕ)
      → label < 2 ^ 16
      → total < 2 ^ 32
      → parse_area grants (input (to_bytes 2 label ++ (to_bytes 4 total ++ more)) k)
        ≡ parse_blocks total
            (record { label = label; total_blocks = 0; total_size = 0; blocks = [] })
            grants
            (input more (k + 1))
  unfolding parse_area malloc
  parse_area_start label total more k l h = ground (
    arith,
    all k,
    read-append grants 2 (to_bytes 2 label) (to_bytes 4 total ++ more) (k + 1)
        (length-to_bytes 2 _),
    read-append grants 4 (to_bytes 4 total) more (k + 1) (length-to_bytes 4 _),
    of_bytes-to_bytes 2 label l,
    of_bytes-to_bytes 4 total h,
  )

  pub parse_area-encode :
      (a : Area) (rest : List ℕ) (k : ℕ)
      → IsValid a
      → a.label < 2 ^ 16
      → All IsBlock a.blocks
      → (j : ℕ) × (parse_area grants (input (encode_area a ++ rest) k) ≡ ok (some a, input rest j))
  unfolding encode_area
  parse_area-encode a rest k v l h =
      let blank : Area = record {
        label = a.label;
        total_blocks = 0;
        total_size = 0;
        blocks = [];
      } in
      let (j, e) =
        parse_blocks-encode a.blocks blank rest (k + 1) h (omega (arith, v.few))
          (omega (arith, v.small)) in
      let start =
        parse_area_start a.label a.total_blocks (encode_blocks a.blocks ++ rest) k l
          (omega (arith, v.blocks_counted, v.few)) in
      let rounds =
        ap (λ n. parse_blocks n blank grants (input (encode_blocks a.blocks ++ rest) (k + 1)))
          v.blocks_counted in
      let whole : extend blank a.blocks ≡ a = ground (arith, v.blocks_counted, v.size_counted) in
      (
        j,
        rw (append_assoc, append_assoc)
            (start ∙ rounds ∙ e ∙ ap (λ x. ok (some x, input rest j)) whole),
      )

-- ra_mA_dump_info_binary succeeds, and ra_mA_parse_ads_binary_info run on what it wrote, with any
-- bytes behind it, gives back the same area and stops right behind it. Conditions: every write and
-- every allocation succeeds, the area is valid and not empty, its label is below 2^16, and the
-- offsets and sizes of its blocks fit 64 and 32 bits.
pub parse_area-dump_area :
    (accepts grants : ℕ → Bool) (a : Area) (rest : List ℕ)
    → ((k : ℕ) → accepts k ≡ true)
    → ((k : ℕ) → grants k ≡ true)
    → IsValid a
    → a.label < 2 ^ 16
    → All IsBlock a.blocks
    → is_empty a ≡ false
    → (s : Sink) × (j : ℕ) × (dump_area accepts a (sink [] 0) ≡ ok (success, s))
      × (parse_area grants (input (s.content ++ rest) 0) ≡ ok (some a, input rest j))
parse_area-dump_area accepts grants a rest writes mallocs v l h full =
    let (k, e) = dump_area-encode accepts writes a (sink [] 0) full (has_blocks a v full) in
    let (j, e') = parse_area-encode grants mallocs a rest 0 v l h in
    (sink (encode_area a) k, j, e, e')
