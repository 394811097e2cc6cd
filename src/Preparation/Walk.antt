-- ===== src/Preparation/Walk.antt =====
-- The random walk of src/client-parametric-files/cond/ra_data_preparation.c against the places that its
-- formula names.
use native.Mathlib.Nat.{mod-lt}
use remote_attestation.Prelude.{
  ℕ, zero, suc, ◌+◌, ◌*◌, ◌%◌, ◌^◌, ◌<◌, ◌≤◌, ◌≡◌, refl, ap, ◌∙◌, Bool, true, false, Option, none,
  some, List, [], ◌∷◌, ◌==◌, ltb, length, arith,
}
use remote_attestation.Prelude.RaResult.{RaResult, success}
use remote_attestation.Prelude.Run.{ok, Returns, returns, Returns-ok}
use remote_attestation.Memory.{Area}
use remote_attestation.Memory.Bytes as MemoryBytes
use remote_attestation.Memory.Bytes.{byte_at, byte_at-some, get_byte_lem, has_blocks}
use remote_attestation.DataTable.{Table, get_memory_area, set_prepared_data}
use remote_attestation.Nonce.{DecodedInfo, Version, decode_nonce}
use remote_attestation.Nonce.Decode.{
  IsReady, IsDecoded, VersionLaw, IsNamed, Decodes, least_size, decode_nonce-Decodes,
}
use remote_attestation.Preparation.{Mallocs, walk_byte, walk_loop, finish, walk_area, prepare_data}

-- The place in the area of the byte that round `i` of the walk takes.
abbrev pub place : DecodedInfo → ℕ → ℕ
place info i = (info.generator * i) % info.actual_buffer_size + info.initial_offset

-- The allocations of a call that succeeds.
abbrev pub all_mallocs : Mallocs
all_mallocs = record { labels = true; walk = true; prepared = true }

pub set_prepared :
    (t : Table) (bs : List ℕ)
    → finish all_mallocs t (success, bs)
      ≡ (record t { prepared_data = some bs; prepared_data_size = length bs }, success)
unfolding finish set_prepared_data
set_prepared t bs = refl

module _ (memory : ℕ → ℕ) (base : ℕ) where
  -- `bs` are the bytes of the rounds `i`, `i + 1`, … of the walk.
  abbrev pub Walked : DecodedInfo → Area → ℕ → List ℕ → Type 0
  Walked info a i [] = Unit {0}
  Walked info a i (b ∷ bs) =
      (byte_at memory base a.blocks (place info i) ≡ some b) × Walked info a (i + 1) bs

  module _ (info : DecodedInfo) (a : Area) (v : MemoryBytes.IsValid a)
      (some_bytes : 2 ≤ info.actual_buffer_size)
      (within : info.initial_offset + info.actual_buffer_size ≤ a.total_size) where
    place-lt : (i : ℕ) → place info i < a.total_size
    place-lt i =
        omega (arith, mod-lt (info.generator * i) {m = info.actual_buffer_size} (omega arith))

    walk_byte-byte_at :
        (i : ℕ)
        → (b : ℕ) × (byte_at memory base a.blocks (place info i) ≡ some b)
          × (walk_byte memory base info a i ≡ ok (success, b))
    unfolding walk_byte
    walk_byte-byte_at i =
        let inside = place-lt i in
        let (b, e) =
          byte_at-some memory base a.blocks (place info i) (omega (arith, v.size_counted)) in
        let short : place info i % 2 ^ 32 ≡ place info i = omega (arith, v.size_counted, v.small) in
        let some_modulus : (info.actual_buffer_size == 0) ≡ false = ground arith in
        let in_area : ltb (place info i) a.total_size ≡ true = ground arith in
        let blocks = has_blocks a v (omega (arith, inside)) in
        (
          b,
          e,
          rw (
            some_modulus,
            short,
            get_byte_lem memory base a (place info i) v blocks
                (omega (arith, v.size_counted, v.small)),
            in_area,
            e,
          ),
        )

    pub walk_loop-Walked :
        (n i : ℕ)
        → (bs : List ℕ) × (walk_loop memory base info a n i ≡ ok (success, bs))
          × (length bs ≡ n)
          × Walked info a i bs
    unfolding walk_loop
    walk_loop-Walked zero i = ([], refl, refl, tt)
    walk_loop-Walked (suc n) i =
        let (b, e, one) = walk_byte-byte_at i in
        let (bs, more, l, w) = walk_loop-Walked n (i + 1) in
        (b ∷ bs, ground (arith, one, more), omega arith, (e, w))

  -- What a walk of version `v` leaves: the table with the bytes of the walk as its prepared data.
  abbrev pub Prepares : (ℕ → Bool) → Version → Table → (nonce : List ℕ) → Table × RaResult → Type 0
  Prepares is_prime v t nonce (t', r) =
      (r ≡ success)
      × (info : DecodedInfo) × (d : IsDecoded t info) × VersionLaw is_prime v info
      × IsNamed v t nonce d.area info
      × (bs : List ℕ) × (length bs ≡ info.actual_buffer_size)
      × Walked info d.area 0 bs
      × (t' ≡ record t { prepared_data = some bs; prepared_data_size = length bs })

  -- The end of ra_prepare_data, from what is decoded and what the loop takes.
  pub prepare_data-walked :
      (is_prime : ℕ → Bool) (v : Version) (raw : ℕ) (t : Table) (nonce : List ℕ)
      (info : DecodedInfo) (a : Area) (bs : List ℕ)
      → IsReady (least_size v) t nonce
      → decode_nonce is_prime v true raw t ≡ ok (success, some info)
      → get_memory_area t info.area_label ≡ some a
      → walk_loop memory base info a info.actual_buffer_size 0 ≡ ok (success, bs)
      → prepare_data memory base is_prime v all_mallocs raw t
        ≡ ok (record t { prepared_data = some bs; prepared_data_size = length bs }, success)
  unfolding prepare_data walk_area
  prepare_data-walked is_prime v raw t nonce info a bs ready e found loop =
      ground (arith, ready.nonce_set, ready.nonce_sized, ready.nonce_long, set_prepared t bs)

  prepare_decoded :
      (is_prime : ℕ → Bool) (v : Version) (raw : ℕ) (t : Table) (nonce : List ℕ)
      (out : RaResult × Option DecodedInfo)
      → IsReady (least_size v) t nonce
      → decode_nonce is_prime v true raw t ≡ ok out
      → Decodes is_prime v t nonce out
      → Returns
          (Prepares is_prime v t nonce)
          (prepare_data memory base is_prime v all_mallocs raw t)
  prepare_decoded is_prime v raw t nonce (r, none) ready e d = absurd d
  prepare_decoded is_prime v raw t nonce (r, some info) ready e (r_ok, d, law, named) =
      let (bs, loop, l, w) =
        walk_loop-Walked info d.area d.area_valid d.some_bytes d.within info.actual_buffer_size 0 in
      let whole =
        prepare_data-walked is_prime v raw t nonce info d.area bs ready
          (e ∙ ap (λ x. ok (x, some info)) r_ok) d.found loop in
      rw whole (returns (refl, info, d, law, named, bs, l, w, refl))

  -- ra_prepare_data ends without undefined behaviour and stores as prepared data exactly the bytes
  -- of the area at the places (generator * i) mod actual size + offset, for each i below the
  -- actual size, where the area is the one that the nonce names, the sizes and the generator are
  -- those of the version, the bytes of the nonce that version 1 reads give its generator and its
  -- offset, and every place lies within the area. Conditions: the allocations succeed, the prime
  -- test accepts 2 and 3, and the table is ready: valid areas with distinct labels, each of at
  -- least the least size of the version, and a nonce of at least eight bytes that is set with its
  -- length.
  pub prepare_data-Prepares :
      (is_prime : ℕ → Bool) (v : Version) (raw : ℕ) (t : Table) (nonce : List ℕ)
      → is_prime 2 ≡ true
      → is_prime 3 ≡ true
      → IsReady (least_size v) t nonce
      → Returns
          (Prepares is_prime v t nonce)
          (prepare_data memory base is_prime v all_mallocs raw t)
  prepare_data-Prepares is_prime v raw t nonce two three ready =
      let (out, e, d) =
        Returns-ok (Decodes is_prime v t nonce) (decode_nonce is_prime v true raw t)
          (decode_nonce-Decodes is_prime two v raw t nonce three ready) in
      prepare_decoded is_prime v raw t nonce out ready e d
