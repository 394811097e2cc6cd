-- ===== src/Nonce/Decode.antt =====
-- decode_nonce (src/client-parametric-files/cond/ra_nonce_interpretation_{1,2,3,4}.c) on a table that is
-- ready for it, and the laws of the four versions.
use native.Mathlib.Nat.{mod-lt}
use remote_attestation.Prelude.{
  ℕ, ◌+◌, ◌-◌, ◌%◌, ◌<◌, ◌≤◌, ◌≡◌, ◌≢◌, inl, inr, refl, Bool, true, Option, none, some, List, ◌==◌,
  leb, ltb, if◌then◌else◌, length, take, drop, get_elem?, get_elem?-some, All, Bool-cases, arith,
}
use remote_attestation.Prelude.Bytes.{of_bytes}
use remote_attestation.Prelude.RaResult.{RaResult, success}
use remote_attestation.Prelude.Run.{ok, Returns, returns}
use remote_attestation.Memory.{Area}
use remote_attestation.Memory.Bytes as MemoryBytes
use remote_attestation.DataTable.{Table, get_memory_area}
use remote_attestation.DataTable.Areas.{
  IsValid, get_labels_list-map, find_area-get_elem?, All-get_elem?,
}
use remote_attestation.Primes.Closest.{IsClosestPrime, closest_prime_lem}
use remote_attestation.Nonce.{
  DecodedInfo, Version, v1, v2, v3, v4, read_at, remainder, chosen_area, at_least_two, difference,
  decode1, decode2, decode3, decode4, decode_chosen, decode_nonce,
}

-- A table with areas, none of them shorter than `least`, and a nonce of at least eight bytes.
pub record IsReady (least : ℕ) (t : Table) (nonce : List ℕ) : Type 0 where
  pub valid : IsValid t
  pub some_area : t.memory_areas_count ≢ 0
  pub areas_valid : All (λ a. MemoryBytes.IsValid a × (least ≤ a.total_size)) t.areas
  pub nonce_set : t.current_nonce ≡ some nonce
  pub nonce_sized : t.current_nonce_size ≡ length nonce
  pub nonce_long : 8 ≤ length nonce

read_at-ok :
    (nonce : List ℕ) (place width : ℕ)
    → place + width ≤ length nonce
    → read_at nonce place width ≡ ok (of_bytes (take width (drop place nonce)))
unfolding read_at
read_at-ok nonce place width h = ground arith

remainder-ok : (a b : ℕ) → b ≢ 0 → remainder a b ≡ ok (a % b)
unfolding remainder
remainder-ok a b h = ground arith

-- The place in the chain of areas that the nonce names: its two bytes before the last one, modulo the
-- number of areas.
abbrev pub chosen_index : Table → (nonce : List ℕ) → ℕ
chosen_index t nonce = of_bytes (take 2 (drop (length nonce - 3) nonce)) % t.memory_areas_count

-- The area that the nonce chooses.
pub chosen_area_lem :
    (least : ℕ) (t : Table) (nonce : List ℕ)
    → IsReady least t nonce
    → (a : Area) × (chosen_area true t nonce ≡ ok (some (a.label, a.total_size)))
      × (get_elem? t.areas (chosen_index t nonce) ≡ some a)
      × (get_memory_area t a.label ≡ some a)
      × MemoryBytes.IsValid a
      × (least ≤ a.total_size)
unfolding chosen_area get_memory_area
chosen_area_lem least t nonce r =
    let n = of_bytes (take 2 (drop (length nonce - 3) nonce)) in
    let i = chosen_index t nonce in
    let (a, here) = get_elem?-some t.areas i (
      omega (
        arith,
        r.valid.counted,
        mod-lt n {m = t.memory_areas_count} (ground (arith, r.some_area)),
      )) in
    let (found, labelled) = find_area-get_elem? t.areas i {a = a} r.valid.distinct here in
    let (av, big) =
      All-get_elem? (λ x. MemoryBytes.IsValid x × (least ≤ x.total_size)) t.areas i {a = a}
        r.areas_valid here in
    let size = r.nonce_sized in
    let enough : leb 3 t.current_nonce_size ≡ true = ground (arith, r.nonce_sized, r.nonce_long) in
    (
      a,
      ground (
        arith,
        enough,
        read_at-ok nonce (length nonce - 3) 2 (omega (arith, r.nonce_long)),
        size,
        remainder-ok n t.memory_areas_count r.some_area,
        get_labels_list-map t r.valid,
        labelled,
        found,
      ),
      here,
      found,
      av,
      big,
    )

-- What is decoded lies within an area of the table, and the generator is at least 2.
pub record IsDecoded (t : Table) (info : DecodedInfo) : Type 0 where
  pub area : Area
  pub found : get_memory_area t info.area_label ≡ some area
  pub area_valid : MemoryBytes.IsValid area
  pub sized : info.buffer_size ≡ area.total_size
  pub some_bytes : 2 ≤ info.actual_buffer_size
  pub within : info.initial_offset + info.actual_buffer_size ≤ area.total_size
  pub generates : 2 ≤ info.generator

-- What the version says of the actual buffer and the generator.
abbrev pub VersionLaw : (ℕ → Bool) → Version → DecodedInfo → Type 0
VersionLaw is_prime v1 info =
    IsClosestPrime is_prime info.buffer_size info.actual_buffer_size
    × (2 < info.actual_buffer_size → info.generator < info.actual_buffer_size)
VersionLaw is_prime v2 info =
    (info.actual_buffer_size ≡ info.buffer_size)
    × IsClosestPrime is_prime info.buffer_size info.generator
VersionLaw is_prime v3 info =
    (info.actual_buffer_size ≡ info.buffer_size)
    × IsClosestPrime is_prime info.buffer_size info.generator
VersionLaw is_prime v4 info =
    IsClosestPrime is_prime info.buffer_size info.actual_buffer_size
    × IsClosestPrime is_prime (info.actual_buffer_size - 1) info.generator

-- A remainder that serves as a generator.
abbrev pub generator_of : ℕ → ℕ
generator_of r = if ltb r 2 then 2 else r

-- What the version reads from the nonce itself, beside the area: version 1 takes the generator from the
-- bytes 0 to 3 and the offset from the bytes 4 to 7, the others start at the beginning of the area.
abbrev pub IsRead : Version → List ℕ → DecodedInfo → Type 0
IsRead v1 nonce info =
    (info.generator ≡ generator_of (of_bytes (take 4 nonce) % info.actual_buffer_size))
    × (info.initial_offset ≡ (
        if info.buffer_size == info.actual_buffer_size
        then 0
        else of_bytes (take 4 (drop 4 nonce)) % (info.buffer_size - info.actual_buffer_size)))
IsRead _ nonce info = info.initial_offset ≡ 0

-- The area is the one that the nonce names, and the rest is what the version reads from the nonce.
abbrev pub IsNamed : Version → Table → List ℕ → Area → DecodedInfo → Type 0
IsNamed v t nonce a info = (get_elem? t.areas (chosen_index t nonce) ≡ some a) × IsRead v nonce info

abbrev pub Decodes :
    (ℕ → Bool) → Version → Table → (nonce : List ℕ) → RaResult × Option DecodedInfo → Type 0
Decodes is_prime v t nonce (r, none) = ⊥
Decodes is_prime v t nonce (r, some info) =
    (r ≡ success)
    × (d : IsDecoded t info) × VersionLaw is_prime v info
    × IsNamed v t nonce d.area info

-- The length of the shortest area that a version is made for.
abbrev pub least_size : Version → ℕ
least_size v4 = 3
least_size _ = 2

module _ (is_prime : ℕ → Bool) (two : is_prime 2 ≡ true) where
  decode2-Decodes :
      (t : Table) (nonce : List ℕ) (a : Area)
      → get_elem? t.areas (chosen_index t nonce) ≡ some a
      → get_memory_area t a.label ≡ some a
      → MemoryBytes.IsValid a
      → 2 ≤ a.total_size
      → Returns (Decodes is_prime v2 t nonce) (decode2 is_prime a.label a.total_size)
  unfolding decode2
  decode2-Decodes t nonce a here found av big =
      let (p, e, c) = closest_prime_lem is_prime two a.total_size big in
      let g : at_least_two p ≡ p = ground (arith, c.at_least_two) in
      rw (e, g)
        (returns (
          refl,
          record {
            area = a;
            found = found;
            area_valid = av;
            sized = refl;
            some_bytes = big;
            within = omega arith;
            generates = c.at_least_two;
          },
          (refl, c),
          (here, refl),
        ))

  decode3-Decodes :
      (t : Table) (nonce : List ℕ) (a : Area)
      → get_elem? t.areas (chosen_index t nonce) ≡ some a
      → get_memory_area t a.label ≡ some a
      → MemoryBytes.IsValid a
      → 2 ≤ a.total_size
      → Returns (Decodes is_prime v3 t nonce) (decode3 is_prime a.label a.total_size)
  unfolding decode3 decode2
  decode3-Decodes t nonce a here found av big = decode2-Decodes t nonce a here found av big

  decode4-Decodes :
      is_prime 3 ≡ true
      → (t : Table) (nonce : List ℕ) (a : Area) → get_elem? t.areas (chosen_index t nonce) ≡ some a
      → get_memory_area t a.label ≡ some a
      → MemoryBytes.IsValid a
      → 3 ≤ a.total_size
      → Returns (Decodes is_prime v4 t nonce) (decode4 is_prime a.label a.total_size)
  unfolding decode4
  decode4-Decodes three t nonce a here found av big =
      let (p, e, c) = closest_prime_lem is_prime two a.total_size (omega arith) in
      let at_least_three : 3 ≤ p = ground (arith, three, c.largest 3, c.at_least_two) in
      let less : difference p 1 ≡ p - 1 = omega (arith, c.below, av.small, av.size_counted) in
      let (q, e', c') = closest_prime_lem is_prime two (p - 1) (omega arith) in
      let g : at_least_two q ≡ q = ground (arith, c'.at_least_two) in
      rw (e, less, e', g)
        (returns (
          refl,
          record {
            area = a;
            found = found;
            area_valid = av;
            sized = refl;
            some_bytes = c.at_least_two;
            within = omega (arith, c.below);
            generates = c'.at_least_two;
          },
          (c, c'),
          (here, refl),
        ))

  decode1-Decodes :
      (raw : ℕ) (t : Table) (nonce : List ℕ) (a : Area)
      → 8 ≤ length nonce
      → get_elem? t.areas (chosen_index t nonce) ≡ some a
      → get_memory_area t a.label ≡ some a
      → MemoryBytes.IsValid a
      → 2 ≤ a.total_size
      → Returns (Decodes is_prime v1 t nonce) (decode1 is_prime raw nonce a.label a.total_size)
  unfolding decode1
  decode1-Decodes raw t nonce a long here found av big =
      let (p, e, c) = closest_prime_lem is_prime two a.total_size big in
      let n = of_bytes (take 4 (drop 0 nonce)) in
      let read_offset = read_at-ok nonce 4 4 (omega arith) in
      let read_generator = read_at-ok nonce 0 4 (omega arith) in
      let modulus : difference a.total_size p ≡ a.total_size - p =
        omega (arith, c.below, av.small, av.size_counted) in
      let small : n % p < p = mod-lt n {m = p} (omega (arith, c.at_least_two)) in
      let law : at_least_two (n % p) ≤ p = ground (arith, c.at_least_two) in
      elim (Bool-cases (a.total_size == p)) [
        | inl whole ↦
            rw (e, whole, read_generator, remainder-ok n p (ground (arith, c.at_least_two)))
              (returns (
                refl,
                record {
                  area = a;
                  found = found;
                  area_valid = av;
                  sized = refl;
                  some_bytes = c.at_least_two;
                  within = omega (arith, c.below);
                  generates = ground arith;
                },
                (c, λ more. ground arith),
                (here, (ground arith, ground arith)),
              ))
        | inr part ↦
            let m = of_bytes (take 4 (drop 4 nonce)) in
            let below : m % (a.total_size - p) < a.total_size - p =
              mod-lt m {m = a.total_size - p} (ground (arith, c.below)) in
            rw
              (
                e,
                part,
                read_offset,
                modulus,
                remainder-ok m (a.total_size - p) (ground (arith, c.below)),
                read_generator,
                remainder-ok n p (ground (arith, c.at_least_two)),
              )
              (returns (
                refl,
                record {
                  area = a;
                  found = found;
                  area_valid = av;
                  sized = refl;
                  some_bytes = c.at_least_two;
                  within = omega (arith, c.below, below);
                  generates = ground arith;
                },
                (c, λ more. ground arith),
                (here, (ground arith, ground arith)),
              ))
      ]

  decode_chosen-Decodes :
      (v : Version) (raw : ℕ) (t : Table) (nonce : List ℕ) (a : Area)
      → is_prime 3 ≡ true
      → 8 ≤ length nonce
      → get_elem? t.areas (chosen_index t nonce) ≡ some a
      → get_memory_area t a.label ≡ some a
      → MemoryBytes.IsValid a
      → least_size v ≤ a.total_size
      → Returns
          (Decodes is_prime v t nonce)
          (decode_chosen is_prime v raw nonce a.label a.total_size)
  unfolding decode_chosen
  decode_chosen-Decodes v1 raw t nonce a three long here found av big =
      decode1-Decodes raw t nonce a long here found av big
  decode_chosen-Decodes v2 raw t nonce a three long here found av big =
      decode2-Decodes t nonce a here found av big
  decode_chosen-Decodes v3 raw t nonce a three long here found av big =
      decode3-Decodes t nonce a here found av big
  decode_chosen-Decodes v4 raw t nonce a three long here found av big =
      decode4-Decodes three t nonce a here found av big

  -- Each of the four versions of decode_nonce succeeds without undefined behaviour. The area is
  -- the one that the two bytes before the last one of the nonce name, modulo the number of areas.
  -- Version 1 takes the largest prime up to the size of the area as the actual size, the bytes 0
  -- to 3 of the nonce modulo that size as the generator (2 in place of 0 and 1), and the bytes 4
  -- to 7 modulo the difference of the two sizes as the offset, 0 when they are equal. Versions 2
  -- and 3 take the whole area, with the largest prime up to its size as the generator; version 4
  -- takes the largest prime up to the size as the actual size and the largest one below that as
  -- the generator; their offset is 0. There are at least two bytes, the offset and the actual size
  -- together are not above the size of the area, and the generator is at least 2. Conditions: the
  -- list of labels can be allocated, the prime test accepts 2 and 3, and the table is ready with
  -- areas of at least the least size of the version.
  pub decode_nonce-Decodes :
      (v : Version) (raw : ℕ) (t : Table) (nonce : List ℕ)
      → is_prime 3 ≡ true
      → IsReady (least_size v) t nonce
      → Returns (Decodes is_prime v t nonce) (decode_nonce is_prime v true raw t)
  unfolding decode_nonce
  decode_nonce-Decodes v raw t nonce three r =
      let (a, chosen, here, found, av, big) = chosen_area_lem (least_size v) t nonce r in
      let whole : decode_nonce is_prime v true raw t
          ≡ decode_chosen is_prime v raw nonce a.label a.total_size =
        ground (arith, r.nonce_set, chosen) in
      rw whole (decode_chosen-Decodes v raw t nonce a three r.nonce_long here found av big)
