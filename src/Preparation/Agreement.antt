-- ===== src/Preparation/Agreement.antt =====
-- Two runs of ra_prepare_data on the same areas and the same nonce, over two images of the memory: the
-- extractor's, on the server, and the attestator's, in the running application.
use remote_attestation.Prelude.{
  ℕ, ◌+◌, ◌≡◌, refl, sym, ap, ◌∙◌, Bool, true, Option, none, some, List, [], ◌∷◌, length, arith,
}
use remote_attestation.Prelude.RaResult.{RaResult, success}
use remote_attestation.Prelude.Run.{ok, Returns-ok}
use remote_attestation.Memory.{Area}
use remote_attestation.Memory.Bytes.{byte_at}
use remote_attestation.DataTable.{Table, get_memory_area}
use remote_attestation.Nonce.Agreement.{IsAgreed, decode_nonce-same}
use remote_attestation.Nonce.{DecodedInfo, Version, decode_nonce}
use remote_attestation.Nonce.Decode.{IsReady, IsDecoded, Decodes, least_size, decode_nonce-Decodes}
use remote_attestation.Preparation.{prepare_data}
use remote_attestation.Preparation.Walk.{
  all_mallocs, place, Walked, walk_loop-Walked, prepare_data-walked,
}

module _ (is_prime : ℕ → Bool) (two : is_prime 2 ≡ true) (v : Version) where
  -- The bytes that the walk of a table's nonce takes from an image of the memory.
  abbrev pub IsWalk : (memory : ℕ → ℕ) (base : ℕ) → Table → List ℕ → Type 0
  IsWalk memory base t bs =
      (info : DecodedInfo) × (decode_nonce is_prime v true 0 t ≡ ok (success, some info))
      × (d : IsDecoded t info) × (length bs ≡ info.actual_buffer_size)
      × Walked memory base info d.area 0 bs

  module _ (three : is_prime 3 ≡ true) where
    -- ra_prepare_data stores the bytes of the walk.
    pub prepare_data-IsWalk :
        (memory : ℕ → ℕ) (base raw : ℕ) (t : Table) (nonce : List ℕ)
        → IsReady (least_size v) t nonce
        → (bs : List ℕ) × IsWalk memory base t bs
          × (prepare_data memory base is_prime v all_mallocs raw t
              ≡ ok (record t { prepared_data = some bs; prepared_data_size = length bs }, success))
    prepare_data-IsWalk memory base raw t nonce ready =
        let (out, e, d) =
          Returns-ok _ _ (decode_nonce-Decodes is_prime two v 0 t nonce three ready) in
        go out e d
      where
        go :
            (out : RaResult × Option DecodedInfo)
            → decode_nonce is_prime v true 0 t ≡ ok out
            → Decodes is_prime v t nonce out
            → (bs : List ℕ) × IsWalk memory base t bs
              × (prepare_data memory base is_prime v all_mallocs raw t
                  ≡ ok (
                    record t { prepared_data = some bs; prepared_data_size = length bs },
                    success,
                  ))
        go (r, none) e d = absurd d
        go (r, some info) e (done, d, law, named) =
            let same =
              decode_nonce-same is_prime two v 0 raw t t nonce ready ready
                (record { areas = refl; counts = refl }) in
            let decoded : decode_nonce is_prime v true 0 t ≡ ok (success, some info) = cc in
            let (bs, loop, l, w) =
              walk_loop-Walked memory base info d.area d.area_valid d.some_bytes d.within
                info.actual_buffer_size 0 in
            (
              bs,
              (info, decoded, d, l, w),
              prepare_data-walked memory base is_prime v raw t nonce info d.area bs ready
                  (same ∙ decoded) d.found loop,
            )

-- Where the images agree, the walks do.
pub Walked-unique :
    (memory memory' : ℕ → ℕ) (base base' : ℕ) (info : DecodedInfo) (a : Area) (i : ℕ)
    (bs bs' : List ℕ)
    → ((k : ℕ) → byte_at memory' base' a.blocks k ≡ byte_at memory base a.blocks k)
    → length bs ≡ length bs'
    → Walked memory base info a i bs
    → Walked memory' base' info a i bs'
    → bs ≡ bs'
Walked-unique memory memory' base base' info a i [] [] agree l w w' = refl
Walked-unique memory memory' base base' info a i [] (b' ∷ bs') agree l w w' = absurd (omega arith)
Walked-unique memory memory' base base' info a i (b ∷ bs) [] agree l w w' = absurd (omega arith)
Walked-unique memory memory' base base' info a i (b ∷ bs) (b' ∷ bs') agree l (e, w) (e', w') =
    let same = agree (place info i) in
    let rest =
      Walked-unique memory memory' base base' info a (i + 1) bs bs' agree (omega arith) w w' in
    let first : b ≡ b' = cc in cc

-- The extractor's walk and the attestator's, for the same nonce over the same areas, take the same
-- bytes when the two images of the memory agree on the areas.
pub IsWalk-unique :
    (is_prime : ℕ → Bool) (two : is_prime 2 ≡ true) (v : Version) (memory memory' : ℕ → ℕ)
    (base base' : ℕ) (t t' : Table) (nonce bs bs' : List ℕ)
    → IsReady (least_size v) t nonce
    → IsReady (least_size v) t' nonce
    → IsAgreed t t'
    → ((a : Area) (label k : ℕ)
        → get_memory_area t label ≡ some a
        → byte_at memory' base' a.blocks k ≡ byte_at memory base a.blocks k)
    → IsWalk is_prime two v memory base t bs
    → IsWalk is_prime two v memory' base' t' bs'
    → bs ≡ bs'
unfolding get_memory_area
IsWalk-unique is_prime two v memory memory' base base' t t' nonce bs bs' ready ready' g agree
      (info, e, d, l, w) (info', e', d', l', w') =
    let same = decode_nonce-same is_prime two v 0 0 t t' nonce ready ready' g in
    let one_info : info' ≡ info = cc in
    let found : get_memory_area t info.area_label ≡ some d'.area =
      rw (sym g.areas, sym one_info) d'.found in
    let one_area : d'.area ≡ d.area = cc in
    let walked : Walked memory' base' info d.area 0 bs' = rw (sym one_info, sym one_area) w' in
    let sized : length bs' ≡ info.actual_buffer_size =
      l' ∙ ap (λ i. i.actual_buffer_size) one_info in
    Walked-unique memory memory' base base' info d.area 0 bs bs'
      (λ k. agree d.area info.area_label k d.found) (l ∙ sym sized) w walked

-- A walk of a table is one of every table with the same areas and the same nonce.
pub IsWalk-agreed :
    (is_prime : ℕ → Bool) (two : is_prime 2 ≡ true) (v : Version) (memory : ℕ → ℕ) (base : ℕ)
    (t t' : Table) (nonce bs : List ℕ)
    → IsReady (least_size v) t nonce
    → IsReady (least_size v) t' nonce
    → IsAgreed t t'
    → IsWalk is_prime two v memory base t' bs
    → IsWalk is_prime two v memory base t bs
unfolding get_memory_area
IsWalk-agreed is_prime two v memory base t t' nonce bs ready ready' g (info, e, d, l, w) = (
  info,
  sym (decode_nonce-same is_prime two v 0 0 t t' nonce ready ready' g) ∙ e,
  record {
    area = d.area;
    found = rw (sym g.areas) d.found;
    area_valid = d.area_valid;
    sized = d.sized;
    some_bytes = d.some_bytes;
    within = d.within;
    generates = d.generates;
  },
  l,
  w,
)
