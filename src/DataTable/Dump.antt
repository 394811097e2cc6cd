-- ===== src/DataTable/Dump.antt =====
-- ra_dump_table_info in src/client-parametric-files/cond/ra_data_table.c: the table in a file, the AID
-- first, then the number, the counter of the areas in two bytes and the areas.
use remote_attestation.Prelude.{
  ℕ, zero, suc, ◌≡◌, ◌≢◌, ap, ◌∙◌, Bool, true, false, if◌then◌else◌, Option, none, some, List, [],
  ◌∷◌, ◌++◌, append_assoc, append-nil, All, length, drop,
}
use remote_attestation.Prelude.Bytes.{to_bytes}
use remote_attestation.Prelude.Input.{Sink, sink, write, write-accepted}
use remote_attestation.Prelude.RaResult.{RaResult, success, error_generic, is_success}
use remote_attestation.Prelude.Run.{Run, ok, ◌>>=◌}
use remote_attestation.Memory.{Area, is_empty}
use remote_attestation.Memory.Codec.{dump_area}
use remote_attestation.Memory.Codec.RoundTrip.{encode_area, Wrote, dump_area-encode}
use remote_attestation.DataTable.{Table}
use remote_attestation.DataTable.Areas.{IsValid}
use remote_attestation.DataTable.Ads.Encoded.{encode_areas}

-- The file afterwards: an error removes it. It is opened without O_TRUNC, so what an older file has
-- behind the end of the new content stays.
unfoldable pub close_dump : (older : List ℕ) → RaResult × Sink → RaResult × Option (List ℕ)
close_dump older (r, s) =
    if is_success r
    then (success, some (s.content ++ drop (length s.content) older))
    else (error_generic, none)

-- The bytes of a file, none for one that does not exist.
unfoldable pub bytes_of : Option (List ℕ) → List ℕ
bytes_of none = []
bytes_of (some bs) = bs

module _ (accepts : ℕ → Bool) where
  -- The loop, with the rounds that the counter leaves.
  unfoldable pub dump_areas : ℕ → List Area → Sink → Run (RaResult × Sink)
  dump_areas zero xs s = ok (success, s)
  dump_areas (suc n) [] s = ok (success, s)
  dump_areas (suc n) (a ∷ xs) s = dump_area accepts a s >>= λ (r, s'). elim (is_success r) [
    | true ↦ dump_areas n xs s'
    | false ↦ ok (error_generic, s')
  ]

  -- What is written to the open file.
  unfoldable pub dump_content : Table → Run (RaResult × Sink)
  dump_content t =
      let (aid_out, s1) = write accepts t.app_aid (sink [] 0) in
      let (number_out, s2) = write accepts (to_bytes 8 t.app_attestator_number) s1 in
      let (count_out, s3) = write accepts (to_bytes 2 t.memory_areas_count) s2 in
      if t.is_aid_set
      then (if aid_out
          then (if t.is_attestator_number_set
              then (if number_out
                  then (if count_out
                      then dump_areas t.memory_areas_count t.areas s3
                      else ok (error_generic, s3))
                  else ok (error_generic, s2))
              else ok (error_generic, s1))
          else ok (error_generic, s1))
      else ok (error_generic, sink [] 0)

  -- ra_dump_table_info, on the file of that name; `opened` is whether `open` succeeds.
  unfoldable pub dump_table_info :
      (opened : Bool) → Option (List ℕ) → Table → Run (RaResult × Option (List ℕ))
  dump_table_info opened file t =
      if opened
      then dump_content t >>= (λ out. ok (close_dump (bytes_of file) out))
      else ok (error_generic, file)

-- The bytes of a table.
unfoldable pub encode_table : Table → List ℕ
encode_table t =
    t.app_aid
    ++ (to_bytes 8 t.app_attestator_number
        ++ (to_bytes 2 t.memory_areas_count ++ encode_areas t.areas))

-- The dump of the area writes something for each of its blocks.
pub record HasContent (a : Area) : Type 0 where
  pub full : is_empty a ≡ false
  pub some_block : a.blocks ≢ []

module _ (accepts : ℕ → Bool) (all : (k : ℕ) → accepts k ≡ true) where
  dump_areas_step :
      (a : Area) (xs : List Area) (s s' : Sink) (n : ℕ)
      → dump_area accepts a s ≡ ok (success, s')
      → dump_areas accepts (suc n) (a ∷ xs) s ≡ dump_areas accepts n xs s'
  dump_areas_step a xs s s' n e = unfold dump_areas in rw e

  dump_areas-encode :
      (xs : List Area) (s : Sink)
      → All HasContent xs
      → Wrote (encode_areas xs) s (dump_areas accepts (length xs) xs s)
  unfolding encode_areas
  dump_areas-encode [] s h = (s.writes, unfold dump_areas in rw append-nil)
  dump_areas-encode (a ∷ xs) s h =
      let (k, e) = dump_area-encode accepts all a s h.0.full h.0.some_block in
      let (j, more) = dump_areas-encode xs (sink (s.content ++ encode_area a) k) h.1 in
      (
        j,
        dump_areas_step a xs s _ (length xs) e
            ∙ more
            ∙ ap (λ u. ok (success, sink u j)) (append_assoc s.content (encode_area a) _),
      )

  dump_content-encode :
      (t : Table)
      → IsValid t
      → t.is_aid_set ≡ true
      → t.is_attestator_number_set ≡ true
      → All HasContent t.areas
      → Wrote (encode_table t) (sink [] 0) (dump_content accepts t)
  unfolding dump_content encode_table
  dump_content-encode t v aid number h =
      let s1 = sink t.app_aid 1 in
      let s2 = sink (t.app_aid ++ to_bytes 8 t.app_attestator_number) 2 in
      let s3 = sink (s2.content ++ to_bytes 2 t.memory_areas_count) 3 in
      let (k, e) = dump_areas-encode t.areas s3 h in
      (
        k,
        rw
            (
              aid,
              number,
              write-accepted accepts t.app_aid (sink [] 0) all,
              write-accepted accepts (to_bytes 8 t.app_attestator_number) s1 all,
              write-accepted accepts (to_bytes 2 t.memory_areas_count) s2 all,
            )
            (ap (λ n. dump_areas accepts n t.areas s3) v.counted
              ∙ e
              ∙ ap (λ u. ok (success, sink u k))
                  (append_assoc s2.content _ _ ∙ append_assoc t.app_aid _ _)),
      )

  -- ra_dump_table_info of a valid table whose AID and attestator number are set succeeds, and the
  -- file holds the AID, the number in eight bytes, the number of areas in two and the areas in the
  -- format of their dump, and behind them what an older file of that name had there. Conditions:
  -- the file can be opened, every write succeeds, and no area is empty.
  pub dump_table_info-encode :
      (file : Option (List ℕ)) (t : Table)
      → IsValid t
      → t.is_aid_set ≡ true
      → t.is_attestator_number_set ≡ true
      → All HasContent t.areas
      → dump_table_info accepts true file t
        ≡ ok (success, some (encode_table t ++ drop (length (encode_table t)) (bytes_of file)))
  unfolding dump_table_info close_dump
  dump_table_info-encode file t v aid number h =
      let (k, e) = dump_content-encode t v aid number h in rw e
