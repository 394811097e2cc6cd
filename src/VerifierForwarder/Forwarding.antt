-- ===== src/VerifierForwarder/Forwarding.antt =====
-- What the forwarder makes of a response that arrives in pieces.
use remote_attestation.Prelude.{
  ℕ, ◌+◌, ◌-◌, ◌%◌, ◌≡◌, ◌≢◌, sym, ◌∙◌, true, false, some, List, [], ◌∷◌, ◌++◌, append_assoc,
  append-nil, map, ◌==◌, ltb, length, length-append, take, take_more, take-append, get_elem?,
  get_elem?-append_right, All, arith,
}
use remote_attestation.Prelude.Bytes.{to_bytes, length-to_bytes, hex_string}
use remote_attestation.Prelude.Int.{pos}
use remote_attestation.Prelude.Run.{ok}
use remote_attestation.DoHash.{Packed}
use remote_attestation.Attestator.Response.{response}
use remote_attestation.VerifierForwarder.{read_loop, forward, verifier_forwarder}

abbrev pub joined : List (List ℕ) → List ℕ
joined [] = []
joined (c ∷ cs) = c ++ joined cs

read_loop-joined :
    (cs : List (List ℕ)) (in_buf : List ℕ) (size : ℕ)
    → All (λ c. length c ≢ 0) cs
    → size ≡ length in_buf + length (joined cs)
    → read_loop size (map some cs) in_buf ≡ some (in_buf ++ joined cs)
unfolding read_loop
read_loop-joined [] in_buf size h e = ground (arith, append-nil in_buf)
read_loop-joined (c ∷ cs) in_buf size h e =
    let total = length-append c (joined cs) in
    let regroup : in_buf ++ (c ++ joined cs) ≡ in_buf ++ c ++ joined cs =
      sym (append_assoc in_buf c (joined cs)) in
    let piece : take (size - length in_buf) c ≡ c = take_more _ c (omega (arith, total)) in
    let more : ltb (length in_buf) size ≡ true = ground (arith, total, h.0) in
    let some_bytes : (length c == 0) ≡ false = ground (arith, h.0) in
    rw (regroup, piece, more, some_bytes)
      (read_loop-joined cs (in_buf ++ c) size h.1 (omega (arith, total, length-append in_buf c)))

first_byte :
    (aid rest : List ℕ) (n : ℕ)
    → length aid ≡ 16
    → get_elem? (aid ++ (to_bytes 8 n ++ rest)) 16 ≡ some (n % 256)
unfolding to_bytes
first_byte aid rest n e =
    let behind : 16 - length aid ≡ 0 = omega arith in
    get_elem?-append_right aid (to_bytes 8 n ++ rest) 16 (omega arith) ∙ rw behind

length-response :
    (aid : List ℕ) (n req_id : ℕ) (p : Packed)
    → length (response aid n req_id p) ≡ length aid + 20 + length p.bytes
length-response aid n req_id p = omega (
  arith,
  length-append aid (to_bytes 8 n),
  length-append (aid ++ to_bytes 8 n) (to_bytes 8 req_id),
  length-append (aid ++ to_bytes 8 n ++ to_bytes 8 req_id) (to_bytes 4 p.size),
  length-append (aid ++ to_bytes 8 n ++ to_bytes 8 req_id ++ to_bytes 4 p.size) p.bytes,
  length-to_bytes 8 n,
  length-to_bytes 8 req_id,
  length-to_bytes 4 p.size,
)

forward-response :
    (time : ℕ) (aid : List ℕ) (n req_id : ℕ) (p : Packed)
    → length aid ≡ 16
    → forward time (response aid n req_id p)
      ≡ ok (record {
        aid_string = hex_string aid;
        attestator_number = n % 256;
        input = to_bytes 8 time ++ response aid n req_id p;
      })
unfolding forward
forward-response time aid n req_id p e =
    let rest = to_bytes 8 req_id ++ (to_bytes 4 p.size ++ p.bytes) in
    let regroup : response aid n req_id p ≡ aid ++ (to_bytes 8 n ++ rest) = simp append_assoc in
    rw (regroup, first_byte aid rest n e, take-append 16 aid (to_bytes 8 n ++ rest) e)

-- The forwarder, given the length of a response and the response in any pieces that are not empty,
-- starts the verifier in the directory of the AID and of the attestator number modulo 256, and
-- passes it the time and the whole response. Condition: the AID of the response has 16 bytes.
pub verifier_forwarder-response :
    (cs : List (List ℕ)) (time : ℕ) (aid : List ℕ) (n req_id : ℕ) (p : Packed)
    → All (λ c. length c ≢ 0) cs
    → joined cs ≡ response aid n req_id p
    → length aid ≡ 16
    → verifier_forwarder (some (pos (length (response aid n req_id p)))) time (map some cs)
      ≡ ok (
          some (record {
            aid_string = hex_string aid;
            attestator_number = n % 256;
            input = to_bytes 8 time ++ response aid n req_id p;
          }))
unfolding verifier_forwarder
verifier_forwarder-response cs time aid n req_id p pieces whole e =
    let nonempty : (length (response aid n req_id p) == 0) ≡ false =
      ground (arith, length-response aid n req_id p) in
    let loop : read_loop (length (response aid n req_id p)) (map some cs) []
        ≡ some (response aid n req_id p) =
      rw (sym whole) (read_loop-joined cs [] (length (joined cs)) pieces (omega arith)) in
    rw (nonempty, loop, forward-response time aid n req_id p e)
