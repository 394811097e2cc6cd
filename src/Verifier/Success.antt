-- ===== src/Verifier/Success.antt =====
-- What a verdict `success` of the verifier rests on.
use remote_attestation.Prelude.{
  ℕ, zero, suc, ◌+◌, ◌-◌, ◌%◌, ◌^◌, ◌≡◌, ◌⊎◌, inl, inr, refl, sym, ap, ◌∙◌, Bool, true, false,
  Option, none, some, List, [], ◌∷◌, ◌==◌, if◌then◌else◌, length, take, get_elem?, arith,
}
use remote_attestation.Prelude.Bytes.{memcmp-eq, hex_string}
use remote_attestation.Prelude.RaResult.{RaResult}
use remote_attestation.Prelude.Run.{Run, ok, ◌>>=◌, >>=-eq-ok, deref}
use remote_attestation.DoHash.{Libraries, Algorithm, Packed, do_hash}
use remote_attestation.Verifier.{
  RequestStatus, success, DataToVerify, DbWrite, set_compromised, finalize_request, Header,
  parse_header, is_in_time, is_same_hash, request_status, conclude, verify, verifier,
}

same_hash-take :
    (computed received : List ℕ)
    → is_same_hash computed received ≡ ok true
    → received ≡ take (length received) computed
unfolding is_same_hash
same_hash-take computed received e =
    ground (arith, memcmp-eq (take (length received) computed) received)

no_write : (ws : List DbWrite) (x : DbWrite) (i : ℕ) → ok [] ≡ ok ws → get_elem? ws i ≡ some x → ⊥
no_write ws x i e k = cc

-- A run that writes something has passed its tests.
passed :
    (b : Bool) (m : Run (List DbWrite)) (ws : List DbWrite) (x : DbWrite) (i : ℕ)
    → (if b then m else ok []) ≡ ok ws
    → get_elem? ws i ≡ some x
    → m ≡ ok ws
passed true m ws x i e k = e
passed false m ws x i e k = absurd (no_write ws x i e k)

-- The elements of a list of one or two writes.
one_write : (w x : DbWrite) (i : ℕ) → get_elem? (w ∷ []) i ≡ some x → w ≡ x
one_write w x zero k = cc
one_write w x (suc i) k = cc

two_writes :
    (a : ℕ) (w : DbWrite) (id : ℕ) (s : RequestStatus) (t i : ℕ)
    → get_elem? (set_compromised a ∷ w ∷ []) i ≡ some (finalize_request id s t)
    → w ≡ finalize_request id s t
two_writes a w id s t zero k = cc
two_writes a w id s t (suc i) k = one_write w _ i k

writes_of :
    (same : Bool) (application : Option ℕ) (w : DbWrite) (ws : List DbWrite)
    → (if same then ok (w ∷ []) else (deref application >>= λ a. ok (set_compromised a ∷ w ∷ [])))
      ≡ ok ws
    → (ws ≡ w ∷ []) ⊎ ((a : ℕ) × (ws ≡ set_compromised a ∷ w ∷ []))
writes_of true application w ws e = inl cc
writes_of false none w ws e = cc
writes_of false (some a) w ws e = inr (a, cc)

module _ (lib : Libraries) (algorithm : Algorithm) (get_application_id : List ℕ → Option ℕ)
    (get_data_to_verify : ℕ → Option DataToVerify) where
  finalized : Header → DataToVerify → (same : Bool) → DbWrite
  finalized h d same =
      finalize_request h.request_id (request_status same (is_in_time h.response_time d))
        ((h.response_time + 2 ^ 64 - d.send_time) % 2 ^ 32)

  finalized-success :
      (h : Header) (d : DataToVerify) (same : Bool) (id t : ℕ)
      → finalized h d same ≡ finalize_request id success t
      → (id ≡ h.request_id) × (same ≡ true) × (is_in_time h.response_time d ≡ true)
  unfolding finalized request_status
  finalized-success h d same id t e = ground arith

  conclude-writes :
      (h : Header) (d : DataToVerify) (computed received : List ℕ) (ws : List DbWrite)
      → conclude lib algorithm get_application_id get_data_to_verify h d computed received ≡ ok ws
      → (same : Bool) × (is_same_hash computed received ≡ ok same)
        × ((ws ≡ finalized h d same ∷ [])
            ⊎ ((a : ℕ) × (ws ≡ set_compromised a ∷ finalized h d same ∷ [])))
  unfolding conclude finalized
  conclude-writes h d computed received ws e =
      let (same, e1, e2) = >>=-eq-ok (is_same_hash computed received) _ e in
      (same, e1, writes_of same (get_application_id (hex_string h.aid)) (finalized h d same) ws e2)

  verdict_of :
      (h : Header) (d : DataToVerify) (same : Bool) (ws : List DbWrite) (i id t : ℕ)
      → ((ws ≡ finalized h d same ∷ [])
          ⊎ ((a : ℕ) × (ws ≡ set_compromised a ∷ finalized h d same ∷ [])))
      → get_elem? ws i ≡ some (finalize_request id success t)
      → finalized h d same ≡ finalize_request id success t
  verdict_of h d same ws i id t (inl e) k = one_write (finalized h d same) _ i (rw (sym e) k)
  verdict_of h d same ws i id t (inr (a, e)) k =
      two_writes a (finalized h d same) id success t i (rw (sym e) k)

  conclude-success :
      (h : Header) (d : DataToVerify) (computed received : List ℕ) (ws : List DbWrite) (i id t : ℕ)
      → conclude lib algorithm get_application_id get_data_to_verify h d computed received ≡ ok ws
      → get_elem? ws i ≡ some (finalize_request id success t)
      → (id ≡ h.request_id)
        × (received ≡ take (length received) computed)
        × (is_in_time h.response_time d ≡ true)
  conclude-success h d computed received ws i id t e k =
      let (same, s, w) = conclude-writes h d computed received ws e in
      let (same_id, equal, in_time) =
        finalized-success h d same id t (verdict_of h d same ws i id t w k) in
      (same_id, same_hash-take computed received (s ∙ ap ok equal), in_time)

  hashed-success :
      (h : Header) (d : DataToVerify) (out : Option Packed) (received : List ℕ) (ws : List DbWrite)
      (i id t : ℕ)
      → elim out [
        | none ↦ ok []
        | some p ↦ conclude lib algorithm get_application_id get_data_to_verify h d p.bytes received
      ]
        ≡ ok ws
      → get_elem? ws i ≡ some (finalize_request id success t)
      → (p : Packed) × (out ≡ some p)
        × (id ≡ h.request_id)
        × (received ≡ take (length received) p.bytes)
        × (is_in_time h.response_time d ≡ true)
  hashed-success h d none received ws i id t e k = absurd (no_write ws _ i e k)
  hashed-success h d (some p) received ws i id t e k =
      let (same_id, prefix, in_time) = conclude-success h d p.bytes received ws i id t e k in
      (p, refl, same_id, prefix, in_time)

  -- The answers of the database and of the hash that a verdict `success` comes from.
  abbrev pub Accepted :
      (h : Header) (received : List ℕ) (malloc_buffer malloc_packed : Bool)
      (data_to_verify : Option DataToVerify)
      → Type 0
  Accepted h received malloc_buffer malloc_packed data_to_verify =
      (d : DataToVerify) × (data_to_verify ≡ some d)
      × (p : Packed) × (r : RaResult) × (do_hash lib algorithm malloc_buffer malloc_packed d.nonce
            d.prepared_data h.aid h.attestator_number []
          ≡ ok (r, some p))
      × (received ≡ take (length received) p.bytes)
      × (is_in_time h.response_time d ≡ true)

  found-success :
      (h : Header) (data_to_verify : Option DataToVerify) (received : List ℕ) (m n : Bool)
      (ws : List DbWrite) (i id t : ℕ)
      → elim data_to_verify [
        | none ↦ ok []
        | some d ↦
            do_hash lib algorithm m n d.nonce d.prepared_data h.aid h.attestator_number []
            >>= λ (r, out). elim out [
              | none ↦ ok []
              | some p ↦
                  conclude lib algorithm get_application_id get_data_to_verify h d p.bytes received
            ]
      ]
        ≡ ok ws
      → get_elem? ws i ≡ some (finalize_request id success t)
      → (id ≡ h.request_id) × Accepted h received m n data_to_verify
  found-success h none received m n ws i id t e k = absurd (no_write ws _ i e k)
  found-success h (some d) received m n ws i id t e k =
      let ((r, out), e1, e2) =
        >>=-eq-ok (do_hash lib algorithm m n d.nonce d.prepared_data h.aid h.attestator_number []) _
          e in
      let (p, some_p, same_id, prefix, in_time) = hashed-success h d out received ws i id t e2 k in
      (same_id, (d, refl, p, r, e1 ∙ ap (λ o. ok (r, o)) some_p, prefix, in_time))

  -- Whenever the verifier finalizes a request as a success, the request is the one of the header,
  -- the database holds data for it, the hash of that data with the AID and the number of the
  -- header was computed, the received hash equals the beginning of the computed one as far as it
  -- goes, and the response came in time. There are no conditions on the input, the allocations,
  -- the hash or the database.
  pub verifier-success :
      (header received : List ℕ) (l m n : Bool) (ws : List DbWrite) (i id t : ℕ)
      → verifier lib algorithm get_application_id get_data_to_verify header received l m n ≡ ok ws
      → get_elem? ws i ≡ some (finalize_request id success t)
      → (id ≡ (parse_header header).request_id)
        × Accepted (parse_header header) received m n (get_data_to_verify id)
  unfolding verifier verify
  verifier-success header received l m n ws i id t e k =
      let h = parse_header header in
      let e1 = passed (length header == 44) _ ws _ i e k in
      let e2 = passed l _ ws _ i e1 k in
      let e3 = passed (length received == h.hash_size) _ ws _ i e2 k in
      let (same_id, accepted) =
        found-success h (get_data_to_verify h.request_id) received m n ws i id t e3 k in
      (same_id, rw same_id accepted)
