-- ===== src/VerifierForwarder.antt =====
-- src/server-components/verifier_forwarder.c: the process that ACCL starts with a response, and that hands
-- it to the verifier of the application. `reads` lists what the calls of read deliver, `none` for an
-- error; behind its end the input is closed. The log is left out, and fork and pipe succeed.
pub mod Forwarding
mod Tests
use remote_attestation.Prelude.{
  ℕ, ◌+◌, ◌-◌, Bool, true, false, Option, none, some, List, [], ◌∷◌, ◌++◌, ◌==◌, leb, ltb,
  if◌then◌else◌, length, take, drop, get_elem?,
}
use remote_attestation.Prelude.Bytes.{to_bytes, hex_string}
use remote_attestation.Prelude.Int.{ℤ, pos, negsuc}
use remote_attestation.Prelude.Run.{Run, ok, fault, ◌>>=◌, deref}
use remote_attestation.Client.{aid_size}

-- The reading loop, with the bytes read so far; `none` for its error exits. read delivers no more than it
-- is asked for.
unfoldable pub read_loop :
    (in_buf_len : ℕ) → List (Option (List ℕ)) → (in_buf : List ℕ) → Option (List ℕ)
read_loop in_buf_len [] in_buf = if ltb (length in_buf) in_buf_len then none else some in_buf
read_loop in_buf_len (none ∷ reads) in_buf =
    if ltb (length in_buf) in_buf_len then none else some in_buf
read_loop in_buf_len (some bs ∷ reads) in_buf =
    let n = length (take (in_buf_len - length in_buf) bs) in
    let rest = read_loop in_buf_len reads (in_buf ++ take (in_buf_len - length in_buf) bs) in
    if ltb (length in_buf) in_buf_len then (if n == 0 then none else rest) else some in_buf

-- The directory of the verifier that is started, as the AID and the number in its path, and what is
-- written to its input.
pub record Forwarded : Type 0 where
  pub aid_string : List ℕ
  pub attestator_number : ℕ
  pub input : List ℕ

-- The part behind the loop: the AID is read from the buffer, and the attestator number from the one byte
-- behind it.
unfoldable pub forward : (time : ℕ) → List ℕ → Run Forwarded
forward time in_buf = deref (get_elem? in_buf aid_size) >>= λ attestator_number. ok (record {
  aid_string = hex_string (take aid_size in_buf);
  attestator_number = attestator_number;
  input = to_bytes 8 time ++ in_buf;
})

-- main: `arguments` is the length in argv[2], `none` when there are too few arguments; the result is
-- `none` when the process exits with 1.
unfoldable pub verifier_forwarder :
    (arguments : Option ℤ) (time : ℕ) → List (Option (List ℕ)) → Run (Option Forwarded)
unfolding forward
verifier_forwarder none time reads = ok none
verifier_forwarder (some (negsuc n)) time reads = ok none
verifier_forwarder (some (pos n)) time reads =
    if n == 0 then ok none else elim (read_loop n reads []) [
      | none ↦ ok none
      | some in_buf ↦ forward time in_buf >>= λ f. ok (some f)
    ]
