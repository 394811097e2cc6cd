-- ===== src/Prelude/Input.antt =====
-- Code that reads a blob through a moving pointer and allocates, and code that writes to a file.
-- A read behind the blob is a fault. The argument `grants` says which of a run's calls of `malloc`
-- succeed, and `accepts` which of its calls of `write`, each by its number.
use Prim.Native.Nat.{ℕ, ◌+◌}
use mathlib.Core.Path.{◌≡◌}
use mathlib.Core.Bool.{Bool, true, false}
use mathlib.Core.List.{List, ◌++◌}
use native.Mathlib.Omega.{arith}
use remote_attestation.Prelude.Tests.{leb, if◌then◌else◌}
use remote_attestation.Prelude.Lists.{length, take, drop, length-append, take-append, drop-append}
use remote_attestation.Prelude.Run.{Run, ok, fault, diverges}

-- What is left of the blob, and the number of allocations made so far.
pub record Input : Type 0 where
  pub bytes : List ℕ
  pub mallocs : ℕ

abbrev pub input : List ℕ → ℕ → Input
input bs k = record { bytes = bs; mallocs = k }

abbrev pub Parser : Type 0 → Type 0
Parser A = (ℕ → Bool) → Input → Run (A × Input)

abbrev pub pure : {A : Type 0} → A → Parser A
pure a grants s = ok (a, s)

abbrev pub undefined : {A : Type 0} → Parser A
undefined grants s = fault

infixl 5 ◌>>=◌
abbrev pub ◌>>=◌ : {A B : Type 0} → Parser A → (A → Parser B) → Parser B
◌>>=◌ m f grants s = elim (m grants s) [
  | ok (a, s') ↦ f a grants s'
  | fault ↦ fault
  | diverges ↦ diverges
]

-- memcpy of the next `n` bytes, and the step of the pointer over them.
unfoldable pub read : ℕ → Parser (List ℕ)
read n grants s =
    if leb n (length s.bytes) then ok (take n s.bytes, input (drop n s.bytes) s.mallocs) else fault

unfoldable pub malloc : Parser Bool
malloc grants s = ok (grants s.mallocs, input s.bytes (s.mallocs + 1))

pub read-append :
    (grants : ℕ → Bool) (n : ℕ) (bs rest : List ℕ) (k : ℕ)
    → length bs ≡ n
    → read n grants (input (bs ++ rest) k) ≡ ok (bs, input rest k)
unfolding read
read-append grants n bs rest k e =
    let long : leb n (length (bs ++ rest)) ≡ true = ground (arith, length-append bs rest) in
    rw (long, take-append n bs rest e, drop-append n bs rest e)

-- A file that is being written, and the number of calls of `write` so far.
pub record Sink : Type 0 where
  pub content : List ℕ
  pub writes : ℕ

abbrev pub sink : List ℕ → ℕ → Sink
sink bs k = record { content = bs; writes = k }

-- A write that is short or fails counts as failed; its callers give the file up.
unfoldable pub write : (ℕ → Bool) → List ℕ → Sink → Bool × Sink
write accepts bs s =
    if accepts s.writes
    then (true, sink (s.content ++ bs) (s.writes + 1))
    else (false, sink s.content (s.writes + 1))

pub write-accepted :
    (accepts : ℕ → Bool) (bs : List ℕ) (s : Sink)
    → ((k : ℕ) → accepts k ≡ true)
    → write accepts bs s ≡ (true, sink (s.content ++ bs) (s.writes + 1))
unfolding write
write-accepted accepts bs s all = rw (all s.writes)
