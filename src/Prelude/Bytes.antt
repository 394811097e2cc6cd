-- ===== src/Prelude/Bytes.antt =====
-- Bytes as the C library reads and writes them: memcmp, "%02X", and little-endian integers.
use remote_attestation.Prelude.Tests.{ltb, leb, if◌then◌else◌}
use remote_attestation.Prelude.Lists.{length, All}
use remote_attestation.Prelude.Int.{ℤ, pos, negsuc, is_zero}
use Prim.Native.Nat.{ℕ, zero, suc, ◌+◌, ◌-◌, ◌*◌, ◌/◌, ◌%◌, ◌<◌}
use mathlib.Core.Path.{◌≡◌, refl, ap}
use mathlib.Core.Bool.{true}
use mathlib.Core.List.{List, [], ◌∷◌}
use native.Mathlib.Omega.{arith}

-- A list of bytes is a list of numbers below 256.
abbrev pub IsByte : ℕ → Type 0
IsByte b = b < 256

-- memcmp: the sign of the first difference. Both objects have the same size where it is called.
unfoldable pub memcmp : List ℕ → List ℕ → ℤ
memcmp [] [] = pos 0
memcmp [] (y ∷ ys) = negsuc 0
memcmp (x ∷ xs) [] = pos 1
memcmp (x ∷ xs) (y ∷ ys) = if ltb x y then negsuc 0 else if ltb y x then pos 1 else memcmp xs ys

pub memcmp-eq : (xs ys : List ℕ) → is_zero (memcmp xs ys) ≡ true → xs ≡ ys
unfolding memcmp
memcmp-eq [] [] h = refl
memcmp-eq [] (y ∷ ys) h = cc
memcmp-eq (x ∷ xs) [] h = cc
memcmp-eq (x ∷ xs) (y ∷ ys) h = ground (arith, memcmp-eq xs ys)

pub memcmp_self : (xs : List ℕ) → memcmp xs xs ≡ pos 0
unfolding memcmp
memcmp_self [] = refl
memcmp_self (x ∷ xs) = ground (arith, memcmp_self xs)

-- The digit that "%X" prints for a number below 16.
unfoldable pub hex_digit : ℕ → ℕ
hex_digit d = if ltb d 10 then b'0' + d else b'A' + (d - 10)

-- "%02X" of each byte in turn.
unfoldable pub hex_string : List ℕ → List ℕ
unfolding hex_digit
hex_string [] = []
hex_string (b ∷ bs) = hex_digit (b / 16) ∷ hex_digit (b % 16) ∷ hex_string bs

-- The value of a digit of either case, as "%x" reads it.
unfoldable pub digit_value : ℕ → ℕ
digit_value c = if leb b'a' c then c - b'a' + 10 else if leb b'A' c then c - b'A' + 10 else c - b'0'

-- "%02x" at each second character.
unfoldable pub parse_hex : List ℕ → List ℕ
unfolding digit_value
parse_hex [] = []
parse_hex (h ∷ []) = []
parse_hex (h ∷ l ∷ cs) = (digit_value h * 16 + digit_value l) ∷ parse_hex cs

digit_value-hex_digit : (d : ℕ) → d < 16 → digit_value (hex_digit d) ≡ d
unfolding digit_value hex_digit
digit_value-hex_digit d h = ground arith

pub parse_hex-hex_string : (bs : List ℕ) → All IsByte bs → parse_hex (hex_string bs) ≡ bs
unfolding parse_hex hex_string
parse_hex-hex_string [] h = refl
parse_hex-hex_string (b ∷ bs) h = ground (
  arith,
  digit_value-hex_digit (b / 16),
  digit_value-hex_digit (b % 16),
  parse_hex-hex_string bs h.1,
)

pub length-hex_string : (bs : List ℕ) → length (hex_string bs) ≡ 2 * length bs
unfolding hex_string
length-hex_string [] = omega arith
length-hex_string (b ∷ bs) = omega (arith, length-hex_string bs)

-- A little-endian integer of `w` bytes, written and read.
unfoldable pub to_bytes : ℕ → ℕ → List ℕ
to_bytes zero n = []
to_bytes (suc w) n = (n % 256) ∷ to_bytes w (n / 256)

unfoldable pub of_bytes : List ℕ → ℕ
of_bytes [] = 0
of_bytes (b ∷ bs) = b + 256 * of_bytes bs

pub length-to_bytes : (w n : ℕ) → length (to_bytes w n) ≡ w
unfolding to_bytes
length-to_bytes zero n = refl
length-to_bytes (suc w) n = ap suc (length-to_bytes w (n / 256))

pub IsByte-to_bytes : (w n : ℕ) → All IsByte (to_bytes w n)
unfolding to_bytes
IsByte-to_bytes zero n = tt
IsByte-to_bytes (suc w) n = (omega arith, IsByte-to_bytes w (n / 256))

-- The bound of an integer of `w` bytes, so that it computes at a numeral `w`.
abbrev pub byte_bound : ℕ → ℕ
byte_bound zero = 1
byte_bound (suc w) = 256 * byte_bound w

pub of_bytes-to_bytes : (w n : ℕ) → n < byte_bound w → of_bytes (to_bytes w n) ≡ n
unfolding of_bytes to_bytes
of_bytes-to_bytes zero n h = omega arith
of_bytes-to_bytes (suc w) n h = omega (arith, of_bytes-to_bytes w (n / 256) (omega arith))

pub of_bytes-lt : (bs : List ℕ) → All IsByte bs → of_bytes bs < byte_bound (length bs)
unfolding of_bytes
of_bytes-lt [] h = omega arith
of_bytes-lt (b ∷ bs) h = omega (arith, of_bytes-lt bs h.1)
