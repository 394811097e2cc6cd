-- ===== src/Prelude/Run.antt =====
-- The outcome of a run of C code. `fault` is undefined behaviour: a NULL dereference, a read outside
-- an object, a division by zero. `diverges` is a loop that never ends.
use mathlib.Core.Path.{◌≡◌, refl}
use mathlib.Core.Option.{Option, none, some}

pub data Run {ℓ} (A : Type ℓ) : Type ℓ where
  ok : A → Run A
  fault : Run A
  diverges : Run A

infixl 5 ◌>>=◌
abbrev pub ◌>>=◌ {ℓ κ} : {A : Type ℓ} {B : Type κ} → Run A → (A → Run B) → Run B
fault >>= rest = fault
diverges >>= rest = diverges
ok x >>= rest = rest x

-- A pointer that is dereferenced: NULL is a fault.
abbrev pub deref {ℓ} : {A : Type ℓ} → Option A → Run A
deref none = fault
deref (some a) = ok a

module _ {ℓ κ} {A : Type ℓ} {B : Type κ} where
  -- Both halves of a sequence that ends well have ended well.
  pub >>=-eq-ok :
      (first : Run A) (rest : A → Run B) {out : B}
      → (first >>= rest) ≡ ok out
      → (x : A) × (first ≡ ok x) × (rest x ≡ ok out)
  >>=-eq-ok fault rest e = cc
  >>=-eq-ok diverges rest e = cc
  >>=-eq-ok (ok x) rest e = (x, refl, e)

-- Total correctness: the run ends without undefined behaviour, and its result satisfies `P`.
pub data Returns {ℓ κ} {A : Type ℓ} (P : A → Type κ) : Run A → Type (ℓ ⊔ κ) where
  returns : {a : A} → P a → Returns P (ok a)

pub Returns-ok {ℓ κ} :
    {A : Type ℓ} (P : A → Type κ) (m : Run A) → Returns P m → (x : A) × (m ≡ ok x) × P x
Returns-ok P m (returns p) = (_, refl, p)
