-- ===== src/Prelude/Float.antt =====
-- The C type `float`. Its operations are the machine's, so they are a parameter, and most laws of
-- arithmetic fail for them. `IsExact` says that no operation rounds, as for times that are multiples
-- of a power of two and small enough: then a float stands for an integer in that unit.
use Prim.Native.Nat.{ℕ}
use mathlib.Core.Path.{◌≡◌}
use mathlib.Core.Bool.{Bool}
use remote_attestation.Prelude.Int.{ℤ, ◌+ℤ◌, ◌-ℤ◌, ltb_ℤ}

pub record FloatOps : Type 1 where
  pub Float : Type 0
  pub add : Float → Float → Float
  pub sub : Float → Float → Float
  pub ltb : Float → Float → Bool
  -- a literal such as 3600.0
  pub literal : ℕ → Float

pub record IsExact (f : FloatOps) : Type 1 where
  pub units : f.Float → ℤ
  pub units-add : (a b : f.Float) → units (f.add a b) ≡ units a +ℤ units b
  pub units-sub : (a b : f.Float) → units (f.sub a b) ≡ units a -ℤ units b
  pub ltb-units : (a b : f.Float) → f.ltb a b ≡ ltb_ℤ (units a) (units b)
