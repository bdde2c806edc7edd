-- ===== src/Base/Floats.antt =====
-- `float` as the source uses it: comparison, `std::isfinite` and `std::clamp`. Every finite
-- binary32 value is a whole multiple of 2^-149, so `fin z` is z * 2^-149; the model also has the
-- multiples that binary32 leaves out, and one zero, since -0 and +0 compare equal.
use Prim.Native.Nat.{◌^◌}
use mathlib.Core.Bool.{Bool, true, false}
use slavetat_ui.Base.Tests.{if◌then◌else◌}
use slavetat_ui.Base.Int.{ℤ, pos, ◌==ℤ◌, ltb_ℤ}

pub data Float : Type 0 where
  nan neg_infinity infinity : Float
  fin : ℤ → Float

abbrev pub zero_f : Float
zero_f = fin (pos 0)

abbrev pub one_f : Float
one_f = fin (pos (2 ^ 149))

-- `a < b`; false when an operand is NaN.
abbrev pub lt_f : Float → Float → Bool
lt_f nan b = false
lt_f neg_infinity nan = false
lt_f neg_infinity neg_infinity = false
lt_f neg_infinity b = true
lt_f infinity b = false
lt_f (fin x) nan = false
lt_f (fin x) neg_infinity = false
lt_f (fin x) infinity = true
lt_f (fin x) (fin y) = ltb_ℤ x y

-- `a == b`; false when an operand is NaN.
abbrev pub eq_f : Float → Float → Bool
eq_f neg_infinity neg_infinity = true
eq_f infinity infinity = true
eq_f (fin x) (fin y) = x ==ℤ y
eq_f a b = false

-- `a <= b`; false when an operand is NaN.
abbrev pub le_f : Float → Float → Bool
le_f a b = if lt_f a b then true else eq_f a b

abbrev pub is_finite : Float → Bool
is_finite (fin x) = true
is_finite a = false

-- `std::clamp`; a NaN is returned as it is.
abbrev pub clamp_f : Float → Float → Float → Float
clamp_f v lo hi = if lt_f v lo then lo else if lt_f hi v then hi else v
