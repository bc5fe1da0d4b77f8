-- ===== src/Prelude/Float.antt =====
-- float64 as the comparisons see it. Every finite float64 is a whole multiple of the least positive
-- one, 2 ^ -1074, so a finite value is that multiple: `plus n` is n of it, `minus n` is n + 1 of it
-- below zero. Both zeros are `plus 0`, since no comparison tells them apart.
use Prim.Native.Nat.{ℕ, ◌*◌, ◌^◌}
use mathlib.Core.Path.{◌≡◌}
use mathlib.Core.Bool.{Bool, true, false, not, ◌||◌}
use native.Mathlib.Omega.{arith}
use llm_proxy_backend.Prelude.Tests.{ltb}

pub data Float64 : Type 0 where
  nan : Float64
  neg_inf : Float64
  minus : ℕ → Float64
  plus : ℕ → Float64
  pos_inf : Float64

-- math.IsNaN.
unfoldable pub is_nan : Float64 → Bool
is_nan nan = true
is_nan _ = false

-- a < b. Every comparison with a NaN is false.
unfoldable pub flt : Float64 → Float64 → Bool
flt (plus a) (plus b) = ltb a b
flt (minus a) (minus b) = ltb b a
flt (minus a) (plus b) = true
flt (minus a) pos_inf = true
flt (plus a) pos_inf = true
flt neg_inf (minus b) = true
flt neg_inf (plus b) = true
flt neg_inf pos_inf = true
flt _ _ = false

-- a <= b.
unfoldable pub fle : Float64 → Float64 → Bool
unfolding flt is_nan
fle a b = not (is_nan a || is_nan b || flt b a)

-- A whole number of dollars, exact up to 2 ^ 53.
unfoldable pub whole : ℕ → Float64
whole n = plus (n * 2 ^ 1074)

pub flt-fle : (a b : Float64) → flt a b ≡ true → fle b a ≡ false
unfolding fle
flt-fle a b h = ground arith
