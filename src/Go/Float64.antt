-- ===== src/Go/Float64.antt =====
-- Go's float64: an IEEE 754 bit pattern. The comparisons are those of the standard, written out
-- on the bits; the arithmetic, which rounds, is a field of `Runtime`.
pub mod Order
use crypto_sentinel.Prelude.{
  ℕ, ◌+◌, ◌-◌, ◌/◌, ◌%◌, ◌^◌, Bool, true, false, not, ◌&&◌, ltb, leb, ◌==◌, if◌then◌else◌, ◌≡◌,
  refl,
}

pub record Float64 : Type 0 where
  pub bits : ℕ

abbrev pub float : ℕ → Float64
float b = record { bits = b }

-- The exponent and mantissa, which order the magnitudes; and the sign.
magnitude : Float64 → ℕ
magnitude x = x.bits % 2 ^ 63

sign : Float64 → Bool
sign x = leb (2 ^ 63) x.bits

-- Above the pattern of infinity stand the NaNs.
unfoldable pub is_nan : Float64 → Bool
unfolding magnitude
is_nan x = ltb 0x7FF0000000000000 (magnitude x)

-- The numbers in their order; -0 and +0 share a key.
unfoldable pub key : Float64 → ℕ
unfolding magnitude sign
key x = if sign x then 2 ^ 63 - magnitude x else 2 ^ 63 + magnitude x

-- x < y: false if one is a NaN.
unfoldable pub lt : Float64 → Float64 → Bool
lt x y = not (is_nan x) && (not (is_nan y) && ltb (key x) (key y))

-- x <= y
unfoldable pub le : Float64 → Float64 → Bool
le x y = not (is_nan x) && (not (is_nan y) && leb (key x) (key y))

-- x == y
unfoldable pub eq : Float64 → Float64 → Bool
eq x y = not (is_nan x) && (not (is_nan y) && key x == key y)

-- x > y and x >= y
abbrev pub gt : Float64 → Float64 → Bool
gt x y = lt y x

abbrev pub ge : Float64 → Float64 → Bool
ge x y = le y x

-- Literals of the source.
abbrev pub f_zero : Float64
f_zero = float 0

abbrev f_one : Float64
f_one = float 0x3FF0000000000000

abbrev pub f_hundred : Float64
f_hundred = float 0x4059000000000000

abbrev pub f_half : Float64
f_half = float 0x3FE0000000000000

-- -x
abbrev pub neg : Float64 → Float64
neg x = float (if leb (2 ^ 63) x.bits then x.bits - 2 ^ 63 else x.bits + 2 ^ 63)

ordered : (lt f_zero f_one ≡ true) × (lt f_one f_hundred ≡ true) × (le f_one f_zero ≡ false)
unfolding lt le is_nan key
ordered = (refl, refl, refl)

minus_one :
    (lt (float 0xBFF0000000000000) f_zero ≡ true) × (eq (float 0x8000000000000000) f_zero ≡ true)
unfolding lt eq is_nan key
minus_one = (refl, refl)

nan_unordered :
    (lt (float 0x7FF8000000000001) f_zero ≡ false) × (le f_zero (float 0x7FF8000000000001) ≡ false)
unfolding lt le is_nan key
nan_unordered = (refl, refl)
