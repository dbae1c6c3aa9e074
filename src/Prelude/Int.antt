-- ===== src/Prelude/Int.antt =====
-- Signed integers over the native numbers, under the library's names (its ℤ stands on the unary ℕ).
use Prim.Native.Nat.{ℕ, suc, ◌+◌, ◌-◌, ◌^◌}
use crypto_sentinel.Prelude.Tests.{ltb, leb, if◌then◌else◌}

-- `negsuc n` is -(n + 1).
pub data ℤ : Type 0 where
  pos : ℕ → ℤ
  negsuc : ℕ → ℤ

-- a - b, as an integer.
abbrev pub sub_ℕ : ℕ → ℕ → ℤ
sub_ℕ a b = if leb b a then pos (a - b) else negsuc (b - a - 1)

-- What a 64-bit int holds of an integer that is out of range by less than 2^64.
unfoldable wrap64 : ℤ → ℤ
wrap64 (pos n) = if ltb n (2 ^ 63) then pos n else sub_ℕ n (2 ^ 64)
wrap64 (negsuc n) = if ltb n (2 ^ 63) then negsuc n else pos (2 ^ 64 - 1 - n)

-- a - b and -a on 64-bit ints.
unfoldable pub sub64 : ℤ → ℤ → ℤ
unfolding wrap64
sub64 (pos a) (pos b) = wrap64 (sub_ℕ a b)
sub64 (pos a) (negsuc b) = wrap64 (pos (suc (a + b)))
sub64 (negsuc a) (pos b) = wrap64 (negsuc (a + b))
sub64 (negsuc a) (negsuc b) = wrap64 (sub_ℕ b a)

unfoldable pub neg64 : ℤ → ℤ
unfolding sub64
neg64 a = sub64 (pos 0) a
