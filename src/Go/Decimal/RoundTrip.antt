-- ===== src/Go/Decimal/RoundTrip.antt =====
-- `Atoi` reads back what `Itoa` prints, and the digits are digits.
use crypto_sentinel.Prelude.{
  ℕ, zero, suc, ◌+◌, ◌-◌, ◌/◌, ◌%◌, ◌^◌, ◌<◌, ◌≤◌, true, [], ◌∷◌, some, Bytes, ◌≡◌, refl, arith,
  length, all,
}
use crypto_sentinel.Prelude.Int.{pos}
use crypto_sentinel.Go.Decimal.{digits, format_uint, scan, parse_uint, atoi, digit}

scan-digits : (fuel n : ℕ) (out : Bytes) → n < fuel → scan 0 (digits fuel n out) ≡ scan n out
unfolding digits scan
scan-digits zero n out h = elim h [ ]
scan-digits (suc fuel) n out h = ground (arith, scan-digits fuel (n / 10) ((b'0' + n % 10) ∷ out))

scan-format_uint : (n : ℕ) → scan 0 (format_uint n) ≡ some n
unfolding format_uint scan
scan-format_uint n = scan-digits (suc n) n [] (omega arith)

digits-all :
    (fuel n : ℕ) (out : Bytes) → all digit out ≡ true → all digit (digits fuel n out) ≡ true
unfolding digits
digits-all zero n out h = h
digits-all (suc fuel) n out h = ground (arith, digits-all fuel (n / 10) ((b'0' + n % 10) ∷ out))

format_uint-all : (n : ℕ) → all digit (format_uint n) ≡ true
unfolding format_uint
format_uint-all n = digits-all (suc n) n [] refl

-- The digits come before what was printed already, and there is at least one.
length-digits : (fuel n : ℕ) (out : Bytes) → n < fuel → length out < length (digits fuel n out)
unfolding digits
length-digits zero n out h = elim h [ ]
length-digits (suc fuel) n out h =
    ground (arith, length-digits fuel (n / 10) ((b'0' + n % 10) ∷ out))

pub length-format_uint : (n : ℕ) → 0 < length (format_uint n)
unfolding format_uint
length-format_uint n = length-digits (suc n) n [] (omega arith)

parse_uint-scan :
    (top n : ℕ) (s : Bytes) → 0 < length s → scan 0 s ≡ some n → n ≤ top → parse_uint top s ≡ some n
unfolding parse_uint
parse_uint-scan top n [] l h fits = elim l [ ]
parse_uint-scan top n (c ∷ s) l h fits = ground arith

atoi-digits :
    (n : ℕ) (s : Bytes)
    → 0 < length s
    → all digit s ≡ true
    → scan 0 s ≡ some n
    → n < 2 ^ 63
    → atoi s ≡ some (pos n)
unfolding atoi
atoi-digits n [] l d h fits = elim l [ ]
atoi-digits n (c ∷ s) l d h fits = ground (arith, parse_uint-scan (2 ^ 63 - 1) n (c ∷ s))

-- An int that is not negative is read back from its print.
pub atoi-format_uint : (n : ℕ) → n < 2 ^ 63 → atoi (format_uint n) ≡ some (pos n)
atoi-format_uint n h =
    atoi-digits n (format_uint n) (length-format_uint n) (format_uint-all n) (scan-format_uint n) h
