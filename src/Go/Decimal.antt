-- ===== src/Go/Decimal.antt =====
-- Decimal numbers of the package `strconv`: `Itoa` and `FormatInt(v, 10)`, and `Atoi`.
pub mod RoundTrip
use crypto_sentinel.Prelude.{
  ℕ, zero, suc, ◌+◌, ◌-◌, ◌*◌, ◌/◌, ◌%◌, ◌^◌, Bool, true, false, ◌&&◌, List, [], ◌∷◌, Option, none,
  some, Bytes, ltb, leb, ◌==◌, if◌then◌else◌, ◌≡◌, refl,
}
use crypto_sentinel.Prelude.Int.{ℤ, pos, negsuc, sub_ℕ}
use crypto_sentinel.Go.Text.{text}

-- The digits of `n` before `out`. Each round divides by ten, so `suc n` rounds are enough.
unfoldable pub digits : ℕ → ℕ → Bytes → Bytes
digits zero n out = out
digits (suc fuel) n out = elim (ltb n 10) [
  | true ↦ (b'0' + n) ∷ out
  | false ↦ digits fuel (n / 10) ((b'0' + n % 10) ∷ out)
]

unfoldable pub format_uint : ℕ → Bytes
unfolding digits
format_uint n = digits (suc n) n []

-- strconv.Itoa and strconv.FormatInt(v, 10)
unfoldable pub format_int : ℤ → Bytes
unfolding format_uint
format_int (pos n) = format_uint n
format_int (negsuc n) = b'-' ∷ format_uint (suc n)

abbrev pub digit : ℕ → Bool
digit c = leb b'0' c && leb c b'9'

-- The number that digits spell behind `n`; `none` at any other byte.
unfoldable pub scan : ℕ → Bytes → Option ℕ
scan n [] = some n
scan n (c ∷ s) = if digit c then scan (n * 10 + (c - b'0')) s else none

-- ParseUint(s, 10, 64) with a largest value: it fails on no digits and out of range.
unfoldable pub parse_uint : ℕ → Bytes → Option ℕ
unfolding scan
parse_uint top [] = none
parse_uint top (c ∷ s) = elim (scan 0 (c ∷ s)) [
  | none ↦ none
  | some n ↦ if leb n top then some n else none
]

-- strconv.Atoi on a 64-bit machine: a sign or none, and digits; `none` is a non-nil error.
unfoldable pub atoi : Bytes → Option ℤ
unfolding parse_uint
atoi [] = none
atoi (c ∷ s) =
    if c == b'-'
    then elim (parse_uint (2 ^ 63) s) [ none ↦ none | some n ↦ some (sub_ℕ 0 n) ]
    else if c == b'+'
    then elim (parse_uint (2 ^ 63 - 1) s) [ none ↦ none | some n ↦ some (pos n) ]
    else elim (parse_uint (2 ^ 63 - 1) (c ∷ s)) [ none ↦ none | some n ↦ some (pos n) ]

printed :
    (format_uint 0 ≡ text "0")
    × (format_int (negsuc 41) ≡ text "-42")
    × (format_uint 12070 ≡ text "12070")
unfolding format_int text
printed = (refl, refl, refl)

read :
    (atoi (text "-42") ≡ some (negsuc 41))
    × (atoi (text "+7") ≡ some (pos 7))
    × (atoi (text "-0") ≡ some (pos 0))
    × (atoi (text "9223372036854775808") ≡ none)
    × (atoi (text "-9223372036854775808") ≡ some (negsuc 9223372036854775807))
    × (atoi (text "1 ") ≡ none)
    × (atoi (text "-") ≡ none)
unfolding atoi text
read = (refl, refl, refl, refl, refl, refl, refl)
