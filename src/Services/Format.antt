-- ===== src/Services/Format.antt =====
-- internal/services/format.go
pub mod Commas
pub mod Decimals
use crypto_sentinel.Prelude.{
  ℕ, suc, ◌+◌, ◌-◌, List, [], ◌∷◌, Bytes, length, take, drop, ◌==◌, leb, if◌then◌else◌, ◌≡◌, refl,
}
use crypto_sentinel.Prelude.Int.{ℤ, pos, negsuc}
use crypto_sentinel.Go.Runtime.{Runtime}
use crypto_sentinel.Go.Float64.{Float64}
use crypto_sentinel.Go.Text.{text, trim_right, join}
use crypto_sentinel.Go.Decimal.{format_int}

-- F: four decimals, less the zeros at the end and then the point.
unfoldable pub format_float : ⦃g : Runtime⦄ → Float64 → Bytes
format_float ⦃g⦄ v = trim_right (λ c. c == b'.') (trim_right (λ c. c == b'0') (g.fixed 4 v))

-- s[i:j]
abbrev pub slice : Bytes → ℕ → ℕ → Bytes
slice s i j = drop i (take j s)

-- `for n > 3 { parts = prepend s[n-3:n]; n -= 3 }`, and then s[:n] in front.
unfoldable pub comma_parts : Bytes → ℕ → List Bytes → List Bytes
comma_parts s (suc (suc (suc (suc n)))) parts =
    comma_parts s (suc n) (slice s (suc n) (suc (suc (suc (suc n)))) ∷ parts)
comma_parts s n parts = slice s 0 n ∷ parts

unfoldable pub int_comma : ℤ → Bytes
unfolding comma_parts
int_comma v =
    let s = format_int v in
    if leb (length s) 3 then s else join (comma_parts s (length s) []) (b',' ∷ [])

grouped :
    (int_comma (pos 999) ≡ text "999")
    × (int_comma (pos 1234567) ≡ text "1,234,567")
    × (int_comma (negsuc 1233) ≡ text "-1,234")
    × (int_comma (negsuc 122) ≡ text "-,123")
unfolding int_comma format_int join text
grouped = (refl, refl, refl, refl)
