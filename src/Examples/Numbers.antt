-- ===== src/Examples/Numbers.antt =====
-- The format of numbers.
use crypto_sentinel.Prelude.{
  ℕ, List, [], ◌∷◌, ◌++◌, Bytes, ◌≡◌, ◌≢◌, refl, is_empty, replicate, if◌then◌else◌,
}
use crypto_sentinel.Prelude.Int.{pos, negsuc}
use crypto_sentinel.Go.Float64.{float}
use crypto_sentinel.Go.Text.{text, join}
use crypto_sentinel.Go.Decimal.{format_int, format_uint}
use crypto_sentinel.Services.Format.{format_float, int_comma}
use crypto_sentinel.Services.Format.Commas.{IsGrouped, concat, int_comma-IsGrouped, int_comma_sign}
use crypto_sentinel.Services.Format.Decimals.{format_float_lem}
use crypto_sentinel.Examples.Demo.{demo}

int_comma-IsGrouped_example :
    (ps : List Bytes) × IsGrouped ps
    × (concat ps ≡ format_int (pos 1234567))
    × (int_comma (pos 1234567) ≡ join ps (text ","))
int_comma-IsGrouped_example = int_comma-IsGrouped (pos 1234567)

int_comma_sign_example : (t : Bytes) × (int_comma (negsuc 122) ≡ b'-' ∷ b',' ∷ t)
unfolding format_uint
int_comma_sign_example = int_comma_sign 122 0 refl

twelve : demo.fixed 4 (float 12) ≡ text "12" ++ b'.' ∷ text "0000"
unfolding format_uint text
twelve = refl

format_float_lem_example :
    (kept : Bytes) × (k : ℕ) × (text "0000" ≡ kept ++ replicate k b'0')
    × ((t : Bytes) → kept ≢ t ++ b'0' ∷ [])
    × (format_float (float 12) ≡ (if is_empty kept then text "12" else text "12" ++ b'.' ∷ kept))
unfolding text
format_float_lem_example = format_float_lem (float 12) (text "12") (text "0000") twelve refl refl
