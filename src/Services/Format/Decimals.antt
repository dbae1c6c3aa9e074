-- ===== src/Services/Format/Decimals.antt =====
-- `F`: what it strips, and that it can be undone.
use crypto_sentinel.Prelude.{
  ℕ, suc, Bool, true, false, not, ◌&&◌, [], ◌∷◌, ◌++◌, Bytes, all, is_empty, ◌==◌, if◌then◌else◌,
  ◌≡◌, ◌≢◌, refl, arith, ap, ◌∙◌, replicate, all-append,
}
use crypto_sentinel.Go.Runtime.{Runtime}
use crypto_sentinel.Go.Float64.{Float64}
use crypto_sentinel.Go.Text.{trim_right}
use crypto_sentinel.Services.Format.{format_float}

is_empty-append : (s t : Bytes) → is_empty (s ++ t) ≡ (is_empty s && is_empty t)
is_empty-append [] t = refl
is_empty-append (c ∷ s) t = refl

trim_right-append :
    (p : ℕ → Bool) (s t : Bytes)
    → trim_right p (s ++ t)
      ≡ (if is_empty (trim_right p t) then trim_right p s else s ++ trim_right p t)
unfolding trim_right
trim_right-append p [] t = ground arith
trim_right-append p (c ∷ s) t =
    ground (arith, trim_right-append p s t, is_empty-append s (trim_right p t))

trim_right-none : (p : ℕ → Bool) (s : Bytes) → all (λ c. not (p c)) s ≡ true → trim_right p s ≡ s
unfolding trim_right
trim_right-none p [] h = refl
trim_right-none p (c ∷ s) h = ground (arith, trim_right-none p s)

-- What `TrimRight(s, "0")` leaves, and the zeros that it took.
abbrev zero_byte : ℕ → Bool
zero_byte c = c == b'0'

abbrev point_byte : ℕ → Bool
point_byte c = c == b'.'

trim_zeros : (s : Bytes) → (k : ℕ) × (s ≡ trim_right zero_byte s ++ replicate k b'0')
unfolding trim_right
trim_zeros [] = (0, refl)
trim_zeros (c ∷ s) =
    let (k, e) = trim_zeros s in go (trim_right zero_byte s) (c == b'0') refl refl k e
  where
    go :
        (r : Bytes) (b : Bool)
        → trim_right zero_byte s ≡ r
        → (c == b'0') ≡ b
        → (k : ℕ) → s ≡ trim_right zero_byte s ++ replicate k b'0'
        → (k : ℕ) × (c ∷ s ≡ trim_right zero_byte (c ∷ s) ++ replicate k b'0')
    go [] true h z k e = (suc k, ground arith)
    go [] false h z k e = (k, ground arith)
    go (d ∷ r) b h z k e = (k, ground arith)

trim_right-end : (p : ℕ → Bool) (s t : Bytes) (c : ℕ) → p c ≡ true → trim_right p s ≢ t ++ c ∷ []
unfolding trim_right
trim_right-end p [] [] c h e = cc
trim_right-end p [] (d ∷ t) c h e = cc
trim_right-end p (x ∷ s) [] c h e = ground (arith, trim_right-end p s [] c h)
trim_right-end p (x ∷ s) (d ∷ t) c h e = ground (arith, trim_right-end p s t c h)

trim_zeros-point : (s : Bytes) → trim_right zero_byte (b'.' ∷ s) ≡ b'.' ∷ trim_right zero_byte s
unfolding trim_right
trim_zeros-point s = ground arith

trim_point :
    (s : Bytes)
    → all (λ c. not (point_byte c)) s ≡ true
    → trim_right point_byte (b'.' ∷ s) ≡ (if is_empty s then [] else b'.' ∷ s)
unfolding trim_right
trim_point s h = ground (arith, trim_right-none point_byte s)

module _ ⦃g : Runtime⦄ where
  -- If `%.4f` prints a whole part, a point and a fraction, then `F` prints the whole part and,
  -- unless the fraction is all zeros, the point and the fraction up to its last digit that is no
  -- zero. So nothing but zeros is lost, and a whole number has no point.
  pub format_float_lem :
      (v : Float64) (whole frac : Bytes)
      → g.fixed 4 v ≡ whole ++ b'.' ∷ frac
      → all (λ c. not (c == b'.')) whole ≡ true
      → all (λ c. not (c == b'.')) frac ≡ true
      → (kept : Bytes) × (k : ℕ) × (frac ≡ kept ++ replicate k b'0')
        × ((t : Bytes) → kept ≢ t ++ b'0' ∷ [])
        × (format_float v ≡ (if is_empty kept then whole else whole ++ b'.' ∷ kept))
  unfolding format_float
  format_float_lem v whole frac e w f =
      let kept = trim_right zero_byte frac in
      let (k, z) = trim_zeros frac in
      let lacks : all (λ c. not (point_byte c)) kept ≡ true = ground (
        arith,
        z,
        ap (all (λ c. not (point_byte c))) z,
        all-append (λ c. not (point_byte c)) kept (replicate k b'0'),
      ) in
      let first : trim_right zero_byte (g.fixed 4 v) ≡ whole ++ b'.' ∷ kept =
        ap (trim_right zero_byte) e
        ∙ trim_right-append zero_byte whole (b'.' ∷ frac)
        ∙ ground (arith, trim_zeros-point frac) in
      let second : trim_right point_byte (whole ++ b'.' ∷ kept)
          ≡ (if is_empty kept then whole else whole ++ b'.' ∷ kept) =
        trim_right-append point_byte whole (b'.' ∷ kept)
        ∙ ground (arith, trim_point kept lacks, trim_right-none point_byte whole w) in
      (
        kept,
        k,
        z,
        (λ t. trim_right-end zero_byte frac t b'0' refl),
        ap (trim_right point_byte) first ∙ second,
      )
