-- ===== src/Services/Format/Commas.antt =====
-- `IntComma`: the groups that it makes.
use crypto_sentinel.Prelude.{
  ℕ, zero, suc, ◌-◌, ◌*◌, ◌≤◌, List, [], ◌∷◌, ◌++◌, Bytes, length, take, leb, ◌≡◌, refl, sym, ap,
  ◌∙◌, arith, All, append-nil, append_assoc, length-take, length-drop, Bool-cases, inl, inr,
  length-append, leb→le,
}
use crypto_sentinel.Prelude.Int.{ℤ, pos, negsuc}
use crypto_sentinel.Go.Text.{text, join}
use crypto_sentinel.Go.Decimal.{format_int, format_uint}
use crypto_sentinel.Go.Decimal.RoundTrip.{length-format_uint}
use crypto_sentinel.Services.Format.{slice, comma_parts, int_comma}

-- The parts laid end to end.
abbrev pub concat : List Bytes → Bytes
concat [] = []
concat (p ∷ ps) = p ++ concat ps

-- The first part has one to three bytes, and every other has three.
abbrev pub IsGrouped : List Bytes → Type 0
IsGrouped [] = ⊥
IsGrouped (p ∷ ps) = (1 ≤ length p) × (length p ≤ 3) × All (λ q. length q ≡ 3) ps

take-slice : (s : Bytes) (i j : ℕ) → i ≤ j → take i s ++ slice s i j ≡ take j s
take-slice s zero j h = refl
take-slice [] (suc i) zero h = elim h [ ]
take-slice [] (suc i) (suc j) h = refl
take-slice (c ∷ s) (suc i) zero h = elim h [ ]
take-slice (c ∷ s) (suc i) (suc j) h = ap (◌∷◌ c) (take-slice s i j (omega arith))

length-slice : (s : Bytes) (i j : ℕ) → j ≤ length s → length (slice s i j) ≡ j - i
length-slice s i j h = omega (arith, length-drop {0} i (take j s), length-take {0} j s)

comma_parts-concat :
    (s : Bytes) (n : ℕ) (ps : List Bytes) → concat (comma_parts s n ps) ≡ take n s ++ concat ps
unfolding comma_parts
comma_parts-concat s (suc (suc (suc (suc n)))) ps =
    comma_parts-concat s (suc n) (slice s (suc n) (suc (suc (suc (suc n)))) ∷ ps)
    ∙ sym (append_assoc (take (suc n) s) (slice s (suc n) (suc (suc (suc (suc n))))) (concat ps))
    ∙ ap (λ t. t ++ concat ps) (take-slice s (suc n) (suc (suc (suc (suc n)))) (omega arith))
comma_parts-concat s n ps = refl

comma_parts-IsGrouped :
    (s : Bytes) (n : ℕ) (ps : List Bytes)
    → 1 ≤ n
    → n ≤ length s
    → All (λ q. length q ≡ 3) ps
    → IsGrouped (comma_parts s n ps)
unfolding comma_parts
comma_parts-IsGrouped s (suc (suc (suc (suc n)))) ps l h a =
    comma_parts-IsGrouped s (suc n) (slice s (suc n) (suc (suc (suc (suc n)))) ∷ ps) (omega arith)
      (omega arith) (omega (arith, length-slice s (suc n) (suc (suc (suc (suc n)))) h), a)
comma_parts-IsGrouped s n ps l h a =
    (omega (arith, length-slice s 0 n h), omega (arith, length-slice s 0 n h), a)

length-format_int : (v : ℤ) → 1 ≤ length (format_int v)
unfolding format_int
length-format_int (pos n) = length-format_uint n
length-format_int (negsuc n) = omega arith

take-length : (s : Bytes) → take (length s) s ≡ s
take-length [] = refl
take-length (c ∷ s) = ap (◌∷◌ c) (take-length s)

-- `IntComma` writes the decimal digits, the sign among them, in groups of three from the right,
-- with a comma between two groups: the first group has one to three bytes, the others have three,
-- and together they are the number as `FormatInt` prints it.
pub int_comma-IsGrouped :
    (v : ℤ)
    → (ps : List Bytes) × IsGrouped ps
      × (concat ps ≡ format_int v)
      × (int_comma v ≡ join ps (text ","))
unfolding int_comma join text
int_comma-IsGrouped v = elim (Bool-cases (leb (length (format_int v)) 3)) [
  | inl short ↦ (
    format_int v ∷ [],
    (length-format_int v, leb→le _ _ short, tt),
    append-nil (format_int v),
    rw (short, int_comma) refl,
  )
  | inr long ↦ (
    comma_parts (format_int v) (length (format_int v)) [],
    comma_parts-IsGrouped (format_int v) _ [] (length-format_int v) (omega arith) tt,
    comma_parts-concat (format_int v) _ [] ∙ append-nil _ ∙ take-length (format_int v),
    rw (long, int_comma) refl,
  )
]

length-concat : (ps : List Bytes) → All (λ q. length q ≡ 3) ps → length (concat ps) ≡ 3 * length ps
length-concat [] a = refl
length-concat (p ∷ ps) (h, a) = omega (arith, length-append {0} p (concat ps), length-concat ps a)

-- A first group of one byte, before others, is followed by a comma.
join-lone :
    (c : ℕ) (s : Bytes) (ps : List Bytes) (k : ℕ)
    → IsGrouped ps
    → concat ps ≡ c ∷ s
    → length s ≡ 3 * suc k
    → (t : Bytes) × (join ps (text ",") ≡ c ∷ b',' ∷ t)
unfolding join text
join-lone c s [] k g e l = elim g [ ]
join-lone c s ([] ∷ ps) k g e l = absurd (omega (arith, g.0))
join-lone c s ((d ∷ []) ∷ []) k g e l = absurd (omega (arith, ap length e))
join-lone c s ((d ∷ []) ∷ q ∷ ps) k g e l = (join (q ∷ ps) (text ","), cc)
join-lone c s ((d ∷ d' ∷ p) ∷ ps) k g e l =
    absurd (omega (arith, ap length e, g.1, length-append {0} p (concat ps), length-concat ps g.2))

-- A negative number whose count of digits is a multiple of three is written with a comma directly
-- behind its sign, as in "-,123".
pub int_comma_sign :
    (n k : ℕ)
    → length (format_uint (suc n)) ≡ 3 * suc k
    → (t : Bytes) × (int_comma (negsuc n) ≡ b'-' ∷ b',' ∷ t)
int_comma_sign n k h =
    let (ps, g, whole, written) = int_comma-IsGrouped (negsuc n) in
    let (t, e) = join-lone b'-' (format_uint (suc n)) ps k g (unfold format_int in whole) h in
    (t, written ∙ e)
