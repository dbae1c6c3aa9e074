-- ===== src/Commands/Gas/Speeds.antt =====
-- The speeds that the command gas shows: the first of each kind.
use crypto_sentinel.Prelude.{
  ℕ, suc, Bool, not, ◌&&◌, ◌||◌, List, [], ◌∷◌, ◌++◌, append_assoc, length, length-append, Option,
  none, some, Bytes, get_elem?, if◌then◌else◌, ◌≡◌, refl, sym, ap, ◌∙◌, arith, Bool-cases, inl, inr,
}
use crypto_sentinel.Go.Runtime.{Runtime}
use crypto_sentinel.Go.Text.{text, to_lower, contains}
use crypto_sentinel.Commands.Gas.{
  Speed, Buckets, keep_first, bucket, buckets, bucket_line, speed_line, hints, gas_head, gas_text,
}

-- The kinds of a name in lower case; slow goes before normal, and normal before fast.
abbrev is_slow : Bytes → Bool
is_slow n = contains n (text "slow")

abbrev is_normal : Bytes → Bool
is_normal n = not (is_slow n) && (contains n (text "standard") || contains n (text "normal"))

abbrev is_fast : Bytes → Bool
is_fast n = not (is_slow n) && (not (is_normal n) && contains n (text "fast"))

-- What was kept, or else the other.
abbrev kept_or : Option ℕ → Option ℕ → Option ℕ
kept_or (some k) o = some k
kept_or none o = o

abbrev speed_or : Speed → Option Speed → Speed
speed_or s none = s
speed_or s (some t) = t

module _ ⦃g : Runtime⦄ where
  -- The first speed with a name of the kind.
  abbrev first_of : (Bytes → Bool) → List Speed → Option Speed
  first_of p [] = none
  first_of p (s ∷ speeds) = if p (to_lower s.name) then some s else first_of p speeds

  index_of : (Bytes → Bool) → ℕ → List Speed → Option ℕ
  index_of p i [] = none
  index_of p i (s ∷ speeds) = if p (to_lower s.name) then some i else index_of p (suc i) speeds

  abbrev line : Bytes → Option Speed → Bytes
  line label none = []
  line label (some s) = speed_line label s

  get_elem?-middle :
      (pre : List Speed) (s : Speed) (speeds : List Speed)
      → get_elem? (pre ++ s ∷ speeds) (length pre) ≡ some s
  get_elem?-middle [] s speeds = refl
  get_elem?-middle (t ∷ pre) s speeds = get_elem?-middle pre s speeds

  length-snoc : (pre : List Speed) (s : Speed) → length (pre ++ s ∷ []) ≡ suc (length pre)
  length-snoc pre s = omega (arith, length-append {0} pre (s ∷ []))

  record AreFirst (i : ℕ) (speeds : List Speed) (b b' : Buckets) : Type 0 where
    slow : b'.slow ≡ kept_or b.slow (index_of is_slow i speeds)
    normal : b'.normal ≡ kept_or b.normal (index_of is_normal i speeds)
    fast : b'.fast ≡ kept_or b.fast (index_of is_fast i speeds)

  kept_or-none : (o : Option ℕ) → o ≡ kept_or o none
  kept_or-none none = refl
  kept_or-none (some k) = refl

  module _ (i : ℕ) (n : Bytes) (b : Buckets) (r : Option ℕ) where
    bucket-slow : kept_or (bucket i n b).slow r ≡ kept_or b.slow (if is_slow n then some i else r)
    bucket-slow = ground arith

    bucket-normal :
        kept_or (bucket i n b).normal r ≡ kept_or b.normal (if is_normal n then some i else r)
    bucket-normal = ground arith

    bucket-fast : kept_or (bucket i n b).fast r ≡ kept_or b.fast (if is_fast n then some i else r)
    bucket-fast = ground arith

  buckets-AreFirst :
      (i : ℕ) (speeds : List Speed) (b : Buckets) → AreFirst i speeds b (buckets i speeds b)
  unfolding buckets index_of
  buckets-AreFirst i [] b = record {
    slow = kept_or-none b.slow;
    normal = kept_or-none b.normal;
    fast = kept_or-none b.fast;
  }
  buckets-AreFirst i (s ∷ speeds) b =
      let n = to_lower s.name in
      let rest = buckets-AreFirst (suc i) speeds (bucket i n b) in
      record {
        slow = rest.slow ∙ bucket-slow i n b (index_of is_slow (suc i) speeds);
        normal = rest.normal ∙ bucket-normal i n b (index_of is_normal (suc i) speeds);
        fast = rest.fast ∙ bucket-fast i n b (index_of is_fast (suc i) speeds);
      }

  -- The line of an index, if it is that of the first speed of the kind.
  bucket_line-index_of :
      (label : Bytes) (p : Bytes → Bool) (pre speeds : List Speed)
      → bucket_line label (index_of p (length pre) speeds) (pre ++ speeds)
        ≡ some (line label (first_of p speeds))
  unfolding index_of
  bucket_line-index_of label p pre [] = refl
  bucket_line-index_of label p pre (s ∷ speeds) = elim (Bool-cases (p (to_lower s.name))) [
    | inl fits ↦ rw fits (rw (get_elem?-middle pre s speeds, bucket_line) refl)
    | inr other ↦ rw other (
        ap (λ n. bucket_line label (index_of p n speeds) (pre ++ s ∷ speeds))
          (sym (length-snoc pre s))
        ∙ ap (bucket_line label (index_of p (length (pre ++ s ∷ [])) speeds))
            (sym (append_assoc pre (s ∷ []) speeds))
        ∙ bucket_line-index_of label p (pre ++ s ∷ []) speeds)
  ]

  -- An index was found exactly where a speed is.
  abbrev Together : Option ℕ → Option Speed → Type 0
  Together none none = Unit
  Together (some k) (some s) = Unit
  Together _ _ = ⊥

  index_of-first_of :
      (p : Bytes → Bool) (i : ℕ) (speeds : List Speed)
      → Together (index_of p i speeds) (first_of p speeds)
  unfolding index_of
  index_of-first_of p i [] = tt
  index_of-first_of p i (s ∷ speeds) = elim (Bool-cases (p (to_lower s.name))) [
    | inl fits ↦ rw fits tt
    | inr other ↦ rw other (index_of-first_of p (suc i) speeds)
  ]

  kept_line :
      (label : Bytes) (s : Speed) (speeds : List Speed) (o : Option ℕ) (r : Option Speed)
      → Together o r
      → bucket_line label o (s ∷ speeds) ≡ some (line label r)
      → bucket_line label (keep_first 0 o) (s ∷ speeds) ≡ some (speed_line label (speed_or s r))
  kept_line label s speeds none none t e = refl
  kept_line label s speeds (some k) (some u) t e = e
  kept_line label s speeds none (some u) t e = elim t [ ]
  kept_line label s speeds (some k) none t e = elim t [ ]

  normal_line :
      (label : Bytes) (p : Bytes → Bool) (s : Speed) (speeds : List Speed)
      → bucket_line label (keep_first 0 (index_of p 0 (s ∷ speeds))) (s ∷ speeds)
        ≡ some (speed_line label (speed_or s (first_of p (s ∷ speeds))))
  normal_line label p s speeds =
      let all = s ∷ speeds in
      kept_line label s speeds (index_of p 0 all) (first_of p all) (index_of-first_of p 0 all)
        (bucket_line-index_of label p [] all)

  -- The report: the first speed of each kind, the first of all where none is normal.
  abbrev pub gas_report : Bytes → Bytes → Speed → List Speed → Bytes
  gas_report raw chain_id s speeds =
      gas_head raw chain_id
      ++ line (text "Slow") (first_of is_slow (s ∷ speeds))
      ++ speed_line (text "Normal") (speed_or s (first_of is_normal (s ∷ speeds)))
      ++ line (text "Fast") (first_of is_fast (s ∷ speeds))
      ++ hints

  pub gas_text-gas_report :
      (raw chain_id : Bytes) (s : Speed) (speeds : List Speed)
      → gas_text raw chain_id (s ∷ speeds) ≡ some (gas_report raw chain_id s speeds)
  unfolding gas_text
  gas_text-gas_report raw chain_id s speeds =
      let all = s ∷ speeds in
      let f = buckets-AreFirst 0 all (record { slow = none; normal = none; fast = none }) in
      rw f.slow (
        rw f.normal (
          rw f.fast (
            rw (bucket_line-index_of (text "Slow") is_slow [] all) (
              rw (normal_line (text "Normal") is_normal s speeds)
                (rw (bucket_line-index_of (text "Fast") is_fast [] all) refl)))))
