-- ===== src/Go/Text.antt =====
-- What the program uses of the package `strings`, over the bytes of a string. ASCII is written
-- out; where a byte is not ASCII, Go's own functions go on with a function of `Runtime`.
pub mod Laws
use Prim.Native.Char.{code}
use Prim.Native.String
use crypto_sentinel.Prelude.{
  ℕ, zero, suc, ◌+◌, ◌-◌, ◌/◌, ◌%◌, Bool, true, false, not, ◌&&◌, ◌||◌, List, [], ◌∷◌, ◌++◌, map,
  String, Bytes, length, drop, is_empty, all, ltb, leb, ◌==◌, if◌then◌else◌, ◌≡◌, refl,
}
use crypto_sentinel.Go.Runtime.{Runtime}

-- UTF-8, for the literals of the source.
utf8 : ℕ → Bytes
utf8 c =
    if ltb c 0x80
    then c ∷ []
    else if ltb c 0x800
    then (0xC0 + c / 64) ∷ (0x80 + c % 64) ∷ []
    else if ltb c 0x10000
    then (0xE0 + c / 4096) ∷ (0x80 + c / 64 % 64) ∷ (0x80 + c % 64) ∷ []
    else (0xF0 + c / 262144) ∷ (0x80 + c / 4096 % 64) ∷ (0x80 + c / 64 % 64) ∷ (0x80 + c % 64) ∷ []

unfoldable pub text : String → Bytes
unfolding utf8
text String.[] = []
text (String.◌∷◌ c s) = utf8 (code c) ++ text s

-- s == t
unfoldable pub beq : Bytes → Bytes → Bool
beq [] [] = true
beq [] (d ∷ t) = false
beq (c ∷ s) [] = false
beq (c ∷ s) (d ∷ t) = c == d && beq s t

-- utf8.RuneSelf
abbrev pub ascii : ℕ → Bool
ascii c = ltb c 0x80

-- asciiSpace: tab, newline, vertical tab, form feed, return, space
unfoldable pub ascii_space : ℕ → Bool
ascii_space c = (leb 9 c && leb c 13) || c == 32

unfoldable lower_byte : ℕ → ℕ
lower_byte c = if leb b'A' c && leb c b'Z' then c + 32 else c

unfoldable upper_byte : ℕ → ℕ
upper_byte c = if leb b'a' c && leb c b'z' then c - 32 else c

-- HasPrefix(s, p), HasSuffix(s, p), Contains(s, p)
unfoldable pub has_prefix : Bytes → Bytes → Bool
has_prefix s [] = true
has_prefix [] (d ∷ p) = false
has_prefix (c ∷ s) (d ∷ p) = c == d && has_prefix s p

unfoldable pub has_suffix : Bytes → Bytes → Bool
unfolding beq
has_suffix s p = leb (length p) (length s) && beq (drop (length s - length p) s) p

unfoldable pub contains : Bytes → Bytes → Bool
unfolding has_prefix
contains [] p = has_prefix [] p
contains (c ∷ s) p = has_prefix (c ∷ s) p || contains s p

unfoldable pub trim_prefix : Bytes → Bytes → Bytes
unfolding has_prefix
trim_prefix s p = if has_prefix s p then drop (length p) s else s

-- What is left of `s` without its longest end of bytes that pass the test.
unfoldable pub trim_right : (ℕ → Bool) → Bytes → Bytes
trim_right p [] = []
trim_right p (c ∷ s) = let r = trim_right p s in if is_empty r && p c then [] else c ∷ r

unfoldable pub last_is_ascii : Bytes → Bool
last_is_ascii [] = true
last_is_ascii (c ∷ []) = ascii c
last_is_ascii (c ∷ d ∷ s) = last_is_ascii (d ∷ s)

-- strings.Join
unfoldable pub join : List Bytes → Bytes → Bytes
join [] sep = []
join (p ∷ []) sep = p
join (p ∷ q ∷ ps) sep = p ++ sep ++ join (q ∷ ps) sep

-- The loop of strings.Fields on ASCII: `cur` is s[fieldStart:i].
unfoldable pub fields_loop : Bytes → Bytes → List Bytes
unfolding ascii_space
fields_loop [] cur = if is_empty cur then [] else cur ∷ []
fields_loop (c ∷ s) cur =
    let apart = if is_empty cur then fields_loop s [] else cur ∷ fields_loop s [] in
    let longer = fields_loop s (cur ++ c ∷ []) in if ascii_space c then apart else longer

module _ ⦃g : Runtime⦄ where
  unfoldable pub to_lower : Bytes → Bytes
  unfolding lower_byte
  to_lower s = if all ascii s then map lower_byte s else g.map_lower s

  unfoldable pub to_upper : Bytes → Bytes
  unfolding upper_byte
  to_upper s = if all ascii s then map upper_byte s else g.map_upper s

  -- The second loop of TrimSpace, from the right.
  unfoldable pub trim_end : Bytes → Bytes
  unfolding trim_right ascii_space last_is_ascii
  trim_end s =
      let r = trim_right ascii_space s in if last_is_ascii r then r else g.trim_right_space_func r

  -- strings.TrimSpace
  unfoldable pub trim_space : Bytes → Bytes
  unfolding trim_end ascii_space
  trim_space [] = []
  trim_space (c ∷ s) =
      let rest = trim_space s in
      if ascii c
      then (if ascii_space c then rest else trim_end (c ∷ s))
      else g.trim_space_func (c ∷ s)

  -- strings.Fields
  unfoldable pub fields : Bytes → List Bytes
  unfolding fields_loop
  fields s = if all ascii s then fields_loop s [] else g.fields_func s

  -- strings.EqualFold
  unfoldable pub equal_fold : Bytes → Bytes → Bool
  unfolding lower_byte
  equal_fold [] [] = true
  equal_fold [] (d ∷ t) = false
  equal_fold (c ∷ s) [] = false
  equal_fold (c ∷ s) (d ∷ t) =
      if ascii c && ascii d
      then lower_byte c == lower_byte d && equal_fold s t
      else g.equal_fold_unicode (c ∷ s) (d ∷ t)

emoji : text "é⚠🟦" ≡ 0xC3 ∷ 0xA9 ∷ 0xE2 ∷ 0x9A ∷ 0xA0 ∷ 0xF0 ∷ 0x9F ∷ 0x9F ∷ 0xA6 ∷ []
unfolding text
emoji = refl
