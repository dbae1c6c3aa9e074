-- ===== src/Commands/Router/Words.antt =====
-- A message that is made of words: `Handle` finds the words again.
use crypto_sentinel.Prelude.{
  ℕ, true, false, not, ◌&&◌, List, [], ◌∷◌, ◌++◌, Bytes, is_empty, all, All, all-append,
  append_assoc, append-nil, ◌≡◌, refl, sym, ap, ◌∙◌, arith,
}
use crypto_sentinel.Go.Runtime.{Runtime}
use crypto_sentinel.Go.Text.{
  text, join, ascii, ascii_space, trim_prefix, has_prefix, trim_right, trim_space, fields_loop,
  fields,
}
use crypto_sentinel.Commands.Router.{dispatch, handle}
use crypto_sentinel.Commands.Router.Laws.{trim_right-keeps, trim_space-starts, handle-slash}

-- ASCII bytes without a space, one at least.
abbrev pub IsWord : Bytes → Type 0
IsWord w = (all (λ c. ascii c && not (ascii_space c)) w ≡ true) × (is_empty w ≡ false)

abbrev spaced : List Bytes → Bytes
spaced ws = join ws (text " ")

fields_loop-word :
    (w rest cur : Bytes)
    → all (λ c. ascii c && not (ascii_space c)) w ≡ true
    → fields_loop (w ++ rest) cur ≡ fields_loop rest (cur ++ w)
unfolding fields_loop
fields_loop-word [] rest cur h = ap (fields_loop rest) (sym (append-nil cur))
fields_loop-word (c ∷ w) rest cur h =
    ground (arith, fields_loop-word w rest (cur ++ c ∷ []), append_assoc cur (c ∷ []) w)

fields_loop-ends : (cur : Bytes) → is_empty cur ≡ false → fields_loop [] cur ≡ cur ∷ []
unfolding fields_loop
fields_loop-ends cur h = rw h refl

fields_loop-space :
    (rest cur : Bytes)
    → is_empty cur ≡ false
    → fields_loop (text " " ++ rest) cur ≡ cur ∷ fields_loop rest []
unfolding fields_loop text ascii_space
fields_loop-space rest cur h = rw h refl

fields_loop-spaced :
    (w : Bytes) (ws : List Bytes) → All IsWord (w ∷ ws) → fields_loop (spaced (w ∷ ws)) [] ≡ w ∷ ws
unfolding join
fields_loop-spaced w [] ((h, k), hs) =
    ap (λ x. fields_loop x []) (sym (append-nil w))
    ∙ fields_loop-word w [] [] h
    ∙ fields_loop-ends w k
fields_loop-spaced w (v ∷ ws) ((h, k), hs) =
    ap (λ x. fields_loop x []) (append_assoc w (text " ") (spaced (v ∷ ws)))
    ∙ fields_loop-word w (text " " ++ spaced (v ∷ ws)) [] h
    ∙ fields_loop-space (spaced (v ∷ ws)) w k
    ∙ ap (λ l. w ∷ l) (fields_loop-spaced v ws hs)

trim_right-word :
    (w : Bytes) → all (λ c. ascii c && not (ascii_space c)) w ≡ true → trim_right ascii_space w ≡ w
unfolding trim_right
trim_right-word [] h = refl
trim_right-word (c ∷ w) h = ground (arith, trim_right-word w)

is_empty-append : (x r : Bytes) → is_empty r ≡ false → is_empty (x ++ r) ≡ false
is_empty-append [] r h = h
is_empty-append (c ∷ x) r h = refl

trim_right-before :
    (x r : Bytes)
    → trim_right ascii_space r ≡ r
    → is_empty r ≡ false
    → trim_right ascii_space (x ++ r) ≡ x ++ r
unfolding trim_right
trim_right-before [] r h k = h
trim_right-before (c ∷ x) r h k = rw (trim_right-before x r h k) (rw (is_empty-append x r k) refl)

is_empty-spaced :
    (w : Bytes) (ws : List Bytes) → All IsWord (w ∷ ws) → is_empty (spaced (w ∷ ws)) ≡ false
unfolding join
is_empty-spaced w [] ((h, k), hs) = k
is_empty-spaced w (v ∷ ws) (h, hs) = is_empty-append (w ++ text " ") _ (is_empty-spaced v ws hs)

trim_right-spaced :
    (w : Bytes) (ws : List Bytes)
    → All IsWord (w ∷ ws)
    → trim_right ascii_space (spaced (w ∷ ws)) ≡ spaced (w ∷ ws)
unfolding join
trim_right-spaced w [] ((h, k), hs) = trim_right-word w h
trim_right-spaced w (v ∷ ws) (h, hs) =
    trim_right-before (w ++ text " ") (spaced (v ∷ ws)) (trim_right-spaced v ws hs)
      (is_empty-spaced v ws hs)

IsWord-ascii : (w : Bytes) → all (λ c. ascii c && not (ascii_space c)) w ≡ true → all ascii w ≡ true
IsWord-ascii [] h = refl
IsWord-ascii (c ∷ w) h = ground (arith, IsWord-ascii w)

spaced-ascii : (ws : List Bytes) → All IsWord ws → all ascii (spaced ws) ≡ true
unfolding join text
spaced-ascii [] hs = refl
spaced-ascii (w ∷ []) ((h, k), hs) = IsWord-ascii w h
spaced-ascii (w ∷ v ∷ ws) ((h, k), hs) =
    all-append ascii (w ++ text " ") (spaced (v ∷ ws))
    ∙ (rw (all-append ascii w (text " "))
        (rw (IsWord-ascii w h) (rw (spaced-ascii (v ∷ ws) hs) refl)))

-- The first byte of the first word stays the first.
spaced-starts :
    (c : ℕ) (w : Bytes) (ws : List Bytes) → (t : Bytes) × (spaced ((c ∷ w) ∷ ws) ≡ c ∷ t)
unfolding join
spaced-starts c w [] = (w, refl)
spaced-starts c w (v ∷ ws) = (_, refl)

has_prefix-spaced :
    (w : Bytes) (ws : List Bytes)
    → is_empty w ≡ false
    → has_prefix w (text "/") ≡ false
    → has_prefix (spaced (w ∷ ws)) (text "/") ≡ false
unfolding has_prefix text
has_prefix-spaced [] ws k h = cc
has_prefix-spaced (c ∷ w) ws k h = let (t, e) = spaced-starts c w ws in rw e h

module _ ⦃g : Runtime⦄ where
  trim_space-spaced :
      (w : Bytes) (ws : List Bytes)
      → All IsWord (w ∷ ws)
      → trim_space (spaced (w ∷ ws)) ≡ spaced (w ∷ ws)
  trim_space-spaced [] ws ((h, k), hs) = cc
  trim_space-spaced (c ∷ w) ws (h, hs) =
      let (t, e) = spaced-starts c w ws in
      let asc : all ascii (c ∷ t) ≡ true = rw e at (spaced-ascii ((c ∷ w) ∷ ws) (h, hs)) in
      let dark : ascii_space c ≡ false = ground (arith, h.0) in
      ap trim_space e
      ∙ trim_space-starts c t asc dark
      ∙ sym (trim_right-keeps c t dark)
      ∙ ap (trim_right ascii_space) (sym e)
      ∙ trim_right-spaced (c ∷ w) ws (h, hs)

  pub trim_space-word : (w : Bytes) → IsWord w → trim_space w ≡ w
  unfolding join
  trim_space-word w h = trim_space-spaced w [] (h, tt)

  fields-spaced :
      (w : Bytes) (ws : List Bytes) → All IsWord (w ∷ ws) → fields (spaced (w ∷ ws)) ≡ w ∷ ws
  unfolding fields
  fields-spaced w ws hs = rw (spaced-ascii (w ∷ ws) hs) (fields_loop-spaced w ws hs)

  -- A message of words with a space between each two, of which the first begins with no slash, is
  -- taken apart into these words: `Handle` dispatches the first with the others as its arguments,
  -- with a slash in front as without.
  pub handle-join :
      (cmd : Bytes) (args : List Bytes)
      → All IsWord (cmd ∷ args)
      → has_prefix cmd (text "/") ≡ false
      → (handle (join (cmd ∷ args) (text " ")) ≡ dispatch (cmd ∷ args))
        × (handle (b'/' ∷ join (cmd ∷ args) (text " ")) ≡ dispatch (cmd ∷ args))
  unfolding handle trim_prefix
  handle-join cmd args hs h =
      let starts = has_prefix-spaced cmd args hs.0.1 h in
      let plain : handle (spaced (cmd ∷ args)) ≡ dispatch (cmd ∷ args) = rw starts (
        rw (trim_space-spaced cmd args hs)
          (rw (is_empty-spaced cmd args hs) (rw (fields-spaced cmd args hs) refl))) in
      (plain, handle-slash (spaced (cmd ∷ args)) starts ∙ plain)
