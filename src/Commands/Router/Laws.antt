-- ===== src/Commands/Router/Laws.antt =====
-- That `Handle` finds a command in every message.
use crypto_sentinel.Prelude.{
  ℕ, true, false, List, [], ◌∷◌, ◌++◌, Bytes, some, is_empty, all, ◌≡◌, refl, arith, inl, inr,
  Bool-cases, if◌then◌else◌,
}
use crypto_sentinel.Go.Runtime.{Runtime}
use crypto_sentinel.Go.Text.{
  text, ascii, ascii_space, trim_prefix, has_prefix, trim_right, last_is_ascii, trim_end,
  trim_space, fields_loop, fields,
}
use crypto_sentinel.Commands.Router.{Call, help_text, dispatch, handle}

trim_right-ascii : (s : Bytes) → all ascii s ≡ true → all ascii (trim_right ascii_space s) ≡ true
unfolding trim_right
trim_right-ascii [] h = refl
trim_right-ascii (c ∷ s) h = ground (arith, trim_right-ascii s)

last_is_ascii-all : (s : Bytes) → all ascii s ≡ true → last_is_ascii s ≡ true
unfolding last_is_ascii
last_is_ascii-all [] h = refl
last_is_ascii-all (c ∷ []) h = ground arith
last_is_ascii-all (c ∷ d ∷ s) h = last_is_ascii-all (d ∷ s) (ground arith)

fields_loop-finds : (s cur : Bytes) → is_empty cur ≡ false → is_empty (fields_loop s cur) ≡ false
unfolding fields_loop
fields_loop-finds [] [] h = cc
fields_loop-finds [] (c ∷ cur) h = refl
fields_loop-finds (c ∷ s) [] h = cc
fields_loop-finds (c ∷ s) (d ∷ cur) h =
    ground (arith, fields_loop-finds s (d ∷ (cur ++ c ∷ [])) refl)

-- What is left of an ASCII string is empty or begins with a byte that is no space.
pub data IsTrimmed (s : Bytes) : Type 0 where
  nothing : s ≡ [] → IsTrimmed s
  starting :
      (c : ℕ) (t : Bytes) → s ≡ c ∷ t → ascii_space c ≡ false → all ascii s ≡ true → IsTrimmed s

pub trim_right-keeps :
    (c : ℕ) (s : Bytes)
    → ascii_space c ≡ false
    → trim_right ascii_space (c ∷ s) ≡ c ∷ trim_right ascii_space s
unfolding trim_right
trim_right-keeps c s h = ground arith

trim_prefix-ascii : (s : Bytes) → all ascii s ≡ true → all ascii (trim_prefix s (text "/")) ≡ true
unfolding trim_prefix text
trim_prefix-ascii [] h = refl
trim_prefix-ascii (c ∷ s) h = ground arith

module _ ⦃g : Runtime⦄ where
  trim_end-ascii : (s : Bytes) → all ascii s ≡ true → trim_end s ≡ trim_right ascii_space s
  unfolding trim_end
  trim_end-ascii s h = rw (last_is_ascii-all (trim_right ascii_space s) (trim_right-ascii s h)) refl

  trim_space-skips :
      (c : ℕ) (s : Bytes)
      → all ascii (c ∷ s) ≡ true
      → ascii_space c ≡ true
      → trim_space (c ∷ s) ≡ trim_space s
  unfolding trim_space
  trim_space-skips c s h space = ground arith

  pub trim_space-starts :
      (c : ℕ) (s : Bytes)
      → all ascii (c ∷ s) ≡ true
      → ascii_space c ≡ false
      → trim_space (c ∷ s) ≡ c ∷ trim_right ascii_space s
  unfolding trim_space
  trim_space-starts c s h space =
      ground (arith, trim_end-ascii (c ∷ s) h, trim_right-keeps c s space)

  trim_space-IsTrimmed : (s : Bytes) → all ascii s ≡ true → IsTrimmed (trim_space s)
  trim_space-IsTrimmed [] h = nothing (unfold trim_space in refl)
  trim_space-IsTrimmed (c ∷ s) h = elim (Bool-cases (ascii_space c)) [
    | inl space ↦ rw (trim_space-skips c s h space) (trim_space-IsTrimmed s (ground arith))
    | inr other ↦
        starting c (trim_right ascii_space s) (trim_space-starts c s h other) other
          (rw (trim_space-starts c s h other) (ground (arith, trim_right-ascii s)))
  ]

  fields-finds :
      (c : ℕ) (t : Bytes)
      → ascii_space c ≡ false
      → all ascii (c ∷ t) ≡ true
      → is_empty (fields (c ∷ t)) ≡ false
  unfolding fields fields_loop
  fields-finds c t space asc = rw (asc, fields) (ground (arith, fields_loop-finds t (c ∷ []) refl))

  dispatch-calls :
      (parts : List Bytes) → is_empty parts ≡ false → (call : Call) × (dispatch parts ≡ some call)
  dispatch-calls [] h = cc
  dispatch-calls (part ∷ args) h = (_, refl)

  trimmed-calls :
      (s : Bytes)
      → IsTrimmed s
      → (call : Call) × ((if is_empty s then some help_text else dispatch (fields s)) ≡ some call)
  trimmed-calls s (nothing e) = (help_text, rw e refl)
  trimmed-calls s (starting c t e space asc) =
      let asc' : all ascii (c ∷ t) ≡ true = rw e at asc in
      let (call, h) = dispatch-calls (fields (c ∷ t)) (fields-finds c t space asc') in
      (call, rw e h)

  -- Every ASCII message leads to the call of a command or to the help: `parts[0]` is in range.
  pub handle-calls :
      (task : Bytes) → all ascii task ≡ true → (call : Call) × (handle task ≡ some call)
  unfolding handle
  handle-calls task h =
      trimmed-calls (trim_space (trim_prefix task (text "/")))
        (trim_space-IsTrimmed (trim_prefix task (text "/")) (trim_prefix-ascii task h))

  -- One slash before a message that begins with none makes no difference.
  pub handle-slash :
      (task : Bytes) → has_prefix task (text "/") ≡ false → handle (b'/' ∷ task) ≡ handle task
  unfolding handle trim_prefix has_prefix text
  handle-slash [] h = refl
  handle-slash (c ∷ task) h = ground (arith, h)
