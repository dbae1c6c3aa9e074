-- ===== src/Go/Text/Laws.antt =====
-- Laws of the functions on strings.
use crypto_sentinel.Prelude.{true, [], ◌∷◌, ◌≡◌, ◌↔◌, refl, arith, Bytes, ap, ◌∙◌, sym}
use crypto_sentinel.Go.Text.{beq}

pub beq→≡ : (s t : Bytes) → beq s t ≡ true → s ≡ t
unfolding beq
beq→≡ [] [] h = refl
beq→≡ [] (d ∷ t) h = cc
beq→≡ (c ∷ s) [] h = cc
beq→≡ (c ∷ s) (d ∷ t) h = ground (arith, beq→≡ s t)

beq_refl : (s : Bytes) → beq s s ≡ true
unfolding beq
beq_refl [] = refl
beq_refl (c ∷ s) = ground (arith, beq_refl s)

pub beq_iff : (s t : Bytes) → (beq s t ≡ true) ↔ (s ≡ t)
beq_iff s t = (beq→≡ s t, λ e. ap (beq s) (sym e) ∙ beq_refl s)
