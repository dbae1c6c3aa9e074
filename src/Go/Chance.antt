-- ===== src/Go/Chance.antt =====
-- Orders that Go leaves to chance: the order in which a `range` visits a map, and
-- `(*rand.Rand).Shuffle`. Both give a rearrangement, and promise nothing more.
use mathlib.Core.List.{Perm}
use crypto_sentinel.Prelude.{List}

pub record Chance : Type 1 where
  pub reorder : (A : Type 0) → List A → List A

pub record IsChance (c : Chance) : Type 1 where
  pub perm : (A : Type 0) (xs : List A) → Perm (c.reorder A xs) xs
