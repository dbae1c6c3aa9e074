-- ===== src/Commands/Shared.antt =====
-- What several files of internal/commands repeat: a limit as the first argument, and the end of a
-- command whose client failed.
pub mod Replies
pub mod Limits
pub mod Exchanges
use crypto_sentinel.Prelude.{
  IsSome, ℕ, ◌&&◌, Option, List, [], ◌∷◌, ◌++◌, none, some, Bytes, Result, ok, err, ltb, leb,
  if◌then◌else◌,
}
use crypto_sentinel.Prelude.Int.{pos, negsuc}
use crypto_sentinel.Go.Decimal.{atoi}
use crypto_sentinel.Go.Text.{beq}
use crypto_sentinel.Go.Http.{Prog, done}

-- limit := otherwise, and the first argument if it is a number from 1 to 50
unfoldable pub limit_of : ℕ → List Bytes → ℕ
limit_of otherwise [] = otherwise
limit_of otherwise (arg ∷ args) = elim (atoi arg) [
  | none ↦ otherwise
  | some (negsuc n) ↦ otherwise
  | some (pos n) ↦ if ltb 0 n && leb n 50 then n else otherwise
]

-- if err != nil { return fmt.Sprintf(prefix + "%v", err), nil }; `ret` gives the result of a command
-- its type, which is an option where the command may fault.
abbrev pub or_say : {A B : Type 0} → (Result Bytes → B) → Bytes → (A → Prog B) → Result A → Prog B
or_say ret prefix f (ok a) = f a
or_say ret prefix f (err e) = done (ret (ok (prefix ++ e)))

-- The `ret` of a command without faults.
abbrev pub plainly : Result Bytes → Result Bytes
plainly r = r

-- m[k] of a map; `none` is a missing key.
abbrev pub lookup_text : Bytes → List (Bytes × Bytes) → Option Bytes
lookup_text k [] = none
lookup_text k ((j, v) ∷ m) = if beq k j then some v else lookup_text k m

-- The text as the result of a command that may fault.
abbrev pub replied : Option Bytes → Option (Result Bytes)
replied none = none
replied (some t) = some (ok t)

pub replied-IsSome : (o : Option Bytes) → IsSome o → IsSome (replied o)
replied-IsSome (some t) h = tt
replied-IsSome none h = elim h [ ]

pub decoded-IsSome :
    {A B : Type 0} (d : Result A) (x : Bytes → Option B) (f : A → Option B)
    → ((e : Bytes) → IsSome (x e))
    → ((a : A) → IsSome (f a))
    → IsSome (elim d [ err e ↦ x e | ok a ↦ f a ])
decoded-IsSome (err e) x f h k = h e
decoded-IsSome (ok a) x f h k = k a
