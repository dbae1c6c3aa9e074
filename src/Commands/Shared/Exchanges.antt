-- ===== src/Commands/Shared/Exchanges.antt =====
-- The loop over the exchanges that `gainers_cex` and `losers_cex` share: each of them is asked, and
-- a section is written on what it returns.
use crypto_sentinel.Prelude.{
  List, [], ◌∷◌, ◌++◌, Bytes, Result, ok, ◌≡◌, ap, ◌∙◌, sym, append_assoc, append-nil,
}
use crypto_sentinel.Go.Http.{Prog, done, ◌>>=◌}
use crypto_sentinel.Go.Http.Laws.{Returns, Returns-map, Returns-bind}

module _ {A : Type 0} (fetch : Bytes → Prog A) (section : Bytes → A → Bytes) where
  -- `for _, ex := range SupportedCexList()`, with what is written so far.
  unfoldable pub cex_loop : List Bytes → Bytes → Prog (Result Bytes)
  cex_loop [] out = done (ok out)
  cex_loop (ex ∷ exs) out = fetch ex >>= λ r. cex_loop exs (out ++ section ex r)

module _ {A : Type 0} (Promise : Bytes → A → Type 0) (section : Bytes → A → Bytes) where
  -- The sections of the exchanges, each on something that was promised of what it returns.
  pub data AreSections : List Bytes → Bytes → Type 0 where
    no_more : AreSections [] []
    section_of :
        (ex : Bytes) (exs : List Bytes) (r : A) (rest : Bytes)
        → Promise ex r
        → AreSections exs rest
        → AreSections (ex ∷ exs) (section ex r ++ rest)

  -- A report on the exchanges `exs` behind the text `out`.
  abbrev pub IsCexReport : List Bytes → Bytes → Result Bytes → Type 0
  IsCexReport exs out r = (t : Bytes) × AreSections exs t × (r ≡ ok (out ++ t))

  pub cex_loop-IsCexReport :
      (fetch : Bytes → Prog A)
      → ((ex : Bytes) → Returns (Promise ex) (fetch ex))
      → (exs : List Bytes) (out : Bytes)
      → Returns (IsCexReport exs out) (cex_loop fetch section exs out)
  unfolding cex_loop
  cex_loop-IsCexReport fetch h [] out = ([], no_more, ap ok (sym (append-nil out)))
  cex_loop-IsCexReport fetch h (ex ∷ exs) out =
      Returns-bind (Promise ex) (IsCexReport (ex ∷ exs) out) (fetch ex) _ (h ex) λ r promised.
        Returns-map (IsCexReport exs (out ++ section ex r)) (IsCexReport (ex ∷ exs) out)
          (λ t (rest, are, e). (
            section ex r ++ rest,
            section_of ex exs r rest promised are,
            e ∙ ap ok (append_assoc out (section ex r) rest),
          ))
          (cex_loop fetch section exs (out ++ section ex r))
          (cex_loop-IsCexReport fetch h exs (out ++ section ex r))
