-- ===== src/Clients/Cex/Listing.antt =====
-- What a list of gainers or losers promises, and why the end of each client gives it.
use mathlib.Core.List.{Perm}
use crypto_sentinel.Prelude.{
  ℕ, Bool, true, false, not, List, [], ◌∷◌, ◌++◌, Option, none, some, Bytes, Result, ok, err,
  length, all, filter_map, filter_map-skip, filter_map-keep, if◌then◌else◌, ◌≡◌, ◌⊎◌, ◌∙◌, refl, ap,
  arith, Bool-cases, inl, inr, drop, min, length-take, take-append-drop, map, filter,
}
use crypto_sentinel.Go.Float64.{is_nan}
use crypto_sentinel.Go.Float64.Order.{lt_asymm, not_lt_trans}
use crypto_sentinel.Go.Sort.{Sorter, IsSorter, WeakOrder, sorted, limit_to}
use crypto_sentinel.Go.Sort.Laws.{limit_to-IsTop, limit_to-take, perm-length}
use crypto_sentinel.Models.{CexGainer}
use crypto_sentinel.Clients.Cex.Ranking.{
  rises_more, falls_more, top_gainers, top_losers, or_no_data,
}

abbrev has_number : CexGainer → Bool
has_number x = not (is_nan x.change_pct)

rises_more-WeakOrder : WeakOrder rises_more has_number
rises_more-WeakOrder = record {
  asymm = λ x y h. lt_asymm y.change_pct x.change_pct h;
  not_trans = λ x y z n p q. not_lt_trans z.change_pct y.change_pct x.change_pct (ground arith) q p;
}

falls_more-WeakOrder : WeakOrder falls_more has_number
falls_more-WeakOrder = record {
  asymm = λ x y h. lt_asymm x.change_pct y.change_pct h;
  not_trans = λ x y z n p q. not_lt_trans x.change_pct y.change_pct z.change_pct (ground arith) p q;
}

-- `top` and `rest` are the candidates, in some order, and `top` has `limit` of them, or all where
-- there are fewer. It is in order, and no candidate that is left out is before one that is kept,
-- unless the change of some candidate is NaN.
pub record IsRanked (less : CexGainer → CexGainer → Bool) (limit : ℕ)
    (candidates top : List CexGainer) : Type 0 where
  rest : List CexGainer
  perm : Perm (top ++ rest) candidates
  size : length top ≡ min limit (length candidates)
  ordered :
      ((sorted less top ≡ true) × (all (λ x. all (λ y. not (less y x)) rest) top ≡ true))
      ⊎ (all has_number candidates ≡ false)

-- A reply that ranks a list of which `Candidates` holds. An error promises nothing.
abbrev pub IsListing :
    (CexGainer → CexGainer → Bool)
    → (List CexGainer → Type 0)
    → ℕ
    → Result (List CexGainer)
    → Type 0
IsListing less Candidates limit (err e) = Unit
IsListing less Candidates limit (ok l) =
    (list : List CexGainer) × Candidates list × IsRanked less limit list l

-- A row is kept as its pair if it passes the test, and is skipped if not.
abbrev pub Selects : {R : Type 0} → (R → Bool) → (R → CexGainer) → (R → Option CexGainer) → Type 0
Selects {R} fits pair row = (t : R) → row t ≡ (if fits t then some (pair t) else none)

pub filter_map-Selects :
    {R : Type 0} (fits : R → Bool) (pair : R → CexGainer) (row : R → Option CexGainer)
    (rows : List R)
    → Selects fits pair row
    → filter_map row rows ≡ map pair (filter fits rows)
filter_map-Selects fits pair row [] h = refl
filter_map-Selects fits pair row (t ∷ rows) h = elim (Bool-cases (fits t)) [
  | inl fine ↦
      filter_map-keep row t rows (pair t) (h t ∙ rw fine refl)
      ∙ (ap (λ l. pair t ∷ l) (filter_map-Selects fits pair row rows h) ∙ rw fine refl)
  | inr bad ↦
      filter_map-skip row t rows (h t ∙ rw bad refl)
      ∙ (filter_map-Selects fits pair row rows h ∙ rw bad refl)
]

module _ ⦃s : Sorter⦄ (laws : IsSorter s) where
  limit_to-IsRanked :
      (less : CexGainer → CexGainer → Bool) (limit : ℕ) (list : List CexGainer)
      → WeakOrder less has_number
      → IsRanked less limit list (limit_to limit (s.sort_slice CexGainer less list))
  limit_to-IsRanked less limit list weak = elim (Bool-cases (all has_number list)) [
    | inl numbers ↦
        let top = limit_to-IsTop laws less has_number limit list weak numbers in
        record {
          rest = top.rest;
          perm = top.perm;
          size = top.size;
          ordered = inl (top.in_order, top.best);
        }
    | inr strange ↦
        let ys : List CexGainer = s.sort_slice CexGainer less list in
        let shuffled = laws.perm CexGainer less list in
        rw (limit_to-take limit ys) (record {
          rest = drop limit ys;
          perm = rw (take-append-drop limit ys) shuffled;
          size = length-take limit ys ∙ ap (min limit) (perm-length shuffled);
          ordered = inr strange;
        })
  ]

  module _ (Candidates : List CexGainer → Type 0) (limit : ℕ) (list : List CexGainer)
      (candidates : Candidates list) where
    pub top_gainers-IsListing : IsListing rises_more Candidates limit (ok (top_gainers limit list))
    unfolding top_gainers
    top_gainers-IsListing =
        (list, candidates, limit_to-IsRanked rises_more limit list rises_more-WeakOrder)

    top_losers-IsListing : IsListing falls_more Candidates limit (ok (top_losers limit list))
    unfolding top_losers
    top_losers-IsListing =
        (list, candidates, limit_to-IsRanked falls_more limit list falls_more-WeakOrder)

  pub or_no_data-gainers :
      (Candidates : List CexGainer → Type 0) (message : Bytes) (limit : ℕ) (list : List CexGainer)
      → Candidates list
      → IsListing rises_more Candidates limit (or_no_data message (top_gainers limit) list)
  or_no_data-gainers Candidates message limit [] c = tt
  or_no_data-gainers Candidates message limit (x ∷ xs) c =
      top_gainers-IsListing Candidates limit (x ∷ xs) c

  pub or_no_data-losers :
      (Candidates : List CexGainer → Type 0) (message : Bytes) (limit : ℕ) (list : List CexGainer)
      → Candidates list
      → IsListing falls_more Candidates limit (or_no_data message (top_losers limit) list)
  or_no_data-losers Candidates message limit [] c = tt
  or_no_data-losers Candidates message limit (x ∷ xs) c =
      top_losers-IsListing Candidates limit (x ∷ xs) c
