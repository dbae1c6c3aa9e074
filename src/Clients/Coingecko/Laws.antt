-- ===== src/Clients/Coingecko/Laws.antt =====
-- What the functions of internal/clients/coingecko.go return, whatever is answered.
use crypto_sentinel.Prelude.{
  Bool, true, false, not, List, [], ◌∷◌, ◌++◌, Bytes, Result, ok-injective, ok, err, all, is_empty,
  ◌==◌, if◌then◌else◌, ◌≡◌, ◌⊎◌, inl, inr, refl, arith, ap, subst, Bool-cases,
}
use crypto_sentinel.Go.Runtime.{Runtime}
use crypto_sentinel.Go.Text.{beq, to_lower, trim_space}
use crypto_sentinel.Go.Http.{Response, failed, response}
use crypto_sentinel.Go.Http.Laws.{Returns, if-Returns}
use crypto_sentinel.Clients.Coingecko.{resolve_coin_id}
use crypto_sentinel.Clients.Coingecko.Replies.{
  SearchCoin, CoinJson, find_symbol, pick_coin, resolved_of,
}

-- A reply that is checked and decoded.
replied :
    {A B : Type 0} (P : Result B → Type 0) (good : Bool) (d : Result A) (f : A → Result B)
    (message : Bytes)
    → ((e : Bytes) → P (err e))
    → ((a : A) → d ≡ ok a → P (f a))
    → P (if good then elim d [ err e ↦ err e | ok a ↦ f a ] else err message)
replied P true (ok a) f message h k = k a refl
replied P true (err e) f message h k = h e
replied P false d f message h k = h message

module _ ⦃g : Runtime⦄ where
  abbrev has_symbol : Bytes → SearchCoin → Bool
  has_symbol q coin = beq (to_lower coin.symbol) q

  -- `id` is that of the first coin with the symbol `q`.
  pub record IsFirst (q : Bytes) (coins : List SearchCoin) (id : Bytes) : Type 0 where
    pub before : List SearchCoin
    pub coin : SearchCoin
    pub after : List SearchCoin
    pub parts : coins ≡ before ++ coin ∷ after
    pub others : all (λ c. not (has_symbol q c)) before ≡ true
    pub same : has_symbol q coin ≡ true
    chosen : id ≡ coin.id

  -- The first coin with the symbol `q`; where none has it, the first of all.
  pub data IsPick (q : Bytes) (coins : List SearchCoin) (id : Bytes) : Type 0 where
    by_symbol : IsFirst q coins id → IsPick q coins id
    first_of_all :
        (coin : SearchCoin) (rest : List SearchCoin)
        → coins ≡ coin ∷ rest
        → all (λ c. not (has_symbol q c)) coins ≡ true
        → id ≡ coin.id
        → IsPick q coins id

  find_symbol-IsFirst :
      (q : Bytes) (coins : List SearchCoin) (otherwise : Bytes)
      → IsFirst q coins (find_symbol q coins otherwise)
        ⊎ ((all (λ c. not (has_symbol q c)) coins ≡ true)
            × (find_symbol q coins otherwise ≡ otherwise))
  find_symbol-IsFirst q [] otherwise = inr (refl, refl)
  find_symbol-IsFirst q (c ∷ coins) otherwise = elim (Bool-cases (has_symbol q c)) [
    | inl h ↦ inl (record {
      before = [];
      coin = c;
      after = coins;
      parts = refl;
      others = refl;
      same = h;
      chosen = rw (h, find_symbol) refl;
    })
    | inr h ↦ elim (find_symbol-IsFirst q coins otherwise) [
      | inl f ↦ inl (record {
        before = c ∷ f.before;
        coin = f.coin;
        after = f.after;
        parts = ap (λ l. c ∷ l) f.parts;
        others = ground (arith, f.others);
        same = f.same;
        chosen = rw (h, find_symbol) f.chosen;
      })
      | inr (none_has, e) ↦ inr (ground (arith, none_has), rw (h, find_symbol) e)
    ]
  ]

  pick_coin-IsPick :
      (query id : Bytes) (coins : List SearchCoin)
      → pick_coin query coins ≡ ok id
      → IsPick (to_lower query) coins id
  pick_coin-IsPick query id [] e = cc
  pick_coin-IsPick query id (c ∷ coins) e =
      let same : find_symbol (to_lower query) (c ∷ coins) c.id ≡ id = ok-injective e in
      subst (IsPick (to_lower query) (c ∷ coins)) same
        (elim (find_symbol-IsFirst (to_lower query) (c ∷ coins) c.id) [
          | inl f ↦ by_symbol f
          | inr (none_has, i) ↦ first_of_all c coins refl none_has i
        ])

  module _ ⦃j : CoinJson⦄ where
    -- What is promised of the coin that a symbol or name stands for. An error promises nothing.
    abbrev pub IsResolved : Bytes → Result Bytes → Type 0
    IsResolved query (err e) = Unit
    IsResolved query (ok id) =
        (body : Bytes) × (coins : List SearchCoin) × (j.decode_search body ≡ ok coins)
        × IsPick (to_lower query) coins id

    picked-IsResolved :
        (query body : Bytes) (coins : List SearchCoin)
        → j.decode_search body ≡ ok coins
        → (r : Result Bytes) → pick_coin query coins ≡ r
        → IsResolved query r
    picked-IsResolved query body coins d (err e) h = tt
    picked-IsResolved query body coins d (ok id) h =
        (body, coins, d, pick_coin-IsPick query id coins h)

    pub resolved_of-IsResolved :
        (query : Bytes) (r : Response) → IsResolved query (resolved_of query r)
    unfolding resolved_of
    resolved_of-IsResolved query (failed e) = tt
    resolved_of-IsResolved query (response status body) =
        replied (IsResolved query) (status == 200) (j.decode_search body) (pick_coin query) _
          (λ e. tt) λ coins d. picked-IsResolved query body coins d (pick_coin query coins) refl

    -- Whatever is answered, ResolveCoinID fails or returns the id of the first coin of a decoded
    -- reply whose symbol is the trimmed query up to case, and of the first of all coins of the
    -- reply if none has that symbol.
    pub resolve_coin_id-IsResolved :
        (symbol_or_name : Bytes)
        → Returns (IsResolved (trim_space symbol_or_name)) (resolve_coin_id symbol_or_name)
    unfolding resolve_coin_id
    resolve_coin_id-IsResolved symbol_or_name =
        if-Returns _ (is_empty (trim_space symbol_or_name)) _ _ (λ h. tt)
          λ r. resolved_of-IsResolved (trim_space symbol_or_name) r
