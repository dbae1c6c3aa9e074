-- ===== src/Commands/Gas/Laws.antt =====
-- No index of a speed is out of range.
use crypto_sentinel.Prelude.{
  ℕ, suc, ◌+◌, ◌≤◌, ◌<◌, List, [], ◌∷◌, Option, none, some, Bytes, Result, ok, err, length,
  get_elem?-lt, if-elim, ◌||◌, ◌++◌, arith, IsSome, Bool-cases, Option-cases, inl, inr, ◌==◌,
  is_empty,
}
use crypto_sentinel.Go.Runtime.{Runtime}
use crypto_sentinel.Go.Text.{text, to_lower, contains}
use crypto_sentinel.Go.Http.{Response, failed, response}
use crypto_sentinel.Go.Http.Laws.{Returns}
use crypto_sentinel.Commands.Shared.{lookup_text}
use crypto_sentinel.Commands.Gas.{
  Speed, GasJson, Buckets, keep_first, bucket, buckets, bucket_line, all_lines, gas_text,
  speeds_reply, gas_reply, ask_gas, cmd_gas, said, owl_url,
}
use crypto_sentinel.Commands.Gas.Chains.{gas_chain_map, as_emoji}

-- An index that was found is below `n`.
abbrev Within : ℕ → Option ℕ → Type 0
Within n none = Unit
Within n (some i) = i < n

record AllWithin (n : ℕ) (b : Buckets) : Type 0 where
  slow_fits : Within n b.slow
  normal_fits : Within n b.normal
  fast_fits : Within n b.fast

keep_first-Within : (n i : ℕ) (o : Option ℕ) → i < n → Within n o → Within n (keep_first i o)
keep_first-Within n i none h w = h
keep_first-Within n i (some k) h w = w

module _ ⦃g : Runtime⦄ where
  bucket-AllWithin :
      (n i : ℕ) (name : Bytes) (b : Buckets) → i < n → AllWithin n b → AllWithin n (bucket i name b)
  bucket-AllWithin n i name b h w =
      if-elim (AllWithin n) (contains name (text "slow")) _ _
        (record {
          slow_fits = keep_first-Within n i b.slow h w.slow_fits;
          normal_fits = w.normal_fits;
          fast_fits = w.fast_fits;
        })
        (if-elim (AllWithin n) (contains name (text "standard") || contains name (text "normal")) _
          _
          (record {
            slow_fits = w.slow_fits;
            normal_fits = keep_first-Within n i b.normal h w.normal_fits;
            fast_fits = w.fast_fits;
          })
          (if-elim (AllWithin n) (contains name (text "fast")) _ _
            (record {
              slow_fits = w.slow_fits;
              normal_fits = w.normal_fits;
              fast_fits = keep_first-Within n i b.fast h w.fast_fits;
            })
            w))

  buckets-AllWithin :
      (n i : ℕ) (speeds : List Speed) (b : Buckets)
      → i + length speeds ≤ n
      → AllWithin n b
      → AllWithin n (buckets i speeds b)
  unfolding buckets
  buckets-AllWithin n i [] b h w = w
  buckets-AllWithin n i (s ∷ speeds) b h w =
      buckets-AllWithin n (suc i) speeds _ (omega arith)
        (bucket-AllWithin n i (to_lower s.name) b (omega arith) w)

  bucket_line-IsSome :
      (label : Bytes) (o : Option ℕ) (speeds : List Speed)
      → Within (length speeds) o
      → IsSome (bucket_line label o speeds)
  bucket_line-IsSome label none speeds w = tt
  bucket_line-IsSome label (some i) speeds w =
      let (s, e) = get_elem?-lt speeds i w in rw (e, IsSome) tt

  all_lines-IsSome :
      (head : Bytes) (x y z : Option Bytes)
      → IsSome x
      → IsSome y
      → IsSome z
      → IsSome (all_lines head x y z)
  all_lines-IsSome head (some x) (some y) (some z) p q r = tt
  all_lines-IsSome head none y z p q r = elim p [ ]
  all_lines-IsSome head (some x) none z p q r = elim q [ ]
  all_lines-IsSome head (some x) (some y) none p q r = elim r [ ]

  gas_text-IsSome :
      (raw chain_id : Bytes) (s : Speed) (speeds : List Speed)
      → IsSome (gas_text raw chain_id (s ∷ speeds))
  unfolding gas_text
  gas_text-IsSome raw chain_id s speeds =
      let all = s ∷ speeds in
      let w =
        buckets-AllWithin (length all) 0 all (record { slow = none; normal = none; fast = none })
          (omega arith) (record { slow_fits = tt; normal_fits = tt; fast_fits = tt }) in
      all_lines-IsSome _ _ _ _ (bucket_line-IsSome (text "Slow") _ all w.slow_fits)
        (bucket_line-IsSome (text "Normal") _ all
          (keep_first-Within (length all) 0 _ (omega arith) w.normal_fits))
        (bucket_line-IsSome (text "Fast") _ all w.fast_fits)

  said-IsSome : (o : Option Bytes) → IsSome o → IsSome (said o)
  said-IsSome (some t) h = tt
  said-IsSome none h = elim h [ ]

  speeds_reply-IsSome :
      (raw chain_id : Bytes) (speeds : List Speed) → IsSome (speeds_reply raw chain_id speeds)
  speeds_reply-IsSome raw chain_id [] = tt
  speeds_reply-IsSome raw chain_id (s ∷ speeds) =
      said-IsSome _ (gas_text-IsSome raw chain_id s speeds)

  module _ ⦃j : GasJson⦄ where
    decoded-IsSome :
        (raw chain_id : Bytes) (d : Result (List Speed))
        → IsSome (elim d [
          | err e ↦
              some (ok (text "⚠" ++ as_emoji ++ text " Failed to decode gas data from Owlracle."))
          | ok speeds ↦ speeds_reply raw chain_id speeds
        ])
    decoded-IsSome raw chain_id (err e) = tt
    decoded-IsSome raw chain_id (ok speeds) = speeds_reply-IsSome raw chain_id speeds

    gas_reply-IsSome : (raw chain_id : Bytes) (r : Response) → IsSome (gas_reply raw chain_id r)
    gas_reply-IsSome raw chain_id (failed e) = tt
    gas_reply-IsSome raw chain_id (response status body) = elim (Bool-cases (status == 200)) [
      | inr bad ↦ rw (bad, IsSome) tt
      | inl good ↦ rw (good, IsSome) (decoded-IsSome raw chain_id (j.decode_speeds body))
    ]

    ask_gas-IsSome : (key raw chain_id : Bytes) → Returns IsSome (ask_gas key raw chain_id)
    ask_gas-IsSome key raw chain_id = elim (Option-cases (g.request_error (owl_url key chain_id))) [
      | inl fine ↦ rw (fine, Returns) (λ r. gas_reply-IsSome raw chain_id r)
      | inr (e, bad) ↦ rw (bad, Returns) tt
    ]

    pub cmd_gas-IsSome : (key : Bytes) (args : List Bytes) → Returns IsSome (cmd_gas key args)
    unfolding cmd_gas
    cmd_gas-IsSome key [] = tt
    cmd_gas-IsSome key (arg ∷ args) =
        elim (Option-cases (lookup_text (to_lower arg) gas_chain_map)) [
          | inl unknown ↦ rw (unknown, Returns) tt
          | inr (chain_id, e) ↦
              rw (e, Returns)
                (if-elim (Returns IsSome) (is_empty key) _ _ tt
                  (ask_gas-IsSome key (to_lower arg) chain_id))
        ]
