-- ===== src/Commands/Tvl/Protocols/Laws.antt =====
-- The protocols that `tvlprotocols` shows.
use crypto_sentinel.Prelude.{
  Bool, true, false, not, List, [], ◌∷◌, ◌++◌, none, some, Bytes, Result, ok, err, length, take,
  length-take, take-length, all, is_empty, filter_map, filter_map-skip, filter_map-keep,
  if◌then◌else◌, ◌==◌, ◌≡◌, ◌⊎◌, inl, inr, refl, arith, ap, ◌∙◌, Bool-cases, subst, sym, Option,
  IsSome, if-elim, slice_to-take,
}
use crypto_sentinel.Go.Runtime.{Runtime}
use crypto_sentinel.Go.Text.{text, join, to_lower, trim_space, equal_fold}
use crypto_sentinel.Go.Float64.{is_nan}
use crypto_sentinel.Go.Float64.Order.{lt_asymm, not_lt_trans}
use crypto_sentinel.Go.Sort.{Sorter, IsSorter, WeakOrder, IsTop, limit_to}
use crypto_sentinel.Go.Sort.Laws.{limit_to-IsTop}
use crypto_sentinel.Go.Http.{Response, failed, response}
use crypto_sentinel.Go.Http.Laws.{Returns}
use crypto_sentinel.Commands.Shared.{replied, replied-IsSome, decoded-IsSome}
use crypto_sentinel.Commands.Tvl.Protocols.{
  ProtocolRow, ProtocolInfo, ProtocolsJson, more_tvl, protocol_limit, on_chain, protocol_on,
  protocols_text, limited_text, filtered_text, protocols_reply, cmd_tvl_protocols,
}

-- JSON has no NaN.
pub record SendsProtocols (j : ProtocolsJson) : Type 0 where
  pub protocols :
      (body : Bytes) (protos : List ProtocolRow)
      → j.decode_protocols body ≡ ok protos
      → all (λ p. not (is_nan p.tvl)) protos ≡ true

more_tvl-WeakOrder : WeakOrder more_tvl (λ p. not (is_nan p.tvl))
more_tvl-WeakOrder = record {
  asymm = λ x y h. lt_asymm y.tvl x.tvl h;
  not_trans = λ x y z n p q. not_lt_trans z.tvl y.tvl x.tvl (ground arith) q p;
}

protocol_limit_lem :
    (ps : List ProtocolInfo)
    → (take (protocol_limit ps) ps ≡ limit_to 10 ps) × (protocol_limit ps ≡ length (limit_to 10 ps))
unfolding protocol_limit limit_to
protocol_limit_lem ps = ground (arith, take-length ps, length-take 10 ps)

module _ ⦃g : Runtime⦄ ⦃s : Sorter⦄ ⦃j : ProtocolsJson⦄ where
  -- No index is out of range.
  limited_text-some :
      (chain : Bytes) (ps : List ProtocolInfo)
      → limited_text chain ps
        ≡ some (protocols_text chain (protocol_limit ps) (take (protocol_limit ps) ps))
  unfolding protocol_limit
  limited_text-some chain ps =
      ap
        (λ o. elim o [
          | none ↦ none
          | some shown ↦ some (protocols_text chain (protocol_limit ps) shown)
        ])
        (slice_to-take (protocol_limit ps) ps (ground arith))

  filtered_text-IsSome : (chain : Bytes) (ps : List ProtocolInfo) → IsSome (filtered_text chain ps)
  filtered_text-IsSome chain [] = tt
  filtered_text-IsSome chain (p ∷ ps) = rw (limited_text-some chain _, IsSome) tt

  abbrev on_chains : Bytes → List ProtocolRow → List ProtocolInfo
  on_chains chain protos = filter_map (protocol_on (to_lower (trim_space chain))) protos

  protocols_reply-IsSome : (chain : Bytes) (r : Response) → IsSome (protocols_reply chain r)
  unfolding protocols_reply
  protocols_reply-IsSome chain (failed e) = tt
  protocols_reply-IsSome chain (response status body) =
      if-elim IsSome (status == 200) _ _
        (decoded-IsSome (j.decode_protocols body) (λ e. some (err (text "decode error: " ++ e)))
          (λ protos. replied (filtered_text chain (on_chains chain protos))) (λ e. tt)
          (λ protos.
            replied-IsSome (filtered_text chain (on_chains chain protos))
              (filtered_text-IsSome chain (on_chains chain protos))))
        tt

  pub cmd_tvl_protocols-IsSome : (args : List Bytes) → Returns IsSome (cmd_tvl_protocols args)
  unfolding cmd_tvl_protocols
  cmd_tvl_protocols-IsSome [] = tt
  cmd_tvl_protocols-IsSome (arg ∷ args) = λ r. protocols_reply-IsSome _ r

module _ ⦃g : Runtime⦄ where
  -- One of the chains of a protocol has the name.
  abbrev pub lists : Bytes → ProtocolRow → Bool
  lists target p = not (all (λ ch. not (equal_fold ch target)) p.chains)

  -- The protocols that are listed for a chain, in their order, with what is kept of them.
  abbrev pub listed : Bytes → List ProtocolRow → List ProtocolInfo
  listed target [] = []
  listed target (p ∷ protos) =
      if lists target p
      then record { name = p.name; tvl = p.tvl } ∷ listed target protos
      else listed target protos

  on_chain-all :
      (target : Bytes) (chains : List Bytes)
      → on_chain target chains ≡ not (all (λ ch. not (equal_fold ch target)) chains)
  unfolding on_chain
  on_chain-all target [] = refl
  on_chain-all target (ch ∷ chains) = ground (arith, on_chain-all target chains)

  filter_map-listed :
      (target : Bytes) (protos : List ProtocolRow)
      → filter_map (protocol_on target) protos ≡ listed target protos
  unfolding protocol_on
  filter_map-listed target [] = refl
  filter_map-listed target (p ∷ protos) =
      let f = protocol_on target in
      let same = on_chain-all target p.chains in
      elim (Bool-cases (lists target p)) [
        | inl fits ↦
            let kept : f p ≡ some (record { name = p.name; tvl = p.tvl }) =
              rw (same ∙ fits, protocol_on) refl in
            filter_map-keep f p protos _ kept
            ∙ (rw fits (
                ap (λ l. record { name = p.name; tvl = p.tvl } ∷ l)
                  (filter_map-listed target protos)))
        | inr other ↦
            let skipped : f p ≡ none = rw (same ∙ other, protocol_on) refl in
            filter_map-skip f p protos skipped ∙ (rw other (filter_map-listed target protos))
      ]

  abbrev pub on : Bytes → List ProtocolRow → List ProtocolInfo
  on chain protos = listed (to_lower (trim_space chain)) protos

  listed-numbers :
      (target : Bytes) (protos : List ProtocolRow)
      → all (λ p. not (is_nan p.tvl)) protos ≡ true
      → all (λ p. not (is_nan p.tvl)) (listed target protos) ≡ true
  listed-numbers target [] h = refl
  listed-numbers target (p ∷ protos) h =
      let rest = listed-numbers target protos (ground (arith, h)) in
      elim (Bool-cases (lists target p)) [
        | inl fits ↦ rw fits (ground (arith, h, rest))
        | inr other ↦ rw other rest
      ]

  -- The report on protocols of the chain: that there are none, or on the ten first, or all.
  abbrev ShowsProtocols : Bytes → List ProtocolRow → Bytes → Type 0
  ShowsProtocols chain protos t =
      ((is_empty (on chain protos) ≡ true)
        × (t ≡ text "No protocols found for chain '" ++ chain ++ text "'."))
      ⊎ ((top : List ProtocolInfo) × IsTop more_tvl 10 (on chain protos) top
          × (t ≡ protocols_text chain (length top) top))

module _ ⦃g : Runtime⦄ ⦃s : Sorter⦄ (laws : IsSorter s) ⦃j : ProtocolsJson⦄
    (feed : SendsProtocols j) where
  filtered_text-ShowsProtocols :
      (chain : Bytes) (protos : List ProtocolRow)
      → all (λ p. not (is_nan p.tvl)) protos ≡ true
      → (t : Bytes) × (filtered_text chain (on chain protos) ≡ some t)
        × ShowsProtocols chain protos t
  filtered_text-ShowsProtocols chain protos h = elim (Bool-cases (is_empty (on chain protos))) [
    | inl bare ↦ (_, rw bare refl, inl (bare, refl))
    | inr some_left ↦
        let found = on chain protos in
        let shuffled : List ProtocolInfo = s.sort_slice ProtocolInfo more_tvl found in
        let (same, size) = protocol_limit_lem shuffled in
        (
          protocols_text chain (protocol_limit shuffled) (take (protocol_limit shuffled) shuffled),
          rw some_left (limited_text-some chain shuffled),
          inr (
            limit_to 10 shuffled,
            limit_to-IsTop laws more_tvl _ 10 found more_tvl-WeakOrder
                (listed-numbers (to_lower (trim_space chain)) protos h),
            ap (protocols_text chain (protocol_limit shuffled)) same
                ∙ ap (λ n. protocols_text chain n (limit_to 10 shuffled)) size,
          ),
        )
  ]

  -- A report that a decoded reply gives, and no fault. An error promises nothing.
  abbrev pub IsProtocolsReport : Bytes → Option (Result Bytes) → Type 0
  IsProtocolsReport chain none = ⊥
  IsProtocolsReport chain (some (err e)) = Unit
  IsProtocolsReport chain (some (ok t)) =
      (body : Bytes) × (protos : List ProtocolRow) × (j.decode_protocols body ≡ ok protos)
      × ShowsProtocols chain protos t

  decoded-IsProtocolsReport :
      (chain body message : Bytes) (good : Bool) (d : Result (List ProtocolRow))
      → j.decode_protocols body ≡ d
      → IsProtocolsReport chain (
          if good
          then elim d [
            | err e ↦ some (err (text "decode error: " ++ e))
            | ok protos ↦ replied (
                filtered_text chain (filter_map (protocol_on (to_lower (trim_space chain))) protos))
          ]
          else some (err message))
  decoded-IsProtocolsReport chain body message true (ok protos) e =
      let (t, same, shows) =
        filtered_text-ShowsProtocols chain protos (feed.protocols body protos e) in
      subst (λ l. IsProtocolsReport chain (replied (filtered_text chain l)))
        (sym (filter_map-listed (to_lower (trim_space chain)) protos))
        (rw same (body, protos, e, shows))
  decoded-IsProtocolsReport chain body message true (err m) e = tt
  decoded-IsProtocolsReport chain body message false d e = tt

  protocols_reply-IsProtocolsReport :
      (chain : Bytes) (r : Response) → IsProtocolsReport chain (protocols_reply chain r)
  unfolding protocols_reply
  protocols_reply-IsProtocolsReport chain (failed e) = tt
  protocols_reply-IsProtocolsReport chain (response status body) =
      decoded-IsProtocolsReport chain body _ (status == 200) (j.decode_protocols body) refl

  -- `tvlprotocols` never faults. What it shows for a chain, if it returns no error, comes from a decoded reply: the
  -- ten protocols of the chain with the most value, or all where there are fewer, in descending
  -- order, and none that is left out has more than one that is shown; or, where no protocol is on
  -- the chain, a text that says so. This supposes that the sort sorts and that no value is a NaN.
  pub cmd_tvl_protocols-IsProtocolsReport :
      (arg : Bytes) (args : List Bytes)
      → Returns (IsProtocolsReport (join (arg ∷ args) (text " "))) (cmd_tvl_protocols (arg ∷ args))
  unfolding cmd_tvl_protocols
  cmd_tvl_protocols-IsProtocolsReport arg args =
      λ r. protocols_reply-IsProtocolsReport (join (arg ∷ args) (text " ")) r
