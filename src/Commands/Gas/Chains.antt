-- ===== src/Commands/Gas/Chains.antt =====
-- The maps of internal/commands/gas.go: the chains that users name, and how they are shown.
use crypto_sentinel.Prelude.{List, [], ◌∷◌, ◌++◌, Bytes}
use crypto_sentinel.Go.Text.{text}

-- U+FE0F, which asks for the form of the sign before it as an emoji.
abbrev pub as_emoji : Bytes
as_emoji = 0xEF ∷ 0xB8 ∷ 0x8F ∷ []

abbrev pub gas_chain_map : List (Bytes × Bytes)
gas_chain_map =
    (text "eth", text "eth")
    ∷ (text "ethereum", text "eth")
    ∷ (text "bsc", text "bsc")
    ∷ (text "bnb", text "bsc")
    ∷ (text "polygon", text "polygon")
    ∷ (text "matic", text "polygon")
    ∷ (text "arbitrum", text "arb")
    ∷ (text "arb", text "arb")
    ∷ (text "optimism", text "optimism")
    ∷ (text "op", text "optimism")
    ∷ (text "base", text "base")
    ∷ (text "avax", text "avax")
    ∷ (text "avalanche", text "avax")
    ∷ (text "fantom", text "fantom")
    ∷ (text "ftm", text "fantom")
    ∷ (text "gnosis", text "gnosis")
    ∷ (text "gno", text "gnosis")
    ∷ (text "celo", text "celo")
    ∷ []

abbrev pub gas_pretty_name : List (Bytes × Bytes)
gas_pretty_name =
    (text "eth", text "Ethereum")
    ∷ (text "bsc", text "BSC")
    ∷ (text "polygon", text "Polygon")
    ∷ (text "arb", text "Arbitrum")
    ∷ (text "optimism", text "Optimism")
    ∷ (text "base", text "Base")
    ∷ (text "avax", text "Avalanche")
    ∷ (text "fantom", text "Fantom")
    ∷ (text "gnosis", text "Gnosis")
    ∷ (text "celo", text "Celo")
    ∷ []

abbrev pub gas_emoji : List (Bytes × Bytes)
gas_emoji =
    (text "eth", text "🟦")
    ∷ (text "bsc", text "🟨")
    ∷ (text "polygon", text "🟪")
    ∷ (text "arb", text "🧵")
    ∷ (text "optimism", text "🟥")
    ∷ (text "base", text "🟦")
    ∷ (text "avax", text "🏔" ++ as_emoji)
    ∷ (text "fantom", text "👻")
    ∷ (text "gnosis", text "🟩")
    ∷ (text "celo", text "🟨")
    ∷ []
