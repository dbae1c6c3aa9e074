-- ===== src/Examples/Markets.antt =====
-- The commands on chains, charts and portfolios.
use crypto_sentinel.Prelude.{
  ℕ, ok, true, List, [], ◌∷◌, Bytes, ◌≡◌, refl, all, not, subst, ok-injective,
}
use crypto_sentinel.Go.Float64.{float, is_nan}
use crypto_sentinel.Go.Text.{text, join}
use crypto_sentinel.Go.Http.Laws.{Returns}
use crypto_sentinel.Go.Http.Answers.{ReturnsTo}
use crypto_sentinel.Go.Sort.Insertion.{by_insertion, by_insertion-IsSorter}
use crypto_sentinel.Commands.Tvl.Chain.{ChainRow, chain_report}
use crypto_sentinel.Commands.Tvl.Chain.Rank.{IsChainReport, chain_report-IsChainReport}
use crypto_sentinel.Commands.Portfolio.Holdings.{Item}
use crypto_sentinel.Commands.Tvl.Protocols.{ProtocolRow, ProtocolsJson, cmd_tvl_protocols}
use crypto_sentinel.Commands.Tvl.Protocols.Laws.{
  SendsProtocols, IsProtocolsReport, cmd_tvl_protocols-IsProtocolsReport,
}
use crypto_sentinel.Commands.Dex.{cmd_dex_price, cmd_dex_meme}
use crypto_sentinel.Commands.Dex.Search.{DexPair, DexJson, normalize_chain_name}
use crypto_sentinel.Commands.Dex.Report.{
  IsPriceReport, cmd_dex_price-IsPriceReport, IsMemeReport, cmd_dex_meme-IsMemeReport,
}
use crypto_sentinel.Examples.Demo.{demo, IsEmptyReply, in_order, in_order-IsChance}

abbrev chain : Bytes → ℕ → ChainRow
chain name tvl = record { name = name; tvl = float tvl }

abbrev chains : List ChainRow
chains = chain (text "base") 5 ∷ chain (text "ethereum") 9 ∷ chain (text "base") 7 ∷ []

chain_report-IsChainReport_example :
    IsChainReport (text "Base") chains (chain_report (text "Base") chains)
chain_report-IsChainReport_example = chain_report-IsChainReport (text "Base") chains

abbrev item : Bytes → ℕ → Item
item on quote = record {
  contract_name = text "coin";
  contract_ticker_symbol = text "c";
  quote = float quote;
  pretty_quote = [];
  chain_id = text "1";
  chain_name = on;
  chain_display_name = [];
  is_native_token = true;
}

abbrev items : List Item
items = item (text "eth") 5 ∷ item (text "base") 0 ∷ item (text "eth") 2 ∷ []

abbrev protocols : List ProtocolRow
protocols =
    record { name = text "aave"; tvl = float 5; chains = text "base" ∷ [] }
    ∷ record { name = text "lido"; tvl = float 9; chains = text "base" ∷ text "eth" ∷ [] }
    ∷ []

instance abbrev feed : ProtocolsJson
feed = record { decode_protocols = λ body. ok protocols }

feed-SendsProtocols : SendsProtocols feed
unfolding is_nan
feed-SendsProtocols = record {
  protocols =
      λ body protos e. subst (λ l. all (λ p. not (is_nan p.tvl)) l ≡ true) (ok-injective e) refl;
}

cmd_tvl_protocols-IsProtocolsReport_example :
    Returns
      (IsProtocolsReport by_insertion-IsSorter feed-SendsProtocols
        (join (text "base" ∷ []) (text " ")))
      (cmd_tvl_protocols (text "base" ∷ []))
cmd_tvl_protocols-IsProtocolsReport_example =
    cmd_tvl_protocols-IsProtocolsReport by_insertion-IsSorter feed-SendsProtocols (text "base") []

abbrev pair : Bytes → DexPair
pair on = record {
  chain_id = on;
  dex_id = text "uniswap";
  url = text "u";
  base_symbol = text "PEPE";
  base_name = text "Pepe";
  quote_symbol = text "WETH";
  quote_name = text "Wrapped Ether";
  price_usd = text "1";
  liquidity_usd = float 5;
  volume_h24 = float 9;
}

instance abbrev two_pairs : DexJson
two_pairs = record {
  decode_pairs = λ body. ok (pair (text "solana") ∷ pair (text "Ethereum") ∷ []);
}

cmd_dex_price-IsPriceReport_example :
    ReturnsTo IsEmptyReply
      (IsPriceReport IsEmptyReply (text "pepe") (normalize_chain_name (text "eth")))
      (cmd_dex_price (text "pepe" ∷ text "eth" ∷ []))
cmd_dex_price-IsPriceReport_example =
    cmd_dex_price-IsPriceReport IsEmptyReply (text "pepe") (text "eth") []

cmd_dex_meme-IsMemeReport_example :
    ReturnsTo IsEmptyReply
      (IsMemeReport IsEmptyReply (text "sol" ∷ []))
      (cmd_dex_meme (text "sol" ∷ []))
cmd_dex_meme-IsMemeReport_example =
    cmd_dex_meme-IsMemeReport IsEmptyReply (text "sol" ∷ []) in_order-IsChance
