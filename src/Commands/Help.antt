-- ===== src/Commands/Help.antt =====
-- internal/commands/help.go
use crypto_sentinel.Prelude.{◌++◌, Bytes}
use crypto_sentinel.Go.Text.{text}

-- The sections of the text.
abbrev help_title : Bytes
help_title = text "📘 CryptoSentinel AI — Command Guide\n" ++ text "\n"

abbrev help_core : Bytes
help_core =
    text "Core:\n"
    ++ text "  price [symbol]\n"
    ++ text "    Get real-time price and market data for a coin.\n"
    ++ text "    Example:\n"
    ++ text "      price btc\n"
    ++ text "\n"
    ++ text "  compare [symbol1] [symbol2]\n"
    ++ text "    Compare two assets side by side.\n"
    ++ text "    Example:\n"
    ++ text "      compare btc eth\n"
    ++ text "\n"
    ++ text "  digest [daily|now]\n"
    ++ text "    Market summary for top 5 coins by market cap.\n"
    ++ text "    Examples:\n"
    ++ text "      digest\n"
    ++ text "      digest daily\n"
    ++ text "\n"

abbrev help_defi_tvl : Bytes
help_defi_tvl =
    text "DeFi & TVL:\n"
    ++ text "  tvl [protocol]\n"
    ++ text "    Show DeFi protocol TVL (Total Value Locked) from DefiLlama.\n"
    ++ text "    Use protocol slug style:\n"
    ++ text "      tvl uniswap\n"
    ++ text "      tvl curve-finance\n"
    ++ text "\n"
    ++ text "  tvlchain [chain]\n"
    ++ text "    Show total TVL per chain.\n"
    ++ text "    Example:\n"
    ++ text "      tvlchain ethereum\n"
    ++ text "\n"
    ++ text "  tvlprotocols [chain]\n"
    ++ text "    Show top protocols by TVL on a specific chain.\n"
    ++ text "    Example:\n"
    ++ text "      tvlprotocols arbitrum\n"
    ++ text "\n"

abbrev help_market_lists : Bytes
help_market_lists =
    text "Market lists:\n"
    ++ text "  top [limit]\n"
    ++ text "    List top coins by market cap (default 10, max 50).\n"
    ++ text "    Examples:\n"
    ++ text "      top\n"
    ++ text "      top 20\n"
    ++ text "\n"
    ++ text "  gainers [limit]\n"
    ++ text "    Top daily gainers among large-cap coins (CoinGecko).\n"
    ++ text "    Example:\n"
    ++ text "      gainers 15\n"
    ++ text "\n"
    ++ text "  losers [limit]\n"
    ++ text "    Top daily losers among large-cap coins (CoinGecko).\n"
    ++ text "    Example:\n"
    ++ text "      losers 15\n"
    ++ text "\n"

abbrev help_cex_gainers_losers : Bytes
help_cex_gainers_losers =
    text "CEX gainers & losers:\n"
    ++ text "  gainers_cex [limit]\n"
    ++ text
        "    Show top gainers on major CEX (Coinbase, Binance, OKX, Bybit, MEXC, KuCoin, Bitget).\n"
    ++ text "    Examples:\n"
    ++ text "      gainers_cex\n"
    ++ text "      gainers_cex 10\n"
    ++ text "\n"
    ++ text "  losers_cex [limit]\n"
    ++ text "    Show top losers on the same CEX set.\n"
    ++ text "    Examples:\n"
    ++ text "      losers_cex\n"
    ++ text "      losers_cex 10\n"
    ++ text "\n"
    ++ text "  gainers_compare [limit] [cex1] [cex2]\n"
    ++ text "    Compare top gainers between two supported CEX.\n"
    ++ text "    Supported CEX:\n"
    ++ text "      coinbase, binance, okx, bybit, mexc, kucoin, bitget\n"
    ++ text "    Examples:\n"
    ++ text "      gainers_compare 5 binance okx\n"
    ++ text "      gainers_compare 3 mexc kucoin\n"
    ++ text "\n"

abbrev help_conversions : Bytes
help_conversions =
    text "Conversions:\n"
    ++ text "  convert [amount] [from] [to]\n"
    ++ text "    Convert between coins/fiat using CoinGecko prices.\n"
    ++ text "    Examples:\n"
    ++ text "      convert 1 btc eth\n"
    ++ text "      convert 250 usdt sol\n"
    ++ text "      convert 1000 usd eth\n"
    ++ text "\n"

abbrev help_sentiment : Bytes
help_sentiment =
    text "Sentiment:\n"
    ++ text "  feargreed\n"
    ++ text "    Show the Crypto Fear & Greed Index (alternative.me).\n"
    ++ text "\n"

abbrev help_news : Bytes
help_news =
    text "News:\n"
    ++ text "  news\n"
    ++ text "    Show latest crypto-related status updates from CoinGecko.\n"
    ++ text "\n"

abbrev help_gas_tracker : Bytes
help_gas_tracker =
    text "Gas tracker:\n"
    ++ text "  gas [chain]\n"
    ++ text "    Show current gas prices for a chain using Owlracle.\n"
    ++ text "    Supported chains:\n"
    ++ text "      ethereum, arbitrum, base, bsc, polygon, optimism,\n"
    ++ text "      avalanche, fantom, gnosis, celo\n"
    ++ text "    Examples:\n"
    ++ text "      gas ethereum\n"
    ++ text "      gas arbitrum\n"
    ++ text "\n"

abbrev help_dex_price : Bytes
help_dex_price =
    text "DEX price:\n"
    ++ text "  dexprice [token] [chain]\n"
    ++ text "    Get on-chain DEX price from Dexscreener.\n"
    ++ text "    Examples:\n"
    ++ text "      dexprice pepe ethereum\n"
    ++ text "      dexprice bonk solana\n"
    ++ text "\n"

abbrev help_portfolio : Bytes
help_portfolio =
    text "Portfolio:\n"
    ++ text "  portfolio [address]\n"
    ++ text "    Show crypto portfolio summary for a wallet (via Covalent / DeBank-style APIs).\n"
    ++ text "    Example:\n"
    ++ text "      portfolio 0x1234...abcd\n"
    ++ text "\n"

abbrev help_alerts : Bytes
help_alerts =
    text "Alerts:\n"
    ++ text "  alert [symbol] [condition]\n"
    ++ text "    Create a price alert with operator >, <, >=, <=.\n"
    ++ text "    Examples:\n"
    ++ text "      alert btc >65000\n"
    ++ text "      alert eth <=3000\n"
    ++ text "\n"
    ++ text "  alert_list\n"
    ++ text "    Show all active alerts.\n"
    ++ text "\n"
    ++ text "  alert_remove [index]\n"
    ++ text "    Remove an alert by its index (see alert_list).\n"
    ++ text "    Example:\n"
    ++ text "      alert_remove 1\n"
    ++ text "\n"
    ++ text "  alert_clear\n"
    ++ text "    Remove all alerts.\n"
    ++ text "\n"

abbrev help_sentiment_analytics : Bytes
help_sentiment_analytics =
    text "Sentiment & analytics:\n"
    ++ text "  sentiment [symbol]\n"
    ++ text "    Analyze short-term market mood for a coin based on price performance\n"
    ++ text "    and volume activity.\n"
    ++ text "    Example:\n"
    ++ text "      sentiment btc\n"
    ++ text "\n"
    ++ text "  volatility [symbol]\n"
    ++ text "    Show recent price volatility (7d range) and classify it as\n"
    ++ text "    Low / Medium / High / Extreme.\n"
    ++ text "    Example:\n"
    ++ text "      volatility eth\n"
    ++ text "\n"
    ++ text "  trend [symbol]\n"
    ++ text "    Show short, mid, and long-term price trend using 7d / 30d / 90d\n"
    ++ text "    moving averages and classify the overall trend as bullish, bearish,\n"
    ++ text "    or sideways.\n"
    ++ text "    Example:\n"
    ++ text "      trend sol\n"
    ++ text "\n"

abbrev help_meta : Bytes
help_meta =
    text "Meta:\n"
    ++ text "  help\n"
    ++ text "    Show this help message again.\n"
    ++ text "    Example:\n"
    ++ text "      help"

unfoldable pub help_text : Bytes
help_text =
    help_title ++ help_core ++ help_defi_tvl ++ help_market_lists ++ help_cex_gainers_losers
    ++ help_conversions ++ help_sentiment ++ help_news ++ help_gas_tracker ++ help_dex_price
    ++ help_portfolio ++ help_alerts ++ help_sentiment_analytics ++ help_meta
