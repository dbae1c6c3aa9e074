-- ===== src/Clients/Cex.antt =====
-- internal/clients/cex.go: the gainers and losers of seven exchanges. Each exchange has a module.
pub mod Ranking
pub mod Coinbase
pub mod Binance
pub mod Okx
pub mod Bybit
pub mod Mexc
pub mod Kucoin
pub mod Bitget
pub mod Fetch
pub mod Listing
