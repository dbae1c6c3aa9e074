-- ===== src/Commands.antt =====
-- internal/commands: the chat commands.
pub mod Shared
pub mod Alerts
pub mod Router
pub mod Price
pub mod Top
pub mod GainersCex
pub mod Movers
pub mod LosersCex
pub mod Digest
pub mod Tvl
pub mod Sentiment
pub mod Chart
pub mod FearGreed
pub mod Convert
pub mod Gas
pub mod News
pub mod Portfolio
pub mod Dex
pub mod Help
pub mod Requests
