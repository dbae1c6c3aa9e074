-- ===== src/Examples.antt =====
-- Tests, and the theorems at concrete inputs.
mod Demo
mod Alerts
mod Numbers
mod Exchanges
mod Coins
mod Charts
mod Chats
mod Agents
mod Markets
mod Sessions
mod Wallets
mod Fees
