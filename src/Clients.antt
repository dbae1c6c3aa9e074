-- ===== src/Clients.antt =====
-- internal/clients: the HTTP clients of the market data services.
pub mod Config
pub mod Wire
pub mod Cex
pub mod Coingecko
pub mod Defillama
