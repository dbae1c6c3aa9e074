-- ===== src/Services.antt =====
-- internal/services: the format of numbers, and the price alerts.
pub mod Format
pub mod AlertService
