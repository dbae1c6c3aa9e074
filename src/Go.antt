-- ===== src/Go.antt =====
-- What the program uses of the Go language and its standard library.
pub mod Runtime
pub mod Text
pub mod Decimal
pub mod Float64
pub mod Sort
pub mod Chance
pub mod Http
