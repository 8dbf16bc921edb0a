-- ===== src/Logo.antt =====
-- Package `internal/logo`: `Brand` and `Monogram` are the definitions, `Shown` proves.
pub mod Brand
pub mod Monogram
pub mod Shown
mod Tests
