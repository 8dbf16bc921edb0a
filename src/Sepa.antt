-- ===== src/Sepa.antt =====
-- Package `internal/sepa`: the register of scheme participants. `Register`, `Parse` and `Load` are the
-- definitions; the other modules prove.
pub mod Register
pub mod Parse
pub mod Load
pub mod Added
pub mod Answers
pub mod Loaded
mod Tests
