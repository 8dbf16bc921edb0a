-- ===== src/Sources.antt =====
-- Package `internal/sources`: the registers and their files. `Encoding`, `Table`, `Rows`, `Generic`, `National`, `Fetch` and
-- `Source` are the definitions; the other modules prove.
pub mod Encoding
pub mod Decoded
pub mod Lines
pub mod Table
pub mod Rows
pub mod Generic
pub mod Import
pub mod National
pub mod Fetch
pub mod Source
pub mod Fetched
pub mod Kept
pub mod Named
pub mod Updated
pub mod Fixed
mod Tests
