-- ===== src/BankData.antt =====
-- Package `bankdata`: the records, the store in memory, snapshots and the copy between stores. `Types`,
-- `Store` and `Snapshot` are the definitions; the other modules prove.
pub mod Types
pub mod Store
pub mod Snapshot
pub mod Invariant
pub mod Reads
pub mod Index
pub mod Found
pub mod Copied
pub mod Rebuilt
pub mod Oldest
pub mod Postgres
pub mod Agreed
mod Tests
