-- ===== src/Cmd.antt =====
-- The commands of `cmd/iban-pizza`, behind their flags: which store they open, what they read and what they write. `Open`,
-- `Import`, `Update` and `Snapshot` are the definitions; `Imported` and `Warned` prove.
pub mod Open
pub mod Import
pub mod Update
pub mod Snapshot
pub mod Warned
pub mod Imported
mod Tests
