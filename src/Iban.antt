-- ===== src/Iban.antt =====
-- Package `iban`: the country registry, parsing, the mod-97 checksum, and building an IBAN from its
-- parts. The definitions stand in the first six modules, the proofs in the others.
pub mod Types
pub mod Structure
pub mod Fuel
pub mod RegistryData
pub mod Parse
pub mod Checksum
pub mod Calculate
pub mod Normal
pub mod Remainder
pub mod Rows
pub mod Accept
pub mod Printed
pub mod Complement
pub mod Built
pub mod Split
pub mod Detection
mod Tests
