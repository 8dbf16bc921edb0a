-- ===== src/CheckDigit.antt =====
-- Package `internal/checkdigit`: the check digit of German account numbers. `Sums`, `Methods` and
-- `Validate` are the definitions; the other modules prove.
pub mod Sums
pub mod Methods
pub mod Validate
pub mod Table
pub mod Place
pub mod Digits
pub mod Outcome
mod Tests
