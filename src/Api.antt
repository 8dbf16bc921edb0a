-- ===== src/Api.antt =====
-- Package `internal/api`: the answers of the two versions of the interface and the rate limiter. `Repo`,
-- `V1`, `Answer`, `V2`, `Limiter`, `Banks`, `Client` and `Reports` are the definitions; `Legacy` proves of `V1`,
-- `Verdicts` of `V2`, `Bounded` and `Alive` of `Limiter`, and `Stale` of `Reports`.
pub mod Repo
pub mod V1
pub mod Legacy
pub mod Answer
pub mod V2
pub mod Verdicts
pub mod Limiter
pub mod Bounded
pub mod Alive
pub mod Banks
pub mod Client
pub mod Reports
pub mod Stale
mod Tests
