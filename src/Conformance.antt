-- ===== src/Conformance.antt =====
-- internal/conformance: what a target answered to a suite of probes, and how two records are compared.
pub mod Data
pub mod Json
pub mod Tag
pub mod Compare
pub mod Race
pub mod Suites
pub mod Content
pub mod Observe
pub mod Run
pub mod Files
pub mod Saved
pub mod NotEmpty
pub mod Enforced
pub mod Agreement
pub mod Alike
pub mod Unchanged
pub mod Covered
pub mod Retries
pub mod Ran
pub mod Complete
pub mod Sample
mod Witnesses
