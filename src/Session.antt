-- ===== src/Session.antt =====
-- internal/proxy/session.go and adjudicator.go: one client connection, relayed and adjudicated.
pub mod State
pub mod Output
pub mod Failure
pub mod Conflict
pub mod Shadow
pub mod Adjudicator
pub mod Jobs
pub mod Backend
pub mod Frontend
pub mod Sample
pub mod Swallow
pub mod Exchanges
pub mod Steps
pub mod Tracked
pub mod Client
pub mod Server
pub mod Served
pub mod Interleaving
pub mod Refusal
pub mod Injection
pub mod Commit
pub mod Deferral
pub mod Repair
pub mod Answered
pub mod JobAnswer
pub mod Handshake
pub mod Negotiation
pub mod ShadowValues
pub mod Classified
pub mod Analyzed
mod Tests
mod Witnesses
