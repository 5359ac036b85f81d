-- ===== src/Authorization.antt =====
-- Runtime authorization: the policy modules of app/lib/phase6/runtimeAuthorization and the gate of
-- app/lib/security/runtimeAuthorizationGate.ts.
mod Types
pub use Types.*
pub mod Snapshot
pub mod Decision
pub mod Envelope
pub mod Eligibility
mod Soundness
pub mod Audit
pub mod Receipt
pub mod Bundle
mod Binding
pub mod Linked
pub mod Gate
mod Tests
