-- ===== src/Approval.antt =====
-- Approval records: the store of app/lib/security/approvalStore.ts, and the two repositories of
-- app/lib/persistence.
mod Record
pub use Record.*
pub mod Verify
pub mod Store
pub mod Once
pub mod Agreement
mod Tests
