-- ===== src/Persistence.antt =====
-- The repositories of app/lib/persistence.
pub mod Tables
pub mod Approvals
pub mod Isolation
pub mod D1
pub mod Parents
pub mod AuditLog
pub mod Usage
mod Tests
