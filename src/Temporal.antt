-- ===== src/Temporal.antt =====
-- The pairwise temporal relation of two observations (app/lib/phase6/temporalContract).
mod Types
pub use Types.*
pub mod Capture
pub mod Relate
pub mod Evaluate
pub mod Valid
pub mod Intervals
pub mod Arrivals
pub mod Chronology
pub mod Mirror
mod Tests
