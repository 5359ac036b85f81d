-- ===== src/Identity.antt =====
-- Canonical identities and their independence (app/lib/phase6/canonicalIdentity and
-- app/lib/phase6/identityIndependence).
pub mod Issues
pub mod Markers
pub mod Validation
pub mod Valid
pub mod Constructors
pub mod Candidates
pub mod Sources
pub mod Sessions
pub mod Creators
pub mod Positions
pub mod Independence
mod Tests
