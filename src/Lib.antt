-- ===== src/Lib.antt =====
-- WorkUnit OS: approvals, their storage, and the authorization of external actions.
--
-- The parts and how they interact. An approval record binds a tenant, a work unit, an action preview,
-- an action type and two hashes. The gate takes a request for an external action, checks the role and
-- the kill switch, waits for the evidence, derives the executor, evaluates the evidence at one fresh
-- instant, checks the role and the switch again, claims the approval once, and only then builds a
-- receipt. Approvals live in an in-memory store, or in repositories that are scoped by tenant.
--
-- Which file models which part:
--   Time: app/lib/phase6/shared/isoUtcTimestamp.ts (is_iso_utc_timestamp is isIsoUtcTimestamp), what
--     `new Date` makes of a text, and the canonical instants of the temporal contract. Time/Order,
--     Time/Calendar, Time/Canonical and Time/Compare hold the order of texts and of time.
--     Time/Profile is the comparison of timestamps as texts (compareCanonicalIsoUtc).
--   Js: values of the language, hostile objects included.
--   Temporal: app/lib/phase6/temporalContract/evaluate.ts and types.ts; Temporal/Evaluate holds
--     evaluateTemporalRelation, Temporal/Capture and Temporal/Relate its steps.
--   Approval: app/lib/security/approvalStore.ts; Approval/Verify is verifyApproval, Approval/Store the
--     in-memory store, Approval/Once sequences of calls, Approval/Agreement both together.
--   Persistence: Persistence/Approvals is the approval repository of
--     app/lib/persistence/inMemoryRepositories.ts, Persistence/D1 that of
--     app/lib/persistence/d1/approvalRecordRepository.ts with its SQL as operations on a list of rows,
--     Persistence/Parents app/lib/persistence/relationshipEnforcedRepositories.ts, and
--     Persistence/AuditLog and Persistence/Usage the audit log and the usage repository of
--     inMemoryRepositories.ts, with limits and quantities that are natural numbers. Below them stand
--     the refinement, the expiry and the isolation of tenants.
--   Rbac: app/lib/security/rbac.ts, policy.ts and externalActions.ts, app/lib/domain/auth/roles.ts.
--   RateLimit: app/lib/security/rateLimitGate.ts; RateLimit/Pruning and RateLimit/Bounds hold the
--     size of the map, RateLimit/Burst and RateLimit/History what it admits and refuses.
--   Linkage: app/lib/phase6/approvalLinkage. Linkage/Record is the validator, Linkage/Payload the
--     hashed values, Linkage/Sources, Linkage/Chain and Linkage/Evaluation the evaluation of the
--     sources, Linkage/Verifier and Linkage/Constructor the two entry points; Linkage/Clean,
--     Linkage/Sound, Linkage/Reviewed and Linkage/Consistent hold what an evaluation without issues
--     has read, Linkage/Verified and Linkage/RoundTrip what follows.
--   Identity: app/lib/phase6/canonicalIdentity (Issues, Validation, Constructors; Valid, Sources,
--     Sessions and Creators hold what they accept) and app/lib/phase6/identityIndependence
--     (Positions, Independence and its children).
--   Authorization: app/lib/phase6/runtimeAuthorization (Types, Snapshot, Decision, Envelope,
--     Eligibility, Audit), app/lib/security/runtimeAuthorizationReceipt.ts (Receipt) and
--     app/lib/security/runtimeAuthorizationGate.ts (Bundle, Gate and its children; Gate/Executor
--     joins it with the constructor of identities).
--
-- Conventions. A method that changes state takes the state and returns it with its result. A promise
-- is its result; what may change around the one await of the gate is a field of Moments. A function
-- that may throw returns nothing then, and the caller's `catch` is written out. Times are texts, as
-- in the source; instants count milliseconds from the year 0. A Map is a list of pairs in insertion
-- order. A snapshot goes eight levels deep, as snapshotDeepFrozen does; no other fuel is used.
--
-- Parameters. What an engine makes of a date text outside the standard's formats is `fallback`, or
-- the field parse_other_date. The record Evaluators holds what the eligibility evaluator calls:
-- the linkage verifier, which Authorization/Linked takes from Linkage, the validators of decisions
-- and identities, the hash and toISOString; the gate also takes the constructor of the executor's
-- identity, and Gate/Executor gives it the code's own. The independence verifier takes the
-- validators of decisions and of review evidence; the record Calls of the linkage adds the hashes,
-- JSON.parse and the verifier of review evidence. Nothing is assumed of any of them.
--
-- Not modelled: the validators of decisions and of review evidence, an own key __proto__ of an
-- untrusted object (which a copy takes as its prototype), the attestation of temporal results (a
-- map keyed by object identity), the in-memory repositories of work units, feedback and
-- integrations, the SQL reads that leave an order open, the user interface, the desktop shell, and
-- input and output.
pub mod Approval
pub mod Authorization
pub mod Identity
pub mod Js
pub mod Linkage
pub mod Persistence
pub mod Prelude
pub mod RateLimit
pub mod Rbac
pub mod Temporal
pub mod Time
