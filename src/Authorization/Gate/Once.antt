-- ===== src/Authorization/Gate/Once.antt =====
-- The gate of app/lib/security/runtimeAuthorizationGate.ts over the in-memory store of
-- app/lib/security/approvalStore.ts: any number of commands, one after the other.
use atra_workunit_os.Prelude.{
  ℕ, ◌+◌, ◌≤◌, ◌≡◌, inl, inr, String, Bool, false, Option, some, List, [], ◌∷◌, arith, ◌==◌,
  if◌then◌else◌, Bool-cases,
}
use atra_workunit_os.Js.{Value}
use atra_workunit_os.Rbac.{Session}
use atra_workunit_os.Approval.Store.{Store, claim_approval_for_runtime}
use atra_workunit_os.Approval.Once.{claim, use_once, uses_left, use_once-uses_left, uses_left-bound}
use atra_workunit_os.Authorization.Types.{Evidence}
use atra_workunit_os.Authorization.Snapshot.{Attempt}
use atra_workunit_os.Authorization.Eligibility.{Evaluators}
use atra_workunit_os.Authorization.Bundle.{Bundle, claim_of}
use atra_workunit_os.Authorization.Audit.{Request, AuditEvent}
use atra_workunit_os.Authorization.Receipt.{construct_receipt}
use atra_workunit_os.Authorization.Gate.{
  Result, authorized, refused, Moments, ApprovalStore, Answer, claim_and_issue,
  authorize_runtime_command,
}
use atra_workunit_os.Authorization.Gate.Claims.{prior_events, authorize_runtime_command_outcome}

-- The in-memory store, whose claim never throws.
unfoldable pub memory_store : (String → Option ℕ) → ApprovalStore Store
memory_store fallback = record {
  claim = λ input records. (
    some (claim_approval_for_runtime fallback input records).0,
    (claim_approval_for_runtime fallback input records).1,
  );
}

-- One command: what it asks for, what its moments hold and what its evidence resolves to.
pub record Command : Type 0 where
  pub moments : Moments
  pub request : Request
  pub resolved : Attempt (Option Bundle)

-- Whether a result is a receipt for an approval.
abbrev pub is_receipt_for : String → Result → Bool
is_receipt_for i (authorized r) = r.evidence.approval_id == i
is_receipt_for i (refused _ _) = false

module _ (calls : Evaluators) (create_session_identity : Session → String → String → Option Value)
    (fallback : String → Option ℕ) where
  unfoldable pub run_command : Command → Store → Answer Store
  run_command c records =
      authorize_runtime_command calls create_session_identity (memory_store fallback) c.moments
        c.request c.resolved records

  -- How many commands of a sequence get a receipt for an approval.
  unfoldable pub receipts : String → List Command → Store → ℕ
  receipts i [] records = 0
  receipts i (c ∷ cs) records =
      let answer = run_command c records in
      (if is_receipt_for i answer.result then 1 else 0) + receipts i cs answer.store

  claim_and_issue-uses_left :
      (i : String) (request : Request) (prior : List AuditEvent) (e : Evidence) (at : String)
      (records : Store)
      → let answer =
          claim_and_issue calls create_session_identity
            (memory_store fallback)
            request
            prior
            e
            at
            records in
        (if is_receipt_for i answer.result then 1 else 0) + uses_left i answer.store
        ≤ uses_left i records
  unfolding claim_and_issue memory_store construct_receipt claim_of use_once
  claim_and_issue-uses_left i request prior e at records =
      let spent = use_once-uses_left fallback i (claim (claim_of e)) records in
      elim (Bool-cases (claim_approval_for_runtime fallback (claim_of e) records).0) [
        | inl won ↦ rw (claim_and_issue, memory_store, won) (rw (use_once, won) at spent)
        | inr lost ↦ rw (claim_and_issue, memory_store, lost) (rw (use_once, lost) at spent)
      ]

  run_command-uses_left :
      (i : String) (c : Command) (records : Store)
      → (if is_receipt_for i (run_command c records).result then 1 else 0)
          + uses_left i (run_command c records).store
        ≤ uses_left i records
  unfolding run_command
  run_command-uses_left i c records =
      elim (authorize_runtime_command_outcome calls create_session_identity c.moments c.request
        (memory_store fallback) records c.resolved) [
          | inl (k, f) ↦
              rw (run_command, f)
                (claim_and_issue-uses_left i c.request
                  (prior_events calls create_session_identity c.moments c.request k.evidence)
                  k.evidence c.moments.caught_at records)
          | inr r ↦ rw (run_command, r.refusal, r.kept) (omega arith)
        ]

  receipts-uses_left :
      (i : String) (cs : List Command) (records : Store)
      → receipts i cs records ≤ uses_left i records
  unfolding receipts
  receipts-uses_left i [] records = omega arith
  receipts-uses_left i (c ∷ cs) records = omega (
    arith,
    run_command-uses_left i c records,
    receipts-uses_left i cs (run_command c records).store,
  )

  -- However many commands reach the gate, from whatever sessions, at whatever times and with whatever
  -- evidence, at most one of them gets a receipt for an approval, and none where the store holds no
  -- approved record under its id.
  pub receipts-once :
      (i : String) (cs : List Command) (records : Store)
      → (receipts i cs records ≤ 1) × (uses_left i records ≡ 0 → receipts i cs records ≡ 0)
  receipts-once i cs records = (
    omega (arith, receipts-uses_left i cs records, uses_left-bound fallback i records),
    λ h. omega (arith, h, receipts-uses_left i cs records),
  )
