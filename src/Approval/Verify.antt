-- ===== src/Approval/Verify.antt =====
-- `verifyApproval` (app/lib/security/approvalStore.ts).
use atra_workunit_os.Prelude.{
  ℕ, ◌≡◌, ◌↔◌, String, false, Option, none, some, inl, inr, arith, ◌==◌, eq_iff, if◌then◌else◌,
  unless, Option-cases,
}
use atra_workunit_os.Time.{date_ge}
use atra_workunit_os.Approval.Record.{
  pending, approved, rejected, expired, used, is_status, ActionApprovalRecord, Binding,
}

-- `ApprovalLookupInput`
pub record LookupInput : Type 0 where
  pub binding : Binding
  pub now : String

pub data ApprovalError : Type 0 where
  approval_required approval_expired approval_used : ApprovalError
  approval_payload_mismatch approval_target_mismatch forbidden : ApprovalError

pub data VerificationResult : Type 0 where
  verified : String → VerificationResult
  denied : ApprovalError → VerificationResult

module _ (fallback : String → Option ℕ) where
  -- The status and the expiry of a record whose binding matches.
  unfoldable pub check_status : ActionApprovalRecord → String → VerificationResult
  check_status row now =
      if is_status row.status rejected
      then denied approval_required
      else if is_status row.status pending
      then denied approval_required
      else if is_status row.status expired
      then denied approval_expired
      else if is_status row.status used
      then denied approval_used
      else if date_ge fallback now row.expires_at
      then denied approval_expired
      else unless (is_status row.status approved) (denied approval_required) (verified row.id)

  -- The checks of a record that was found.
  unfoldable pub verify_record : ActionApprovalRecord → LookupInput → VerificationResult
  unfolding check_status
  verify_record row input = unless (row.tenant_id == input.binding.tenant_id) (denied forbidden) (
      unless (row.work_unit_id == input.binding.work_unit_id) (denied forbidden) (
        unless (row.action_preview_id == input.binding.action_preview_id) (denied forbidden) (
          unless (row.action_type == input.binding.action_type) (denied forbidden) (
            unless (row.target_hash == input.binding.target_hash) (denied approval_target_mismatch)
              (unless (row.payload_hash == input.binding.payload_hash)
                (denied approval_payload_mismatch) (check_status row input.now))))))

  -- The store's `findApprovalById` is all that is used of it.
  unfoldable pub verify_approval :
      (String → Option ActionApprovalRecord) → LookupInput → VerificationResult
  unfolding verify_record
  verify_approval find input = elim (find input.binding.approval_id) [
    | none ↦ denied approval_required
    | some row ↦ verify_record row input
  ]

-- Every field that an approval is bound by.
pub record Matches (row : ActionApprovalRecord) (b : Binding) : Type 0 where
  pub tenant : row.tenant_id ≡ b.tenant_id
  pub work_unit : row.work_unit_id ≡ b.work_unit_id
  pub preview : row.action_preview_id ≡ b.action_preview_id
  pub action : row.action_type ≡ b.action_type
  pub target : row.target_hash ≡ b.target_hash
  pub payload : row.payload_hash ≡ b.payload_hash

module _ (fallback : String → Option ℕ) where
  -- The specification of a valid approval at an instant.
  pub record IsApproved (row : ActionApprovalRecord) (input : LookupInput) : Type 0 where
    pub matches : Matches row input.binding
    pub approved_status : row.status ≡ approved
    pub unexpired : date_ge fallback input.now row.expires_at ≡ false

  verify_record_sound :
      (row : ActionApprovalRecord) (input : LookupInput) {i : String}
      → verify_record fallback row input ≡ verified i
      → IsApproved row input × (i ≡ row.id)
  unfolding verify_record
  verify_record_sound row input h = ground (
    arith,
    eq_iff row.tenant_id input.binding.tenant_id,
    eq_iff row.work_unit_id input.binding.work_unit_id,
    eq_iff row.action_preview_id input.binding.action_preview_id,
    eq_iff row.action_type input.binding.action_type,
    eq_iff row.target_hash input.binding.target_hash,
    eq_iff row.payload_hash input.binding.payload_hash,
  )

  verify_record_complete :
      (row : ActionApprovalRecord) (input : LookupInput)
      → IsApproved row input
      → verify_record fallback row input ≡ verified row.id
  unfolding verify_record
  verify_record_complete row input h = ground (
    arith,
    eq_iff row.tenant_id input.binding.tenant_id,
    eq_iff row.work_unit_id input.binding.work_unit_id,
    eq_iff row.action_preview_id input.binding.action_preview_id,
    eq_iff row.action_type input.binding.action_type,
    eq_iff row.target_hash input.binding.target_hash,
    eq_iff row.payload_hash input.binding.payload_hash,
  )

  -- An approval is verified exactly if the store has a record under the approval's id whose binding
  -- fields all match, whose status is approved, and whose expiry the given time has not reached; the
  -- id that is returned is that record's.
  pub verify_approval_iff :
      (find : String → Option ActionApprovalRecord) (input : LookupInput) (i : String)
      → (verify_approval fallback find input ≡ verified i) ↔ (
          (row : ActionApprovalRecord) × (find input.binding.approval_id ≡ some row)
          × IsApproved row input
          × (i ≡ row.id))
  unfolding verify_approval
  verify_approval_iff find input i = (
    λ h. elim (Option-cases (find input.binding.approval_id)) [
      | inl e ↦ absurd (ground arith)
      | inr (row, e) ↦
          let found : verify_record fallback row input ≡ verified i =
            rw (e, verify_approval) at h in
          let (a, b) = verify_record_sound row input found in (row, e, a, b)
    ],
    λ (row, e, a, b). rw (e, verify_approval, b) (verify_record_complete row input a),
  )
