-- ===== src/Approval/Store.antt =====
-- The in-memory approval store (app/lib/security/approvalStore.ts): a map from approval ids to
-- records, and what each method returns with the map that it leaves.
use atra_workunit_os.Prelude.{
  ℕ, ◌≡◌, ◌⊎◌, refl, String, Bool, true, false, Option, none, some, List, inl, inr, arith, ◌==◌,
  eq_iff, truthy, if◌then◌else◌, unless, not, Option-cases, Bool-cases,
}
use atra_workunit_os.Prelude.Dict.{Dict, lookup, insert, values}
use atra_workunit_os.Time.{date_ge, date_gt, is_iso_utc_timestamp}
use atra_workunit_os.Approval.Record.{approved, used, is_status, ActionApprovalRecord, Binding}
use atra_workunit_os.Approval.Verify.{Matches}

abbrev pub Store : Type 0
Store = Dict ActionApprovalRecord

-- `RuntimeApprovalClaimInput`
pub record ClaimInput : Type 0 where
  pub binding : Binding
  pub claimed_at : String

unfoldable pub find_approval_by_id : String → Store → Option ActionApprovalRecord
find_approval_by_id approval_id records = lookup approval_id records

unfoldable pub add_record : ActionApprovalRecord → Store → Store
add_record row records = insert row.id row records

unfoldable pub get_all_records : Store → List ActionApprovalRecord
get_all_records records = values records

-- `{ ...record, status: "used", usedAt }`
abbrev pub use_record : ActionApprovalRecord → String → ActionApprovalRecord
use_record row at = record row { status = used; used_at = some at }

module _ (fallback : String → Option ℕ) where
  -- The tests of the unbound claim on a record that was found; true where none returns early.
  unfoldable pub may_mark : ActionApprovalRecord → String → Bool
  may_mark row used_at = unless (is_status row.status approved) false (
      unless (not (truthy row.used_at)) false
        (unless (not (date_gt fallback used_at row.expires_at)) false true))

  unfoldable pub mark_approval_used : String → String → Store → Bool × Store
  mark_approval_used approval_id used_at records = elim (lookup approval_id records) [
    | none ↦ (false, records)
    | some row ↦
        if may_mark row used_at
        then (true, insert approval_id (use_record row used_at) records)
        else (false, records)
  ]

  -- The tests of the bound claim on a record that was found.
  unfoldable pub may_claim : ActionApprovalRecord → ClaimInput → Bool
  may_claim row input = unless (row.tenant_id == input.binding.tenant_id) false (
      unless (row.work_unit_id == input.binding.work_unit_id) false (
        unless (row.action_preview_id == input.binding.action_preview_id) false (
          unless (row.action_type == input.binding.action_type) false (
            unless (row.target_hash == input.binding.target_hash) false (
              unless (row.payload_hash == input.binding.payload_hash) false (
                unless (is_status row.status approved) false (
                  unless (not (truthy row.used_at)) false (
                    unless (not (date_ge fallback input.claimed_at row.expires_at)) false
                      true))))))))

  unfoldable pub claim_approval_for_runtime : ClaimInput → Store → Bool × Store
  claim_approval_for_runtime input records =
      unless (is_iso_utc_timestamp input.claimed_at) (false, records)
        (elim (lookup input.binding.approval_id records) [
          | none ↦ (false, records)
          | some row ↦
              if may_claim row input
              then (
                true,
                insert input.binding.approval_id (use_record row input.claimed_at) records,
              )
              else (false, records)
        ])

  -- What a winning claim needs.
  pub record IsClaimable (row : ActionApprovalRecord) (input : ClaimInput) : Type 0 where
    pub matches : Matches row input.binding
    pub approved_status : row.status ≡ approved
    pub unused : truthy row.used_at ≡ false
    pub unexpired : date_ge fallback input.claimed_at row.expires_at ≡ false

  pub may_claim_sound :
      (row : ActionApprovalRecord) (input : ClaimInput)
      → may_claim row input ≡ true
      → IsClaimable row input
  unfolding may_claim
  may_claim_sound row input h = ground (
    arith,
    eq_iff row.tenant_id input.binding.tenant_id,
    eq_iff row.work_unit_id input.binding.work_unit_id,
    eq_iff row.action_preview_id input.binding.action_preview_id,
    eq_iff row.action_type input.binding.action_type,
    eq_iff row.target_hash input.binding.target_hash,
    eq_iff row.payload_hash input.binding.payload_hash,
  )

  pub may_claim_complete :
      (row : ActionApprovalRecord) (input : ClaimInput)
      → IsClaimable row input
      → may_claim row input ≡ true
  unfolding may_claim
  may_claim_complete row input h = ground (
    arith,
    eq_iff row.tenant_id input.binding.tenant_id,
    eq_iff row.work_unit_id input.binding.work_unit_id,
    eq_iff row.action_preview_id input.binding.action_preview_id,
    eq_iff row.action_type input.binding.action_type,
    eq_iff row.target_hash input.binding.target_hash,
    eq_iff row.payload_hash input.binding.payload_hash,
  )

  -- What a claim finds if it wins.
  pub record Claimed (input : ClaimInput) (before : Store) : Type 0 where
    pub row : ActionApprovalRecord
    pub found : lookup input.binding.approval_id before ≡ some row
    pub claimable : IsClaimable row input
    pub timely : is_iso_utc_timestamp input.claimed_at ≡ true

  -- A claim either wins, and then it found a claimable record at a well-formed time and left its
  -- used copy in its place; or it changes nothing.
  pub claim_approval_for_runtime_outcome :
      (input : ClaimInput) (records : Store)
      → ((c : Claimed input records) × (claim_approval_for_runtime input records
            ≡ (true, insert input.binding.approval_id (use_record c.row input.claimed_at) records)))
        ⊎ (claim_approval_for_runtime input records ≡ (false, records))
  unfolding claim_approval_for_runtime
  claim_approval_for_runtime_outcome input records =
      elim (Bool-cases (is_iso_utc_timestamp input.claimed_at)) [
        | inr late ↦ inr (rw (claim_approval_for_runtime, late) refl)
        | inl timely ↦ elim (Option-cases (lookup input.binding.approval_id records)) [
          | inl e ↦ inr (rw (claim_approval_for_runtime, timely, e) refl)
          | inr (row, e) ↦ elim (Bool-cases (may_claim row input)) [
            | inr shut ↦ inr (rw (claim_approval_for_runtime, timely, e, shut) refl)
            | inl free ↦ inl (
              record {
                row = row;
                found = e;
                claimable = may_claim_sound row input free;
                timely = timely;
              },
              rw (claim_approval_for_runtime, timely, e, free) refl,
            )
          ]
        ]
      ]

  -- A claimable record at a well-formed time is claimed.
  pub claim_approval_for_runtime_wins :
      (input : ClaimInput) (records : Store) (row : ActionApprovalRecord)
      → lookup input.binding.approval_id records ≡ some row
      → IsClaimable row input
      → is_iso_utc_timestamp input.claimed_at ≡ true
      → claim_approval_for_runtime input records
        ≡ (true, insert input.binding.approval_id (use_record row input.claimed_at) records)
  unfolding claim_approval_for_runtime
  claim_approval_for_runtime_wins input records row e c timely =
      rw (timely, e, may_claim_complete row input c) refl

  pub mark_approval_used_outcome :
      (i at : String) (records : Store)
      → ((row : ActionApprovalRecord) × (lookup i records ≡ some row)
          × (may_mark row at ≡ true)
          × (mark_approval_used i at records ≡ (true, insert i (use_record row at) records)))
        ⊎ (mark_approval_used i at records ≡ (false, records))
  unfolding mark_approval_used
  mark_approval_used_outcome i at records = elim (Option-cases (lookup i records)) [
    | inl e ↦ inr (rw (e, mark_approval_used) refl)
    | inr (row, e) ↦ elim (Bool-cases (may_mark row at)) [
      | inr shut ↦ inr (rw (e, mark_approval_used, shut) refl)
      | inl free ↦ inl (row, e, free, rw (e, mark_approval_used, free) refl)
    ]
  ]
