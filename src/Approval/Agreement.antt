-- ===== src/Approval/Agreement.antt =====
-- The check and the claim of app/lib/security/approvalStore.ts agree on a binding and an instant.
use atra_workunit_os.Prelude.{
  ℕ, ◌≡◌, refl, sym, ◌∙◌, ◌↔◌, String, true, false, Option, some, arith, eq_iff, ◌==◌, truthy, inl,
  inr,
}
use mathlib.Core.Option.{some-injective}
use mathlib.Core.Path.{subst}
use atra_workunit_os.Prelude.Dict.{lookup, insert, lookup-insert}
use atra_workunit_os.Time.{is_iso_utc_timestamp}
use atra_workunit_os.Approval.Record.{ActionApprovalRecord, Binding}
use atra_workunit_os.Approval.Verify.{
  VerificationResult, verified, denied, approval_used, verify_record, verify_approval, Matches,
  IsApproved, verify_approval_iff,
}
use atra_workunit_os.Approval.Store.{
  Store, ClaimInput, find_approval_by_id, use_record, claim_approval_for_runtime, IsClaimable,
  Claimed, claim_approval_for_runtime_outcome, claim_approval_for_runtime_wins,
}

module _ (fallback : String → Option ℕ) where
  -- Verification against the store's map.
  unfoldable pub verify_in : Store → Binding → String → VerificationResult
  unfolding find_approval_by_id
  verify_in records b now =
      verify_approval fallback (λ i. find_approval_by_id i records)
        (record { binding = b; now = now })

  verify_record-used :
      (row : ActionApprovalRecord) (b : Binding) (at now : String)
      → Matches row b
      → verify_record fallback (use_record row at) (record { binding = b; now = now })
        ≡ denied approval_used
  unfolding verify_record
  verify_record-used row b at now m = ground (
    arith,
    eq_iff row.tenant_id b.tenant_id,
    eq_iff row.work_unit_id b.work_unit_id,
    eq_iff row.action_preview_id b.action_preview_id,
    eq_iff row.action_type b.action_type,
    eq_iff row.target_hash b.target_hash,
    eq_iff row.payload_hash b.payload_hash,
  )

  verify_in-insert :
      (b : Binding) (row : ActionApprovalRecord) (now : String) (records : Store)
      → verify_in (insert b.approval_id row records) b now
        ≡ verify_record fallback row (record { binding = b; now = now })
  unfolding verify_in verify_approval
  verify_in-insert b row now records =
      let same : (b.approval_id == b.approval_id) ≡ true =
        ((eq_iff b.approval_id b.approval_id).1 refl) in
      rw (verify_approval, lookup-insert b.approval_id b.approval_id row records, same) refl

  Claimed-verified :
      (input : ClaimInput) (records : Store) (c : Claimed fallback input records)
      → verify_in records input.binding input.claimed_at ≡ verified c.row.id
  unfolding verify_in find_approval_by_id
  Claimed-verified input records c =
      (verify_approval_iff fallback (λ i. lookup i records)
          (record { binding = input.binding; now = input.claimed_at }) c.row.id).1
        ((
          c.row,
          c.found,
          record {
            matches = c.claimable.matches;
            approved_status = c.claimable.approved_status;
            unexpired = c.claimable.unexpired;
          },
          refl,
        ))

  verified-IsClaimable :
      (input : ClaimInput) (records : Store) (row : ActionApprovalRecord)
      → find_approval_by_id input.binding.approval_id records ≡ some row
      → truthy row.used_at ≡ false
      → verify_in records input.binding input.claimed_at ≡ verified row.id
      → IsClaimable fallback row input
  unfolding verify_in find_approval_by_id
  verified-IsClaimable input records row e f h =
      let (other, g, a, _) =
        (verify_approval_iff fallback (λ i. lookup i records)
            (record { binding = input.binding; now = input.claimed_at }) row.id).0
          h in
      let same : other ≡ row = (some-injective _ _ (sym g ∙ e)) in
      let b : IsApproved fallback row (record { binding = input.binding; now = input.claimed_at }) =
        (subst
          (λ r. IsApproved fallback r (record { binding = input.binding; now = input.claimed_at }))
          same a) in
      record {
        matches = b.matches;
        approved_status = b.approved_status;
        unused = f;
        unexpired = b.unexpired;
      }

  -- A claim wins exactly if at its time the same binding verifies, the time is well formed and the
  -- record has no time of use. A claim that wins leaves a store in which the same binding is refused
  -- as used, at any time; a claim that loses leaves the store as it was.
  pub claim_approval_for_runtime-verify :
      (input : ClaimInput) (records : Store)
      → (((claim_approval_for_runtime fallback input records).0 ≡ true) ↔ (
          (is_iso_utc_timestamp input.claimed_at ≡ true)
          × ((row : ActionApprovalRecord) × (find_approval_by_id input.binding.approval_id records
                ≡ some row)
              × (truthy row.used_at ≡ false)
              × (verify_in records input.binding input.claimed_at ≡ verified row.id))))
        × ((claim_approval_for_runtime fallback input records).0 ≡ true
            → (now : String)
            → verify_in (claim_approval_for_runtime fallback input records).1 input.binding now
              ≡ denied approval_used)
        × ((claim_approval_for_runtime fallback input records).0 ≡ false
            → (claim_approval_for_runtime fallback input records).1 ≡ records)
  unfolding find_approval_by_id
  claim_approval_for_runtime-verify input records =
      elim (claim_approval_for_runtime_outcome fallback input records) [
        | inl (c, e) ↦ (
          (
            λ _. (c.timely, (c.row, c.found, c.claimable.unused, Claimed-verified input records c)),
            λ _. rw (e) refl,
          ),
          λ _ now.
              rw (e, verify_in-insert input.binding (use_record c.row input.claimed_at) now records)
                (verify_record-used c.row input.binding input.claimed_at now c.claimable.matches),
          λ h. cc,
        )
        | inr e ↦ (
          (
            λ h. cc,
            λ (timely, (row, found, unused, h)).
                rw
                  (claim_approval_for_runtime_wins fallback input records row found
                    (verified-IsClaimable input records row found unused h) timely)
                  refl,
          ),
          λ h. cc,
          λ _. rw (e) refl,
        )
      ]
