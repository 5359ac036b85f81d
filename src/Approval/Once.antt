-- ===== src/Approval/Once.antt =====
-- One-time use of an approval: sequences of the two claims of app/lib/security/approvalStore.ts, in
-- whatever order the callers reach the store.
use atra_workunit_os.Prelude.{
  ℕ, ◌+◌, ◌≤◌, ◌≡◌, refl, String, Bool, true, false, Option, none, some, List, [], ◌∷◌, inl, inr,
  arith, ◌⊎◌, ◌==◌, eq_iff, if◌then◌else◌, ◌&&◌, Bool-cases,
}
use atra_workunit_os.Prelude.Dict.{lookup, insert, lookup-insert}
use atra_workunit_os.Approval.Record.{approved, is_status, ActionApprovalRecord}
use atra_workunit_os.Approval.Store.{
  Store, ClaimInput, use_record, may_mark, mark_approval_used, claim_approval_for_runtime,
  mark_approval_used_outcome, claim_approval_for_runtime_outcome,
}

-- A call of the store that tries to use an approval.
pub data Use : Type 0 where
  mark : String → String → Use
  claim : ClaimInput → Use

abbrev pub used_id : Use → String
used_id (mark i at) = i
used_id (claim input) = input.binding.approval_id

-- How many uses an approval has left: one while its record is approved.
unfoldable pub uses_left : String → Store → ℕ
uses_left i records = elim (lookup i records) [
  | none ↦ 0
  | some row ↦ if is_status row.status approved then 1 else 0
]

module _ (fallback : String → Option ℕ) where
  unfoldable pub use_once : Use → Store → Bool × Store
  use_once (mark i at) records = mark_approval_used fallback i at records
  use_once (claim input) records = claim_approval_for_runtime fallback input records

  -- How many calls of a sequence win on one approval.
  unfoldable pub wins : String → List Use → Store → ℕ
  wins i [] records = 0
  wins i (call ∷ calls) records =
      (if (use_once call records).0 && (used_id call == i) then 1 else 0)
      + wins i calls (use_once call records).1

  may_mark-approved :
      (row : ActionApprovalRecord) (at : String)
      → may_mark fallback row at ≡ true
      → row.status ≡ approved
  unfolding may_mark
  may_mark-approved row at h = ground arith

  -- A call wins on an approved record and leaves its used copy, or changes nothing.
  use_once_outcome :
      (call : Use) (records : Store)
      → ((row : ActionApprovalRecord) × (at : String) × (lookup (used_id call) records ≡ some row)
          × (row.status ≡ approved)
          × (use_once call records ≡ (true, insert (used_id call) (use_record row at) records)))
        ⊎ (use_once call records ≡ (false, records))
  unfolding use_once
  use_once_outcome (mark i at) records = elim (mark_approval_used_outcome fallback i at records) [
    | inl (row, e, free, f) ↦ inl (row, at, e, may_mark-approved row at free, f)
    | inr f ↦ inr f
  ]
  use_once_outcome (claim input) records =
      elim (claim_approval_for_runtime_outcome fallback input records) [
        | inl (c, e) ↦ inl (c.row, input.claimed_at, c.found, c.claimable.approved_status, e)
        | inr f ↦ inr f
      ]

  uses_left-insert :
      (i k at : String) (row : ActionApprovalRecord) (records : Store)
      → uses_left i (insert k (use_record row at) records)
        ≡ (if k == i then 0 else uses_left i records)
  unfolding uses_left
  uses_left-insert i k at row records = elim (Bool-cases (k == i)) [
    | inl e ↦ rw (uses_left, e, lookup-insert k i (use_record row at) records, e) refl
    | inr e ↦ rw (uses_left, e, lookup-insert k i (use_record row at) records, e) refl
  ]

  uses_left-approved :
      (i : String) (row : ActionApprovalRecord) (records : Store)
      → lookup i records ≡ some row
      → row.status ≡ approved
      → uses_left i records ≡ 1
  unfolding uses_left
  uses_left-approved i row records e a = rw (uses_left, e, a) refl

  -- A winning call spends a use; no call adds one.
  pub use_once-uses_left :
      (i : String) (call : Use) (records : Store)
      → (if (use_once call records).0 && (used_id call == i) then 1 else 0)
          + uses_left i (use_once call records).1
        ≤ uses_left i records
  use_once-uses_left i call records = elim (use_once_outcome call records) [
    | inr f ↦ rw (f) (omega arith)
    | inl (row, at, e, a, f) ↦
        rw (f, uses_left-insert i (used_id call) at row records)
          (ground (arith, eq_iff (used_id call) i, uses_left-approved i row records))
  ]

  pub uses_left-bound : (i : String) (records : Store) → uses_left i records ≤ 1
  unfolding uses_left
  uses_left-bound i records = ground arith

  wins-uses_left :
      (i : String) (calls : List Use) (records : Store) → wins i calls records ≤ uses_left i records
  unfolding wins
  wins-uses_left i [] records = omega arith
  wins-uses_left i (call ∷ calls) records =
      omega
        (arith, use_once-uses_left i call records, wins-uses_left i calls (use_once call records).1)

  -- Whatever calls reach the store, bound or unbound, at whatever times and in whatever order, at
  -- most one of them wins on an approval, and none where the store holds no approved record for it.
  pub wins-once :
      (i : String) (calls : List Use) (records : Store)
      → (wins i calls records ≤ 1) × (uses_left i records ≡ 0 → wins i calls records ≡ 0)
  wins-once i calls records = (
    omega (arith, wins-uses_left i calls records, uses_left-bound i records),
    λ h. omega (arith, h, wins-uses_left i calls records),
  )
