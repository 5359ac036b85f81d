-- ===== src/Persistence/D1/Runs.antt =====
-- Sequences of create, findById, updateStatus and claimForRuntime on both approval repositories of
-- app/lib/persistence.
use atra_workunit_os.Prelude.{ℕ, ◌≡◌, String, true, Option, none, some, List, [], ◌∷◌}
use atra_workunit_os.Prelude.Dict.{lookup}
use atra_workunit_os.Time.Canonical.{is_canonical_instant}
use atra_workunit_os.Approval.{ApprovalStatus, ActionApprovalRecord}
use atra_workunit_os.Persistence.Approvals.{
  ClaimFields, Rows, create, find_by_id, update_status, claim_for_runtime,
}
use atra_workunit_os.Persistence.D1.{
  Table, d1_create, d1_find_by_id, d1_update_status, d1_claim_for_runtime,
}
use atra_workunit_os.Persistence.D1.Refinement.{IsSound}

-- A call of create, findById, updateStatus or claimForRuntime under a tenant's context, and what it
-- returns.
pub data Call : Type 0 where
  creating : String → ActionApprovalRecord → Call
  finding : String → String → Call
  updating : String → String → ApprovalStatus → Call
  claiming : String → ClaimFields → Call

abbrev pub Answer : Type 0
Answer = Option ActionApprovalRecord

unfoldable pub d1_call : Call → Table → Answer × Table
d1_call (creating tenant row) table = d1_create tenant row table
d1_call (finding tenant id) table = (d1_find_by_id tenant id table, table)
d1_call (updating tenant id s) table = d1_update_status tenant id s table
d1_call (claiming tenant input) table = d1_claim_for_runtime tenant input table

unfoldable pub d1_run : List Call → Table → List Answer × Table
d1_run [] table = ([], table)
d1_run (call ∷ calls) table =
    let (answer, after) = d1_call call table in
    let (answers, last) = d1_run calls after in (answer ∷ answers, last)

module _ (fallback : String → Option ℕ) where
  unfoldable pub memory_call : Call → Rows → Answer × Rows
  memory_call (creating tenant row) rows =
      (some (create tenant row rows).0, (create tenant row rows).1)
  memory_call (finding tenant id) rows = (find_by_id tenant id rows, rows)
  memory_call (updating tenant id s) rows = update_status tenant id s rows
  memory_call (claiming tenant input) rows = claim_for_runtime fallback tenant input rows

  unfoldable pub memory_run : List Call → Rows → List Answer × Rows
  memory_run [] rows = ([], rows)
  memory_run (call ∷ calls) rows =
      let (answer, after) = memory_call call rows in
      let (answers, last) = memory_run calls after in (answer ∷ answers, last)

  -- A new row is sound and its id is not taken, and a claim comes at a canonical time.
  unfoldable pub IsPlain : Call → Rows → Type 0
  IsPlain (creating tenant row) rows = (lookup row.id rows ≡ none) × IsSound row
  IsPlain (finding tenant id) rows = Unit
  IsPlain (updating tenant id s) rows = Unit
  IsPlain (claiming tenant input) rows = is_canonical_instant input.claimed_at ≡ true

  unfoldable pub ArePlain : List Call → Rows → Type 0
  unfolding IsPlain
  ArePlain [] rows = Unit
  ArePlain (call ∷ calls) rows = IsPlain call rows × ArePlain calls (memory_call call rows).1
