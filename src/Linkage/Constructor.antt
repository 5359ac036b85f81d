-- ===== src/Linkage/Constructor.antt =====
-- The constructor of linkage records (app/lib/phase6/approvalLinkage/constructors.ts).
use atra_workunit_os.Prelude.{String, none, some, List, [], ◌∷◌, ◌++◌, if◌then◌else◌}
use atra_workunit_os.Js.{Value, str, obj, Fields, field, end, includes}
use atra_workunit_os.Authorization.Snapshot.{property}
use atra_workunit_os.Identity.Issues.{is_non_empty, is_iso}
use atra_workunit_os.Identity.Positions.{snapshot_or_null}
use atra_workunit_os.Linkage.{
  invalid_approval_linkage_input, state_missing, hash_mismatch, validation_exception, Issue,
  approval_linkage_issue, is_sha256_hex,
}
use atra_workunit_os.Linkage.Record.{unknown_key_issues, validate_approval_linkage_record}
use atra_workunit_os.Linkage.Payload.{
  pick, linkage_payload_fields, with_algorithms, build_approval_linkage_payload,
}
use atra_workunit_os.Linkage.Sources.{Calls, text_or_empty}
use atra_workunit_os.Linkage.Evaluation.{evaluate_approval_chain}

-- `ApprovalLinkageConstructionResult`
pub data Construction : Type 0 where
  failed : List Issue → Construction
  created : Fields → Construction

abbrev pub input_fields : List String
input_fields = "approval_linkage_id" ∷ "linked_at" ∷ []

-- The issues of the input alone.
unfoldable pub input_issues : Fields → List Issue
input_issues snap =
    unknown_key_issues (includes input_fields) invalid_approval_linkage_input "(input)" snap (
      if is_non_empty (property "approval_linkage_id" snap)
      then time_issues
      else approval_linkage_issue invalid_approval_linkage_input "(input).approval_linkage_id"
        ∷ time_issues)
  where
    time_issues : List Issue
    time_issues =
        if is_iso (property "linked_at" snap)
        then []
        else approval_linkage_issue invalid_approval_linkage_input "(input).linked_at" ∷ []

-- The payload's input: the input's two fields and the derived ones.
abbrev pub payload_input : String → String → Fields → Fields
payload_input linkage_id linked_at derived =
    field "approval_linkage_id" (str linkage_id) (field "linked_at" (str linked_at) derived)

-- The record that is assembled of a payload and its hash.
unfoldable pub assemble_record : Fields → String → Fields
assemble_record payload hash =
    pick linkage_payload_fields payload (with_algorithms (field "linkage_hash" (str hash) end))

-- `isIsoUtcTimestamp(value) ? value : ""`
abbrev pub time_or_empty : Value → String
time_or_empty v = if is_iso v then text_or_empty v else ""

module _ (calls : Calls) where
  -- What follows an evaluation without issues.
  unfoldable pub construct_record : String → String → Fields → Construction
  construct_record linkage_id linked_at derived =
      let payload = build_approval_linkage_payload (payload_input linkage_id linked_at derived) in
      elim (calls.hash_field (obj payload)) [
        | none ↦ failed (approval_linkage_issue validation_exception "(constructor)" ∷ [])
        | some hash ↦
            if is_sha256_hex hash
            then elim (validate_approval_linkage_record (obj (assemble_record payload hash))) [
              | [] ↦ created (assemble_record payload hash)
              | issue ∷ issues ↦ failed (issue ∷ issues)
            ]
            else failed (approval_linkage_issue hash_mismatch "(linkage_hash)" ∷ [])
      ]

  -- What follows the snapshot of the input.
  unfoldable pub create_from : Fields → Value → Construction
  create_from snap context =
      let evaluation =
        evaluate_approval_chain calls context (time_or_empty (property "linked_at" snap))
          (text_or_empty (property "approval_linkage_id" snap)) in
      elim (input_issues snap ++ evaluation.issues) [
        | issue ∷ issues ↦ failed (issue ∷ issues)
        | [] ↦ elim evaluation.derived [
          | none ↦ failed (approval_linkage_issue state_missing "(context)" ∷ [])
          | some derived ↦
              construct_record (text_or_empty (property "approval_linkage_id" snap))
                (time_or_empty (property "linked_at" snap)) derived
        ]
      ]

  -- `createApprovalLinkageRecord`
  unfoldable pub create_approval_linkage_record : Value → Value → Construction
  create_approval_linkage_record input context = elim (snapshot_or_null input) [
    | none ↦ failed (approval_linkage_issue invalid_approval_linkage_input "(input)" ∷ [])
    | some snap ↦ create_from snap context
  ]
