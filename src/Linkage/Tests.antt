-- ===== src/Linkage/Tests.antt =====
-- Linkages on concrete sources.
use atra_workunit_os.Prelude.{◌≡◌, ◌↔◌, refl, []}
use atra_workunit_os.Js.{str, obj, includes, read_own}
use atra_workunit_os.Time.{is_iso_utc_timestamp}
use atra_workunit_os.Time.Profile.{is_not_before, compare_canonical_iso_utc}
use atra_workunit_os.Authorization.Snapshot.{copy_fields, snapshot_record_or_null, property}
use atra_workunit_os.Authorization.Decision.{copy_arrays}
use atra_workunit_os.Identity.Issues.{
  is_non_empty, is_iso, is_one_of, has_own, collect_unsupported_identity_marker_issues,
  unknown_issues,
}
use atra_workunit_os.Identity.Validation.{
  identity_issues, is_mispaired, validate_canonical_identity, is_same_canonical_user,
}
use atra_workunit_os.Identity.Constructors.{candidate}
use atra_workunit_os.Identity.Independence.{
  context_issues, is_same, provenance_issues, all_provenance_issues, is_other, binding_issues,
  separation_issues, structural_issues, bound_issues, verify_identity_independence,
}
use atra_workunit_os.Identity.Positions.{
  snapshot_or_null, keep_identity, read_identity, identity_at, read_issues,
}
use atra_workunit_os.Linkage.Sources.{
  snapshot_decision, checks, strict_equals, min_iso, snapshot_identity, read_approval, read_review,
  parse_json_record, read_preview,
}
use atra_workunit_os.Linkage.Verifier.{verified, verify_approval_linkage}
use atra_workunit_os.Linkage.Verified.{IsVerified, verify_approval_linkage_iff}
use atra_workunit_os.Linkage.Constructor.{
  created, create_approval_linkage_record, assemble_record, input_issues, construct_record,
  create_from,
}
use atra_workunit_os.Authorization.{Evidence}
use atra_workunit_os.Linkage.RoundTrip.{create_approval_linkage_record-verify}
use atra_workunit_os.Linkage.{is_sha256_hex, is_hex64, string_items, snapshot_string_array_or_null}
use atra_workunit_os.Linkage.Chain.{review_issue, read_identities, independence_fields}
use atra_workunit_os.Linkage.Evaluation.{
  derived_chain, derive_stage, bind_stage, nested_stage, top_stage, identity_stage, evidence_stage,
  snapshot_stage, review_stage, approval_stage, record_stage, hashes_stage, preview_stage,
  ready_stage, valid_stage, decision_stage, context_stage, evaluate_approval_chain,
}
use atra_workunit_os.Linkage.Payload.{
  pick, build_approval_review_envelope, build_approval_identity_chain,
  build_approval_linkage_payload,
}
use atra_workunit_os.Linkage.Record.{
  is_of_kind, unknown_key_issues, field_issue, field_issues, validate_approval_linkage_record,
}
use atra_workunit_os.Linkage.Example.{now, digest, calls, context, linkage_input, linkage}

linkage_created : create_approval_linkage_record calls linkage_input context ≡ created linkage
unfolding is_sha256_hex is_hex64 string_items snapshot_string_array_or_null review_issue
    read_identities independence_fields input_issues assemble_record construct_record create_from
    create_approval_linkage_record derived_chain derive_stage bind_stage nested_stage top_stage
    identity_stage evidence_stage snapshot_stage review_stage approval_stage record_stage
    hashes_stage preview_stage ready_stage valid_stage decision_stage context_stage
    evaluate_approval_chain pick build_approval_review_envelope build_approval_identity_chain
    build_approval_linkage_payload is_of_kind unknown_key_issues field_issue field_issues
    validate_approval_linkage_record checks strict_equals min_iso snapshot_identity read_approval
    read_review parse_json_record read_preview verify_identity_independence snapshot_or_null
    keep_identity read_identity identity_at read_issues context_issues is_same provenance_issues
    all_provenance_issues is_other binding_issues separation_issues structural_issues bound_issues
    copy_fields snapshot_record_or_null property is_non_empty is_iso is_one_of has_own
    collect_unsupported_identity_marker_issues unknown_issues identity_issues is_mispaired
    validate_canonical_identity is_same_canonical_user candidate includes is_iso_utc_timestamp
    snapshot_decision copy_arrays read_own is_not_before compare_canonical_iso_utc
linkage_created = refl

create_approval_linkage_record-verify_example :
    verify_approval_linkage calls (obj linkage) context ≡ (verified, [])
create_approval_linkage_record-verify_example =
    create_approval_linkage_record-verify calls linkage_input context linkage linkage_created

verify_approval_linkage_iff_example :
    ((verify_approval_linkage calls (obj linkage) context).0 ≡ verified)
    ↔ IsVerified calls (obj linkage) context
verify_approval_linkage_iff_example = verify_approval_linkage_iff calls (obj linkage) context

abbrev evidence : Evidence
evidence = record {
  tenant_id = "t1";
  workunit_id = "w1";
  action_preview_id = "p1";
  approval_id = "a1";
  approval_linkage_id = str "l1";
  action_type = "slack_reply";
  target_hash = digest;
  payload_hash = digest;
  executor_id = str "u5";
  idempotency_key = digest;
  authorization_id = "rauth_0123456789abcdef0123456789abcdef0123456789abcdef0123456789abcdef";
  issued_at = now;
  expires_at = "2026-01-01T00:30:30.000Z";
}
