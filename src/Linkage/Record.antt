-- ===== src/Linkage/Record.antt =====
-- The structural validator of linkage records
-- (app/lib/phase6/approvalLinkage/validation.ts).
pub mod Valid
use mathlib.Core.Path.{subst}
use Prim.Native.String.{◌++◌ as ◌+++◌}
use atra_workunit_os.Prelude.{
  ◌≡◌, refl, String, Bool, true, false, Option, none, some, List, [], ◌∷◌, ◌++◌, arith, ◌==◌, ◌||◌,
  inl, inr, Bool-cases, Option-cases, >>=-eq-some, ◌>>=◌, ap, ◌∙◌, eq_iff, if◌then◌else◌,
}
use atra_workunit_os.Js.{
  Value, undefined, null, revoked, bool, num, str, arr, obj, Fields, field, throws, symbol, end,
}
use atra_workunit_os.Authorization.Snapshot.{
  copy_fields, snapshot_record_or_null, property, is_text,
}
use atra_workunit_os.Identity.Issues.{
  is_non_empty, is_iso, is_one_of, has_own, is_non_empty-str, is_iso-str, is_one_of-str,
}
use atra_workunit_os.Identity.Positions.{snapshot_or_null}
use atra_workunit_os.Linkage.{
  IssueCode, invalid_approval_linkage_input, state_missing, Issue, approval_linkage_issue, is_hex64,
}

abbrev pub hash_algorithm : String
hash_algorithm = "sha256"

abbrev pub canonicalization_algorithm : String
canonicalization_algorithm = "atra-sorted-json-v1"

abbrev pub action_types : List String
action_types = "slack_reply" ∷ "gmail_reply" ∷ "github_issue" ∷ "calendar_event" ∷ []

-- `LinkageFieldKind`
pub data Kind : Type 0 where
  identifier hash timestamp action_type hash_algo canon_algo : Kind

-- `LINKAGE_RECORD_FIELD_SPECS`
abbrev pub field_specs : List (String × Kind)
field_specs =
    ("approval_linkage_id", identifier)
    ∷ ("tenant_id", identifier)
    ∷ ("human_decision_id", identifier)
    ∷ ("human_decision_hash", hash)
    ∷ ("review_evidence_id", identifier)
    ∷ ("review_evidence_hash", hash)
    ∷ ("review_envelope_hash", hash)
    ∷ ("first_review_attestation_id", identifier)
    ∷ ("second_review_attestation_id", identifier)
    ∷ ("identity_chain_hash", hash)
    ∷ ("workunit_id", identifier)
    ∷ ("action_preview_id", identifier)
    ∷ ("approval_id", identifier)
    ∷ ("action_type", action_type)
    ∷ ("target_hash", hash)
    ∷ ("payload_hash", hash)
    ∷ ("approver_id", identifier)
    ∷ ("preview_created_at", timestamp)
    ∷ ("preview_expires_at", timestamp)
    ∷ ("review_completed_at", timestamp)
    ∷ ("review_expires_at", timestamp)
    ∷ ("approval_created_at", timestamp)
    ∷ ("approval_approved_at", timestamp)
    ∷ ("approval_expires_at", timestamp)
    ∷ ("linked_at", timestamp)
    ∷ ("linkage_expires_at", timestamp)
    ∷ ("hash_algorithm", hash_algo)
    ∷ ("canonicalization_algorithm", canon_algo)
    ∷ ("linkage_hash", hash)
    ∷ []

abbrev pub has_spec : String → List (String × Kind) → Bool
has_spec k [] = false
has_spec k (spec ∷ specs) = spec.0 == k || has_spec k specs

unfoldable pub is_of_kind : Kind → Value → Bool
is_of_kind identifier v = is_non_empty v
is_of_kind hash v = is_hex64 v
is_of_kind timestamp v = is_iso v
is_of_kind action_type v = is_one_of action_types v
is_of_kind hash_algo v = is_text v hash_algorithm
is_of_kind canon_algo v = is_text v canonicalization_algorithm

-- The issues of unknown keys, in front of what follows.
unfoldable pub unknown_key_issues :
    (String → Bool) → IssueCode → String → Fields → List Issue → List Issue
unknown_key_issues known code prefix end rest = rest
unknown_key_issues known code prefix (field k v fs) rest =
    if known k
    then unknown_key_issues known code prefix fs rest
    else approval_linkage_issue code (prefix +++ "." +++ k)
      ∷ unknown_key_issues known code prefix fs rest
unknown_key_issues known code prefix (throws k fs) rest =
    if known k
    then unknown_key_issues known code prefix fs rest
    else approval_linkage_issue code (prefix +++ "." +++ k)
      ∷ unknown_key_issues known code prefix fs rest
unknown_key_issues known code prefix (symbol fs) rest = unknown_key_issues known code prefix fs rest

-- One round of the loop over the fields, in front of what follows.
unfoldable pub field_issue : String → Kind → Fields → List Issue → List Issue
field_issue name kind fs rest =
    if has_own name fs
    then (if is_of_kind kind (property name fs)
        then rest
        else approval_linkage_issue invalid_approval_linkage_input ("(linkage)." +++ name) ∷ rest)
    else approval_linkage_issue state_missing ("(linkage)." +++ name) ∷ rest

unfoldable pub field_issues : List (String × Kind) → Fields → List Issue
field_issues [] fs = []
field_issues (spec ∷ specs) fs = field_issue spec.0 spec.1 fs (field_issues specs fs)

-- `validateApprovalLinkageRecord`: the issues, of which there are none exactly if the result is
-- `ok`. Nothing in it throws.
unfoldable pub validate_approval_linkage_record : Value → List Issue
validate_approval_linkage_record input = elim (snapshot_or_null input) [
  | none ↦ approval_linkage_issue invalid_approval_linkage_input "(linkage)" ∷ []
  | some fs ↦
      unknown_key_issues (λ k. has_spec k field_specs) invalid_approval_linkage_input "(linkage)" fs
        (field_issues field_specs fs)
]
