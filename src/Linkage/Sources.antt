-- ===== src/Linkage/Sources.antt =====
-- What the source evaluation of app/lib/phase6/approvalLinkage/sourceEvaluation.ts reads of its
-- sources, and how it collects issues.
use Prim.Native.Nat.{Ordering}
use atra_workunit_os.Prelude.{
  ℕ, String, Bool, true, false, Option, none, some, List, [], ◌∷◌, ◌==◌, not, eqb, if◌then◌else◌,
  ◌>>=◌,
}
use atra_workunit_os.Js.{Value, undefined, null, bool, num, str, obj, Fields, includes}
use atra_workunit_os.Time.{is_iso_utc_timestamp}
use atra_workunit_os.Authorization.Snapshot.{Attempt, property, non_empty_string}
use atra_workunit_os.Authorization.Decision.{copy_arrays}
use atra_workunit_os.Identity.Positions.{snapshot_or_null}
use atra_workunit_os.Identity.Validation.{validate_canonical_identity}
use atra_workunit_os.Linkage.{
  IssueCode, Issue, approval_linkage_issue, Check, snapshot_string_array_or_null,
  compare_approval_linkage_iso_utc,
}

-- What the evaluation calls: the hash of any value and those of a target and of a payload
-- (app/lib/security/hash.ts), JSON.parse, and the validators of the artifacts. A result of the
-- review's verification is the codes of its issues, none if it is `ok`.
pub record Calls : Type 0 where
  pub hash_field : Value → Attempt String
  pub hash_action_target : Fields → Attempt String
  pub hash_action_payload : Fields → Attempt String
  pub parse_json : String → Attempt Value
  pub validate_human_decision_record : Fields → Attempt Bool
  pub validate_four_eyes_review_evidence : Fields → Attempt Bool
  pub verify_four_eyes_review_evidence : Fields → Fields → Attempt (List String)

-- `SourceEvaluation`
pub record SourceEvaluation : Type 0 where
  pub derived : Option Fields
  pub issues : List Issue

-- `issues.push(issue)`, in front of what follows.
abbrev pub push : Issue → Attempt SourceEvaluation → Attempt SourceEvaluation
push issue none = none
push issue (some evaluation) = some (record evaluation { issues = issue ∷ evaluation.issues })

abbrev pub push_all : List Issue → Attempt SourceEvaluation → Attempt SourceEvaluation
push_all [] rest = rest
push_all (issue ∷ issues) rest = push issue (push_all issues rest)

-- Pushes the issues of the tests that fail.
unfoldable pub checks : List Check → Attempt SourceEvaluation → Attempt SourceEvaluation
checks [] rest = rest
checks (c ∷ cs) rest = let more = checks cs rest in if c.test then more else push c.issue more

-- `issues.push(issue); return fail()`
abbrev pub stop : IssueCode → String → Attempt SourceEvaluation
stop code place = some (record { derived = none; issues = approval_linkage_issue code place ∷ [] })

-- Goes on with what was read, or stops.
abbrev pub or_stop {ℓ} :
    {A : Type ℓ}
    → Option A
    → IssueCode
    → String
    → (A → Attempt SourceEvaluation)
    → Attempt SourceEvaluation
or_stop none code place next = stop code place
or_stop (some a) code place next = next a

-- `a === b`; two objects are taken for distinct.
unfoldable pub strict_equals : Value → Value → Bool
strict_equals undefined undefined = true
strict_equals null null = true
strict_equals (bool a) (bool b) = if a then b else not b
strict_equals (num a) (num b) = eqb a b
strict_equals (str a) (str b) = a == b
strict_equals _ _ = false

-- `v === undefined || v === null`
abbrev pub is_nullish : Value → Bool
is_nullish undefined = true
is_nullish null = true
is_nullish _ = false

abbrev pub is_number : ℕ → Value → Bool
is_number n (num m) = eqb m n
is_number n _ = false

-- A method of a text is called, which throws on any other value.
abbrev pub text_or_throw : Value → Attempt String
text_or_throw (str s) = some s
text_or_throw _ = none

-- `isApprovalLinkageNonEmptyString(value) ? value : ""`
abbrev pub text_or_empty : Value → String
text_or_empty (str s) = s
text_or_empty _ = ""

abbrev pub iso_string : Value → Option String
iso_string (str s) = if is_iso_utc_timestamp s then some s else none
iso_string _ = none

-- A collection of the context, if it is an array of texts, and whether it includes an id.
abbrev pub is_string_array : Value → Bool
is_string_array v = elim (snapshot_string_array_or_null v) [ none ↦ false | some ids ↦ true ]

abbrev pub in_collection : Value → String → Bool
in_collection v id = elim (snapshot_string_array_or_null v) [
  | none ↦ false
  | some ids ↦ includes ids id
]

-- `minIso`
unfoldable pub min_iso : String → String → String
min_iso a b = elim (compare_approval_linkage_iso_utc a b) [ Ordering.gt ↦ b | _ ↦ a ]

-- The fields of an identity that are read.
pub record IdentityReading : Type 0 where
  pub snapshot : Fields
  pub user_id : String
  pub source_record_id : String
  pub identity_source : String
  pub actor_kind : String
  pub tenant_id : String

abbrev pub read_identity_fields : Fields → Option IdentityReading
read_identity_fields fs = do
  user_id ← non_empty_string (property "user_id" fs)
  source_record_id ← non_empty_string (property "source_record_id" fs)
  identity_source ← non_empty_string (property "identity_source" fs)
  actor_kind ← non_empty_string (property "actor_kind" fs)
  tenant_id ← non_empty_string (property "tenant_id" fs)
  some (record {
    snapshot = fs;
    user_id = user_id;
    source_record_id = source_record_id;
    identity_source = identity_source;
    actor_kind = actor_kind;
    tenant_id = tenant_id;
  })

-- `snapshotIdentity`
unfoldable pub snapshot_identity : Value → Option IdentityReading
snapshot_identity v = do
  fs ← snapshot_or_null v
  elim (validate_canonical_identity (obj fs)) [ [] ↦ read_identity_fields fs | _ ∷ _ ↦ none ]

-- `snapshotHumanDecision` of this module: a record that cannot be read gives null, and only the copies
-- of the arrays can throw.
unfoldable pub snapshot_decision : Value → Attempt (Option Fields)
snapshot_decision v = elim (snapshot_or_null v) [
  | none ↦ some none
  | some hd ↦ do hd ← copy_arrays hd; some (some hd)
]

-- An action preview that is complete.
pub record PreviewReading : Type 0 where
  pub snapshot : Fields
  pub id : String
  pub tenant_id : String
  pub work_unit_id : String
  pub action_type : String
  pub created_at : String
  pub expires_at : String
  pub target : Fields
  pub payload : Fields

-- An approval record that is complete.
pub record ApprovalReading : Type 0 where
  pub snapshot : Fields
  pub id : String
  pub created_at : String
  pub approved_at : String
  pub expires_at : String

unfoldable pub read_approval : Fields → Option ApprovalReading
read_approval fs = do
  id ← non_empty_string (property "id" fs)
  created_at ← iso_string (property "createdAt" fs)
  approved_at ← iso_string (property "approvedAt" fs)
  expires_at ← iso_string (property "expiresAt" fs)
  some (record {
    snapshot = fs;
    id = id;
    created_at = created_at;
    approved_at = approved_at;
    expires_at = expires_at;
  })

-- Review evidence that is complete.
pub record ReviewReading : Type 0 where
  pub snapshot : Fields
  pub id : String
  pub first_attestation_id : String
  pub second_attestation_id : String
  pub completed_at : String
  pub expires_at : String

unfoldable pub read_review : Fields → Option ReviewReading
read_review fs = do
  id ← non_empty_string (property "review_evidence_id" fs)
  first ← non_empty_string (property "first_review_attestation_id" fs)
  second ← non_empty_string (property "second_review_attestation_id" fs)
  completed_at ← iso_string (property "review_completed_at" fs)
  expires_at ← iso_string (property "review_expires_at" fs)
  some (record {
    snapshot = fs;
    id = id;
    first_attestation_id = first;
    second_attestation_id = second;
    completed_at = completed_at;
    expires_at = expires_at;
  })

module _ (calls : Calls) where
  -- `parseJsonRecord`
  unfoldable pub parse_json_record : Value → Option Fields
  parse_json_record (str s) = elim (calls.parse_json s) [ some (obj fs) ↦ some fs | _ ↦ none ]
  parse_json_record _ = none

  unfoldable pub read_preview : Fields → Option PreviewReading
  read_preview fs = do
    id ← non_empty_string (property "id" fs)
    tenant_id ← non_empty_string (property "tenantId" fs)
    work_unit_id ← non_empty_string (property "workUnitId" fs)
    action_type ← non_empty_string (property "actionType" fs)
    created_at ← iso_string (property "createdAt" fs)
    expires_at ← iso_string (property "expiresAt" fs)
    target ← parse_json_record (property "targetPreview" fs)
    payload ← parse_json_record (property "payloadPreview" fs)
    some (record {
      snapshot = fs;
      id = id;
      tenant_id = tenant_id;
      work_unit_id = work_unit_id;
      action_type = action_type;
      created_at = created_at;
      expires_at = expires_at;
      target = target;
      payload = payload;
    })
