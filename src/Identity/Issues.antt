-- ===== src/Identity/Issues.antt =====
-- Issues of identities (app/lib/phase6/canonicalIdentity/validation.ts), and the reads that collect
-- them. An issue's message is its code and its field, so it is left out.
use atra_workunit_os.Prelude.{
  ◌≡◌, refl, String, Bool, true, false, List, [], ◌∷◌, arith, ◌==◌, ◌||◌, not,
}
use Prim.Native.String.{◌++◌ as ◌+++◌}
use atra_workunit_os.Js.{
  Value, undefined, null, revoked, bool, num, str, arr, obj, Fields, end, field, throws, symbol,
  read_own, absent, unreadable, value, includes,
}
use atra_workunit_os.Time.{is_iso_utc_timestamp}

-- `CanonicalIdentityIssueCode`
pub data IssueCode : Type 0 where
  invalid_identity_input identity_state_missing identity_source_untrusted : IssueCode
  identity_session_expired identity_tenant_mismatch identity_actor_kind_mismatch : IssueCode
  identity_subject_unsupported identity_evidence_mismatch duplicate_reviewer_identity : IssueCode
  self_approval_forbidden delegation_not_supported identity_validation_exception : IssueCode

-- `CanonicalIdentityIssue`
pub record Issue : Type 0 where
  pub code : IssueCode
  pub place : String

abbrev pub canonical_identity_issue : IssueCode → String → Issue
canonical_identity_issue code place = record { code = code; place = place }

-- `if (!test) issues.push(…)`, in front of the issues of what follows.
abbrev pub require : Bool → IssueCode → String → List Issue → List Issue
require true code place rest = rest
require false code place rest = canonical_identity_issue code place ∷ rest

abbrev pub require_not : Bool → IssueCode → String → List Issue → List Issue
require_not true code place rest = canonical_identity_issue code place ∷ rest
require_not false code place rest = rest

-- `isCanonicalIdentityNonEmptyString`
unfoldable pub is_non_empty : Value → Bool
is_non_empty (str s) = not (s == "")
is_non_empty _ = false

-- `isIsoUtcTimestamp` on any value.
unfoldable pub is_iso : Value → Bool
is_iso (str s) = is_iso_utc_timestamp s
is_iso _ = false

-- A text that the list includes.
unfoldable pub is_one_of : List String → Value → Bool
is_one_of names (str s) = includes names s
is_one_of names _ = false

-- `Object.prototype.hasOwnProperty.call(snapshot, key)`
unfoldable pub has_own : String → Fields → Bool
has_own k fs = elim (read_own k fs) [ absent ↦ false | unreadable ↦ true | value v ↦ true ]

abbrev pub delegation_marker_fields : List String
delegation_marker_fields =
    "delegated_for_user_id" ∷ "delegatedForUserId" ∷ "delegation_evidence_id" ∷ "on_behalf_of" ∷ []

abbrev pub service_account_marker_fields : List String
service_account_marker_fields =
    "is_service_account" ∷ "isServiceAccount" ∷ "service_account_id" ∷ "serviceAccountId" ∷ []

unfoldable pub is_marker : String → Bool
is_marker k = includes delegation_marker_fields k || includes service_account_marker_fields k

-- One loop of `collectUnsupportedIdentityMarkerIssues`.
unfoldable pub marker_issues : List String → IssueCode → String → Fields → List Issue → List Issue
unfolding has_own
marker_issues [] code prefix fs rest = rest
marker_issues (marker ∷ markers) code prefix fs rest =
    require_not (has_own marker fs) code (prefix +++ "." +++ marker)
      (marker_issues markers code prefix fs rest)

-- `collectUnsupportedIdentityMarkerIssues`, in front of the issues of what follows.
unfoldable pub collect_unsupported_identity_marker_issues :
    Fields → String → List Issue → List Issue
unfolding marker_issues
collect_unsupported_identity_marker_issues fs prefix rest =
    marker_issues delegation_marker_fields delegation_not_supported prefix fs
      (marker_issues service_account_marker_fields identity_subject_unsupported prefix fs rest)

-- An issue for each own key that fails the test.
unfoldable pub unknown_issues : (String → Bool) → String → Fields → List Issue → List Issue
unknown_issues known prefix end rest = rest
unknown_issues known prefix (field k v fs) rest =
    require (known k) invalid_identity_input (prefix +++ "." +++ k)
      (unknown_issues known prefix fs rest)
unknown_issues known prefix (throws k fs) rest =
    require (known k) invalid_identity_input (prefix +++ "." +++ k)
      (unknown_issues known prefix fs rest)
unknown_issues known prefix (symbol fs) rest = unknown_issues known prefix fs rest

-- What the tests say of a value.
pub is_non_empty-str :
    (v : Value) → is_non_empty v ≡ true → (s : String) × (v ≡ str s) × ((s == "") ≡ false)
unfolding is_non_empty
is_non_empty-str (str s) h = (s, refl, ground (arith, h))
is_non_empty-str undefined h = cc
is_non_empty-str null h = cc
is_non_empty-str revoked h = cc
is_non_empty-str (bool b) h = cc
is_non_empty-str (num n) h = cc
is_non_empty-str (arr xs) h = cc
is_non_empty-str (obj fs) h = cc

pub is_iso-str :
    (v : Value) → is_iso v ≡ true → (s : String) × (v ≡ str s) × (is_iso_utc_timestamp s ≡ true)
unfolding is_iso
is_iso-str (str s) h = (s, refl, h)
is_iso-str undefined h = cc
is_iso-str null h = cc
is_iso-str revoked h = cc
is_iso-str (bool b) h = cc
is_iso-str (num n) h = cc
is_iso-str (arr xs) h = cc
is_iso-str (obj fs) h = cc

pub is_one_of-str :
    (names : List String) (v : Value)
    → is_one_of names v ≡ true
    → (s : String) × (v ≡ str s) × (includes names s ≡ true)
unfolding is_one_of
is_one_of-str names (str s) h = (s, refl, h)
is_one_of-str names undefined h = cc
is_one_of-str names null h = cc
is_one_of-str names revoked h = cc
is_one_of-str names (bool b) h = cc
is_one_of-str names (num n) h = cc
is_one_of-str names (arr xs) h = cc
is_one_of-str names (obj fs) h = cc
