-- ===== src/Linkage.antt =====
-- The approval chain linkage (app/lib/phase6/approvalLinkage): issues, and the primitive tests of
-- validation.ts. An issue's message is its code and its field, so it is left out.
pub mod Record
pub mod Payload
pub mod Sources
pub mod Chain
pub mod Evaluation
pub mod Clean
pub mod Sound
pub mod Reviewed
pub mod Consistent
pub mod Verifier
pub mod Verified
pub mod Constructor
pub mod Users
pub mod Trusted
pub mod RoundTrip
pub mod Example
pub mod Tests
use Prim.Native.Char.{code}
use Prim.Native.Nat.{Ordering}
use atra_workunit_os.Prelude.{
  ℕ, zero, suc, ◌≡◌, refl, String, Bool, true, false, Option, none, some, List, [], ◌∷◌, arith, leb,
  ◌==◌, ◌||◌, ◌&&◌, not, eqb, length, codes, ◌>>=◌,
}
use atra_workunit_os.Js.{
  Value, str, bool, num, arr, obj, undefined, null, revoked, Items, cons, nil,
}
use atra_workunit_os.Time.Profile.{compare_canonical_iso_utc}

-- `ApprovalLinkageIssueCode`
pub data IssueCode : Type 0 where
  invalid_approval_linkage_input state_missing tenant_mismatch workunit_mismatch : IssueCode
  human_decision_mismatch review_evidence_mismatch identity_mismatch : IssueCode
  action_preview_mismatch approval_record_mismatch action_type_mismatch : IssueCode
  target_hash_mismatch payload_hash_mismatch review_envelope_mismatch : IssueCode
  approver_mismatch hash_mismatch stale expired revoked_state used replayed : IssueCode
  validation_exception : IssueCode

-- `ApprovalLinkageIssue`
pub record Issue : Type 0 where
  pub code : IssueCode
  pub place : String

abbrev pub approval_linkage_issue : IssueCode → String → Issue
approval_linkage_issue code place = record { code = code; place = place }

-- A test with the issue that is pushed where it fails.
pub record Check : Type 0 where
  pub test : Bool
  pub issue : Issue

abbrev pub check : Bool → IssueCode → String → Check
check test code place = record { test = test; issue = approval_linkage_issue code place }

-- `[0-9a-f]`
abbrev pub is_hex_digit : ℕ → Bool
is_hex_digit c = (leb b'0' c && leb c b'9') || (leb b'a' c && leb c b'f')

abbrev pub all_hex : List ℕ → Bool
all_hex [] = true
all_hex (c ∷ cs) = is_hex_digit c && all_hex cs

-- `SHA256_HEX.test(text)`
unfoldable pub is_sha256_hex : String → Bool
is_sha256_hex s = eqb (length (codes s)) 64 && all_hex (codes s)

-- `isApprovalLinkageHex64`
unfoldable pub is_hex64 : Value → Bool
unfolding is_sha256_hex
is_hex64 (str s) = is_sha256_hex s
is_hex64 _ = false

-- The entries of an array that are all texts.
unfoldable pub string_items : Items → Option (List String)
string_items nil = some []
string_items (cons (str s) items) = do rest ← string_items items; some (s ∷ rest)
string_items (cons _ items) = none

-- `snapshotStringArrayOrNull`
unfoldable pub snapshot_string_array_or_null : Value → Option (List String)
unfolding string_items
snapshot_string_array_or_null (arr items) = string_items items
snapshot_string_array_or_null _ = none

-- `compareApprovalLinkageIsoUtc`, word for word the comparison of the identities.
abbrev pub compare_approval_linkage_iso_utc : String → String → Ordering
compare_approval_linkage_iso_utc a b = compare_canonical_iso_utc a b
