-- ===== src/Identity/Positions.antt =====
-- The positions of the independence verifier, and what it reads at each
-- (app/lib/phase6/identityIndependence/verifier.ts and validation.ts).
use Prim.Native.Char.{code}
use Prim.Native.String.{◌++◌ as ◌+++◌}
use atra_workunit_os.Prelude.{
  String, Bool, true, false, Option, none, some, List, [], ◌∷◌, ◌++◌, eqb, if◌then◌else◌,
}
use atra_workunit_os.Js.{Value, undefined, null, revoked, bool, num, str, arr, obj, Fields}
use atra_workunit_os.Authorization.Snapshot.{snapshot_record_or_null, property}
use atra_workunit_os.Identity.Issues.{
  invalid_identity_input, identity_state_missing, Issue, canonical_identity_issue,
}
use atra_workunit_os.Identity.Validation.{validate_canonical_identity}

-- `IdentityPosition`
pub record Position : Type 0 where
  pub key : String
  pub actor_kind : String
  pub source : String
  pub required : Bool

-- The rows of `IDENTITY_POSITIONS`.
abbrev pub requester_position : Position
requester_position = record {
  key = "requester_identity";
  actor_kind = "requester";
  source = "authenticated_session";
  required = true;
}

abbrev pub creator_position : Position
creator_position = record {
  key = "creator_identity";
  actor_kind = "creator";
  source = "stored_action_preview_creator";
  required = true;
}

abbrev pub first_reviewer_position : Position
first_reviewer_position = record {
  key = "first_reviewer_identity";
  actor_kind = "reviewer";
  source = "authenticated_session";
  required = true;
}

abbrev pub second_reviewer_position : Position
second_reviewer_position = record {
  key = "second_reviewer_identity";
  actor_kind = "reviewer";
  source = "authenticated_session";
  required = true;
}

abbrev pub approver_position : Position
approver_position = record {
  key = "approver_identity";
  actor_kind = "approver";
  source = "authenticated_session";
  required = true;
}

abbrev pub executor_position : Position
executor_position = record {
  key = "executor_identity";
  actor_kind = "executor";
  source = "authenticated_session";
  required = false;
}

abbrev pub identity_positions : List Position
identity_positions =
    requester_position ∷ creator_position ∷ first_reviewer_position ∷ second_reviewer_position
    ∷ approver_position ∷ executor_position ∷ []

-- `snapshotRecordOrNull` of this module: a read that throws gives null too.
unfoldable pub snapshot_or_null : Value → Option Fields
snapshot_or_null v = elim (snapshot_record_or_null v) [ none ↦ none | some found ↦ found ]

-- What follows a prefix, if the text starts with it.
unfoldable pub after_prefix : String → String → Option String
after_prefix String.[] text = some text
after_prefix (String.◌∷◌ c prefix) String.[] = none
after_prefix (String.◌∷◌ c prefix) (String.◌∷◌ d text) =
    if eqb (code c) (code d) then after_prefix prefix text else none

-- `rescopeIssueField`
unfoldable pub rescope_issue_field : String → Issue → Issue
unfolding after_prefix
rescope_issue_field position issue = elim (after_prefix "(identity)" issue.place) [
  | none ↦ canonical_identity_issue issue.code (position +++ "." +++ issue.place)
  | some rest ↦ canonical_identity_issue issue.code (position +++ rest)
]

abbrev pub rescope_all : String → List Issue → List Issue
rescope_all position [] = []
rescope_all position (issue ∷ issues) =
    rescope_issue_field position issue ∷ rescope_all position issues

-- `value === undefined`
abbrev pub is_undefined : Value → Bool
is_undefined undefined = true
is_undefined null = false
is_undefined revoked = false
is_undefined (bool b) = false
is_undefined (num n) = false
is_undefined (str s) = false
is_undefined (arr xs) = false
is_undefined (obj fs) = false

-- `(${position.key})`, with what follows it.
abbrev pub at_position : Position → String → String
at_position position rest = "(" +++ position.key +++ ")" +++ rest

-- The snapshot of an identity, kept only if it is valid.
unfoldable pub keep_identity : Position → Fields → List Issue × Option Fields
keep_identity position fs = elim (validate_canonical_identity (obj fs)) [
  | [] ↦ ([], some fs)
  | issue ∷ issues ↦ (rescope_all (at_position position "") (issue ∷ issues), none)
]

-- One round of the loop of stage B: the issues, and the identity that is stored.
unfoldable pub read_identity : Position → Value → List Issue × Option Fields
unfolding keep_identity
read_identity position v =
    if is_undefined v
    then (
      (if position.required
          then canonical_identity_issue identity_state_missing (at_position position "") ∷ []
          else []),
      none,
    )
    else elim (snapshot_or_null v) [
      | none ↦
          (canonical_identity_issue invalid_identity_input (at_position position "") ∷ [], none)
      | some fs ↦ keep_identity position fs
    ]

unfoldable pub identity_at : Fields → Position → Option Fields
unfolding read_identity
identity_at snapshot position = (read_identity position (property position.key snapshot)).1

unfoldable pub read_issues : Fields → List Position → List Issue
unfolding read_identity
read_issues snapshot [] = []
read_issues snapshot (position ∷ positions) =
    (read_identity position (property position.key snapshot)).0 ++ read_issues snapshot positions
