-- ===== src/Identity/Independence/Bindings.antt =====
-- What stages C and D of the independence verifier have checked
-- (app/lib/phase6/identityIndependence/verifier.ts).
use atra_workunit_os.Prelude.{
  ◌≡◌, refl, sym, ap, ◌≢◌, String, true, false, Option, none, some, List, [], arith, eq_iff, not,
}
use mathlib.Core.Path.{subst}
use mathlib.Core.Option.{some-injective}
use atra_workunit_os.Js.{Value, undefined, null, revoked, bool, num, str, arr, obj, Fields}
use atra_workunit_os.Authorization.Snapshot.{property, is_text}
use atra_workunit_os.Identity.Issues.{Issue}
use atra_workunit_os.Identity.Validation.{same_text, is_same_canonical_user}
use atra_workunit_os.Identity.Independence.{
  is_same, provenance_issues, is_other, binding_issues, separation_issues,
}
use atra_workunit_os.Identity.Positions.{
  Position, requester_position, creator_position, first_reviewer_position, second_reviewer_position,
  approver_position, identity_at,
}

pub is_text-str : (v : Value) (s : String) → is_text v s ≡ true → v ≡ str s
is_text-str (str t) s h = ap (λ x. str x) ((eq_iff t s).0 h)
is_text-str undefined s h = cc
is_text-str null s h = cc
is_text-str revoked s h = cc
is_text-str (bool b) s h = cc
is_text-str (num n) s h = cc
is_text-str (arr xs) s h = cc
is_text-str (obj fs) s h = cc

pub is_same-str : (a b : Value) {s : String} → b ≡ str s → is_same a b ≡ true → a ≡ str s
unfolding is_same
is_same-str a b {s} e h = let here : is_text a s ≡ true = rw (e) at h in is_text-str a s here

-- What the loop of stage C has checked of an identity.
pub record IsProven (position : Position) (identity : Fields) (tenant : Value) : Type 0 where
  pub kind : property "actor_kind" identity ≡ str position.actor_kind
  pub source : property "identity_source" identity ≡ str position.source
  pub same_tenant : is_same (property "tenant_id" identity) tenant ≡ true

pub provenance_issues-IsProven :
    (position : Position) (identity : Fields) (o : Option Fields) (tenant : Value)
    (rest : List Issue)
    → o ≡ some identity
    → provenance_issues position o tenant rest ≡ []
    → IsProven position identity tenant × (rest ≡ [])
unfolding provenance_issues
provenance_issues-IsProven position identity none tenant rest e h = absurd (ground (arith, e))
provenance_issues-IsProven position identity (some found) tenant rest e h =
    subst (λ x. IsProven position x tenant × (rest ≡ [])) (some-injective _ _ e)
      (
        record {
          kind = is_text-str _ position.actor_kind (ground (arith, h));
          source = is_text-str _ position.source (ground (arith, h));
          same_tenant = ground (arith, h);
        },
        ground (arith, h),
      )

pub provenance_issues-rest :
    (position : Position) (o : Option Fields) (tenant : Value) (rest : List Issue)
    → provenance_issues position o tenant rest ≡ []
    → rest ≡ []
unfolding provenance_issues
provenance_issues-rest position none tenant rest h = h
provenance_issues-rest position (some found) tenant rest h = ground (arith, h)

-- What the rest of stage C has checked.
pub record IsJoined (snapshot decision evidence : Fields) : Type 0 where
  pub decision_tenant :
      is_same (property "tenant_id" decision) (property "expected_tenant_id" snapshot) ≡ true
  pub decision_id :
      is_same
        (property "human_decision_id" decision)
        (property "expected_human_decision_id" snapshot)
      ≡ true
  pub evidence_tenant :
      is_same (property "tenant_id" evidence) (property "expected_tenant_id" snapshot) ≡ true
  pub evidence_decision :
      is_same
        (property "source_human_decision_id" evidence)
        (property "expected_human_decision_id" snapshot)
      ≡ true
  pub evidence_workunit :
      is_same (property "source_workunit_id" evidence) (property "expected_workunit_id" snapshot)
      ≡ true
  pub creator_preview :
      is_other
        (identity_at snapshot creator_position)
        "source_record_id"
        (property "expected_action_preview_id" snapshot)
      ≡ false
  pub first_named :
      is_other
        (identity_at snapshot first_reviewer_position)
        "user_id"
        (property "first_reviewer_id" evidence)
      ≡ false
  pub second_named :
      is_other
        (identity_at snapshot second_reviewer_position)
        "user_id"
        (property "second_reviewer_id" evidence)
      ≡ false

pub binding_issues-IsJoined :
    (snapshot decision evidence : Fields) (rest : List Issue)
    → binding_issues snapshot decision evidence rest ≡ []
    → IsJoined snapshot decision evidence × (rest ≡ [])
unfolding binding_issues
binding_issues-IsJoined snapshot decision evidence rest h = (
  record {
    decision_tenant = ground (arith, h);
    decision_id = ground (arith, h);
    evidence_tenant = ground (arith, h);
    evidence_decision = ground (arith, h);
    evidence_workunit = ground (arith, h);
    creator_preview = ground (arith, h);
    first_named = ground (arith, h);
    second_named = ground (arith, h);
  },
  ground (arith, h),
)

pub is_other-eq :
    (o : Option Fields) (key : String) (v : Value) (identity : Fields) {s : String}
    → o ≡ some identity
    → property key identity ≡ str s
    → is_other o key v ≡ false
    → v ≡ str s
unfolding is_other
is_other-eq o key v identity {s} e p h =
    let here : not (is_same v (property key identity)) ≡ false = rw (e) at h in
    is_same-str v (property key identity) p (ground (arith, here))

-- What stage D has checked.
pub record IsSeparated (requester approver first second creator : Fields) : Type 0 where
  pub reviewers : is_same_canonical_user first second ≡ false
  pub from_requester : is_same_canonical_user requester approver ≡ false
  pub from_creator : is_same_canonical_user creator approver ≡ false
  pub from_first : is_same_canonical_user first approver ≡ false
  pub from_second : is_same_canonical_user second approver ≡ false

pub separation_issues-IsSeparated :
    (snapshot requester approver first second creator : Fields)
    → identity_at snapshot requester_position ≡ some requester
    → identity_at snapshot approver_position ≡ some approver
    → identity_at snapshot first_reviewer_position ≡ some first
    → identity_at snapshot second_reviewer_position ≡ some second
    → identity_at snapshot creator_position ≡ some creator
    → separation_issues snapshot ≡ some []
    → IsSeparated requester approver first second creator
unfolding separation_issues
separation_issues-IsSeparated snapshot requester approver first second creator r a f s c h =
    let here = rw (separation_issues, r, a, f, s, c) at h in
    record {
      reviewers = ground (arith, here);
      from_requester = ground (arith, here);
      from_creator = ground (arith, here);
      from_first = ground (arith, here);
      from_second = ground (arith, here);
    }

-- Two identities of one tenant that are not the same user have different users.
pub is_same_canonical_user-user :
    (a b : Fields) {tenant s t : String}
    → property "tenant_id" a ≡ str tenant
    → property "tenant_id" b ≡ str tenant
    → property "user_id" a ≡ str s
    → property "user_id" b ≡ str t
    → is_same_canonical_user a b ≡ false
    → s ≢ t
unfolding is_same_canonical_user same_text
is_same_canonical_user-user a b {tenant} {s} {t} ta tb ua ub h e =
    let here = rw (is_same_canonical_user, ta, tb, ua, ub, (eq_iff tenant tenant).1 refl) at h in
    absurd (ground (arith, here, (eq_iff t s).1 (sym e)))
