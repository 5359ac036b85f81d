-- ===== src/Linkage/Users.antt =====
-- The users behind the identities of a linkage
-- (app/lib/phase6/approvalLinkage/sourceEvaluation.ts).
use mathlib.Core.Path.{subst}
use mathlib.Core.Option.{some-injective}
use atra_workunit_os.Prelude.{
  ◌≡◌, refl, ap, sym, ◌∙◌, String, Option, none, some, arith, inl, inr, >>=-eq-some,
}
use atra_workunit_os.Js.{Value, undefined, null, revoked, bool, num, str, arr, obj, Fields}
use atra_workunit_os.Authorization.Snapshot.{
  property, copy_fields, snapshot_record_or_null, non_empty_string,
}
use atra_workunit_os.Identity.Positions.{snapshot_or_null}
use atra_workunit_os.Identity.Validation.{validate_canonical_identity}
use atra_workunit_os.Linkage.Record.Valid.{snapshot_or_null-again}
use atra_workunit_os.Linkage.Verified.{List-cases}
use atra_workunit_os.Linkage.Sources.{IdentityReading, read_identity_fields, snapshot_identity}
use atra_workunit_os.Linkage.Chain.{Identities, read_identities, independence_fields}

non_empty_string-str : (v : Value) (s : String) → non_empty_string v ≡ some s → v ≡ str s
non_empty_string-str (str t) s h = ground (arith, h)
non_empty_string-str undefined s h = cc
non_empty_string-str null s h = cc
non_empty_string-str revoked s h = cc
non_empty_string-str (bool b) s h = cc
non_empty_string-str (num n) s h = cc
non_empty_string-str (arr xs) s h = cc
non_empty_string-str (obj fs) s h = cc

read_identity_fields-user :
    (fs : Fields) (x : IdentityReading)
    → read_identity_fields fs ≡ some x
    → (x.snapshot ≡ fs) × (property "user_id" fs ≡ str x.user_id)
read_identity_fields-user fs x h =
    let (user, found, h) = >>=-eq-some (non_empty_string (property "user_id" fs)) _ h in
    let (_, _, h) = >>=-eq-some (non_empty_string (property "source_record_id" fs)) _ h in
    let (_, _, h) = >>=-eq-some (non_empty_string (property "identity_source" fs)) _ h in
    let (_, _, h) = >>=-eq-some (non_empty_string (property "actor_kind" fs)) _ h in
    let (_, _, h) = >>=-eq-some (non_empty_string (property "tenant_id" fs)) _ h in
    let same = some-injective _ _ h in
    (
      sym (ap (λ y. y.snapshot) same),
      non_empty_string-str (property "user_id" fs) user found ∙ ap (λ y. str (y.user_id)) same,
    )

-- An identity that is read is its own snapshot, and names its user.
snapshot_identity-user :
    (v : Value) (x : IdentityReading)
    → snapshot_identity v ≡ some x
    → (snapshot_or_null (obj x.snapshot) ≡ some x.snapshot)
      × (property "user_id" x.snapshot ≡ str x.user_id)
unfolding snapshot_identity
snapshot_identity-user v x h =
    let (fs, read, h) = >>=-eq-some (snapshot_or_null v) _ h in
    let again = snapshot_or_null-again v fs read in
    elim (List-cases (validate_canonical_identity (obj fs))) [
      | inr (issue, issues, bad) ↦ absurd (ground (arith, h, bad))
      | inl valid ↦
          let (same, user) = read_identity_fields-user fs x (ground (arith, h, valid)) in
          (
            subst (λ g. snapshot_or_null (obj g) ≡ some g) (sym same) again,
            ap (λ g. property "user_id" g) same ∙ user,
          )
    ]

-- The five identities are read from the five positions.
pub record AreReadFrom (top : Fields) (ids : Identities) : Type 0 where
  pub requester : snapshot_identity (property "requester_identity" top) ≡ some ids.requester
  pub creator : snapshot_identity (property "creator_identity" top) ≡ some ids.creator
  pub first : snapshot_identity (property "first_reviewer_identity" top) ≡ some ids.first_reviewer
  pub second :
      snapshot_identity (property "second_reviewer_identity" top) ≡ some ids.second_reviewer
  pub approver : snapshot_identity (property "approver_identity" top) ≡ some ids.approver

pub read_identities-AreReadFrom :
    (top : Fields) (ids : Identities) → read_identities top ≡ some ids → AreReadFrom top ids
unfolding read_identities
read_identities-AreReadFrom top ids h =
    let (r, er, h) = >>=-eq-some (snapshot_identity (property "requester_identity" top)) _ h in
    let (c, ec, h) = >>=-eq-some (snapshot_identity (property "creator_identity" top)) _ h in
    let (f, ef, h) = >>=-eq-some (snapshot_identity (property "first_reviewer_identity" top)) _ h in
    let (s, es, h) =
      >>=-eq-some (snapshot_identity (property "second_reviewer_identity" top)) _ h in
    let (a, ea, h) = >>=-eq-some (snapshot_identity (property "approver_identity" top)) _ h in
    let same = some-injective _ _ h in
    record {
      requester = er ∙ ap (λ i. some i.requester) same;
      creator = ec ∙ ap (λ i. some i.creator) same;
      first = ef ∙ ap (λ i. some i.first_reviewer) same;
      second = es ∙ ap (λ i. some i.second_reviewer) same;
      approver = ea ∙ ap (λ i. some i.approver) same;
    }

-- The input of the independence verifier is its own snapshot.
pub independence_fields-again :
    (hd re top : Fields) (ids : Identities) (executor : Option IdentityReading)
    → snapshot_or_null (obj (independence_fields hd re top ids executor))
      ≡ some (independence_fields hd re top ids executor)
unfolding independence_fields snapshot_or_null snapshot_record_or_null copy_fields
independence_fields-again hd re top ids none = refl
independence_fields-again hd re top ids (some executor) = refl

-- The user that the independence verifier has read is that of the identity.
pub snapshot_identity-same_user :
    (v : Value) (x : IdentityReading) (fs : Fields) (user : String)
    → snapshot_identity v ≡ some x
    → snapshot_or_null (obj x.snapshot) ≡ some fs
    → property "user_id" fs ≡ str user
    → user ≡ x.user_id
snapshot_identity-same_user v x fs user found read named =
    let (again, own) = snapshot_identity-user v x found in
    let same : x.snapshot ≡ fs = some-injective _ _ (sym again ∙ read) in
    let texts : str user ≡ str x.user_id =
      sym named ∙ ap (λ g. property "user_id" g) (sym same) ∙ own in
    ground (arith, texts)
