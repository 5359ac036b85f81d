-- ===== src/Authorization/Gate/Executor.antt =====
-- The executor of a receipt: the gate of app/lib/security/runtimeAuthorizationGate.ts with the
-- constructor and the validator of identities of app/lib/phase6/canonicalIdentity.
use atra_workunit_os.Prelude.{
  ◌≡◌, refl, ◌∙◌, sym, ap, ◌⊎◌, inl, inr, String, Bool, false, Option, none, some, List, arith,
  ◌==◌,
}
use mathlib.Core.Path.{subst}
use atra_workunit_os.Js.{Value, str, bool, obj, Fields, field, end, read_own}
use atra_workunit_os.Rbac.{Role, owner, manager, editor, viewer, Session}
use atra_workunit_os.Time.Profile.{is_not_before}
use atra_workunit_os.Identity.Issues.{Issue}
use atra_workunit_os.Identity.Constructors.{
  Construction, refused, created, candidate, create_canonical_session_identity,
}
use atra_workunit_os.Identity.Sources.{IsSource}
use atra_workunit_os.Identity.Sessions.{create_canonical_session_identity_iff}
use atra_workunit_os.Authorization.Snapshot.{copy_fields, snapshot_record_or_null, property}

-- `session.role`
unfoldable pub role_name : Role → String
role_name owner = "owner"
role_name manager = "manager"
role_name editor = "editor"
role_name viewer = "viewer"

-- `snapshotSession`, of a session of the declared type.
unfoldable pub snapshot_session : Session → Fields
snapshot_session session = field "userId" (str session.user_id) (
    field "tenantId" (str session.tenant_id) (
      field "role" (str (role_name session.role)) (
        field "email" (str session.email) (
          field "isDevSession" (bool session.is_dev_session) (
            field "sessionId" (str session.session_id) (
              field "createdAt" (str session.created_at)
                (field "expiresAt" (str session.expires_at) end)))))))

-- The input that the gate hands to the constructor.
unfoldable pub executor_input : String → String → Fields
executor_input tenant now =
    field "actor_kind" (str "executor")
      (field "expected_tenant_id" (str tenant) (field "observed_at" (str now) end))

-- The executor's identity at the time of the claim, if there is one.
unfoldable pub executor_identity : Session → String → String → Option Value
executor_identity session tenant now =
    elim (create_canonical_session_identity (obj (snapshot_session session))
      (obj (executor_input tenant now))) [ refused issues ↦ none | created fs ↦ some (obj fs) ]

-- The session of an executor.
pub record IsExecutor (session : Session) (tenant now : String) (fs : Fields) : Type 0 where
  pub same_tenant : session.tenant_id ≡ tenant
  pub genuine : session.is_dev_session ≡ false
  pub named : (session.user_id == "") ≡ false
  pub unexpired : is_not_before now session.expires_at ≡ false
  pub identity :
      fs
      ≡ candidate
          (str session.tenant_id)
          (str session.user_id)
          (str "executor")
          "authenticated_session"
          (str session.session_id)
          (str now)

str-injective : {a b : String} → str a ≡ str b → a ≡ b
str-injective h = ground (arith, h)

bool-injective : {a b : Bool} → bool a ≡ bool b → a ≡ b
bool-injective h = ground (arith, h)

Construction-cases :
    (c : Construction)
    → ((issues : List Issue) × (c ≡ refused issues)) ⊎ ((fs : Fields) × (c ≡ created fs))
Construction-cases (refused issues) = inl (issues, refl)
Construction-cases (created fs) = inr (fs, refl)

pub some-some-injective : {a b : Fields} → some (some a) ≡ some (some b) → a ≡ b
some-some-injective h = ground (arith, h)

-- A source that is a session of the declared type.
IsSource-IsExecutor :
    (session : Session) (tenant now : String) (fs : Fields)
    → IsSource (snapshot_session session) (executor_input tenant now) fs
    → IsExecutor session tenant now fs
unfolding snapshot_session executor_input property read_own
IsSource-IsExecutor session tenant now fs v =
    let same_tenant : session.tenant_id ≡ v.tenant_id = str-injective v.has_tenant in
    let same_user : session.user_id ≡ v.user_id = str-injective v.has_user in
    let same_session : session.session_id ≡ v.session_id = str-injective v.has_session in
    let same_kind : str "executor" ≡ str v.actor_kind = v.has_kind in
    let expected : tenant ≡ v.tenant_id = str-injective v.same_tenant in
    let same_time : now ≡ v.observed_at = str-injective v.has_time in
    let same_expiry : session.expires_at ≡ v.expires_at = str-injective v.has_expiry in
    record {
      same_tenant = same_tenant ∙ sym expected;
      genuine = bool-injective v.real_user;
      named = ap (λ t. t == "") same_user ∙ v.user_given;
      unexpired =
          ap (λ t. is_not_before t session.expires_at) same_time
          ∙ ap (λ t. is_not_before v.observed_at t) same_expiry
          ∙ v.unexpired;
      identity = v.result ∙ λ i.
          candidate (str (sym same_tenant i)) (str (sym same_user i)) (sym same_kind i)
            "authenticated_session" (str (sym same_session i)) (str (sym same_time i));
    }

pub executor_identity-IsExecutor :
    (session : Session) (tenant now : String) (executor : Value)
    → executor_identity session tenant now ≡ some executor
    → (fs : Fields) × (executor ≡ obj fs) × IsExecutor session tenant now fs
unfolding executor_identity snapshot_session executor_input property read_own copy_fields
    snapshot_record_or_null
executor_identity-IsExecutor session tenant now executor h =
    elim (Construction-cases (
      create_canonical_session_identity (obj (snapshot_session session))
        (obj (executor_input tenant now)))) [
          | inl (issues, e) ↦ absurd (ground (arith, h, e))
          | inr (fs, e) ↦
              let d =
                (create_canonical_session_identity_iff (obj (snapshot_session session))
                    (obj (executor_input tenant now)) fs).0
                  e in
              let same_session : snapshot_session session ≡ d.session =
                some-some-injective d.read_session in
              let same_input : executor_input tenant now ≡ d.input =
                some-some-injective d.read_input in
              (
                fs,
                ground (arith, h, e),
                IsSource-IsExecutor session tenant now fs (
                    subst (λ x. IsSource x (executor_input tenant now) fs) (sym same_session)
                      (subst (λ x. IsSource d.session x fs) (sym same_input) d.source)),
              )
        ]
