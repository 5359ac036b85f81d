-- ===== src/Identity/Sources.antt =====
-- The sessions that give an identity (app/lib/phase6/canonicalIdentity/constructors.ts).
use atra_workunit_os.Prelude.{
  ◌≡◌, refl, ◌∙◌, sym, ap, ◌↔◌, String, true, false, List, [], arith, ◌==◌, eq_iff, Bool-cases, inl,
  inr,
}
use mathlib.Core.Path.{subst}
use atra_workunit_os.Js.{
  Value, undefined, null, revoked, bool, num, str, arr, obj, Fields, includes,
}
use atra_workunit_os.Time.{is_iso_utc_timestamp}
use atra_workunit_os.Time.Profile.{is_not_before}
use atra_workunit_os.Authorization.Snapshot.{property, only_keys, is_flag}
use atra_workunit_os.Identity.Issues.{
  Issue, is_non_empty, is_iso, is_one_of, is_non_empty-str, is_iso-str, is_one_of-str,
}
use atra_workunit_os.Identity.Markers.{
  IsUnmarked, collect_markers-IsUnmarked, HasNoMarker, only_keys-no_issues,
}
use atra_workunit_os.Identity.Validation.{canonical_actor_kinds}
use atra_workunit_os.Identity.Valid.{IsIdentity}
use atra_workunit_os.Identity.Constructors.{
  created, session_derivable_actor_kinds, session_input_fields, collect_input_field_issues,
  candidate, produce_canonical_identity, is_past, differs, expiry_issues, tenant_issues,
  session_input_issues, session_issues,
}
use atra_workunit_os.Identity.Candidates.{
  differs-eq, is_past-not_before, candidate-IsIdentity, produce_canonical_identity-candidate,
}

pub is_flag-false : (v : Value) → is_flag v false ≡ true → v ≡ bool false
is_flag-false (bool true) h = cc
is_flag-false (bool false) h = refl
is_flag-false (str s) h = cc
is_flag-false undefined h = cc
is_flag-false null h = cc
is_flag-false revoked h = cc
is_flag-false (num n) h = cc
is_flag-false (arr xs) h = cc
is_flag-false (obj fs) h = cc

pub session_fields-HasNoMarker : HasNoMarker session_input_fields
unfolding includes
session_fields-HasNoMarker = (refl, refl, refl, refl, refl, refl, refl, refl)

-- What a session must be, and say, to give the identity.
pub record IsSource (session input : Fields) (fs : Fields) : Type 0 where
  pub exact : only_keys session_input_fields input ≡ true
  pub unmarked : IsUnmarked session
  pub tenant_id : String
  pub user_id : String
  pub session_id : String
  pub actor_kind : String
  pub observed_at : String
  pub expires_at : String
  pub has_tenant : property "tenantId" session ≡ str tenant_id
  pub has_user : property "userId" session ≡ str user_id
  pub has_session : property "sessionId" session ≡ str session_id
  pub has_expiry : property "expiresAt" session ≡ str expires_at
  pub real_user : property "isDevSession" session ≡ bool false
  pub has_kind : property "actor_kind" input ≡ str actor_kind
  pub same_tenant : property "expected_tenant_id" input ≡ str tenant_id
  pub has_time : property "observed_at" input ≡ str observed_at
  pub known_kind : includes session_derivable_actor_kinds actor_kind ≡ true
  pub tenant_given : (tenant_id == "") ≡ false
  pub user_given : (user_id == "") ≡ false
  pub session_given : (session_id == "") ≡ false
  pub timely : is_iso_utc_timestamp observed_at ≡ true
  pub expiry_timely : is_iso_utc_timestamp expires_at ≡ true
  pub unexpired : is_not_before observed_at expires_at ≡ false
  pub result :
      fs
      ≡ candidate
          (str tenant_id)
          (str user_id)
          (str actor_kind)
          "authenticated_session"
          (str session_id)
          (str observed_at)

-- What passes the tests on the input.
pub record InputTests (input : Fields) : Type 0 where
  pub exact : only_keys session_input_fields input ≡ true
  pub kind : is_one_of session_derivable_actor_kinds (property "actor_kind" input) ≡ true
  pub expected : is_non_empty (property "expected_tenant_id" input) ≡ true
  pub time : is_iso (property "observed_at" input) ≡ true

pub session_input_issues-none :
    (input : Fields) (rest : List Issue)
    → (session_input_issues input rest ≡ []) ↔ (InputTests input × (rest ≡ []))
unfolding session_input_issues collect_input_field_issues
session_input_issues-none input rest =
    let loops =
      only_keys-no_issues session_input_fields "(input)" input _ session_fields-HasNoMarker in
    (
      λ h. let (o, r) = loops.0 h in ground (arith, o, r),
      λ (t, r). loops.1 (t.exact, rw (t.kind, t.expected, t.time) r),
    )

-- What passes the tests on the session.
pub record SessionTests (session input : Fields) : Type 0 where
  pub unmarked : IsUnmarked session
  pub user : is_non_empty (property "userId" session) ≡ true
  pub tenant : is_non_empty (property "tenantId" session) ≡ true
  pub session_id : is_non_empty (property "sessionId" session) ≡ true
  pub expiry : is_iso (property "expiresAt" session) ≡ true
  pub unexpired : is_past (property "observed_at" input) (property "expiresAt" session) ≡ false
  pub genuine : is_flag (property "isDevSession" session) false ≡ true
  pub same : differs (property "expected_tenant_id" input) (property "tenantId" session) ≡ false

pub session_issues-none :
    (session input : Fields)
    → InputTests input
    → (session_issues session input ≡ []) ↔ SessionTests session input
unfolding session_issues expiry_issues tenant_issues
session_issues-none session input i = (
  λ h.
      let (u, r) = (collect_markers-IsUnmarked session "(session)" _).0 h in
      record {
        unmarked = u;
        user = ground (arith, r);
        tenant = ground (arith, r);
        session_id = ground (arith, r);
        expiry = ground (arith, r);
        unexpired = ground (arith, r);
        genuine = ground (arith, r);
        same = ground (arith, r);
      },
  λ t. (collect_markers-IsUnmarked session "(session)" _).1 (
    t.unmarked,
    rw
        (
          t.user, t.tenant, t.session_id, t.expiry, i.time, t.unexpired, t.genuine, i.expected,
          t.same,
        )
        refl,
  ),
)

pub derivable-canonical :
    (k : String)
    → includes session_derivable_actor_kinds k ≡ true
    → (includes canonical_actor_kinds k ≡ true) × ((k == "creator") ≡ false)
unfolding includes
derivable-canonical k h = (
  ground (arith, h),
  elim (Bool-cases (k == "creator")) [
    | inl e ↦
        let not_creator : includes session_derivable_actor_kinds "creator" ≡ true =
          subst (λ x. includes session_derivable_actor_kinds x ≡ true) ((eq_iff k "creator").0 e)
            h in
        cc
    | inr e ↦ e
  ],
)

pub candidate-IsSource :
    (session input : Fields)
    → InputTests input
    → SessionTests session input
    → IsSource session input (
        candidate
          (property "tenantId" session)
          (property "userId" session)
          (property "actor_kind" input)
          "authenticated_session"
          (property "sessionId" session)
          (property "observed_at" input))
candidate-IsSource session input i t =
    let (tenant_id, has_tenant, tenant_given) = is_non_empty-str _ t.tenant in
    let (user_id, has_user, user_given) = is_non_empty-str _ t.user in
    let (session_id, has_session, session_given) = is_non_empty-str _ t.session_id in
    let (expected, has_expected, _) = is_non_empty-str _ i.expected in
    let (kind, has_kind, known_kind) = is_one_of-str session_derivable_actor_kinds _ i.kind in
    let (observed_at, has_time, timely) = is_iso-str _ i.time in
    let (expires_at, has_expiry, expiry_timely) = is_iso-str _ t.expiry in
    record {
      exact = i.exact;
      unmarked = t.unmarked;
      tenant_id = tenant_id;
      user_id = user_id;
      session_id = session_id;
      actor_kind = kind;
      observed_at = observed_at;
      expires_at = expires_at;
      has_tenant = has_tenant;
      has_user = has_user;
      has_session = has_session;
      has_expiry = has_expiry;
      real_user = is_flag-false _ t.genuine;
      has_kind = has_kind;
      same_tenant = has_expected ∙ ap (λ x. str x) (differs-eq _ _ has_expected has_tenant t.same);
      has_time = has_time;
      known_kind = known_kind;
      tenant_given = tenant_given;
      user_given = user_given;
      session_given = session_given;
      timely = timely;
      expiry_timely = expiry_timely;
      unexpired = is_past-not_before _ _ has_time has_expiry t.unexpired;
      result = λ i.
          candidate (has_tenant i) (has_user i) (has_kind i) "authenticated_session" (has_session i)
            (has_time i);
    }

pub IsSource-Tests :
    (session input fs : Fields)
    → IsSource session input fs
    → InputTests input × SessionTests session input
unfolding is_one_of is_non_empty is_iso is_past differs
IsSource-Tests session input fs v = (
  record {
    exact = v.exact;
    kind = rw (v.has_kind) v.known_kind;
    expected = rw (v.same_tenant, v.tenant_given) refl;
    time = rw (v.has_time) v.timely;
  },
  record {
    unmarked = v.unmarked;
    user = rw (v.has_user, v.user_given) refl;
    tenant = rw (v.has_tenant, v.tenant_given) refl;
    session_id = rw (v.has_session, v.session_given) refl;
    expiry = rw (v.has_expiry) v.expiry_timely;
    unexpired = rw (v.has_time, v.has_expiry) v.unexpired;
    genuine = rw (v.real_user) refl;
    same = rw (v.same_tenant, v.has_tenant, (eq_iff v.tenant_id v.tenant_id).1 refl) refl;
  },
)

-- What the constructor hands out for a source.
pub IsSource-IsIdentity : (session input fs : Fields) → IsSource session input fs → IsIdentity fs
IsSource-IsIdentity session input fs v =
    let (known, not_creator) = derivable-canonical v.actor_kind v.known_kind in
    subst IsIdentity (sym v.result) (
      candidate-IsIdentity v.tenant_id v.user_id v.actor_kind "authenticated_session" v.session_id
        v.observed_at v.tenant_given v.user_given v.session_given known (rw (not_creator) refl)
        v.timely)

pub produce-source :
    (session input fs : Fields)
    → IsSource session input fs
    → produce_canonical_identity fs ≡ created fs
produce-source session input fs v =
    subst (λ x. produce_canonical_identity x ≡ created x) (sym v.result)
      (produce_canonical_identity-candidate v.tenant_id v.user_id v.actor_kind
        "authenticated_session" v.session_id v.observed_at
        (subst IsIdentity v.result (IsSource-IsIdentity session input fs v)))
