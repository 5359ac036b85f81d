-- ===== src/Identity/Creators.antt =====
-- When a stored preview gives its creator's identity, and which one
-- (app/lib/phase6/canonicalIdentity/constructors.ts).
use atra_workunit_os.Prelude.{
  ◌≡◌, refl, ◌∙◌, sym, ap, ◌↔◌, inl, inr, String, true, false, some, [], arith, ◌==◌, eq_iff,
}
use mathlib.Core.Path.{subst}
use atra_workunit_os.Js.{Value, str, Fields, includes}
use atra_workunit_os.Time.{is_iso_utc_timestamp}
use atra_workunit_os.Authorization.Snapshot.{snapshot_record_or_null, property, only_keys}
use atra_workunit_os.Identity.Issues.{is_non_empty, is_iso, is_non_empty-str, is_iso-str}
use atra_workunit_os.Identity.Markers.{
  IsUnmarked, collect_markers-IsUnmarked, HasNoMarker, only_keys-no_issues,
}
use atra_workunit_os.Identity.Valid.{IsIdentity}
use atra_workunit_os.Identity.Constructors.{
  created, preview_input_fields, collect_input_field_issues, candidate, produce_canonical_identity,
  differs, tenant_issues, preview_input_issues, preview_issues,
  create_canonical_preview_creator_identity,
}
use atra_workunit_os.Identity.Candidates.{
  differs-eq, candidate-IsIdentity, produce_canonical_identity-candidate, produce-candidate,
  unless_issues-created, read_cases,
}

preview_fields-HasNoMarker : HasNoMarker preview_input_fields
unfolding includes
preview_fields-HasNoMarker = (refl, refl, refl, refl, refl, refl, refl, refl)

-- What a preview must say to give its creator's identity.
pub record IsCreated (preview input fs : Fields) : Type 0 where
  pub exact : only_keys preview_input_fields input ≡ true
  pub unmarked : IsUnmarked preview
  pub tenant_id : String
  pub user_id : String
  pub preview_id : String
  pub workunit_id : String
  pub observed_at : String
  pub has_tenant : property "tenantId" preview ≡ str tenant_id
  pub has_creator : property "creatorUserId" preview ≡ str user_id
  pub has_preview : property "id" preview ≡ str preview_id
  pub has_workunit : property "workUnitId" preview ≡ str workunit_id
  pub same_tenant : property "expected_tenant_id" input ≡ str tenant_id
  pub has_time : property "observed_at" input ≡ str observed_at
  pub tenant_given : (tenant_id == "") ≡ false
  pub user_given : (user_id == "") ≡ false
  pub preview_given : (preview_id == "") ≡ false
  pub workunit_given : (workunit_id == "") ≡ false
  pub timely : is_iso_utc_timestamp observed_at ≡ true
  pub result :
      fs
      ≡ candidate
          (str tenant_id)
          (str user_id)
          (str "creator")
          "stored_action_preview_creator"
          (str preview_id)
          (str observed_at)

record Tests (preview input : Fields) : Type 0 where
  exact : only_keys preview_input_fields input ≡ true
  expected : is_non_empty (property "expected_tenant_id" input) ≡ true
  time : is_iso (property "observed_at" input) ≡ true
  unmarked : IsUnmarked preview
  creator : is_non_empty (property "creatorUserId" preview) ≡ true
  tenant : is_non_empty (property "tenantId" preview) ≡ true
  preview_id : is_non_empty (property "id" preview) ≡ true
  workunit : is_non_empty (property "workUnitId" preview) ≡ true
  same : differs (property "expected_tenant_id" input) (property "tenantId" preview) ≡ false

issues-Tests :
    (preview input : Fields)
    → (preview_input_issues input (preview_issues preview input) ≡ []) ↔ Tests preview input
unfolding preview_input_issues preview_issues collect_input_field_issues tenant_issues
issues-Tests preview input =
    let outer =
      only_keys-no_issues preview_input_fields "(input)" input _ preview_fields-HasNoMarker in
    (
      λ h.
          let (o, r) = outer.0 h in
          let expected : is_non_empty (property "expected_tenant_id" input) ≡ true =
            ground (arith, r) in
          let inner : preview_issues preview input ≡ [] = ground (arith, r) in
          let (u, q) = (collect_markers-IsUnmarked preview "(preview)" _).0 inner in
          record {
            exact = o;
            expected = expected;
            time = ground (arith, r);
            unmarked = u;
            creator = ground (arith, q);
            tenant = ground (arith, q);
            preview_id = ground (arith, q);
            workunit = ground (arith, q);
            same = ground (arith, q, expected);
          },
      λ t. outer.1 (
        t.exact,
        rw (t.expected, t.time)
            ((collect_markers-IsUnmarked preview "(preview)" _).1
              (t.unmarked, rw (t.creator, t.tenant, t.preview_id, t.workunit, t.same) refl)),
      ),
    )

candidate-IsCreated :
    (preview input : Fields)
    → Tests preview input
    → IsCreated preview input (
        candidate
          (property "tenantId" preview)
          (property "creatorUserId" preview)
          (str "creator")
          "stored_action_preview_creator"
          (property "id" preview)
          (property "observed_at" input))
candidate-IsCreated preview input t =
    let (tenant_id, has_tenant, tenant_given) = is_non_empty-str _ t.tenant in
    let (user_id, has_creator, user_given) = is_non_empty-str _ t.creator in
    let (preview_id, has_preview, preview_given) = is_non_empty-str _ t.preview_id in
    let (workunit_id, has_workunit, workunit_given) = is_non_empty-str _ t.workunit in
    let (expected, has_expected, _) = is_non_empty-str _ t.expected in
    let (observed_at, has_time, timely) = is_iso-str _ t.time in
    record {
      exact = t.exact;
      unmarked = t.unmarked;
      tenant_id = tenant_id;
      user_id = user_id;
      preview_id = preview_id;
      workunit_id = workunit_id;
      observed_at = observed_at;
      has_tenant = has_tenant;
      has_creator = has_creator;
      has_preview = has_preview;
      has_workunit = has_workunit;
      same_tenant = has_expected ∙ ap (λ x. str x) (differs-eq _ _ has_expected has_tenant t.same);
      has_time = has_time;
      tenant_given = tenant_given;
      user_given = user_given;
      preview_given = preview_given;
      workunit_given = workunit_given;
      timely = timely;
      result = λ i.
          candidate (has_tenant i) (has_creator i) (str "creator") "stored_action_preview_creator"
            (has_preview i) (has_time i);
    }

IsCreated-Tests : (preview input fs : Fields) → IsCreated preview input fs → Tests preview input
unfolding is_non_empty is_iso differs
IsCreated-Tests preview input fs v = record {
  exact = v.exact;
  expected = rw (v.same_tenant, v.tenant_given) refl;
  time = rw (v.has_time) v.timely;
  unmarked = v.unmarked;
  creator = rw (v.has_creator, v.user_given) refl;
  tenant = rw (v.has_tenant, v.tenant_given) refl;
  preview_id = rw (v.has_preview, v.preview_given) refl;
  workunit = rw (v.has_workunit, v.workunit_given) refl;
  same = rw (v.same_tenant, v.has_tenant, (eq_iff v.tenant_id v.tenant_id).1 refl) refl;
}

pub IsCreated-IsIdentity : (preview input fs : Fields) → IsCreated preview input fs → IsIdentity fs
unfolding includes
IsCreated-IsIdentity preview input fs v = subst IsIdentity (sym v.result) (
    candidate-IsIdentity v.tenant_id v.user_id "creator" "stored_action_preview_creator"
      v.preview_id v.observed_at v.tenant_given v.user_given v.preview_given refl refl v.timely)

produce-created :
    (preview input fs : Fields)
    → IsCreated preview input fs
    → produce_canonical_identity fs ≡ created fs
produce-created preview input fs v =
    subst (λ x. produce_canonical_identity x ≡ created x) (sym v.result)
      (produce_canonical_identity-candidate v.tenant_id v.user_id "creator"
        "stored_action_preview_creator" v.preview_id v.observed_at
        (subst IsIdentity v.result (IsCreated-IsIdentity preview input fs v)))

-- The two snapshots, and what the preview says.
pub record IsFromPreview (preview_value input_value : Value) (fs : Fields) : Type 0 where
  pub preview : Fields
  pub input : Fields
  pub read_preview : snapshot_record_or_null preview_value ≡ some (some preview)
  pub read_input : snapshot_record_or_null input_value ≡ some (some input)
  pub source : IsCreated preview input fs

IsFromPreview-created :
    (preview_value input_value : Value) (fs : Fields)
    → IsFromPreview preview_value input_value fs
    → create_canonical_preview_creator_identity preview_value input_value ≡ created fs
unfolding create_canonical_preview_creator_identity
IsFromPreview-created preview_value input_value fs d =
    let v = d.source in
    let none_left = (issues-Tests d.preview d.input).1 (IsCreated-Tests d.preview d.input fs v) in
    rw
      (
        create_canonical_preview_creator_identity,
        d.read_input,
        d.read_preview,
        none_left,
        v.has_tenant,
        v.has_creator,
        v.has_preview,
        v.has_time,
        ← v.result,
      )
      (produce-created d.preview d.input fs v)

created-IsFromPreview :
    (preview_value input_value : Value) (fs : Fields)
    → create_canonical_preview_creator_identity preview_value input_value ≡ created fs
    → IsFromPreview preview_value input_value fs
unfolding create_canonical_preview_creator_identity
created-IsFromPreview preview_value input_value fs h =
    elim (read_cases (snapshot_record_or_null input_value)) [
      | inl e ↦ absurd (ground (arith, h, e))
      | inr (inl e) ↦ absurd (ground (arith, h, e))
      | inr (inr (input, e)) ↦ elim (read_cases (snapshot_record_or_null preview_value)) [
        | inl f ↦ absurd (ground (arith, h, e, f))
        | inr (inl f) ↦ absurd (ground (arith, h, e, f))
        | inr (inr (preview, f)) ↦
            let finish = rw (create_canonical_preview_creator_identity, e, f) at h in
            let (none_left, p) = unless_issues-created _ _ finish in
            let t = (issues-Tests preview input).0 none_left in
            record {
              preview = preview;
              input = input;
              read_preview = f;
              read_input = e;
              source =
                  subst (IsCreated preview input) (produce-candidate _ p)
                    (candidate-IsCreated preview input t);
            }
      ]
    ]

-- A preview and an input give an identity exactly if both can be read as records and the preview,
-- unmarked and of the expected tenant, names its creator, itself and its work unit; the identity is
-- then the creator's, in the preview's tenant.
pub create_canonical_preview_creator_identity_iff :
    (preview_value input_value : Value) (fs : Fields)
    → (create_canonical_preview_creator_identity preview_value input_value ≡ created fs)
      ↔ IsFromPreview preview_value input_value fs
create_canonical_preview_creator_identity_iff preview_value input_value fs = (
  created-IsFromPreview preview_value input_value fs,
  IsFromPreview-created preview_value input_value fs,
)
