-- ===== src/Identity/Valid.antt =====
-- What the validator of canonical identities accepts
-- (app/lib/phase6/canonicalIdentity/validation.ts).
use atra_workunit_os.Prelude.{
  ◌≡◌, refl, ◌∙◌, sym, ap, ◌↔◌, ◌⊎◌, inl, inr, String, true, false, some, [], arith, ◌==◌, eq_iff,
  if◌then◌else◌, Bool-cases, Option-cases,
}
use atra_workunit_os.Js.{Value, str, Fields, includes}
use atra_workunit_os.Time.{is_iso_utc_timestamp}
use atra_workunit_os.Authorization.Snapshot.{snapshot_record_or_null, property, only_keys}
use atra_workunit_os.Identity.Issues.{
  is_non_empty, is_iso, is_one_of, is_non_empty-str, is_iso-str, is_one_of-str,
}
use atra_workunit_os.Identity.Markers.{HasNoMarker, only_keys-no_issues}
use atra_workunit_os.Identity.Validation.{
  canonical_actor_kinds, canonical_identity_sources, canonical_identity_subject_types,
  canonical_identity_fields, is_mispaired, identity_issues, validate_canonical_identity,
}

-- A canonical identity: the seven fields and no other, ids that are not empty, a source that belongs
-- to the kind of actor, a human subject, and a time that the guard accepts.
pub record IsIdentity (fs : Fields) : Type 0 where
  pub exact : only_keys canonical_identity_fields fs ≡ true
  pub tenant_id : String
  pub user_id : String
  pub source_record_id : String
  pub actor_kind : String
  pub observed_at : String
  pub has_tenant : property "tenant_id" fs ≡ str tenant_id
  pub has_user : property "user_id" fs ≡ str user_id
  pub has_record : property "source_record_id" fs ≡ str source_record_id
  pub has_kind : property "actor_kind" fs ≡ str actor_kind
  pub has_source :
      property "identity_source" fs
      ≡ str (
          if actor_kind == "creator"
          then "stored_action_preview_creator"
          else "authenticated_session")
  pub has_subject : property "subject_type" fs ≡ str "human_user"
  pub has_time : property "observed_at" fs ≡ str observed_at
  pub real_tenant : (tenant_id == "") ≡ false
  pub real_user : (user_id == "") ≡ false
  pub real_record : (source_record_id == "") ≡ false
  pub known_kind : includes canonical_actor_kinds actor_kind ≡ true
  pub timely : is_iso_utc_timestamp observed_at ≡ true

record Tests (fs : Fields) : Type 0 where
  pub exact : only_keys canonical_identity_fields fs ≡ true
  pub tenant : is_non_empty (property "tenant_id" fs) ≡ true
  pub user : is_non_empty (property "user_id" fs) ≡ true
  pub source_record : is_non_empty (property "source_record_id" fs) ≡ true
  pub kind : is_one_of canonical_actor_kinds (property "actor_kind" fs) ≡ true
  pub source : is_one_of canonical_identity_sources (property "identity_source" fs) ≡ true
  pub subject : is_one_of canonical_identity_subject_types (property "subject_type" fs) ≡ true
  pub time : is_iso (property "observed_at" fs) ≡ true
  pub paired : is_mispaired (property "actor_kind" fs) (property "identity_source" fs) ≡ false

fields-HasNoMarker : HasNoMarker canonical_identity_fields
unfolding includes
fields-HasNoMarker = (refl, refl, refl, refl, refl, refl, refl, refl)

-- What the tests behind the loops have in common with the specification.
identity_issues-Tests : (fs : Fields) → identity_issues fs ≡ [] → Tests fs
unfolding identity_issues
identity_issues-Tests fs h =
    let (o, r) =
      (only_keys-no_issues canonical_identity_fields "(identity)" fs _ fields-HasNoMarker).0 h in
    ground (arith, o, r)

known_source :
    (s : String)
    → includes canonical_identity_sources s ≡ true
    → (s ≡ "authenticated_session") ⊎ (s ≡ "stored_action_preview_creator")
unfolding includes
known_source s h = elim (Bool-cases ("authenticated_session" == s)) [
  | inl e ↦ inl (sym ((eq_iff "authenticated_session" s).0 e))
  | inr n ↦ elim (Bool-cases ("stored_action_preview_creator" == s)) [
    | inl e ↦ inr (sym ((eq_iff "stored_action_preview_creator" s).0 e))
    | inr m ↦ absurd (ground (arith, h, n, m))
  ]
]

paired_source :
    (k s : String)
    → includes canonical_actor_kinds k ≡ true
    → includes canonical_identity_sources s ≡ true
    → is_mispaired (str k) (str s) ≡ false
    → s ≡ (if k == "creator" then "stored_action_preview_creator" else "authenticated_session")
unfolding is_mispaired is_one_of
paired_source k s known source p =
    let expected : String =
      if k == "creator" then "stored_action_preview_creator" else "authenticated_session" in
    (eq_iff s expected).0 (ground (arith, known, source, p))

Tests-IsIdentity : (fs : Fields) → Tests fs → IsIdentity fs
unfolding includes
Tests-IsIdentity fs t =
    let (tenant_id, has_tenant, real_tenant) = is_non_empty-str _ t.tenant in
    let (user_id, has_user, real_user) = is_non_empty-str _ t.user in
    let (source_record_id, has_record, real_record) = is_non_empty-str _ t.source_record in
    let (kind, has_kind, known_kind) = is_one_of-str canonical_actor_kinds _ t.kind in
    let (source, has_source, known) = is_one_of-str canonical_identity_sources _ t.source in
    let (subject, has_subject, human) =
      is_one_of-str canonical_identity_subject_types _ t.subject in
    let (observed_at, has_time, timely) = is_iso-str _ t.time in
    let paired : is_mispaired (str kind) (str source) ≡ false =
      rw (← has_kind, ← has_source) t.paired in
    record {
      exact = t.exact;
      tenant_id = tenant_id;
      user_id = user_id;
      source_record_id = source_record_id;
      actor_kind = kind;
      observed_at = observed_at;
      has_tenant = has_tenant;
      has_user = has_user;
      has_record = has_record;
      has_kind = has_kind;
      has_source = has_source ∙ ap (λ x. str x) (paired_source kind source known_kind known paired);
      has_subject =
          has_subject
          ∙ ap (λ x. str x) (sym ((eq_iff "human_user" subject).0 (ground (arith, human))));
      has_time = has_time;
      real_tenant = real_tenant;
      real_user = real_user;
      real_record = real_record;
      known_kind = known_kind;
      timely = timely;
    }

source_known :
    (k : String)
    → is_one_of canonical_identity_sources
        (str (if k == "creator" then "stored_action_preview_creator" else "authenticated_session"))
      ≡ true
unfolding is_one_of includes
source_known k = elim (Bool-cases (k == "creator")) [ inl e ↦ rw (e) refl | inr e ↦ rw (e) refl ]

pair_right :
    (k : String)
    → is_mispaired
        (str k)
        (str (if k == "creator" then "stored_action_preview_creator" else "authenticated_session"))
      ≡ false
unfolding is_mispaired is_one_of includes
pair_right k = elim (Bool-cases (k == "creator")) [
  | inl e ↦ rw (e) (ground arith)
  | inr e ↦ rw (e) (ground arith)
]

kind_known :
    (k : String)
    → includes canonical_actor_kinds k ≡ true
    → is_one_of canonical_actor_kinds (str k) ≡ true
unfolding is_one_of
kind_known k h = h

human_known : is_one_of canonical_identity_subject_types (str "human_user") ≡ true
unfolding is_one_of includes
human_known = refl

identity_issues-none : (fs : Fields) → IsIdentity fs → identity_issues fs ≡ []
unfolding identity_issues is_non_empty is_iso
identity_issues-none fs v =
    (only_keys-no_issues canonical_identity_fields "(identity)" fs _ fields-HasNoMarker).1 (
      v.exact,
      rw
          (
            v.has_tenant,
            v.has_user,
            v.has_record,
            v.has_kind,
            v.has_source,
            v.has_subject,
            v.has_time,
            v.real_tenant,
            v.real_user,
            v.real_record,
            v.timely,
            kind_known v.actor_kind v.known_kind,
            source_known v.actor_kind,
            human_known,
            pair_right v.actor_kind,
          )
          refl,
    )

-- A value has no issues exactly if it can be read as a record, once, and what was read is a
-- canonical identity.
pub validate_canonical_identity_iff :
    (input : Value)
    → (validate_canonical_identity input ≡ [])
      ↔ ((fs : Fields) × (snapshot_record_or_null input ≡ some (some fs)) × IsIdentity fs)
unfolding validate_canonical_identity
validate_canonical_identity_iff input = (
  λ h. elim (Option-cases (snapshot_record_or_null input)) [
    | inl e ↦ absurd (ground (arith, h, e))
    | inr (o, e) ↦ elim (Option-cases o) [
      | inl f ↦ absurd (ground (arith, h, e, f))
      | inr (fs, f) ↦
          let found : snapshot_record_or_null input ≡ some (some fs) = e ∙ ap (λ x. some x) f in
          let none_left : identity_issues fs ≡ [] = rw (validate_canonical_identity, found) at h in
          (fs, found, Tests-IsIdentity fs (identity_issues-Tests fs none_left))
    ]
  ],
  λ (fs, e, v). rw (validate_canonical_identity, e) (identity_issues-none fs v),
)
