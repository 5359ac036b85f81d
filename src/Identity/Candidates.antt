-- ===== src/Identity/Candidates.antt =====
-- The candidates of the constructors, which are canonical identities
-- (app/lib/phase6/canonicalIdentity/constructors.ts).
use atra_workunit_os.Prelude.{
  ◌≡◌, refl, ap, String, true, false, Option, none, some, List, [], ◌∷◌, arith, ◌==◌, eq_iff,
  if◌then◌else◌, ◌⊎◌, inl, inr,
}
use atra_workunit_os.Js.{Value, str, obj, Fields, includes, read_own}
use atra_workunit_os.Time.{is_iso_utc_timestamp}
use atra_workunit_os.Time.Profile.{is_not_before}
use atra_workunit_os.Authorization.Snapshot.{
  copy_fields, snapshot_record_or_null, property, only_keys,
}
use atra_workunit_os.Identity.Issues.{Issue}
use atra_workunit_os.Identity.Validation.{canonical_actor_kinds, validate_canonical_identity}
use atra_workunit_os.Identity.Valid.{IsIdentity, validate_canonical_identity_iff}
use atra_workunit_os.Identity.Constructors.{
  Construction, refused, created, candidate, produce_canonical_identity, is_past, differs,
  unless_issues,
}

-- Each constructor's candidate is a canonical identity.
pub candidate-IsIdentity :
    (tenant user kind source source_record observed_at : String)
    → (tenant == "") ≡ false
    → (user == "") ≡ false
    → (source_record == "") ≡ false
    → includes canonical_actor_kinds kind ≡ true
    → source
      ≡ (if kind == "creator" then "stored_action_preview_creator" else "authenticated_session")
    → is_iso_utc_timestamp observed_at ≡ true
    → IsIdentity
        (candidate (str tenant) (str user) (str kind) source (str source_record) (str observed_at))
unfolding candidate property read_own only_keys includes
candidate-IsIdentity tenant user kind source source_record observed_at t u r k s o = record {
  exact = refl;
  tenant_id = tenant;
  user_id = user;
  source_record_id = source_record;
  actor_kind = kind;
  observed_at = observed_at;
  has_tenant = refl;
  has_user = refl;
  has_record = refl;
  has_kind = refl;
  has_source = ap (λ x. str x) s;
  has_subject = refl;
  has_time = refl;
  real_tenant = t;
  real_user = u;
  real_record = r;
  known_kind = k;
  timely = o;
}

-- A canonical identity of texts passes the validator, so the constructor hands it out.
pub produce_canonical_identity-candidate :
    (tenant user kind source source_record observed_at : String)
    → IsIdentity
        (candidate (str tenant) (str user) (str kind) source (str source_record) (str observed_at))
    → produce_canonical_identity
        (candidate (str tenant) (str user) (str kind) source (str source_record) (str observed_at))
      ≡ created (
          candidate (str tenant) (str user) (str kind) source (str source_record) (str observed_at))
unfolding produce_canonical_identity
produce_canonical_identity-candidate tenant user kind source source_record observed_at v =
    let fs =
      candidate (str tenant) (str user) (str kind) source (str source_record) (str observed_at) in
    let valid : validate_canonical_identity (obj fs) ≡ [] =
      (validate_canonical_identity_iff (obj fs)).1 (fs, snapshot_candidate, v) in
    rw (produce_canonical_identity, valid) refl
  where
    snapshot_candidate :
        snapshot_record_or_null (
          obj (
            candidate
              (str tenant)
              (str user)
              (str kind)
              source
              (str source_record)
              (str observed_at)))
        ≡ some (
            some (
              candidate
                (str tenant)
                (str user)
                (str kind)
                source
                (str source_record)
                (str observed_at)))
    snapshot_candidate = unfold candidate copy_fields snapshot_record_or_null in refl

pub differs-eq : (a b : Value) {s t : String} → a ≡ str s → b ≡ str t → differs a b ≡ false → s ≡ t
unfolding differs
differs-eq a b {s} {t} ea eb h =
    let equal : differs (str s) (str t) ≡ false = rw (ea, eb) at h in
    (eq_iff s t).0 (ground (arith, equal))

pub is_past-not_before :
    (a b : Value) {s t : String}
    → a ≡ str s
    → b ≡ str t
    → is_past a b ≡ false
    → is_not_before s t ≡ false
unfolding is_past
is_past-not_before a b ea eb h = rw (ea, eb) at h

pub created-fields : {a b : Fields} → created a ≡ created b → a ≡ b
created-fields {a} h = ap (λ c. fields_of c) h
  where
    fields_of : Construction → Fields
    fields_of (refused issues) = a
    fields_of (created fs) = fs

pub unless_issues-created :
    (issues : List Issue) (next : Construction) {fs : Fields}
    → unless_issues issues next ≡ created fs
    → (issues ≡ []) × (next ≡ created fs)
unless_issues-created [] next h = (refl, h)
unless_issues-created (issue ∷ issues) next h = absurd (ground (arith, h))

-- The identity is the candidate, or there is none.
pub produce-candidate :
    (fs : Fields) {gs : Fields} → produce_canonical_identity fs ≡ created gs → fs ≡ gs
unfolding produce_canonical_identity
produce-candidate fs {gs} h = elim (List-cases (validate_canonical_identity (obj fs))) [
  | inl e ↦
      let here : created fs ≡ created gs = rw (produce_canonical_identity, e) at h in
      created-fields here
  | inr (issue, issues, e) ↦
      let no : refused (issue ∷ issues) ≡ created gs = rw (produce_canonical_identity, e) at h in
      absurd (ground (arith, no))
]
  where
    List-cases : (l : List Issue) → (l ≡ []) ⊎ ((x : Issue) × (xs : List Issue) × (l ≡ x ∷ xs))
    List-cases [] = inl refl
    List-cases (x ∷ xs) = inr (x, xs, refl)

-- A read fails, is of no record, or gives one.
pub read_cases :
    (o : Option (Option Fields))
    → (o ≡ none) ⊎ ((o ≡ some none) ⊎ ((fs : Fields) × (o ≡ some (some fs))))
read_cases none = inl refl
read_cases (some none) = inr (inl refl)
read_cases (some (some fs)) = inr (inr (fs, refl))
