-- ===== src/Identity/Markers.antt =====
-- When the loops over markers and unknown keys find nothing
-- (app/lib/phase6/canonicalIdentity/validation.ts).
use atra_workunit_os.Prelude.{
  ◌≡◌, refl, ap, sym, ◌∙◌, ◌↔◌, String, Bool, true, false, List, [], arith, ◌==◌, ◌||◌, ◌&&◌,
  eq_iff, inl, inr, Bool-cases,
}
use atra_workunit_os.Js.{Fields, end, field, throws, symbol, read_own, includes}
use atra_workunit_os.Authorization.Snapshot.{only_keys}
use atra_workunit_os.Identity.Issues.{
  Issue, has_own, is_marker, collect_unsupported_identity_marker_issues, unknown_issues,
}

-- No marker stands among the keys.
pub record IsUnmarked (fs : Fields) : Type 0 where
  pub m1 : has_own "delegated_for_user_id" fs ≡ false
  pub m2 : has_own "delegatedForUserId" fs ≡ false
  pub m3 : has_own "delegation_evidence_id" fs ≡ false
  pub m4 : has_own "on_behalf_of" fs ≡ false
  pub m5 : has_own "is_service_account" fs ≡ false
  pub m6 : has_own "isServiceAccount" fs ≡ false
  pub m7 : has_own "service_account_id" fs ≡ false
  pub m8 : has_own "serviceAccountId" fs ≡ false

pub collect_markers-IsUnmarked :
    (fs : Fields) (prefix : String) (rest : List Issue)
    → (collect_unsupported_identity_marker_issues fs prefix rest ≡ [])
      ↔ (IsUnmarked fs × (rest ≡ []))
unfolding collect_unsupported_identity_marker_issues
collect_markers-IsUnmarked fs prefix rest = (
  λ h. (
    record {
      m1 = ground (arith, h);
      m2 = ground (arith, h);
      m3 = ground (arith, h);
      m4 = ground (arith, h);
      m5 = ground (arith, h);
      m6 = ground (arith, h);
      m7 = ground (arith, h);
      m8 = ground (arith, h);
    },
    ground (arith, h),
  ),
  λ (u, r). rw (u.m1, u.m2, u.m3, u.m4, u.m5, u.m6, u.m7, u.m8) r,
)

other_key :
    (marker k : String) (fs : Fields)
    → has_own marker fs ≡ false
    → has_own k fs ≡ true
    → (marker == k) ≡ false
other_key marker k fs m h = elim (Bool-cases (marker == k)) [
  | inl same ↦ absurd (ground (arith, ap (λ x. has_own x fs) ((eq_iff marker k).0 same), m, h))
  | inr other ↦ other
]

is_marker-unmarked :
    (fs : Fields) (k : String) → IsUnmarked fs → has_own k fs ≡ true → is_marker k ≡ false
unfolding is_marker includes
is_marker-unmarked fs k u h =
    rw
      (
        other_key "delegated_for_user_id" k fs u.m1 h,
        other_key "delegatedForUserId" k fs u.m2 h,
        other_key "delegation_evidence_id" k fs u.m3 h,
        other_key "on_behalf_of" k fs u.m4 h,
        other_key "is_service_account" k fs u.m5 h,
        other_key "isServiceAccount" k fs u.m6 h,
        other_key "service_account_id" k fs u.m7 h,
        other_key "serviceAccountId" k fs u.m8 h,
      )
      refl

-- The test holds of every own text key.
abbrev all_keys : (String → Bool) → Fields → Bool
all_keys known end = true
all_keys known (field k v fs) = known k && all_keys known fs
all_keys known (throws k fs) = known k && all_keys known fs
all_keys known (symbol fs) = all_keys known fs

only_keys-all_keys :
    (names : List String) (fs : Fields) → only_keys names fs ≡ all_keys (includes names) fs
unfolding only_keys
only_keys-all_keys names end = refl
only_keys-all_keys names (field k v fs) =
    ap (λ b. includes names k && b) (only_keys-all_keys names fs)
only_keys-all_keys names (throws k fs) =
    ap (λ b. includes names k && b) (only_keys-all_keys names fs)
only_keys-all_keys names (symbol fs) = only_keys-all_keys names fs

all_keys-congr :
    (p q : String → Bool) (fs : Fields)
    → ((k : String) → has_own k fs ≡ true → p k ≡ q k)
    → all_keys p fs ≡ all_keys q fs
unfolding has_own read_own
all_keys-congr p q end h = refl
all_keys-congr p q (field k v fs) h =
    let rest = all_keys-congr p q fs (λ j o. h j (ground (arith, o))) in
    rw (h k (rw (has_own, (eq_iff k k).1 refl) refl), rest) refl
all_keys-congr p q (throws k fs) h =
    let rest = all_keys-congr p q fs (λ j o. h j (ground (arith, o))) in
    rw (h k (rw (has_own, (eq_iff k k).1 refl) refl), rest) refl
all_keys-congr p q (symbol fs) h = all_keys-congr p q fs h

unknown_issues-all_keys :
    (known : String → Bool) (prefix : String) (fs : Fields) (rest : List Issue)
    → (unknown_issues known prefix fs rest ≡ []) ↔ ((all_keys known fs ≡ true) × (rest ≡ []))
unfolding unknown_issues
unknown_issues-all_keys known prefix end rest = (λ h. (refl, h), λ h. h.1)
unknown_issues-all_keys known prefix (field k v fs) rest =
    let ih = unknown_issues-all_keys known prefix fs rest in
    (λ h. ground (arith, h, ih.0), λ h. ground (arith, h, ih.1))
unknown_issues-all_keys known prefix (throws k fs) rest =
    let ih = unknown_issues-all_keys known prefix fs rest in
    (λ h. ground (arith, h, ih.0), λ h. ground (arith, h, ih.1))
unknown_issues-all_keys known prefix (symbol fs) rest = unknown_issues-all_keys known prefix fs rest

-- A record all of whose keys are listed has no marker, if none is listed.
only_keys-has_own :
    (names : List String) (fs : Fields) (k : String)
    → only_keys names fs ≡ true
    → includes names k ≡ false
    → has_own k fs ≡ false
unfolding has_own read_own only_keys
only_keys-has_own names end k o n = refl
only_keys-has_own names (field j v fs) k o n =
    let same = λ (e : j ≡ k). ap (includes names) e in
    elim (Bool-cases (j == k)) [
      | inl e ↦ absurd (ground (arith, o, n, same ((eq_iff j k).0 e)))
      | inr e ↦ rw (has_own, e) (only_keys-has_own names fs k (ground (arith, o)) n)
    ]
only_keys-has_own names (throws j fs) k o n =
    let same = λ (e : j ≡ k). ap (includes names) e in
    elim (Bool-cases (j == k)) [
      | inl e ↦ absurd (ground (arith, o, n, same ((eq_iff j k).0 e)))
      | inr e ↦ rw (has_own, e) (only_keys-has_own names fs k (ground (arith, o)) n)
    ]
only_keys-has_own names (symbol fs) k o n = only_keys-has_own names fs k o n

-- No marker is among the names.
abbrev pub HasNoMarker : List String → Type 0
HasNoMarker names =
    (includes names "delegated_for_user_id" ≡ false)
    × (includes names "delegatedForUserId" ≡ false)
    × (includes names "delegation_evidence_id" ≡ false)
    × (includes names "on_behalf_of" ≡ false)
    × (includes names "is_service_account" ≡ false)
    × (includes names "isServiceAccount" ≡ false)
    × (includes names "service_account_id" ≡ false)
    × (includes names "serviceAccountId" ≡ false)

only_keys-IsUnmarked :
    (names : List String) (fs : Fields)
    → HasNoMarker names
    → only_keys names fs ≡ true
    → IsUnmarked fs
only_keys-IsUnmarked names fs n o = record {
  m1 = only_keys-has_own names fs "delegated_for_user_id" o n.0;
  m2 = only_keys-has_own names fs "delegatedForUserId" o n.1;
  m3 = only_keys-has_own names fs "delegation_evidence_id" o n.2;
  m4 = only_keys-has_own names fs "on_behalf_of" o n.3;
  m5 = only_keys-has_own names fs "is_service_account" o n.4;
  m6 = only_keys-has_own names fs "isServiceAccount" o n.5;
  m7 = only_keys-has_own names fs "service_account_id" o n.6;
  m8 = only_keys-has_own names fs "serviceAccountId" o n.7;
}

-- Neither loop finds anything exactly if the keys are among the names.
pub only_keys-no_issues :
    (names : List String) (prefix : String) (fs : Fields) (rest : List Issue)
    → HasNoMarker names
    → (collect_unsupported_identity_marker_issues fs prefix
          (unknown_issues (λ k. includes names k || is_marker k) prefix fs rest)
        ≡ [])
      ↔ ((only_keys names fs ≡ true) × (rest ≡ []))
only_keys-no_issues names prefix fs rest n =
    let known : String → Bool = λ k. includes names k || is_marker k in
    let markers = collect_markers-IsUnmarked fs prefix (unknown_issues known prefix fs rest) in
    let unknown = unknown_issues-all_keys known prefix fs rest in
    let same : IsUnmarked fs → all_keys known fs ≡ only_keys names fs = λ u.
      all_keys-congr known (includes names) fs (λ k o. ground (arith, is_marker-unmarked fs k u o))
      ∙ sym (only_keys-all_keys names fs) in
    (
      λ h. let (u, r) = markers.0 h in let (a, e) = unknown.0 r in (sym (same u) ∙ a, e),
      λ (o, e).
          let u = only_keys-IsUnmarked names fs n o in markers.1 (u, unknown.1 (same u ∙ o, e)),
    )

-- Behind the loop over the keys.
pub unknown_issues-rest :
    (known : String → Bool) (prefix : String) (fs : Fields) (rest : List Issue)
    → unknown_issues known prefix fs rest ≡ []
    → rest ≡ []
unknown_issues-rest known prefix fs rest h = ((unknown_issues-all_keys known prefix fs rest).0 h).1
