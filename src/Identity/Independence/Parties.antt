-- ===== src/Identity/Independence/Parties.antt =====
-- What the loops of the independence verifier have checked of each position
-- (app/lib/phase6/identityIndependence/verifier.ts).
use atra_workunit_os.Prelude.{
  ◌≡◌, refl, ◌⊎◌, inl, inr, true, false, none, some, List, [], ◌∷◌, arith, Bool-cases, Option-cases,
  >>=-eq-some,
}
use mathlib.Core.Path.{subst}
use mathlib.Core.Option.{some-injective}
use atra_workunit_os.Js.{
  Value, undefined, null, revoked, bool, num, str, arr, obj, Fields, end, field, throws, symbol,
}
use atra_workunit_os.Authorization.Snapshot.{copy_fields, snapshot_record_or_null}
use atra_workunit_os.Identity.Issues.{Issue}
use atra_workunit_os.Identity.Validation.{validate_canonical_identity}
use atra_workunit_os.Identity.Valid.{IsIdentity, validate_canonical_identity_iff}
use atra_workunit_os.Identity.Positions.{
  Position, snapshot_or_null, is_undefined, keep_identity, read_identity,
}

List-cases : (l : List Issue) → (l ≡ []) ⊎ ((x : Issue) × (xs : List Issue) × (l ≡ x ∷ xs))
List-cases [] = inl refl
List-cases (x ∷ xs) = inr (x, xs, refl)

-- A copy is copied as it is.
copy_fields_again :
    (fs : Fields) {gs : Fields} → copy_fields fs ≡ some gs → copy_fields gs ≡ some gs
unfolding copy_fields
copy_fields_again end {gs} h = rw (← some-injective _ _ h) refl
copy_fields_again (field k v fs) {gs} h =
    let (rest, e, r) = >>=-eq-some (copy_fields fs) _ h in
    rw (← some-injective _ _ r, copy_fields, copy_fields_again fs e) refl
copy_fields_again (throws k fs) h = absurd (ground (arith, h))
copy_fields_again (symbol fs) h = copy_fields_again fs h

pub snapshot_again :
    (v : Value) {fs : Fields}
    → snapshot_or_null v ≡ some fs
    → snapshot_record_or_null (obj fs) ≡ some (some fs)
unfolding snapshot_or_null snapshot_record_or_null
snapshot_again (obj gs) {fs} h = elim (Option-cases (copy_fields gs)) [
  | inl e ↦ absurd (ground (arith, h, e))
  | inr (hs, e) ↦
      let same : hs ≡ fs = ground (arith, h, e) in
      let again : copy_fields fs ≡ some fs =
        subst (λ x. copy_fields x ≡ some x) same (copy_fields_again gs e) in
      rw (again) refl
]
snapshot_again undefined h = absurd (ground (arith, h))
snapshot_again null h = absurd (ground (arith, h))
snapshot_again revoked h = absurd (ground (arith, h))
snapshot_again (bool b) h = absurd (ground (arith, h))
snapshot_again (num n) h = absurd (ground (arith, h))
snapshot_again (str s) h = absurd (ground (arith, h))
snapshot_again (arr xs) h = absurd (ground (arith, h))

-- A valid snapshot is a canonical identity itself.
snapshot-IsIdentity :
    (v : Value) (fs : Fields)
    → snapshot_or_null v ≡ some fs
    → validate_canonical_identity (obj fs) ≡ []
    → IsIdentity fs
snapshot-IsIdentity v fs found valid =
    let (gs, e, i) = (validate_canonical_identity_iff (obj fs)).0 valid in
    let same : gs ≡ fs = ground (arith, e, snapshot_again v found) in subst IsIdentity same i

-- A position that the loop of stage B leaves with no issue and an identity.
pub record IsRead (v : Value) (position : Position) (fs : Fields) : Type 0 where
  pub found : snapshot_or_null v ≡ some fs
  pub identity : IsIdentity fs
  pub kept : (read_identity position v).1 ≡ some fs

keep_identity-none :
    (position : Position) (fs : Fields)
    → (keep_identity position fs).0 ≡ []
    → (validate_canonical_identity (obj fs) ≡ []) × ((keep_identity position fs).1 ≡ some fs)
unfolding keep_identity
keep_identity-none position fs h = elim (List-cases (validate_canonical_identity (obj fs))) [
  | inl e ↦ (e, rw (keep_identity, e) refl)
  | inr (x, xs, e) ↦ absurd (ground (arith, h, e))
]

pub read_identity-none :
    (position : Position) (v : Value)
    → (read_identity position v).0 ≡ []
    → ((position.required ≡ false)
        × (is_undefined v ≡ true)
        × ((read_identity position v).1 ≡ none))
      ⊎ ((fs : Fields) × IsRead v position fs)
unfolding read_identity
read_identity-none position v h = elim (Bool-cases (is_undefined v)) [
  | inl u ↦ elim (Bool-cases position.required) [
    | inl r ↦ absurd (ground (arith, h, u, r))
    | inr n ↦ inl (n, u, rw (read_identity, u) refl)
  ]
  | inr d ↦ elim (Option-cases (snapshot_or_null v)) [
    | inl e ↦ absurd (ground (arith, h, d, e))
    | inr (fs, e) ↦
        let kept : (keep_identity position fs).0 ≡ [] = rw (read_identity, d, e) at h in
        let (valid, stored) = keep_identity-none position fs kept in
        inr (
          fs,
          record {
            found = e;
            identity = snapshot-IsIdentity v fs e valid;
            kept = rw (read_identity, d, e) stored;
          },
        )
  ]
]
