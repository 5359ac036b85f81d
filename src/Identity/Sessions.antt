-- ===== src/Identity/Sessions.antt =====
-- When a session becomes a canonical identity, and which one
-- (app/lib/phase6/canonicalIdentity/constructors.ts).
use atra_workunit_os.Prelude.{◌≡◌, ◌↔◌, some, arith, inl, inr}
use mathlib.Core.Path.{subst}
use atra_workunit_os.Js.{Value, Fields}
use atra_workunit_os.Authorization.Snapshot.{snapshot_record_or_null, property}
use atra_workunit_os.Identity.Valid.{IsIdentity}
use atra_workunit_os.Identity.Constructors.{
  created, candidate, produce_canonical_identity, session_input_issues, session_issues,
  unless_issues, create_canonical_session_identity,
}
use atra_workunit_os.Identity.Candidates.{produce-candidate, unless_issues-created, read_cases}
use atra_workunit_os.Identity.Sources.{
  IsSource, session_input_issues-none, session_issues-none, candidate-IsSource, IsSource-Tests,
  IsSource-IsIdentity, produce-source,
}

-- The two snapshots, and the source that they are.
pub record IsDerived (session_value input_value : Value) (fs : Fields) : Type 0 where
  pub session : Fields
  pub input : Fields
  pub read_session : snapshot_record_or_null session_value ≡ some (some session)
  pub read_input : snapshot_record_or_null input_value ≡ some (some input)
  pub source : IsSource session input fs

IsDerived-created :
    (session_value input_value : Value) (fs : Fields)
    → IsDerived session_value input_value fs
    → create_canonical_session_identity session_value input_value ≡ created fs
unfolding create_canonical_session_identity
IsDerived-created session_value input_value fs d =
    let (i, t) = IsSource-Tests d.session d.input fs d.source in
    let none_left =
      (session_input_issues-none d.input (session_issues d.session d.input)).1
        (i, (session_issues-none d.session d.input i).1 t) in
    let v = d.source in
    rw
      (
        create_canonical_session_identity,
        d.read_input,
        d.read_session,
        none_left,
        v.has_tenant,
        v.has_user,
        v.has_kind,
        v.has_session,
        v.has_time,
        ← v.result,
      )
      (produce-source d.session d.input fs v)

-- What a creation has read, the input first.
record Reading (session_value input_value : Value) (fs : Fields) : Type 0 where
  session : Fields
  input : Fields
  read_session : snapshot_record_or_null session_value ≡ some (some session)
  read_input : snapshot_record_or_null input_value ≡ some (some input)
  finish :
      unless_issues (session_input_issues input (session_issues session input)) (
        produce_canonical_identity (
          candidate
            (property "tenantId" session)
            (property "userId" session)
            (property "actor_kind" input)
            "authenticated_session"
            (property "sessionId" session)
            (property "observed_at" input)))
      ≡ created fs

created-Reading :
    (session_value input_value : Value) (fs : Fields)
    → create_canonical_session_identity session_value input_value ≡ created fs
    → Reading session_value input_value fs
unfolding create_canonical_session_identity
created-Reading session_value input_value fs h =
    elim (read_cases (snapshot_record_or_null input_value)) [
      | inl e ↦ absurd (ground (arith, h, e))
      | inr (inl e) ↦ absurd (ground (arith, h, e))
      | inr (inr (input, e)) ↦ elim (read_cases (snapshot_record_or_null session_value)) [
        | inl f ↦ absurd (ground (arith, h, e, f))
        | inr (inl f) ↦ absurd (ground (arith, h, e, f))
        | inr (inr (session, f)) ↦ record {
          session = session;
          input = input;
          read_session = f;
          read_input = e;
          finish = rw (create_canonical_session_identity, e, f) at h;
        }
      ]
    ]

created-IsDerived :
    (session_value input_value : Value) (fs : Fields)
    → create_canonical_session_identity session_value input_value ≡ created fs
    → IsDerived session_value input_value fs
created-IsDerived session_value input_value fs h =
    let r = created-Reading session_value input_value fs h in
    let session = r.session in
    let input = r.input in
    let c = r.finish in
    let (none_left, p) = unless_issues-created _ _ c in
    let (i, rest) = (session_input_issues-none input (session_issues session input)).0 none_left in
    let t = (session_issues-none session input i).0 rest in
    record {
      session = session;
      input = input;
      read_session = r.read_session;
      read_input = r.read_input;
      source =
          subst (IsSource session input) (produce-candidate _ p)
            (candidate-IsSource session input i t);
    }

-- What a derived identity is.
pub IsDerived-IsIdentity :
    (session_value input_value : Value) (fs : Fields)
    → IsDerived session_value input_value fs
    → IsIdentity fs
IsDerived-IsIdentity session_value input_value fs d =
    IsSource-IsIdentity d.session d.input fs d.source

-- A session and an input give an identity exactly if both can be read as records and the session is
-- a genuine, unmarked and unexpired session of the expected tenant; the identity is then of the
-- session's user and tenant.
pub create_canonical_session_identity_iff :
    (session_value input_value : Value) (fs : Fields)
    → (create_canonical_session_identity session_value input_value ≡ created fs)
      ↔ IsDerived session_value input_value fs
create_canonical_session_identity_iff session_value input_value fs =
    (created-IsDerived session_value input_value fs, IsDerived-created session_value input_value fs)
