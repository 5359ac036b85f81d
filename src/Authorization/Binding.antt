-- ===== src/Authorization/Binding.antt =====
-- What the gate hands to the evaluator comes back in the evidence
-- (app/lib/security/runtimeAuthorizationGate.ts, app/lib/phase6/runtimeAuthorization/eligibility.ts).
use atra_workunit_os.Prelude.{
  ◌≡◌, ◌∙◌, sym, ap, String, arith, ◌==◌, Bool-cases, inl, inr, Option, none, some,
}
use mathlib.Core.Path.{subst}
use atra_workunit_os.Js.{includes, Value, str, obj, field, end}
use atra_workunit_os.Time.{is_iso_utc_timestamp}
use atra_workunit_os.Authorization.Types.{State, invalid, Evidence, Outcome, done, >>=-eq-done}
use atra_workunit_os.Authorization.Snapshot.{
  Attempt, is_text, property, only_keys, non_empty_string, snapshot_record_or_null, copy_fields,
}
use atra_workunit_os.Authorization.Soundness.{done-injective, evaluate_eligibility_sound}
use atra_workunit_os.Authorization.Envelope.{
  IntendedAction, action_types, demand, caught, present, iso_text, read_intended_action,
  deep_record,
}
use atra_workunit_os.Authorization.Eligibility.{
  Evaluators, Readings, read_input, evaluate_eligibility,
}
use atra_workunit_os.Authorization.Bundle.{
  Envelope, Bundle, build_verification_context, eligibility_input,
}

nonempty-done :
    (s : String) (c : State) (code : String) {u : String}
    → present (non_empty_string (str s)) c code ≡ done u
    → u ≡ s
nonempty-done s c code h = elim (Bool-cases (s == "")) [
  | inl e ↦ absurd (ground (arith, e, h))
  | inr e ↦ ground (arith, e, h)
]

iso_text-done : (s code : String) {u : String} → iso_text (str s) code ≡ done u → u ≡ s
unfolding iso_text
iso_text-done s code h = elim (Bool-cases (is_iso_utc_timestamp s)) [
  | inl e ↦ sym (done-injective (rw (iso_text, e) at h))
  | inr e ↦ absurd (ground (arith, e, h))
]

abbrev intended_of : Envelope → Value
intended_of envelope = obj (
    field "tenant_id" (str envelope.tenant_id) (
      field "workunit_id" (str envelope.work_unit_id) (
        field "action_preview_id" (str envelope.action_preview_id) (
          field "approval_id" (str envelope.approval_id) (
            field "action_type" (str envelope.action_type) (
              field "target_hash" (str envelope.target_hash)
                (field "payload_hash" (str envelope.payload_hash) end)))))))

abbrev named : String → Outcome String
named s = present (non_empty_string (str s)) invalid "invalid_runtime_authorization_input"

-- The intended action that is read is the envelope.
pub record IsOf (i : IntendedAction) (envelope : Envelope) : Type 0 where
  pub tenant_id : i.tenant_id ≡ envelope.tenant_id
  pub workunit_id : i.workunit_id ≡ envelope.work_unit_id
  pub action_preview_id : i.action_preview_id ≡ envelope.action_preview_id
  pub approval_id : i.approval_id ≡ envelope.approval_id
  pub action_type : i.action_type ≡ envelope.action_type
  pub target_hash : i.target_hash ≡ envelope.target_hash
  pub payload_hash : i.payload_hash ≡ envelope.payload_hash

read_intended_action-IsOf :
    (envelope : Envelope) (i : IntendedAction)
    → read_intended_action (intended_of envelope) ≡ done i
    → IsOf i envelope
unfolding read_intended_action snapshot_record_or_null copy_fields property only_keys includes
read_intended_action-IsOf envelope i h =
    let (a1, e1, h) = >>=-eq-done (named envelope.tenant_id) _ h in
    let (a2, e2, h) = >>=-eq-done (named envelope.work_unit_id) _ h in
    let (a3, e3, h) = >>=-eq-done (named envelope.action_preview_id) _ h in
    let (a4, e4, h) = >>=-eq-done (named envelope.approval_id) _ h in
    let (a5, e5, h) = >>=-eq-done (named envelope.action_type) _ h in
    let (a6, e6, h) = >>=-eq-done (named envelope.target_hash) _ h in
    let (a7, e7, h) = >>=-eq-done (named envelope.payload_hash) _ h in
    let (_, _, h) =
      >>=-eq-done
        (demand (includes action_types a5) invalid "runtime_authorization_action_type_mismatch") _
        h in
    let same = sym (done-injective h) in
    record {
      tenant_id =
          ap (λ x. x.tenant_id) same
          ∙ nonempty-done envelope.tenant_id invalid "invalid_runtime_authorization_input" e1;
      workunit_id =
          ap (λ x. x.workunit_id) same
          ∙ nonempty-done envelope.work_unit_id invalid "invalid_runtime_authorization_input" e2;
      action_preview_id =
          ap (λ x. x.action_preview_id) same
          ∙ nonempty-done envelope.action_preview_id invalid "invalid_runtime_authorization_input"
              e3;
      approval_id =
          ap (λ x. x.approval_id) same
          ∙ nonempty-done envelope.approval_id invalid "invalid_runtime_authorization_input" e4;
      action_type =
          ap (λ x. x.action_type) same
          ∙ nonempty-done envelope.action_type invalid "invalid_runtime_authorization_input" e5;
      target_hash =
          ap (λ x. x.target_hash) same
          ∙ nonempty-done envelope.target_hash invalid "invalid_runtime_authorization_input" e6;
      payload_hash =
          ap (λ x. x.payload_hash) same
          ∙ nonempty-done envelope.payload_hash invalid "invalid_runtime_authorization_input" e7;
    }

-- What the evaluator reads of what the gate hands to it.
pub record IsGiven (bundle : Bundle) (envelope : Envelope) (executor : Value) (now : String)
    (r : Readings) : Type 0 where
  pub issued_at : r.issued_at ≡ now
  pub intended : IsOf r.intended envelope
  pub executor_identity : r.executor_identity ≡ executor
  pub linkage : snapshot_record_or_null bundle.linkage ≡ some (some r.linkage)

pub caught-some : {A : Type 0} (a : Attempt A) {x : A} → caught a ≡ done x → a ≡ some x
caught-some none h = absurd (ground (arith, h))
caught-some (some y) h = ap (λ x. some x) (done-injective h)

pub present-some :
    {A : Type 0} (a : Option A) (s : State) (code : String) {x : A}
    → present a s code ≡ done x
    → a ≡ some x
present-some none s code h = absurd (ground (arith, h))
present-some (some y) s code h = ap (λ x. some x) (done-injective h)

pub read_input-IsGiven :
    (bundle : Bundle) (envelope : Envelope) (executor : Value) (session_end now : String)
    (r : Readings)
    → read_input (eligibility_input bundle envelope executor session_end now) ≡ done r
    → IsGiven bundle envelope executor now r
unfolding read_input eligibility_input snapshot_record_or_null copy_fields property only_keys
    includes
read_input-IsGiven bundle envelope executor session_end now r h =
    let code : String = "invalid_runtime_authorization_input" in
    let (issued_at, e1, h) = >>=-eq-done (iso_text (str now) code) _ h in
    let (_, _, h) = >>=-eq-done (iso_text (str session_end) code) _ h in
    let (intended, e2, h) = >>=-eq-done (read_intended_action (intended_of envelope)) _ h in
    let (linked, e3, h) = >>=-eq-done (caught (snapshot_record_or_null bundle.linkage)) _ h in
    let (linkage, e4, h) =
      >>=-eq-done (present linked invalid "runtime_authorization_linkage_invalid") _ h in
    let (context, _, h) =
      >>=-eq-done (deep_record (build_verification_context bundle.sources now)) _ h in
    let (_, _, h) =
      >>=-eq-done
        (demand (is_text (property "evaluated_at" context) issued_at) invalid
          "runtime_authorization_timestamp_inconsistent")
        _ h in
    let same = done-injective h in
    let found =
      caught-some (snapshot_record_or_null bundle.linkage) e3
      ∙ ap (λ x. some x) (present-some linked invalid "runtime_authorization_linkage_invalid" e4) in
    record {
      issued_at = ap (λ x. x.issued_at) (sym same) ∙ iso_text-done now code e1;
      intended =
          subst (λ x. IsOf x envelope) (ap (λ x. x.intended) same)
            (read_intended_action-IsOf envelope intended e2);
      executor_identity = ap (λ x. x.executor_identity) (sym same);
      linkage = found ∙ ap (λ x. some (some x.linkage)) same;
    }

-- Evidence that is eligible on a bundle names the bundle's envelope and the time that was given.
pub record IsOn (e : Evidence) (envelope : Envelope) (now : String) : Type 0 where
  pub tenant_id : e.tenant_id ≡ envelope.tenant_id
  pub workunit_id : e.workunit_id ≡ envelope.work_unit_id
  pub action_preview_id : e.action_preview_id ≡ envelope.action_preview_id
  pub approval_id : e.approval_id ≡ envelope.approval_id
  pub action_type : e.action_type ≡ envelope.action_type
  pub target_hash : e.target_hash ≡ envelope.target_hash
  pub payload_hash : e.payload_hash ≡ envelope.payload_hash
  pub issued_at : e.issued_at ≡ now

pub evaluate_eligibility-IsOn :
    (calls : Evaluators) (bundle : Bundle) (envelope : Envelope) (executor : Value)
    (session_end now : String) (e : Evidence)
    → evaluate_eligibility calls (eligibility_input bundle envelope executor session_end now)
      ≡ done e
    → IsOn e envelope now
evaluate_eligibility-IsOn calls bundle envelope executor session_end now e h =
    let s =
      evaluate_eligibility_sound calls (eligibility_input bundle envelope executor session_end now)
        e h in
    let given = read_input-IsGiven bundle envelope executor session_end now s.readings s.read in
    let i = given.intended in
    record {
      tenant_id = s.tenant_id ∙ i.tenant_id;
      workunit_id = s.workunit_id ∙ i.workunit_id;
      action_preview_id = s.action_preview_id ∙ i.action_preview_id;
      approval_id = s.approval_id ∙ i.approval_id;
      action_type = s.action_type ∙ i.action_type;
      target_hash = s.target_hash ∙ i.target_hash;
      payload_hash = s.payload_hash ∙ i.payload_hash;
      issued_at = s.issued_at ∙ given.issued_at;
    }
