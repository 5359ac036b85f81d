-- ===== src/Linkage/RoundTrip.antt =====
-- A linkage record that is constructed verifies
-- (app/lib/phase6/approvalLinkage/constructors.ts and verifier.ts).
use mathlib.Core.Path.{subst}
use mathlib.Core.List.{append-eq-nil_iff}
use atra_workunit_os.Prelude.{
  ◌≡◌, refl, sym, ◌∙◌, inl, inr, String, true, some, List, [], ◌∷◌, ◌++◌, arith, Option-cases,
  Bool-cases, eq_iff,
}
use atra_workunit_os.Js.{Value, obj, Fields, read_own}
use atra_workunit_os.Authorization.Snapshot.{property, copy_fields, snapshot_record_or_null}
use atra_workunit_os.Identity.Positions.{snapshot_or_null}
use atra_workunit_os.Linkage.{is_sha256_hex}
use atra_workunit_os.Linkage.Record.{validate_approval_linkage_record}
use atra_workunit_os.Linkage.Payload.{pick, build_approval_linkage_payload}
use atra_workunit_os.Linkage.Sources.{Calls, SourceEvaluation, text_or_empty}
use atra_workunit_os.Linkage.Evaluation.{evaluate_approval_chain}
use atra_workunit_os.Linkage.Clean.{clean}
use atra_workunit_os.Linkage.Verifier.{
  verified, derived_comparison, has_self_hash, verify_approval_linkage,
}
use atra_workunit_os.Linkage.Verified.{IsVerified-verified, List-cases, Agrees, IsVerified}
use atra_workunit_os.Linkage.Constructor.{
  created, payload_input, assemble_record, construct_record, input_issues, time_or_empty,
  create_from, create_approval_linkage_record,
}

Agrees-refl : (names : List String) (fs : Fields) → Agrees names fs fs
Agrees-refl [] fs = tt
Agrees-refl (name ∷ names) fs = (refl, Agrees-refl names fs)

abbrev payload : String → String → Fields → Fields
payload id linked_at derived = build_approval_linkage_payload (payload_input id linked_at derived)

abbrev stored_record : String → String → Fields → String → Fields
stored_record id linked_at derived hash = assemble_record (payload id linked_at derived) hash

module _ (calls : Calls) (id linked_at : String) (derived : Fields) (hash : String) where
  abbrev whole : Fields
  whole = stored_record id linked_at derived hash

  stored-read : snapshot_or_null (obj whole) ≡ some whole
  unfolding snapshot_or_null snapshot_record_or_null copy_fields assemble_record pick
  stored-read = refl

  stored-payload : build_approval_linkage_payload whole ≡ payload id linked_at derived
  unfolding build_approval_linkage_payload assemble_record pick property read_own
  stored-payload = refl

  stored-Agrees : Agrees derived_comparison whole derived
  unfolding build_approval_linkage_payload assemble_record pick property read_own
  stored-Agrees = Agrees-refl derived_comparison derived

  stored-has_self_hash :
      calls.hash_field (obj (payload id linked_at derived)) ≡ some hash
      → has_self_hash calls whole ≡ some true
  unfolding has_self_hash assemble_record pick property read_own
  stored-has_self_hash h = let own = (eq_iff hash hash).1 refl in rw (stored-payload, h, own) refl

  stored-linked_at : text_or_empty (property "linked_at" whole) ≡ linked_at
  unfolding assemble_record build_approval_linkage_payload pick property read_own
  stored-linked_at = refl

  stored-id : text_or_empty (property "approval_linkage_id" whole) ≡ id
  unfolding assemble_record build_approval_linkage_payload pick property read_own
  stored-id = refl

  -- A valid record of a derived chain, with the hash of its payload.
  stored-IsVerified :
      (context : Value)
      → calls.hash_field (obj (payload id linked_at derived)) ≡ some hash
      → validate_approval_linkage_record (obj whole) ≡ []
      → evaluate_approval_chain calls context linked_at id ≡ clean derived
      → IsVerified calls (obj whole) context
  stored-IsVerified context hashed valid evaluated = record {
    stored = whole;
    derived = derived;
    read = stored-read;
    valid = valid;
    self_hash = stored-has_self_hash hashed;
    evaluated =
        (λ i. evaluate_approval_chain calls context (stored-linked_at i) (stored-id i)) ∙ evaluated;
    agrees = stored-Agrees;
  }

module _ (calls : Calls) where
  construct_record-created :
      (id linked_at : String) (derived fs : Fields)
      → construct_record calls id linked_at derived ≡ created fs
      → (hash : String) × (calls.hash_field (obj (payload id linked_at derived)) ≡ some hash)
        × (validate_approval_linkage_record (obj (stored_record id linked_at derived hash)) ≡ [])
        × (fs ≡ stored_record id linked_at derived hash)
  unfolding construct_record
  construct_record-created id linked_at derived fs h =
      elim (Option-cases (calls.hash_field (obj (payload id linked_at derived)))) [
        | inl e ↦ absurd (ground (arith, h, e))
        | inr (hash, e) ↦ elim (Bool-cases (is_sha256_hex hash)) [
          | inr no_hex ↦ absurd (ground (arith, h, e, no_hex))
          | inl hex ↦
              elim (List-cases (
                validate_approval_linkage_record (obj (stored_record id linked_at derived hash)))) [
                  | inr (issue, issues, bad) ↦ absurd (ground (arith, h, e, hex, bad))
                  | inl valid ↦ (hash, e, valid, ground (arith, h, e, hex, valid))
                ]
        ]
      ]

  create_from-created :
      (snap fs : Fields) (context : Value)
      → create_from calls snap context ≡ created fs
      → IsVerified calls (obj fs) context
  unfolding create_from
  create_from-created snap fs context h =
      let id : String = text_or_empty (property "approval_linkage_id" snap) in
      let at : String = time_or_empty (property "linked_at" snap) in
      let e : SourceEvaluation = evaluate_approval_chain calls context at id in
      elim (List-cases (input_issues snap ++ e.issues)) [
        | inr (issue, issues, some_issue) ↦ absurd (ground (arith, h, some_issue))
        | inl none_left ↦ elim (Option-cases e.derived) [
          | inl underived ↦ absurd (ground (arith, h, none_left, underived))
          | inr (derived, found) ↦
              let no_issue = (append-eq-nil_iff.0 none_left).1 in
              let constructed : construct_record calls id at derived ≡ created fs =
                rw (create_from, none_left, found) at h in
              let (hash, hashed, valid, same) =
                construct_record-created id at derived fs constructed in
              subst (λ x. IsVerified calls (obj x) context) (sym same)
                (stored-IsVerified calls id at derived hash context hashed valid
                  (λ i. record { derived = found i; issues = no_issue i }))
        ]
      ]

  -- A record that the constructor creates in a context is verified in that context.
  pub create_approval_linkage_record-verify :
      (input context : Value) (fs : Fields)
      → create_approval_linkage_record calls input context ≡ created fs
      → verify_approval_linkage calls (obj fs) context ≡ (verified, [])
  unfolding create_approval_linkage_record
  create_approval_linkage_record-verify input context fs h =
      elim (Option-cases (snapshot_or_null input)) [
        | inl e ↦ absurd (ground (arith, h, e))
        | inr (snap, e) ↦
            let made : create_from calls snap context ≡ created fs =
              rw (create_approval_linkage_record, e) at h in
            IsVerified-verified calls (obj fs) context (create_from-created snap fs context made)
      ]
