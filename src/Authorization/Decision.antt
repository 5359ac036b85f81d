-- ===== src/Authorization/Decision.antt =====
-- The Human Decision runtime policy (app/lib/phase6/runtimeAuthorization/humanDecisionPolicy.ts).
-- The canonical validator of human decision records is a parameter.
use atra_workunit_os.Prelude.{
  ◌≡◌, ◌↔◌, ◌⊎◌, String, Bool, true, false, Option, none, some, List, [], ◌∷◌, if◌then◌else◌, arith,
  inl, inr, Option-cases, ◌>>=◌,
}
use atra_workunit_os.Js.{Value, revoked, arr, nil, Fields, end, field, throws, symbol}
use atra_workunit_os.Authorization.Snapshot.{
  Attempt, snapshot_record_or_null, property, is_text, is_flag,
}

-- Every array is replaced by a copy; to ask a revoked proxy whether it is one throws.
unfoldable pub copy_arrays : Fields → Attempt Fields
copy_arrays end = some end
copy_arrays (field k revoked fs) = none
copy_arrays (field k v fs) = do fs ← copy_arrays fs; some (field k v fs)
copy_arrays (throws k fs) = do fs ← copy_arrays fs; some (throws k fs)
copy_arrays (symbol fs) = do fs ← copy_arrays fs; some (symbol fs)

-- `snapshotHumanDecision`
unfoldable pub snapshot_human_decision : Value → Attempt (Option Fields)
snapshot_human_decision decision = do snapshot ← snapshot_record_or_null decision; copied snapshot
  where
    copied : Option Fields → Attempt (Option Fields)
    copied none = some none
    copied (some hd) = do hd ← copy_arrays hd; some (some hd)

-- `if (!test) issues.push(code)`, in front of the issues of what follows.
abbrev pub require : Bool → String → List String → List String
require test code rest = if test then rest else code ∷ rest

abbrev pub is_empty_array : Value → Bool
is_empty_array (arr nil) = true
is_empty_array _ = false

-- The ten conditions of the runtime matrix.
unfoldable pub decision_issues : Fields → List String
decision_issues hd =
    require (is_text (property "decision_status" hd) "ready_for_future_gate_review")
      "runtime_authorization_decision_not_ready"
      (require (is_text (property "decision_outcome" hd) "pass")
        "runtime_authorization_decision_outcome_not_pass"
        (require (is_text (property "decision_impact_scope" hd) "action_readiness_assessment")
          "runtime_authorization_decision_scope_mismatch"
          (require (is_flag (property "evidence_accepted" hd) true)
            "runtime_authorization_evidence_not_accepted"
            (require (is_flag (property "approval_required" hd) true)
              "runtime_authorization_approval_not_required"
              (require (is_flag (property "execution_required" hd) true)
                "runtime_authorization_execution_not_required"
                (require (is_flag (property "promotion_required" hd) false)
                  "runtime_authorization_promotion_required"
                  (require (is_flag (property "four_eyes_required" hd) true)
                    "runtime_authorization_four_eyes_not_required"
                    (require (is_flag (property "self_approval_blocked" hd) true)
                      "runtime_authorization_self_approval_not_blocked"
                      (require (is_empty_array (property "no_go_flags" hd))
                        "runtime_authorization_no_go_flag_present" [])))))))))

-- The specification: what a decision must say for a runtime authorization.
pub record IsRuntimeReady (hd : Fields) : Type 0 where
  pub ready : is_text (property "decision_status" hd) "ready_for_future_gate_review" ≡ true
  pub passed : is_text (property "decision_outcome" hd) "pass" ≡ true
  pub scoped : is_text (property "decision_impact_scope" hd) "action_readiness_assessment" ≡ true
  pub accepted : is_flag (property "evidence_accepted" hd) true ≡ true
  pub approval : is_flag (property "approval_required" hd) true ≡ true
  pub execution : is_flag (property "execution_required" hd) true ≡ true
  pub unpromoted : is_flag (property "promotion_required" hd) false ≡ true
  pub four_eyes : is_flag (property "four_eyes_required" hd) true ≡ true
  pub self_approval : is_flag (property "self_approval_blocked" hd) true ≡ true
  pub no_flags : is_empty_array (property "no_go_flags" hd) ≡ true

module _ (validate_human_decision_record : Fields → Attempt Bool) where
  -- The issues of a decision; it is eligible if there are none.
  unfoldable pub evaluate_human_decision_runtime_eligibility : Value → List String
  evaluate_human_decision_runtime_eligibility decision = elim (snapshot_human_decision decision) [
    | none ↦ "runtime_authorization_validation_exception" ∷ []
    | some none ↦ "runtime_authorization_decision_invalid" ∷ []
    | some (some hd) ↦ elim (validate_human_decision_record hd) [
      | none ↦ "runtime_authorization_validation_exception" ∷ []
      | some false ↦ "runtime_authorization_decision_invalid" ∷ []
      | some true ↦ decision_issues hd
    ]
  ]

  decision_issues-ready : (hd : Fields) → (decision_issues hd ≡ []) ↔ IsRuntimeReady hd
  unfolding decision_issues
  decision_issues-ready hd = (λ h. ground (arith, h), λ r. ground (arith, r))

  -- A decision is eligible exactly if it can be read, the canonical validator accepts what was read,
  -- and that meets all ten conditions of the runtime matrix.
  pub evaluate_human_decision_runtime_eligibility_iff :
      (decision : Value)
      → (evaluate_human_decision_runtime_eligibility decision ≡ []) ↔ (
          (hd : Fields) × (snapshot_human_decision decision ≡ some (some hd))
          × (validate_human_decision_record hd ≡ some true)
          × IsRuntimeReady hd)
  unfolding evaluate_human_decision_runtime_eligibility
  evaluate_human_decision_runtime_eligibility_iff decision = (
    λ h. eligible h (Option-cases (snapshot_human_decision decision)),
    λ (hd, e, v, r).
        rw (evaluate_human_decision_runtime_eligibility, e, v) ((decision_issues-ready hd).1 r),
  )
    where
      eligible :
          evaluate_human_decision_runtime_eligibility decision ≡ []
          → ((snapshot_human_decision decision ≡ none)
              ⊎ ((o : Option Fields) × (snapshot_human_decision decision ≡ some o)))
          → (hd : Fields) × (snapshot_human_decision decision ≡ some (some hd))
            × (validate_human_decision_record hd ≡ some true)
            × IsRuntimeReady hd
      eligible h (inl e) = absurd (ground (arith, e, h))
      eligible h (inr (none, e)) = absurd (ground (arith, e, h))
      eligible h (inr (some hd, e)) = elim (Option-cases (validate_human_decision_record hd)) [
        | inl v ↦ absurd (ground (arith, e, v, h))
        | inr (false, v) ↦ absurd (ground (arith, e, v, h))
        | inr (true, v) ↦
            let issues : decision_issues hd ≡ [] =
              rw (evaluate_human_decision_runtime_eligibility, e, v) at h in
            (hd, e, v, (decision_issues-ready hd).0 issues)
      ]
