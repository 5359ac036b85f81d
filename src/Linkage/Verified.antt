-- ===== src/Linkage/Verified.antt =====
-- When a linkage record verifies (app/lib/phase6/approvalLinkage/verifier.ts).
use mathlib.Core.List.{append-eq-nil_iff}
use atra_workunit_os.Prelude.{
  ◌≡◌, refl, ap, sym, ◌∙◌, ◌↔◌, String, Bool, true, false, some, List, [], ◌∷◌, arith, All,
  Option-cases, ◌&&◌, inl, inr, eq_iff, ◌⊎◌,
}
use atra_workunit_os.Js.{Value, undefined, null, revoked, bool, num, str, arr, obj, Fields}
use atra_workunit_os.Authorization.Snapshot.{property}
use atra_workunit_os.Identity.Positions.{snapshot_or_null}
use atra_workunit_os.Linkage.{Issue}
use atra_workunit_os.Linkage.Record.{field_specs, has_spec, validate_approval_linkage_record}
use atra_workunit_os.Linkage.Record.Valid.{
  snapshot_or_null-again, validate_approval_linkage_record-str,
}
use atra_workunit_os.Linkage.Sources.{Calls, strict_equals, text_or_empty}
use atra_workunit_os.Linkage.Evaluation.{derived_chain, evaluate_approval_chain}
use atra_workunit_os.Linkage.Clean.{clean}
use atra_workunit_os.Linkage.Consistent.{evaluate_approval_chain-Consistent}
use atra_workunit_os.Linkage.Verifier.{
  verified, derived_comparison, stale_issues, derived_issues, has_code, chain_state, has_self_hash,
  chain_issues, verify_approval_linkage,
}

abbrev pub every {ℓ} : {A : Type ℓ} → (A → Bool) → List A → Bool
every test [] = true
every test (x ∷ xs) = test x && every test xs

strict_equals-str : (s : String) (v : Value) → strict_equals (str s) v ≡ true → v ≡ str s
unfolding strict_equals
strict_equals-str s (str t) h = ap (λ x. str x) (sym ((eq_iff s t).0 h))
strict_equals-str s undefined h = cc
strict_equals-str s null h = cc
strict_equals-str s revoked h = cc
strict_equals-str s (bool b) h = cc
strict_equals-str s (num n) h = cc
strict_equals-str s (arr xs) h = cc
strict_equals-str s (obj fs) h = cc

pub strict_equals-own : (s : String) → strict_equals (str s) (str s) ≡ true
unfolding strict_equals
strict_equals-own s = (eq_iff s s).1 refl

-- The stored fields are the derived ones.
abbrev pub Agrees : List String → Fields → Fields → Type 0
Agrees names stored derived = All (λ name. property name stored ≡ property name derived) names

-- Every field that passes the test is a text.
abbrev pub HasTexts : (String → Bool) → Fields → Type 0
HasTexts test stored =
    (name : String) → test name ≡ true → (s : String) × (property name stored ≡ str s)

abbrev pub is_specified : String → Bool
is_specified name = has_spec name field_specs

stale_issues-Agrees :
    (test : String → Bool) (names : List String) (stored derived : Fields)
    → HasTexts test stored
    → every test names ≡ true
    → stale_issues names stored derived ≡ []
    → Agrees names stored derived
unfolding stale_issues
stale_issues-Agrees test [] stored derived texts known h = tt
stale_issues-Agrees test (name ∷ names) stored derived texts known h =
    let (s, e) = texts name (ground (arith, known)) in
    let same : strict_equals (property name stored) (property name derived) ≡ true =
      ground (arith, h) in
    let rest =
      stale_issues-Agrees test names stored derived texts (ground (arith, known))
        (ground (arith, h, same)) in
    (
      e
          ∙ sym (
              strict_equals-str s (property name derived)
                (ap (λ v. strict_equals v (property name derived)) (sym e) ∙ same)),
      rest,
    )

pub Agrees-stale_issues :
    (test : String → Bool) (names : List String) (stored derived : Fields)
    → HasTexts test stored
    → every test names ≡ true
    → Agrees names stored derived
    → stale_issues names stored derived ≡ []
unfolding stale_issues
Agrees-stale_issues test [] stored derived texts known h = refl
Agrees-stale_issues test (name ∷ names) stored derived texts known (h, hs) =
    let (s, e) = texts name (ground (arith, known)) in
    let rest = Agrees-stale_issues test names stored derived texts (ground (arith, known)) hs in
    let same : strict_equals (property name stored) (property name derived) ≡ true =
      ap (λ v. strict_equals v (property name derived)) e
      ∙ ap (λ v. strict_equals (str s) v) (sym h ∙ e)
      ∙ strict_equals-own s in
    ground (arith, same, rest)

pub List-cases {ℓ} :
    {A : Type ℓ} (xs : List A) → (xs ≡ []) ⊎ ((x : A) × (ys : List A) × (xs ≡ x ∷ ys))
List-cases [] = inl refl
List-cases (x ∷ xs) = inr (x, xs, refl)

chain_state-verified : (issues : List Issue) → chain_state issues ≡ verified → issues ≡ []
unfolding chain_state has_code
chain_state-verified [] h = refl
chain_state-verified (issue ∷ issues) h = absurd (ground (arith, h))

-- A record that verifies: it reads, is valid, hashes to its own hash, and its fields are those that
-- the current sources derive.
pub record IsVerified (calls : Calls) (linkage context : Value) : Type 0 where
  pub stored : Fields
  pub derived : Fields
  pub read : snapshot_or_null linkage ≡ some stored
  pub valid : validate_approval_linkage_record (obj stored) ≡ []
  pub self_hash : has_self_hash calls stored ≡ some true
  pub evaluated :
      evaluate_approval_chain calls context
        (text_or_empty (property "linked_at" stored))
        (text_or_empty (property "approval_linkage_id" stored))
      ≡ clean derived
  pub agrees : Agrees derived_comparison stored derived

module _ (calls : Calls) where
  verified-IsVerified :
      (linkage context : Value)
      → (verify_approval_linkage calls linkage context).0 ≡ verified
      → IsVerified calls linkage context
  unfolding verify_approval_linkage chain_issues
  verified-IsVerified linkage context h = elim (Option-cases (snapshot_or_null linkage)) [
    | inl e ↦ absurd (ground (arith, h, e))
    | inr (stored, read) ↦ elim (List-cases (validate_approval_linkage_record (obj stored))) [
      | inr (issue, issues, e) ↦ absurd (ground (arith, h, read, e))
      | inl valid ↦ elim (Option-cases (has_self_hash calls stored)) [
        | inl e ↦ absurd (ground (arith, h, read, valid, e))
        | inr (false, e) ↦ absurd (ground (arith, h, read, valid, e))
        | inr (true, e) ↦
            let state : chain_state (chain_issues calls stored context) ≡ verified =
              rw (verify_approval_linkage, read, valid, e) at h in
            verified_record stored read valid e
              (chain_state-verified (chain_issues calls stored context) state)
      ]
    ]
  ]
    where
      verified_record :
          (stored : Fields)
          → snapshot_or_null linkage ≡ some stored
          → validate_approval_linkage_record (obj stored) ≡ []
          → has_self_hash calls stored ≡ some true
          → chain_issues calls stored context ≡ []
          → IsVerified calls linkage context
      verified_record stored read valid self_hash none_left =
          let at : String = text_or_empty (property "linked_at" stored) in
          let id : String = text_or_empty (property "approval_linkage_id" stored) in
          let (no_issue, no_stale) = append-eq-nil_iff.0 none_left in
          let c = evaluate_approval_chain-Consistent calls context at id no_issue in
          let derived = derived_chain c.action c.review c.bound.chain_hash in
          let fresh : stale_issues derived_comparison stored derived ≡ [] =
            ap (λ e. derived_issues stored e.derived) (sym c.bound.derived) ∙ no_stale in
          record {
            stored = stored;
            derived = derived;
            read = read;
            valid = valid;
            self_hash = self_hash;
            evaluated = c.bound.derived;
            agrees =
                stale_issues-Agrees is_specified derived_comparison stored derived
                  (validate_approval_linkage_record-str stored valid
                    (snapshot_or_null-again linkage stored read))
                  refl fresh;
          }

  pub IsVerified-verified :
      (linkage context : Value)
      → IsVerified calls linkage context
      → verify_approval_linkage calls linkage context ≡ (verified, [])
  unfolding verify_approval_linkage chain_issues chain_state has_code
  IsVerified-verified linkage context v =
      let fresh =
        Agrees-stale_issues is_specified derived_comparison v.stored v.derived
          (validate_approval_linkage_record-str v.stored v.valid
            (snapshot_or_null-again linkage v.stored v.read))
          refl v.agrees in
      let no_issue : chain_issues calls v.stored context ≡ [] =
        rw (chain_issues, v.evaluated) fresh in
      rw (verify_approval_linkage, v.read, v.valid, v.self_hash, no_issue) refl

  -- A linkage is verified exactly if the record reads, is structurally valid and hashes to its own
  -- hash, the evaluation of the current sources has no issue, and each of the 24 compared fields is
  -- the one that they derive.
  pub verify_approval_linkage_iff :
      (linkage context : Value)
      → ((verify_approval_linkage calls linkage context).0 ≡ verified)
        ↔ IsVerified calls linkage context
  verify_approval_linkage_iff linkage context = (
    verified-IsVerified linkage context,
    λ v. ap (λ r. r.0) (IsVerified-verified linkage context v),
  )
