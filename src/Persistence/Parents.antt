-- ===== src/Persistence/Parents.antt =====
-- The ownership of parent objects (app/lib/persistence/relationshipEnforcedRepositories.ts): what
-- the wrapped creations check before the repositories that they wrap. Those are parameters.

use mathlib.Core.Option.{some-injective}
use atra_workunit_os.Prelude.{
  ◌≡◌, refl, sym, ap, ◌∙◌, ◌⊎◌, inl, inr, String, true, false, Option, none, some, arith, ◌==◌,
  eq_iff, unless, Option-cases, Bool-cases,
}
use atra_workunit_os.Approval.{ActionApprovalRecord}

differs : (a b : String) → (a == b) ≡ false → ¬ (a ≡ b)
differs a b h e = ground (arith, h, (eq_iff a b).1 e)

-- `D1RepositoryError` with this message, or what the wrapped repository returns.
pub data Created (A : Type 0) : Type 0 where
  parent_boundary_violation : Created A
  passed : A → Created A

-- What an approval's creation reads of a preview.
pub record ActionPreviewRow : Type 0 where
  pub work_unit_id : String
  pub action_type : String
  pub target_hash : String
  pub payload_hash : String

-- The tenant-scoped reads of the sibling repositories; nothing is both a missing and a foreign row.
module _ {W : Type 0} (find_work_unit : String → String → Option W)
    (find_preview : String → String → Option ActionPreviewRow) where
  -- `assertWorkUnitOwned`, and then what follows.
  unfoldable pub with_work_unit :
      {S A : Type 0} → String → String → (S → Created A × S) → S → Created A × S
  with_work_unit tenant work_unit create store = elim (find_work_unit tenant work_unit) [
    | none ↦ (parent_boundary_violation, store)
    | some _ ↦ create store
  ]

  -- `create` of `enforceActionPreviewParent` and `enforceFeedbackParent`.
  unfoldable pub create_child : {S A : Type 0} → (S → A × S) → String → String → S → Created A × S
  unfolding with_work_unit
  create_child raw tenant work_unit store =
      with_work_unit tenant work_unit (λ s. (passed (raw s).0, (raw s).1)) store

  -- `create` of `enforceApprovalParents`
  unfoldable pub create_approval :
      {S A : Type 0}
      → (ActionApprovalRecord → S → A × S)
      → String
      → ActionApprovalRecord
      → S
      → Created A × S
  create_approval raw tenant row store = elim (find_preview tenant row.action_preview_id) [
    | none ↦ (parent_boundary_violation, store)
    | some preview ↦
        unless (preview.work_unit_id == row.work_unit_id) (parent_boundary_violation, store)
          (with_work_unit tenant row.work_unit_id
            (λ s.
              unless (preview.action_type == row.action_type) (parent_boundary_violation, s)
                (unless (preview.target_hash == row.target_hash) (parent_boundary_violation, s)
                  (unless (preview.payload_hash == row.payload_hash) (parent_boundary_violation, s)
                    (passed (raw row s).0, (raw row s).1))))
            store)
  ]

  -- Parents that an approval may have.
  pub record HasParents (tenant : String) (row : ActionApprovalRecord) : Type 0 where
    pub preview : ActionPreviewRow
    pub work_unit : W
    pub found_preview : find_preview tenant row.action_preview_id ≡ some preview
    pub found_work_unit : find_work_unit tenant row.work_unit_id ≡ some work_unit
    pub same_work_unit : preview.work_unit_id ≡ row.work_unit_id
    pub same_action : preview.action_type ≡ row.action_type
    pub same_target : preview.target_hash ≡ row.target_hash
    pub same_payload : preview.payload_hash ≡ row.payload_hash

  module _ {S A : Type 0} (raw : ActionApprovalRecord → S → A × S) where
    abbrev Cases : String → ActionApprovalRecord → S → Type 0
    Cases tenant row store =
        (HasParents tenant row
          × (create_approval raw tenant row store ≡ (passed (raw row store).0, (raw row store).1)))
        ⊎ ((¬ HasParents tenant row)
            × (create_approval raw tenant row store ≡ (parent_boundary_violation, store)))

    -- The comparisons behind the two reads.
    bound :
        (tenant : String) (row : ActionApprovalRecord) (store : S) (preview : ActionPreviewRow)
        (work_unit : W)
        → find_preview tenant row.action_preview_id ≡ some preview
        → find_work_unit tenant row.work_unit_id ≡ some work_unit
        → (preview.work_unit_id == row.work_unit_id) ≡ true
        → Cases tenant row store
    unfolding create_approval with_work_unit
    bound tenant row store preview work_unit e g f =
        let same = λ (p : HasParents tenant row). some-injective _ _ (sym e ∙ p.found_preview) in
        elim (Bool-cases (preview.action_type == row.action_type)) [
          | inr a ↦ inr (
            λ p.
                differs preview.action_type row.action_type a
                  (ap (λ x. x.action_type) (same p) ∙ p.same_action),
            rw (create_approval, e, f, with_work_unit, g, a) refl,
          )
          | inl a ↦ elim (Bool-cases (preview.target_hash == row.target_hash)) [
            | inr t ↦ inr (
              λ p.
                  differs preview.target_hash row.target_hash t
                    (ap (λ x. x.target_hash) (same p) ∙ p.same_target),
              rw (create_approval, e, f, with_work_unit, g, a, t) refl,
            )
            | inl t ↦ elim (Bool-cases (preview.payload_hash == row.payload_hash)) [
              | inr h ↦ inr (
                λ p.
                    differs preview.payload_hash row.payload_hash h
                      (ap (λ x. x.payload_hash) (same p) ∙ p.same_payload),
                rw (create_approval, e, f, with_work_unit, g, a, t, h) refl,
              )
              | inl h ↦ inl (
                record {
                  preview = preview;
                  work_unit = work_unit;
                  found_preview = e;
                  found_work_unit = g;
                  same_work_unit = (eq_iff preview.work_unit_id row.work_unit_id).0 f;
                  same_action = (eq_iff preview.action_type row.action_type).0 a;
                  same_target = (eq_iff preview.target_hash row.target_hash).0 t;
                  same_payload = (eq_iff preview.payload_hash row.payload_hash).0 h;
                },
                rw (create_approval, e, f, with_work_unit, g, a, t, h) refl,
              )
            ]
          ]
        ]

    -- An approval is created exactly if the tenant owns its preview and its work unit and all four
    -- bound fields agree with the preview: then the wrapped repository does it. In every other case,
    -- whether a parent is missing, is another tenant's or differs, the failure is one and the same
    -- and nothing is stored.
    pub create_approval_cases :
        (tenant : String) (row : ActionApprovalRecord) (store : S)
        → (HasParents tenant row
            × (create_approval raw tenant row store
                ≡ (passed (raw row store).0, (raw row store).1)))
          ⊎ ((¬ HasParents tenant row)
              × (create_approval raw tenant row store ≡ (parent_boundary_violation, store)))
    unfolding create_approval with_work_unit
    create_approval_cases tenant row store =
        elim (Option-cases (find_preview tenant row.action_preview_id)) [
          | inl e ↦ inr (λ p. ground (arith, e, p.found_preview), rw (create_approval, e) refl)
          | inr (preview, e) ↦ elim (Bool-cases (preview.work_unit_id == row.work_unit_id)) [
            | inr f ↦ inr (
              λ p. differs preview.work_unit_id row.work_unit_id f (
                  ap (λ x. x.work_unit_id) (some-injective _ _ (sym e ∙ p.found_preview))
                  ∙ p.same_work_unit),
              rw (create_approval, e, f) refl,
            )
            | inl f ↦ elim (Option-cases (find_work_unit tenant row.work_unit_id)) [
              | inl g ↦ inr (
                λ p. ground (arith, g, p.found_work_unit),
                rw (create_approval, e, f, with_work_unit, g) refl,
              )
              | inr (work_unit, g) ↦ bound tenant row store preview work_unit e g f
            ]
          ]
        ]
