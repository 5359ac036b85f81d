-- ===== src/Persistence/D1/Steps.antt =====
-- Single calls on both approval repositories of app/lib/persistence.
use atra_workunit_os.Prelude.{
  ◌≡◌, refl, ◌∙◌, ap, String, none, some, [], ◌∷◌, ◌++◌, arith, ◌==◌, eq_iff, inl, inr,
  Option-cases, Bool-cases,
}
use atra_workunit_os.Prelude.Dict.{lookup, insert, values}
use atra_workunit_os.Approval.{ApprovalStatus, ActionApprovalRecord}
use atra_workunit_os.Persistence.Tables.{
  find_first, Indexed, Indexed-key, update_where-values, find_first-values,
}
use atra_workunit_os.Persistence.Approvals.{
  Rows, own, with_status, create, find_by_id, update_status,
}
use atra_workunit_os.Persistence.D1.{owned_where, d1_create, d1_find_by_id, d1_update_status}
use atra_workunit_os.Persistence.D1.Refinement.{
  IsWellFormed, row_id, owned_where-eq, d1_find_by_id-insert,
}

pub find_by_id-refines :
    (tenant id : String) (rows : Rows)
    → IsWellFormed rows
    → d1_find_by_id tenant id (values rows) ≡ find_by_id tenant id rows
unfolding d1_find_by_id find_by_id
find_by_id-refines tenant id rows w =
    find_first-values row_id id (λ row. row.tenant_id == tenant) (owned_where tenant id) rows
      w.indexed (owned_where-eq tenant id (values rows))

pub update_status-refines :
    (tenant id : String) (s : ApprovalStatus) (rows : Rows)
    → IsWellFormed rows
    → d1_update_status tenant id s (values rows)
      ≡ ((update_status tenant id s rows).0, values (update_status tenant id s rows).1)
unfolding d1_update_status update_status find_by_id
update_status-refines tenant id s rows w =
    let named = owned_where-eq tenant id (values rows) in
    let step =
      update_where-values row_id id (λ row. row.tenant_id == tenant) (owned_where tenant id)
        (with_status s) rows w.indexed named in
    let found = find_by_id-refines tenant id rows w in
    elim (Option-cases (lookup id rows)) [
      | inl e ↦
          let done = rw (e) at step in
          rw (d1_update_status, update_status, done, e)
            (ap (λ r. (r, values rows)) (found ∙ rw (find_by_id, e) refl))
      | inr (row, e) ↦ elim (Bool-cases (row.tenant_id == tenant)) [
        | inr h ↦
            let done = rw (e, h) at step in
            rw (d1_update_status, update_status, done, e, h)
              (ap (λ r. (r, values rows)) (found ∙ rw (find_by_id, e, h) refl))
        | inl h ↦
            let done = rw (e, h) at step in
            let key = Indexed-key row_id id rows w.indexed e in
            rw
              (
                d1_update_status,
                update_status,
                done,
                d1_find_by_id-insert tenant id (with_status s row) rows w.indexed key
                    ((eq_iff row.tenant_id tenant).0 h),
                e,
                h,
              )
              refl
      ]
    ]

values-insert :
    (id : String) (row : ActionApprovalRecord) (rows : Rows)
    → lookup id rows ≡ none
    → values (insert id row rows) ≡ values rows ++ (row ∷ [])
values-insert id row [] e = refl
values-insert id row ((j, r) ∷ rows) e = elim (Bool-cases (j == id)) [
  | inl same ↦ absurd (ground (arith, same))
  | inr other ↦
      let rest : lookup id rows ≡ none = rw (other) at e in
      rw (other, values-insert id row rows rest) refl
]

find_first-values-none :
    (id : String) (rows : Rows)
    → Indexed row_id rows
    → lookup id rows ≡ none
    → find_first (λ old. old.id == id) (values rows) ≡ none
find_first-values-none id [] w e = refl
find_first-values-none id ((j, r) ∷ rows) (k, _, w) e = elim (Bool-cases (j == id)) [
  | inl same ↦ absurd (ground (arith, same))
  | inr other ↦
      let rest : lookup id rows ≡ none = rw (other) at e in
      rw (k, other, find_first-values-none id rows w rest) refl
]

pub create-refines :
    (tenant : String) (row : ActionApprovalRecord) (rows : Rows)
    → IsWellFormed rows
    → lookup row.id rows ≡ none
    → d1_create tenant row (values rows)
      ≡ (some (create tenant row rows).0, values (create tenant row rows).1)
unfolding d1_create create
create-refines tenant row rows w e =
    rw
      (
        d1_create,
        find_first-values-none row.id rows w.indexed e,
        create,
        values-insert row.id (own tenant row) rows e,
      )
      refl
