-- ===== src/Persistence/D1/Expiry.antt =====
-- The unbound claims of the two approval repositories at the very instant of expiry: the in-memory
-- one tests `>`, the SQL one `expires_at > ?`.
use atra_workunit_os.Prelude.{
  ℕ, ◌≡◌, refl, ◌∙◌, String, Bool, true, false, Option, none, some, List, [], ◌∷◌, arith, ◌==◌,
  eq_iff, ◌&&◌, inl, inr, Option-cases, ltb,
}
use atra_workunit_os.Prelude.Dict.{lookup, values}
use atra_workunit_os.Time.{date_gt, text_lt, instant}
use atra_workunit_os.Time.Canonical.{is_canonical_instant, canonical_instant, text_lt-instant}
use atra_workunit_os.Time.Compare.{date_ge-text_lt}
use atra_workunit_os.Approval.{approved, is_status, ActionApprovalRecord}
use atra_workunit_os.Approval.Store.{use_record}
use atra_workunit_os.Persistence.Tables.{NamesKey, update_where-values}
use atra_workunit_os.Persistence.Approvals.{Rows, may_mark_used, mark_used}
use atra_workunit_os.Persistence.D1.{is_null, mark_used_where, d1_mark_used}
use atra_workunit_os.Persistence.D1.Refinement.{IsWellFormed, row_id}

ltb_irrefl : (n : ℕ) → ltb n n ≡ false
ltb_irrefl n = ground arith

text_lt_irrefl : (a : String) → is_canonical_instant a ≡ true → text_lt a a ≡ false
unfolding is_canonical_instant
text_lt_irrefl a h = elim (Option-cases (canonical_instant a)) [
  | inl e ↦ absurd (ground (arith, e))
  | inr (p, e) ↦ rw (text_lt-instant a a p p e e) (ltb_irrefl (instant p))
]

abbrev mark_holds : String → String → ActionApprovalRecord → Bool
mark_holds tenant used_at row =
    (row.tenant_id == tenant)
    && is_status row.status approved
    && is_null row.used_at
    && text_lt used_at row.expires_at

mark_used_where-eq :
    (tenant id at : String) (rows : List ActionApprovalRecord)
    → NamesKey row_id id (mark_holds tenant at) (mark_used_where tenant id at) rows
unfolding mark_used_where
mark_used_where-eq tenant id at [] = tt
mark_used_where-eq tenant id at (row ∷ rows) = (ground arith, mark_used_where-eq tenant id at rows)

module _ (fallback : String → Option ℕ) where
  may_mark_used-at_expiry :
      (row : ActionApprovalRecord)
      → row.status ≡ approved
      → row.used_at ≡ none
      → date_gt fallback row.expires_at row.expires_at ≡ false
      → may_mark_used fallback row.tenant_id row.expires_at row ≡ true
  unfolding may_mark_used
  may_mark_used-at_expiry row a u h = ground (arith, eq_iff row.tenant_id row.tenant_id)

  -- An approved row that was never used, marked by its own tenant at exactly the time it expires, is
  -- used in memory and refused by SQL, which leaves the table as it was.
  pub mark_used-at_expiry :
      (id : String) (row : ActionApprovalRecord) (rows : Rows)
      → IsWellFormed rows
      → lookup id rows ≡ some row
      → row.status ≡ approved
      → row.used_at ≡ none
      → is_canonical_instant row.expires_at ≡ true
      → ((mark_used fallback row.tenant_id id row.expires_at rows).0
          ≡ some (use_record row row.expires_at))
        × (d1_mark_used row.tenant_id id row.expires_at (values rows) ≡ (none, values rows))
  unfolding mark_used d1_mark_used
  mark_used-at_expiry id row rows w e a u c =
      let never = text_lt_irrefl row.expires_at c in
      let late = (date_ge-text_lt fallback row.expires_at row.expires_at c c).1 in
      let shut : mark_holds row.tenant_id row.expires_at row ≡ false = ground (arith, never) in
      let step =
        update_where-values row_id id (mark_holds row.tenant_id row.expires_at)
          (mark_used_where row.tenant_id id row.expires_at) (λ r. use_record r row.expires_at) rows
          w.indexed (mark_used_where-eq row.tenant_id id row.expires_at (values rows)) in
      let done = rw (e, shut) at step in
      (
        rw (mark_used, e, may_mark_used-at_expiry row a u (late ∙ never)) refl,
        rw (d1_mark_used, done) refl,
      )
