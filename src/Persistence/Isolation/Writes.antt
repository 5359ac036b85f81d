-- ===== src/Persistence/Isolation/Writes.antt =====
-- What the calls of other tenants do to a tenant's view of the in-memory approval repository
-- (app/lib/persistence/inMemoryRepositories.ts).
use atra_workunit_os.Prelude.{
  ℕ, ◌≡◌, refl, sym, ◌∙◌, ap, String, true, false, Option, some, List, [], ◌∷◌, arith, ◌==◌, eq_iff,
  ◌⊎◌, inl, inr, Option-cases, Bool-cases,
}
use mathlib.Core.Path.{subst}
use mathlib.Core.Option.{some-injective}
use atra_workunit_os.Prelude.Dict.{lookup, insert}
use atra_workunit_os.Time.{is_iso_utc_timestamp}
use atra_workunit_os.Approval.{ApprovalStatus, ActionApprovalRecord}
use atra_workunit_os.Approval.Store.{use_record}
use atra_workunit_os.Persistence.Tables.{Indexed, Indexed-insert, Indexed-key}
use atra_workunit_os.Persistence.Approvals.{
  ClaimFields, Rows, own, with_status, create, update_status, may_mark_used, mark_used,
  may_claim_row, may_claim_row-tenant, claim_for_runtime,
}
use atra_workunit_os.Persistence.Isolation.{
  row_id, owned_rows, owned_rows-insert, SameReads, owned_rows-SameReads,
}

-- A call that writes, under a tenant's context.
pub data Write : Type 0 where
  creating : String → ActionApprovalRecord → Write
  updating : String → String → ApprovalStatus → Write
  marking : String → String → String → Write
  claiming : String → ClaimFields → Write

abbrev pub writer : Write → String
writer (creating tenant row) = tenant
writer (updating tenant id s) = tenant
writer (marking tenant id at) = tenant
writer (claiming tenant input) = tenant

module _ (fallback : String → Option ℕ) where
  unfoldable pub write : Write → Rows → Rows
  write (creating tenant row) rows = (create tenant row rows).1
  write (updating tenant id s) rows = (update_status tenant id s rows).1
  write (marking tenant id at) rows = (mark_used fallback tenant id at rows).1
  write (claiming tenant input) rows = (claim_for_runtime fallback tenant input rows).1

  unfoldable pub write_all : List Write → Rows → Rows
  write_all [] rows = rows
  write_all (w ∷ ws) rows = write_all ws (write w rows)

  -- A creation spares a tenant if no row of the tenant stands under its id; others always do.
  unfoldable pub Spares : String → Write → Rows → Type 0
  Spares tenant (creating _ new) rows =
      (row : ActionApprovalRecord)
      → lookup new.id rows ≡ some row
      → (row.tenant_id == tenant) ≡ false
  Spares tenant (updating _ _ _) rows = Unit
  Spares tenant (marking _ _ _) rows = Unit
  Spares tenant (claiming _ _) rows = Unit

  unfoldable pub AreForeign : String → List Write → Rows → Type 0
  AreForeign tenant [] rows = Unit
  AreForeign tenant (w ∷ ws) rows =
      ((writer w == tenant) ≡ false) × Spares tenant w rows × AreForeign tenant ws (write w rows)

  -- A write that puts a row of the writer under an id, where another tenant's row does not stand.
  record Written (tenant : String) (w : Write) (rows : Rows) : Type 0 where
    id : String
    new : ActionApprovalRecord
    keyed : new.id ≡ id
    mine : new.tenant_id ≡ writer w
    over :
        (row : ActionApprovalRecord) → lookup id rows ≡ some row → (row.tenant_id == tenant) ≡ false
    result : write w rows ≡ insert id new rows

  -- A write over a row of the writer's own.
  own_write :
      (tenant id : String) (w : Write) (rows : Rows) (row new : ActionApprovalRecord)
      → (writer w == tenant) ≡ false
      → Indexed row_id rows
      → lookup id rows ≡ some row
      → row.tenant_id ≡ writer w
      → new.id ≡ row.id
      → new.tenant_id ≡ row.tenant_id
      → write w rows ≡ insert id new rows
      → Written tenant w rows ⊎ (write w rows ≡ rows)
  own_write tenant id w rows row new f i e o k t r = inl (record {
    id = id;
    new = new;
    keyed = k ∙ Indexed-key row_id id rows i e;
    mine = t ∙ o;
    over = λ other g.
        subst (λ x. (x.tenant_id == tenant) ≡ false) (some-injective _ _ (sym e ∙ g))
          (ap (λ u. u == tenant) o ∙ f);
    result = r;
  })

  may_mark_used-tenant :
      (tenant at : String) (row : ActionApprovalRecord)
      → may_mark_used fallback tenant at row ≡ true
      → row.tenant_id ≡ tenant
  unfolding may_mark_used
  may_mark_used-tenant tenant at row h = ground (arith, eq_iff row.tenant_id tenant)

  write-Written :
      (tenant : String) (w : Write) (rows : Rows)
      → (writer w == tenant) ≡ false
      → Spares tenant w rows
      → Indexed row_id rows
      → Written tenant w rows ⊎ (write w rows ≡ rows)
  unfolding write create update_status mark_used claim_for_runtime Spares
  write-Written tenant (creating t row) rows f s i =
      inl (record {
        id = row.id;
        new = own t row;
        keyed = refl;
        mine = refl;
        over = s;
        result = refl;
      })
  write-Written tenant (updating t id s) rows f _ i = elim (Option-cases (lookup id rows)) [
    | inl e ↦ inr (rw (write, update_status, e) refl)
    | inr (row, e) ↦ elim (Bool-cases (row.tenant_id == t)) [
      | inr h ↦ inr (rw (write, update_status, e, h) refl)
      | inl h ↦
          own_write tenant id (updating t id s) rows row (with_status s row) f i e
            ((eq_iff row.tenant_id t).0 h) refl refl (rw (write, update_status, e, h) refl)
    ]
  ]
  write-Written tenant (marking t id at) rows f _ i = elim (Option-cases (lookup id rows)) [
    | inl e ↦ inr (rw (write, mark_used, e) refl)
    | inr (row, e) ↦ elim (Bool-cases (may_mark_used fallback t at row)) [
      | inr h ↦ inr (rw (write, mark_used, e, h) refl)
      | inl h ↦
          own_write tenant id (marking t id at) rows row (use_record row at) f i e
            (may_mark_used-tenant t at row h) refl refl (rw (write, mark_used, e, h) refl)
    ]
  ]
  write-Written tenant (claiming t input) rows f _ i =
      elim (Bool-cases (is_iso_utc_timestamp input.claimed_at)) [
        | inr late ↦ inr (rw (write, claim_for_runtime, late) refl)
        | inl timely ↦ elim (Option-cases (lookup input.id rows)) [
          | inl e ↦ inr (rw (write, claim_for_runtime, timely, e) refl)
          | inr (row, e) ↦ elim (Bool-cases (may_claim_row fallback t input row)) [
            | inr h ↦ inr (rw (write, claim_for_runtime, timely, e, h) refl)
            | inl h ↦
                own_write tenant input.id (claiming t input) rows row
                  (use_record row input.claimed_at) f i e
                  (may_claim_row-tenant fallback t input row h) refl refl
                  (rw (write, claim_for_runtime, timely, e, h) refl)
          ]
        ]
      ]

  write-owned_rows :
      (tenant : String) (w : Write) (rows : Rows)
      → (writer w == tenant) ≡ false
      → Spares tenant w rows
      → Indexed row_id rows
      → (owned_rows tenant (write w rows) ≡ owned_rows tenant rows) × Indexed row_id (write w rows)
  write-owned_rows tenant w rows f s i = elim (write-Written tenant w rows f s i) [
    | inr e ↦ rw (e) (refl, i)
    | inl c ↦ rw (c.result) (
      owned_rows-insert tenant c.id c.new rows (ap (λ u. u == tenant) c.mine ∙ f) c.over,
      Indexed-insert row_id c.id c.new rows c.keyed i,
    )
  ]

  write_all-owned_rows :
      (tenant : String) (ws : List Write) (rows : Rows)
      → AreForeign tenant ws rows
      → Indexed row_id rows
      → (owned_rows tenant (write_all ws rows) ≡ owned_rows tenant rows)
        × Indexed row_id (write_all ws rows)
  unfolding write_all AreForeign
  write_all-owned_rows tenant [] rows a i = (refl, i)
  write_all-owned_rows tenant (w ∷ ws) rows (f, s, a) i =
      let (e, j) = write-owned_rows tenant w rows f s i in
      let (g, k) = write_all-owned_rows tenant ws (write w rows) a j in (g ∙ e, k)

  -- Whatever other tenants create, update, mark and claim, in any number and order, a tenant reads
  -- what it read before: by id, by preview, and by work unit in any locale's order. The condition is
  -- that none of their creations takes an id that a row of the tenant holds.
  pub write_all-SameReads :
      (tenant : String) (ws : List Write) (rows : Rows)
      → AreForeign tenant ws rows
      → Indexed row_id rows
      → SameReads tenant (write_all ws rows) rows
  write_all-SameReads tenant ws rows a i =
      let (e, j) = write_all-owned_rows tenant ws rows a i in
      owned_rows-SameReads tenant (write_all ws rows) rows j i e
