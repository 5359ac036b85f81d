-- ===== src/Persistence/Usage.antt =====
-- The in-memory usage repository of app/lib/persistence/inMemoryRepositories.ts, with the rows of
-- app/lib/persistence/types.ts. Quantities are natural numbers.
use atra_workunit_os.Prelude.{
  ℕ, zero, suc, ◌+◌, ◌≡◌, refl, ap, eq_iff, String, Bool, Option, none, some, List, [], ◌∷◌, ◌++◌,
  arith, ◌==◌, if◌then◌else◌, ◌&&◌, inl, inr, Bool-cases, keep, unless,
}
use atra_workunit_os.Prelude.Dict.{Dict, lookup, insert, values, lookup-insert}
use Prim.Native.String.{◌++◌ as ◌+++◌}

pub record UsageEventRow : Type 0 where
  pub id : String
  pub tenant_id : String
  pub event_type : String
  pub quantity : ℕ
  pub resource_type : Option String
  pub resource_id : Option String
  pub metadata_json : Option String
  pub created_at : String

pub record UsageDailySummaryRow : Type 0 where
  pub tenant_id : String
  pub date : String
  pub event_type : String
  pub quantity : ℕ
  pub updated_at : String

pub record Usage : Type 0 where
  pub events : List UsageEventRow
  pub summary : Dict UsageDailySummaryRow

-- `slice(0, n)` of a text without surrogate pairs, such as a time.
abbrev pub first_chars : ℕ → String → String
first_chars zero s = ""
first_chars (suc n) String.[] = ""
first_chars (suc n) (String.◌∷◌ c s) = String.◌∷◌ c (first_chars n s)

unfoldable pub summary_key : String → UsageEventRow → String
summary_key tenant row = tenant +++ ":" +++ first_chars 10 row.created_at +++ ":" +++ row.event_type

-- `existing?.quantity ?? 0`
unfoldable pub quantity_under : String → Dict UsageDailySummaryRow → ℕ
quantity_under key summary = elim (lookup key summary) [ none ↦ 0 | some row ↦ row.quantity ]

-- The context's tenant, the row, and the time of the update.
unfoldable pub record_event : String → String → UsageEventRow → Usage → UsageEventRow × Usage
record_event tenant now row usage =
    let kept : UsageEventRow = record row { tenant_id = tenant } in
    let key : String = summary_key tenant kept in
    let day : UsageDailySummaryRow = record {
      tenant_id = tenant;
      date = first_chars 10 row.created_at;
      event_type = row.event_type;
      quantity = quantity_under key usage.summary + row.quantity;
      updated_at = now;
    } in
    (kept, record { events = usage.events ++ (kept ∷ []); summary = insert key day usage.summary })

abbrev pub sum : List UsageEventRow → ℕ
sum [] = 0
sum (row ∷ rows) = row.quantity + sum rows

unfoldable pub get_daily_summary : String → String → String → Usage → List UsageDailySummaryRow
get_daily_summary context tenant date usage =
    unless (tenant == context) []
      (keep (λ day. (day.date == date) && (day.tenant_id == context)) (values usage.summary))

unfoldable pub get_current_usage : String → String → String → Usage → ℕ
get_current_usage context tenant event_type usage =
    unless (tenant == context) 0 (
      sum (keep (λ row. (row.tenant_id == context) && (row.event_type == event_type)) usage.events))

-- Calls of recordEvent, in the order in which they are made.
abbrev pub record_all : List (String × String × UsageEventRow) → Usage → Usage
record_all [] usage = usage
record_all ((tenant, now, row) ∷ calls) usage =
    record_all calls (record_event tenant now row usage).1

abbrev pub no_usage : Usage
no_usage = record { events = []; summary = [] }

sum-append :
    (test : UsageEventRow → Bool) (rows : List UsageEventRow) (row : UsageEventRow)
    → sum (keep test (rows ++ (row ∷ [])))
      ≡ sum (keep test rows) + (if test row then row.quantity else 0)
sum-append test [] row = elim (Bool-cases (test row)) [
  | inl a ↦ rw (a) omega arith
  | inr a ↦ rw (a) refl
]
sum-append test (r ∷ rows) row =
    let rest = sum-append test rows row in
    elim (Bool-cases (test r)) [ inl a ↦ rw (a) omega (arith, rest) | inr a ↦ rw (a) rest ]

-- Each summary agrees with the events that have its key.
unfoldable pub IsBalanced : Usage → Type 0
IsBalanced usage =
    (key : String)
    → quantity_under key usage.summary
      ≡ sum (keep (λ row. summary_key row.tenant_id row == key) usage.events)

quantity_under-insert :
    (new key : String) (day : UsageDailySummaryRow) (summary : Dict UsageDailySummaryRow)
    → quantity_under key (insert new day summary)
      ≡ (if new == key then day.quantity else quantity_under key summary)
unfolding quantity_under
quantity_under-insert new key day summary = elim (Bool-cases (new == key)) [
  | inl same ↦ rw (quantity_under, lookup-insert new key day summary, same) refl
  | inr other ↦ rw (quantity_under, lookup-insert new key day summary, other) refl
]

record_event-IsBalanced :
    (tenant now : String) (row : UsageEventRow) (usage : Usage)
    → IsBalanced usage
    → IsBalanced (record_event tenant now row usage).1
unfolding IsBalanced record_event
record_event-IsBalanced tenant now row usage b key =
    let kept : UsageEventRow = record row { tenant_id = tenant } in
    let new : String = summary_key tenant kept in
    let after = sum-append (λ r. summary_key r.tenant_id r == key) usage.events kept in
    elim (Bool-cases (new == key)) [
      | inl same ↦
          let e : new ≡ key = (eq_iff new key).0 same in
          let old : quantity_under new usage.summary ≡ quantity_under key usage.summary =
            ap (λ k. quantity_under k usage.summary) e in
          rw (quantity_under-insert new key _ usage.summary, after, same) omega (arith, b key, old)
      | inr other ↦
          rw (quantity_under-insert new key _ usage.summary, after, other) omega (arith, b key)
    ]

record_all-preserves :
    (calls : List (String × String × UsageEventRow)) (usage : Usage)
    → IsBalanced usage
    → IsBalanced (record_all calls usage)
record_all-preserves [] usage b = b
record_all-preserves ((tenant, now, row) ∷ calls) usage b =
    record_all-preserves calls (record_event tenant now row usage).1
      (record_event-IsBalanced tenant now row usage b)

-- After any sequence of recorded events, the quantity of the daily summary under a key is the sum of
-- the quantities of the events that have this key, and 0 if there are none.
pub record_all-balance :
    (calls : List (String × String × UsageEventRow)) (key : String)
    → quantity_under key (record_all calls no_usage).summary
      ≡ sum (keep (λ row. summary_key row.tenant_id row == key) (record_all calls no_usage).events)
unfolding IsBalanced quantity_under
record_all-balance calls key = record_all-preserves calls no_usage (λ k. refl) key

-- A recorded event adds its quantity to the current usage that its own tenant reads for its type, and
-- nothing to any other reading; a reading for another tenant than the context's is 0 before and after.
pub record_event-get_current_usage :
    (writer now context tenant event_type : String) (row : UsageEventRow) (usage : Usage)
    → get_current_usage context tenant event_type (record_event writer now row usage).1
      ≡ get_current_usage context tenant event_type usage
        + (if (tenant == context) && ((writer == context) && (row.event_type == event_type))
            then row.quantity
            else 0)
unfolding record_event get_current_usage
record_event-get_current_usage writer now context tenant event_type row usage =
    let kept : UsageEventRow = record row { tenant_id = writer } in
    let after =
      sum-append (λ r. (r.tenant_id == context) && (r.event_type == event_type)) usage.events
        kept in
    elim (Bool-cases (tenant == context)) [
      | inl same ↦ rw (same) after
      | inr other ↦ rw (other) refl
    ]
