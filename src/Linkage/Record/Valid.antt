-- ===== src/Linkage/Record/Valid.antt =====
-- What a valid linkage record is (app/lib/phase6/approvalLinkage/validation.ts).
use mathlib.Core.Path.{subst}
use atra_workunit_os.Prelude.{
  ◌≡◌, refl, String, Bool, true, some, List, [], ◌∷◌, arith, ◌==◌, inl, inr, Bool-cases, eq_iff,
}
use atra_workunit_os.Js.{
  Value, undefined, null, revoked, bool, num, str, arr, obj, Fields, field, throws, symbol, end,
}
use atra_workunit_os.Authorization.Snapshot.{property}
use atra_workunit_os.Identity.Issues.{is_non_empty-str, is_iso-str, is_one_of-str}
use atra_workunit_os.Identity.Positions.{snapshot_or_null}
use atra_workunit_os.Linkage.{IssueCode, invalid_approval_linkage_input, Issue, is_hex64}
use atra_workunit_os.Identity.Independence.Bindings.{is_text-str}
use atra_workunit_os.Identity.Independence.Parties.{snapshot_again}
use atra_workunit_os.Linkage.Record.{
  hash_algorithm, canonicalization_algorithm, action_types, Kind, identifier, hash, timestamp,
  action_type, hash_algo, canon_algo, field_specs, has_spec, is_of_kind, unknown_key_issues,
  field_issue, field_issues, validate_approval_linkage_record,
}

is_hex64-str : (v : Value) → is_hex64 v ≡ true → (s : String) × (v ≡ str s)
unfolding is_hex64
is_hex64-str (str s) h = (s, refl)
is_hex64-str undefined h = cc
is_hex64-str null h = cc
is_hex64-str revoked h = cc
is_hex64-str (bool b) h = cc
is_hex64-str (num n) h = cc
is_hex64-str (arr xs) h = cc
is_hex64-str (obj fs) h = cc

-- A field of a valid record is a text.
is_of_kind-str : (kind : Kind) (v : Value) → is_of_kind kind v ≡ true → (s : String) × (v ≡ str s)
unfolding is_of_kind
is_of_kind-str identifier v h = let (s, e, _) = is_non_empty-str v h in (s, e)
is_of_kind-str hash v h = is_hex64-str v h
is_of_kind-str timestamp v h = let (s, e, _) = is_iso-str v h in (s, e)
is_of_kind-str action_type v h = let (s, e, _) = is_one_of-str action_types v h in (s, e)
is_of_kind-str hash_algo v h = (hash_algorithm, is_text-str v hash_algorithm h)
is_of_kind-str canon_algo v h =
    (canonicalization_algorithm, is_text-str v canonicalization_algorithm h)

field_issue-none :
    (name : String) (kind : Kind) (fs : Fields) (rest : List Issue)
    → field_issue name kind fs rest ≡ []
    → (is_of_kind kind (property name fs) ≡ true) × (rest ≡ [])
unfolding field_issue
field_issue-none name kind fs rest h = (ground (arith, h), ground (arith, h))

field_issues-str :
    (specs : List (String × Kind)) (fs : Fields)
    → field_issues specs fs ≡ []
    → (name : String) → has_spec name specs ≡ true
    → (s : String) × (property name fs ≡ str s)
unfolding field_issues
field_issues-str [] fs h name there = absurd (ground (arith, there))
field_issues-str (spec ∷ specs) fs h name there =
    let (valid, rest) = field_issue-none spec.0 spec.1 fs (field_issues specs fs) h in
    elim (Bool-cases (spec.0 == name)) [
      | inl same ↦
          subst (λ k. (s : String) × (property k fs ≡ str s)) ((eq_iff spec.0 name).0 same)
            (is_of_kind-str spec.1 (property spec.0 fs) valid)
      | inr other ↦ field_issues-str specs fs rest name (ground (arith, there, other))
    ]

unknown_key_issues-none :
    (known : String → Bool) (code : IssueCode) (prefix : String) (fs : Fields) (rest : List Issue)
    → unknown_key_issues known code prefix fs rest ≡ []
    → rest ≡ []
unfolding unknown_key_issues
unknown_key_issues-none known code prefix end rest h = h
unknown_key_issues-none known code prefix (field k v fs) rest h =
    unknown_key_issues-none known code prefix fs rest (ground (arith, h))
unknown_key_issues-none known code prefix (throws k fs) rest h =
    unknown_key_issues-none known code prefix fs rest (ground (arith, h))
unknown_key_issues-none known code prefix (symbol fs) rest h =
    unknown_key_issues-none known code prefix fs rest h

-- The snapshot of a snapshot is itself.
pub snapshot_or_null-again :
    (v : Value) (copy : Fields)
    → snapshot_or_null v ≡ some copy
    → snapshot_or_null (obj copy) ≡ some copy
unfolding snapshot_or_null
snapshot_or_null-again v copy h = rw (snapshot_or_null, snapshot_again v h) refl

-- The fields of a valid record are texts.
pub validate_approval_linkage_record-str :
    (fs : Fields)
    → validate_approval_linkage_record (obj fs) ≡ []
    → snapshot_or_null (obj fs) ≡ some fs
    → (name : String) → has_spec name field_specs ≡ true
    → (s : String) × (property name fs ≡ str s)
unfolding validate_approval_linkage_record
validate_approval_linkage_record-str fs h read name there =
    let issues = rw (validate_approval_linkage_record, read) at h in
    field_issues-str field_specs fs
      (unknown_key_issues-none (λ k. has_spec k field_specs) invalid_approval_linkage_input
        "(linkage)" fs (field_issues field_specs fs) issues)
      name there
