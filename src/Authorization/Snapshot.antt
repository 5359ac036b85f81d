-- ===== src/Authorization/Snapshot.antt =====
-- Reading untrusted values once (app/lib/phase6/runtimeAuthorization/validation.ts).
use atra_workunit_os.Prelude.{
  ℕ, zero, suc, String, Bool, true, false, Option, none, some, List, ◌==◌, if◌then◌else◌, ◌&&◌, not,
  ◌>>=◌,
}
use atra_workunit_os.Js.{
  Value, undefined, null, revoked, bool, num, str, arr, obj, Items, nil, cons, Fields, end, field,
  throws, symbol, read_own, absent, unreadable, value, includes,
}

-- What a read gives: nothing if it throws.
abbrev pub Attempt : Type 0 → Type 0
Attempt A = Option A

-- `snapshot[key] = value[key]` for every own enumerable text key.
unfoldable pub copy_fields : Fields → Attempt Fields
copy_fields end = some end
copy_fields (field k v fs) = do fs ← copy_fields fs; some (field k v fs)
copy_fields (throws k fs) = none
copy_fields (symbol fs) = copy_fields fs

-- `snapshotRecordOrNull`
unfoldable pub snapshot_record_or_null : Value → Attempt (Option Fields)
unfolding copy_fields
snapshot_record_or_null (obj fs) = do fs ← copy_fields fs; some (some fs)
snapshot_record_or_null revoked = none
snapshot_record_or_null _ = some none

-- `snapshotDeepFrozen`
unfoldable mutual
  pub snapshot_deep_frozen : Value → ℕ → Attempt Value
  snapshot_deep_frozen v zero = some v
  snapshot_deep_frozen revoked (suc n) = none
  snapshot_deep_frozen (arr items) (suc n) = do items ← snapshot_items items n; some (arr items)
  snapshot_deep_frozen (obj fs) (suc n) = do fs ← snapshot_fields fs n; some (obj fs)
  snapshot_deep_frozen undefined (suc n) = some undefined
  snapshot_deep_frozen null (suc n) = some null
  snapshot_deep_frozen (bool b) (suc n) = some (bool b)
  snapshot_deep_frozen (num b) (suc n) = some (num b)
  snapshot_deep_frozen (str s) (suc n) = some (str s)

  pub snapshot_items : Items → ℕ → Attempt Items
  snapshot_items nil n = some nil
  snapshot_items (cons v items) n = do
    v ← snapshot_deep_frozen v n
    items ← snapshot_items items n
    some (cons v items)

  pub snapshot_fields : Fields → ℕ → Attempt Fields
  snapshot_fields end n = some end
  snapshot_fields (field k v fs) n = do
    v ← snapshot_deep_frozen v n
    fs ← snapshot_fields fs n
    some (field k v fs)
  snapshot_fields (throws k fs) n = none
  snapshot_fields (symbol fs) n = snapshot_fields fs n

-- `snapshot.key` on a snapshot.
unfoldable pub property : String → Fields → Value
unfolding read_own
property k fs = elim (read_own k fs) [ absent ↦ undefined | unreadable ↦ undefined | value v ↦ v ]

-- `Object.keys(snapshot)` are all among the listed ones.
unfoldable pub only_keys : List String → Fields → Bool
unfolding includes
only_keys names end = true
only_keys names (field k v fs) = includes names k && only_keys names fs
only_keys names (throws k fs) = includes names k && only_keys names fs
only_keys names (symbol fs) = only_keys names fs

-- `value === text`
abbrev pub is_text : Value → String → Bool
is_text (str s) t = s == t
is_text _ t = false

-- `value === flag`
abbrev pub is_flag : Value → Bool → Bool
is_flag (bool b) c = if b then c else not c
is_flag _ c = false

-- `isRuntimeAuthorizationNonEmptyString`
abbrev pub non_empty_string : Value → Option String
non_empty_string (str s) = if s == "" then none else some s
non_empty_string _ = none
