-- ===== src/RateLimit.antt =====
-- The in-memory rate limiter (app/lib/security/rateLimitGate.ts): a map from request keys to the
-- current window of each. The clock is a parameter of each call, in milliseconds.
pub mod Pruning
pub mod Bounds
pub mod Burst
pub mod History
pub mod Tests
use Prim.Native.String.{◌++◌ as ◌+++◌}
use atra_workunit_os.Prelude.{
  ℕ, ◌≡◌, refl, arith, inl, inr, ◌+◌, ◌-◌, ◌/◌, String, Bool, true, false, none, some, [], ◌∷◌,
  ◌==◌, ltb, leb, not, if◌then◌else◌, length, take, keep, Option-cases, Bool-cases,
}
use atra_workunit_os.Prelude.Dict.{Dict, lookup, insert}

pub record RateLimitKey : Type 0 where
  pub tenant_id : String
  pub actor_user_id : String
  pub client_ip : String
  pub route_family : String

-- `RateLimitEntry`
pub record Entry : Type 0 where
  pub count : ℕ
  pub window_start : ℕ

abbrev pub Store : Type 0
Store = Dict Entry

abbrev pub max_requests : ℕ
max_requests = 60

abbrev pub window_ms : ℕ
window_ms = 60000

abbrev pub max_store_entries : ℕ
max_store_entries = 10000

unfoldable pub build_key : RateLimitKey → String
build_key key =
    key.route_family +++ ":" +++ key.tenant_id +++ ":" +++ key.actor_user_id +++ ":"
    +++ key.client_ip

-- `now - entry.windowStart > WINDOW_MS`: a start after `now` is not over either way.
abbrev pub is_over : ℕ → Entry → Bool
is_over now entry = ltb window_ms (now - entry.window_start)

-- `Map.delete`
abbrev pub delete : String → Store → Store
delete key store = keep (λ e. not (e.0 == key)) store

-- The stable sort by the start of the window, by insertion.
abbrev pub insert_by_start : String × Entry → Store → Store
insert_by_start e [] = e ∷ []
insert_by_start e (f ∷ fs) =
    if leb (e.1).window_start (f.1).window_start then e ∷ f ∷ fs else f ∷ insert_by_start e fs

abbrev pub sort_by_start : Store → Store
sort_by_start [] = []
sort_by_start (e ∷ es) = insert_by_start e (sort_by_start es)

abbrev pub delete_all : Store → Store → Store
delete_all [] store = store
delete_all (e ∷ es) store = delete_all es (delete e.0 store)

-- `Math.ceil(oldest.length / 10)`
abbrev pub tenth : ℕ → ℕ
tenth n = (n + 9) / 10

unfoldable pub evict_oldest : Store → Store
evict_oldest store =
    let oldest = sort_by_start store in delete_all (take (tenth (length oldest)) oldest) store

abbrev pub drop_over : ℕ → Store → Store
drop_over now store = keep (λ e. not (is_over now e.1)) store

unfoldable pub prune_expired_entries : ℕ → Store → Store
prune_expired_entries now store =
    if ltb (length store) max_store_entries
    then store
    else if ltb (length (drop_over now store)) max_store_entries
    then drop_over now store
    else evict_oldest (drop_over now store)

-- What a call does after the pruning; true if it returns `{ ok: true }`.
unfoldable pub admit : String → ℕ → Store → Bool × Store
admit k now store = elim (lookup k store) [
  | none ↦ (true, insert k (record { count = 1; window_start = now }) store)
  | some entry ↦
      if is_over now entry
      then (true, insert k (record { count = 1; window_start = now }) store)
      else if leb max_requests entry.count
      then (false, store)
      else (true, insert k (record entry { count = entry.count + 1 }) store)
]

unfoldable pub check_rate_limit : RateLimitKey → ℕ → Store → Bool × Store
check_rate_limit key now store = admit (build_key key) now (prune_expired_entries now store)

unfoldable pub get_rate_limit_count : RateLimitKey → Store → ℕ
get_rate_limit_count key store = elim (lookup (build_key key) store) [
  | none ↦ 0
  | some entry ↦ entry.count
]

abbrev pub reset_rate_limit_store : Store → Store
reset_rate_limit_store store = []

-- The three ways of a call after the pruning.
pub data Admission (k : String) (now : ℕ) (store : Store) : Type 0 where
  fresh :
      ((entry : Entry) → lookup k store ≡ some entry → is_over now entry ≡ true)
      → admit k now store ≡ (true, insert k (record { count = 1; window_start = now }) store)
      → Admission k now store
  counted :
      (entry : Entry)
      → lookup k store ≡ some entry
      → is_over now entry ≡ false
      → leb max_requests entry.count ≡ false
      → admit k now store ≡ (true, insert k (record entry { count = entry.count + 1 }) store)
      → Admission k now store
  refused :
      (entry : Entry)
      → lookup k store ≡ some entry
      → is_over now entry ≡ false
      → leb max_requests entry.count ≡ true
      → admit k now store ≡ (false, store)
      → Admission k now store

pub admit-Admission : (k : String) (now : ℕ) (store : Store) → Admission k now store
unfolding admit
admit-Admission k now store = elim (Option-cases (lookup k store)) [
  | inl e ↦ fresh (λ entry h. absurd (ground (arith, e, h))) (rw (admit, e) refl)
  | inr (entry, e) ↦ elim (Bool-cases (is_over now entry)) [
    | inl over ↦ fresh (λ other h. ground (arith, e, h, over)) (rw (admit, e, over) refl)
    | inr going ↦ elim (Bool-cases (leb max_requests entry.count)) [
      | inl full ↦ refused entry e going full (rw (admit, e, going, full) refl)
      | inr free ↦ counted entry e going free (rw (admit, e, going, free) refl)
    ]
  ]
]
