-- ===== src/RateLimit/Bounds.antt =====
-- The size of the map of app/lib/security/rateLimitGate.ts and the counts in it.
use atra_workunit_os.Prelude.{ℕ, ◌+◌, ◌≤◌, String, List, [], ◌∷◌, arith, length, All}
use atra_workunit_os.Prelude.Dict.Maps.{length-insert, insert-All, lookup-All, IsMap, insert-IsMap}
use atra_workunit_os.RateLimit.Pruning.{prune_expired_entries-IsPart, length-prune_expired_entries}
use atra_workunit_os.RateLimit.{
  RateLimitKey, Entry, Store, max_requests, max_store_entries, build_key, prune_expired_entries,
  admit, check_rate_limit, fresh, counted, refused, admit-Admission,
}

-- A request with the time at which it comes.
abbrev pub TimedRequest : Type 0
TimedRequest = RateLimitKey × ℕ

unfoldable pub store_after : List TimedRequest → Store → Store
store_after [] store = store
store_after ((key, now) ∷ requests) store = store_after requests (check_rate_limit key now store).1

abbrev pub IsCounted : String × Entry → Type 0
IsCounted e = (1 ≤ (e.1).count) × ((e.1).count ≤ max_requests)

pub record IsBounded (store : Store) : Type 0 where
  pub distinct : IsMap store
  pub counted : All IsCounted store
  pub size : length store ≤ max_store_entries

admit-IsCounted :
    (k : String) (now : ℕ) (store : Store)
    → All IsCounted store
    → All IsCounted (admit k now store).1
admit-IsCounted k now store h = elim (admit-Admission k now store) [
  | fresh over e ↦ rw (e) (insert-All IsCounted k _ store (omega arith, omega arith) h)
  | counted entry found going free e ↦
      let old = lookup-All IsCounted k store h found in
      let more : entry.count + 1 ≤ max_requests = ground (arith, free) in
      rw (e) (insert-All IsCounted k _ store (omega (arith, old.0), more) h)
  | refused entry found going full e ↦ rw (e) h
]

admit-IsMap : (k : String) (now : ℕ) (store : Store) → IsMap store → IsMap (admit k now store).1
admit-IsMap k now store h = elim (admit-Admission k now store) [
  | fresh over e ↦ rw (e) (insert-IsMap k _ store h)
  | counted entry found going free e ↦ rw (e) (insert-IsMap k _ store h)
  | refused entry found going full e ↦ rw (e) h
]

admit-size :
    (k : String) (now : ℕ) (store : Store) → length (admit k now store).1 ≤ length store + 1
admit-size k now store = elim (admit-Admission k now store) [
  | fresh over e ↦
      rw (e) (omega (arith, length-insert k (record { count = 1; window_start = now }) store))
  | counted entry found going free e ↦
      rw (e) (omega (arith, length-insert k (record entry { count = entry.count + 1 }) store))
  | refused entry found going full e ↦ rw (e) (omega arith)
]

pub check_rate_limit-IsBounded :
    (key : RateLimitKey) (now : ℕ) (store : Store)
    → IsBounded store
    → IsBounded (check_rate_limit key now store).1
unfolding check_rate_limit
check_rate_limit-IsBounded key now store h =
    let part = prune_expired_entries-IsPart now store in
    let room = length-prune_expired_entries now store h.size in
    let pruned : Store = prune_expired_entries now store in
    record {
      distinct = admit-IsMap (build_key key) now pruned (part.distinct h.distinct);
      counted = admit-IsCounted (build_key key) now pruned (part.all IsCounted h.counted);
      size = omega (arith, room, admit-size (build_key key) now pruned);
    }

pub IsBounded-store_after :
    (requests : List TimedRequest) (store : Store)
    → IsBounded store
    → IsBounded (store_after requests store)
unfolding store_after
IsBounded-store_after [] store h = h
IsBounded-store_after ((key, now) ∷ requests) store h =
    IsBounded-store_after requests (check_rate_limit key now store).1
      (check_rate_limit-IsBounded key now store h)

-- After any sequence of requests, at whatever times, the map has at most 10,000 entries, no key
-- twice, and every count in it is between 1 and 60.
pub store_after-IsBounded : (requests : List TimedRequest) → IsBounded (store_after requests [])
unfolding IsMap
store_after-IsBounded requests =
    IsBounded-store_after requests [] (record { distinct = tt; counted = tt; size = omega arith })
