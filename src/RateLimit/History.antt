-- ===== src/RateLimit/History.antt =====
-- Why app/lib/security/rateLimitGate.ts refuses: sequences of requests under a clock that does not
-- go back.
use atra_workunit_os.Prelude.{
  ℕ, ◌+◌, ◌-◌, ◌≡◌, ◌≤◌, ◌<◌, refl, String, true, List, [], ◌∷◌, ◌==◌, ◌&&◌, arith, leb,
  if◌then◌else◌, All, eq_iff,
}
use atra_workunit_os.Prelude.Dict.Maps.{insert-All, lookup-All}
use atra_workunit_os.RateLimit.{
  RateLimitKey, Entry, Store, max_requests, window_ms, build_key, prune_expired_entries, admit,
  check_rate_limit, fresh, counted, refused, admit-Admission,
}
use atra_workunit_os.RateLimit.Pruning.{All-weaken, prune_expired_entries-IsPart}

-- The admissions so far, the last one first, each with its key of the map and its time.
abbrev pub Log : Type 0
Log = List (String × ℕ)

-- How many admissions of a key are not earlier than a time.
unfoldable pub recent : String → ℕ → Log → ℕ
recent k since [] = 0
recent k since ((j, at) ∷ log) = (if (j == k) && leb since at then 1 else 0) + recent k since log

abbrev pub logged : RateLimitKey → ℕ → Store → Log → Log
logged key now store log =
    if (check_rate_limit key now store).0 then (build_key key, now) ∷ log else log

-- The states that the limiter reaches, each with its log and the time of the last call.
pub data Reaches : Log → Store → ℕ → Type 0 where
  started : (at : ℕ) → Reaches [] [] at
  requested :
      {log : Log} {store : Store} {last : ℕ} (key : RateLimitKey) (now : ℕ)
      → last ≤ now
      → Reaches log store last
      → Reaches (logged key now store log) (check_rate_limit key now store).1 now

-- Every entry counts admissions of its key that its window holds.
IsJustified : Log → ℕ → String × Entry → Type 0
IsJustified log last e =
    ((e.1).count ≤ recent e.0 (e.1).window_start log) × ((e.1).window_start ≤ last)

recent-cons :
    (k j : String) (since at : ℕ) (log : Log) → recent k since log ≤ recent k since ((j, at) ∷ log)
unfolding recent
recent-cons k j since at log = omega arith

recent-own :
    (k : String) (since at : ℕ) (log : Log)
    → since ≤ at
    → recent k since ((k, at) ∷ log) ≡ 1 + recent k since log
unfolding recent
recent-own k since at log h =
    let own = (eq_iff k k).1 refl in
    let late : leb since at ≡ true = ground (arith, h) in rw (own, late) refl

recent-earlier :
    (k : String) (early late : ℕ) (log : Log)
    → early ≤ late
    → recent k late log ≤ recent k early log
unfolding recent
recent-earlier k early late [] h = omega arith
recent-earlier k early late ((j, at) ∷ log) h =
    let rest = recent-earlier k early late log h in ground (arith, rest, h)

IsJustified-later :
    (log more : Log) (last now : ℕ) (store : Store)
    → last ≤ now
    → ((k : String) (since : ℕ) → recent k since log ≤ recent k since more)
    → All (IsJustified log last) store
    → All (IsJustified more now) store
unfolding IsJustified
IsJustified-later log more last now store later grows h =
    All-weaken (IsJustified log last) (IsJustified more now) store
      (λ e d. (omega (arith, d.0, grows e.0 (e.1).window_start), omega (arith, d.1, later))) h

admit-IsJustified :
    (k : String) (log : Log) (last now : ℕ) (store : Store)
    → last ≤ now
    → All (IsJustified log last) store
    → All
        (IsJustified (if (admit k now store).0 then (k, now) ∷ log else log) now)
        (admit k now store).1
unfolding IsJustified
admit-IsJustified k log last now store later h =
    let more : (j : String) (since : ℕ) → recent j since log ≤ recent j since ((k, now) ∷ log) =
      λ j since. recent-cons j k since now log in
    let grown = IsJustified-later log ((k, now) ∷ log) last now store later more h in
    let same = IsJustified-later log log last now store later (λ j since. omega arith) h in
    elim (admit-Admission k now store) [
      | fresh over e ↦
          let one = recent-own k now now log (omega arith) in
          rw (e) (
            insert-All (IsJustified ((k, now) ∷ log) now) k _ store
              (omega (arith, one), omega arith) grown)
      | counted entry found going free e ↦
          let old = lookup-All (IsJustified log last) k store h found in
          let next = recent-own k entry.window_start now log (omega (arith, old.1, later)) in
          rw (e) (
            insert-All (IsJustified ((k, now) ∷ log) now) k _ store
              (omega (arith, next, old.0), omega (arith, old.1, later)) grown)
      | refused entry found going full e ↦ rw (e) same
    ]

Reaches-IsJustified :
    {log : Log} {store : Store} {last : ℕ}
    → Reaches log store last
    → All (IsJustified log last) store
unfolding check_rate_limit
Reaches-IsJustified (started at) = tt
Reaches-IsJustified (requested {log} {store} {last} key now later before) =
    admit-IsJustified (build_key key) log last now (prune_expired_entries now store) later (
      (prune_expired_entries-IsPart now store).all (IsJustified log last)
        (Reaches-IsJustified before))

-- Whatever the other keys do and whatever is evicted, a request is admitted if fewer than 60 of its
-- key were admitted in the last 60,000 ms.
pub check_rate_limit_admits :
    (key : RateLimitKey) (now : ℕ) {log : Log} {store : Store} {last : ℕ}
    → Reaches log store last
    → last ≤ now
    → recent (build_key key) (now - window_ms) log < max_requests
    → (check_rate_limit key now store).0 ≡ true
unfolding check_rate_limit IsJustified
check_rate_limit_admits key now {log} {store} {last} reaches later few =
    let k : String = build_key key in
    let pruned : Store = prune_expired_entries now store in
    let h =
      (prune_expired_entries-IsPart now store).all (IsJustified log last)
        (Reaches-IsJustified reaches) in
    elim (admit-Admission k now pruned) [
      | fresh over e ↦ rw (e) refl
      | counted entry found going free e ↦ rw (e) refl
      | refused entry found going full e ↦
          let old = lookup-All (IsJustified log last) k pruned h found in
          let enough : max_requests ≤ entry.count = ground (arith, full) in
          let within : now - window_ms ≤ entry.window_start = ground (arith, going) in
          let all = recent-earlier k (now - window_ms) entry.window_start log within in
          absurd (omega (arith, few, old.0, enough, all))
    ]
