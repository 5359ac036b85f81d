-- ===== src/RateLimit/Burst.antt =====
-- How many requests app/lib/security/rateLimitGate.ts admits in a span of time.
use mathlib.Core.Path.{subst}
use atra_workunit_os.Prelude.{
  ℕ, ◌+◌, ◌-◌, ◌≡◌, ◌≤◌, ◌<◌, refl, String, true, false, Option, none, some, List, [], ◌∷◌, ◌==◌,
  ◌&&◌, inl, inr, arith, ltb, not, if◌then◌else◌, length, All, Bool-cases, Option-cases, eq_iff,
}
use atra_workunit_os.Prelude.Dict.{lookup, lookup-insert}
use atra_workunit_os.Prelude.Dict.Maps.{lookup-All, IsMap, kept, lookup-keep}
use atra_workunit_os.RateLimit.{
  Entry, Store, max_requests, max_store_entries, window_ms, build_key, drop_over, is_over,
  prune_expired_entries, admit, check_rate_limit, fresh, counted, refused, admit-Admission,
}
use atra_workunit_os.RateLimit.Bounds.{
  TimedRequest, IsCounted, IsBounded, check_rate_limit-IsBounded,
}

-- How many of the requests are admitted under one key of the map.
unfoldable pub admitted : String → List TimedRequest → Store → ℕ
admitted k [] store = 0
admitted k ((key, now) ∷ requests) store =
    (if (check_rate_limit key now store).0 && (build_key key == k) then 1 else 0)
    + admitted k requests (check_rate_limit key now store).1

-- No request of the sequence evicts an entry whose window is not over.
unfoldable pub IsRoomy : List TimedRequest → Store → Type 0
IsRoomy [] store = Unit
IsRoomy ((key, now) ∷ requests) store =
    (length (drop_over now store) < max_store_entries)
    × IsRoomy requests (check_rate_limit key now store).1

abbrev pub IsWithin : ℕ → TimedRequest → Type 0
IsWithin t request = (t ≤ request.1) × (request.1 ≤ t + window_ms)

-- What a key may still be admitted from `t` on, within one length of the window.
abbrev credit : ℕ → Option Entry → ℕ
credit t none = max_requests
credit t (some entry) =
    (max_requests - entry.count) + (if ltb entry.window_start t then max_requests else 0)

is_over-earlier :
    (t now : ℕ) (entry : Entry)
    → now ≤ t + window_ms
    → is_over now entry ≡ true
    → ltb entry.window_start t ≡ true
is_over-earlier t now entry late over = ground (arith, late, over)

credit-kept :
    (t now : ℕ) (k : String) (o : Option Entry)
    → now ≤ t + window_ms
    → credit t (kept (λ e. not (is_over now e.1)) k o) ≤ credit t o
credit-kept t now k none late = omega arith
credit-kept t now k (some entry) late = elim (Bool-cases (is_over now entry)) [
  | inl over ↦ rw (over, is_over-earlier t now entry late over) (omega arith)
  | inr going ↦ rw (going) (omega arith)
]

credit-prune :
    (t now : ℕ) (k : String) (store : Store)
    → now ≤ t + window_ms
    → IsMap store
    → length (drop_over now store) < max_store_entries
    → credit t (lookup k (prune_expired_entries now store)) ≤ credit t (lookup k store)
unfolding prune_expired_entries
credit-prune t now k store late distinct room =
    elim (Bool-cases (ltb (length store) max_store_entries)) [
      | inl small ↦ rw (small) (omega arith)
      | inr full ↦
          let enough : ltb (length (drop_over now store)) max_store_entries ≡ true =
            ground (arith, room) in
          rw (full, enough, lookup-keep (λ e. not (is_over now e.1)) k store distinct)
            (credit-kept t now k (lookup k store) late)
    ]

credit-over :
    (t now : ℕ) (o : Option Entry)
    → ((entry : Entry) → o ≡ some entry → is_over now entry ≡ true)
    → now ≤ t + window_ms
    → max_requests ≤ credit t o
credit-over t now none over late = omega arith
credit-over t now (some entry) over late =
    rw (is_over-earlier t now entry late (over entry refl)) (omega arith)

-- A call pays for its own admission.
credit-admit-own :
    (t now : ℕ) (k : String) (store : Store)
    → t ≤ now
    → now ≤ t + window_ms
    → (if (admit k now store).0 then 1 else 0) + credit t (lookup k (admit k now store).1)
      ≤ credit t (lookup k store)
credit-admit-own t now k store early late =
    let own : k == k ≡ true = (eq_iff k k).1 refl in
    elim (admit-Admission k now store) [
      | fresh over e ↦
          let full = credit-over t now (lookup k store) over late in
          let here : ltb now t ≡ false = ground (arith, early) in
          rw (e, lookup-insert k k (record { count = 1; window_start = now }) store, own, here)
            (omega (arith, full))
      | counted entry found going free e ↦
          let more : entry.count < max_requests = ground (arith, free) in
          rw (e, lookup-insert k k (record entry { count = entry.count + 1 }) store, own, found)
            (omega (arith, more))
      | refused entry found going full e ↦ rw (e) (omega arith)
    ]

credit-admit :
    (t now : ℕ) (j k : String) (store : Store)
    → t ≤ now
    → now ≤ t + window_ms
    → (if (admit j now store).0 && (j == k) then 1 else 0)
        + credit t (lookup k (admit j now store).1)
      ≤ credit t (lookup k store)
credit-admit t now j k store early late = elim (Bool-cases (j == k)) [
  | inr other ↦ elim (admit-Admission j now store) [
    | fresh over e ↦
        rw (e, lookup-insert j k (record { count = 1; window_start = now }) store, other)
          (omega arith)
    | counted entry found going free e ↦
        rw (e, lookup-insert j k (record entry { count = entry.count + 1 }) store, other)
          (omega arith)
    | refused entry found going full e ↦ rw (e) (omega arith)
  ]
  | inl same ↦
      let j_is_k : j ≡ k = (eq_iff j k).0 same in
      let paid =
        subst
          (λ i.
            (if (admit j now store).0 then 1 else 0) + credit t (lookup i (admit j now store).1)
            ≤ credit t (lookup i store))
          j_is_k (credit-admit-own t now j store early late) in
      elim (Bool-cases (admit j now store).0) [
        | inl won ↦ let p = rw (won) at paid in rw (won, same) p
        | inr lost ↦ let p = rw (lost) at paid in rw (lost) p
      ]
]

admitted-credit :
    (t : ℕ) (k : String) (requests : List TimedRequest) (store : Store)
    → IsBounded store
    → All (IsWithin t) requests
    → IsRoomy requests store
    → admitted k requests store ≤ credit t (lookup k store)
unfolding admitted IsRoomy check_rate_limit
admitted-credit t k [] store bounded within roomy = omega arith
admitted-credit t k ((key, now) ∷ requests) store bounded ((early, late), within) (room, roomy) =
    let rest =
      admitted-credit t k requests (check_rate_limit key now store).1
        (check_rate_limit-IsBounded key now store bounded) within roomy in
    let pruned = credit-prune t now k store late bounded.distinct room in
    let step = credit-admit t now (build_key key) k (prune_expired_entries now store) early late in
    omega (arith, rest, pruned, step)

-- From any state that the limiter reaches, at most 119 requests of one key are admitted within one
-- length of the window, 60,000 ms, if no entry is evicted meanwhile whose window is not over.
pub admitted_burst :
    (t : ℕ) (k : String) (requests : List TimedRequest) (store : Store)
    → IsBounded store
    → All (IsWithin t) requests
    → IsRoomy requests store
    → admitted k requests store ≤ 119
admitted_burst t k requests store bounded within roomy =
    let paid = admitted-credit t k requests store bounded within roomy in
    elim (Option-cases (lookup k store)) [
      | inl e ↦ let p = rw (e) at paid in omega (arith, p)
      | inr (entry, e) ↦
          let old = lookup-All IsCounted k store bounded.counted e in
          let p = rw (e) at paid in
          elim (Bool-cases (ltb entry.window_start t)) [
            | inl before ↦ let q = rw (before) at p in omega (arith, q, old.0)
            | inr after ↦ let q = rw (after) at p in omega (arith, q, old.0)
          ]
    ]
