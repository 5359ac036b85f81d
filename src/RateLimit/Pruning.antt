-- ===== src/RateLimit/Pruning.antt =====
-- What the pruning of app/lib/security/rateLimitGate.ts removes.
use atra_workunit_os.Prelude.{
  ℕ, zero, suc, ◌||◌, ◌+◌, ◌≡◌, ◌≤◌, ◌<◌, refl, String, Bool, true, false, [], ◌∷◌, ◌==◌, inl, inr,
  arith, ltb, leb, not, length, take, keep, All, Bool-cases, eq_iff,
}
use atra_workunit_os.Prelude.Dict.Maps.{length-keep, keep-All, IsMap, keep-IsMap}
use atra_workunit_os.RateLimit.{
  Entry, Store, max_store_entries, delete, insert_by_start, sort_by_start, delete_all, tenth,
  evict_oldest, drop_over, is_over, prune_expired_entries,
}

-- What only removes entries.
pub record IsPart (before after : Store) : Type 1 where
  pub distinct : IsMap before → IsMap after
  pub all : (P : String × Entry → Type 0) → All P before → All P after
  pub size : length after ≤ length before

pub keep-IsPart : (test : String × Entry → Bool) (store : Store) → IsPart store (keep test store)
keep-IsPart test store = record {
  distinct = keep-IsMap test store;
  all = λ P. keep-All P test store;
  size = length-keep test store;
}

IsPart-trans : {a b c : Store} → IsPart a b → IsPart b c → IsPart a c
IsPart-trans p q = record {
  distinct = λ h. q.distinct (p.distinct h);
  all = λ P h. q.all P (p.all P h);
  size = omega (arith, p.size, q.size);
}

delete_all-IsPart : (es store : Store) → IsPart store (delete_all es store)
delete_all-IsPart [] store = record { distinct = λ h. h; all = λ P h. h; size = omega arith }
delete_all-IsPart (e ∷ es) store =
    IsPart-trans (keep-IsPart (λ f. not (f.0 == e.0)) store)
      (delete_all-IsPart es (delete e.0 store))

has : String → Store → Bool
has k [] = false
has k ((j, e) ∷ store) = j == k || has k store

length-delete :
    (k : String) (store : Store) → has k store ≡ true → length (delete k store) < length store
unfolding has
length-delete k [] h = absurd (ground (arith, h))
length-delete k ((j, e) ∷ store) h = elim (Bool-cases (j == k)) [
  | inl same ↦ let rest = length-keep (λ f. not (f.0 == k)) store in rw (same) (omega (arith, rest))
  | inr other ↦
      let rest = length-delete k store (ground (arith, h, other)) in
      rw (other) (omega (arith, rest))
]

length-insert_by_start :
    (e : String × Entry) (es : Store) → length (insert_by_start e es) ≡ length es + 1
length-insert_by_start e [] = refl
length-insert_by_start e (f ∷ fs) =
    let rest = length-insert_by_start e fs in
    elim (Bool-cases (leb (e.1).window_start (f.1).window_start)) [
      | inl first ↦ rw (first) (omega arith)
      | inr later ↦ rw (later) (omega (arith, rest))
    ]

length-sort_by_start : (es : Store) → length (sort_by_start es) ≡ length es
length-sort_by_start [] = refl
length-sort_by_start (e ∷ es) =
    let rest = length-sort_by_start es in
    let step = length-insert_by_start e (sort_by_start es) in omega (arith, rest, step)

insert_by_start-All :
    (P : String × Entry → Type 0) (e : String × Entry) (es : Store)
    → P e
    → All P es
    → All P (insert_by_start e es)
insert_by_start-All P e [] h hs = (h, hs)
insert_by_start-All P e (f ∷ fs) h (g, gs) =
    let rest = insert_by_start-All P e fs h gs in
    elim (Bool-cases (leb (e.1).window_start (f.1).window_start)) [
      | inl first ↦ rw (first) (h, (g, gs))
      | inr later ↦ rw (later) (g, rest)
    ]

sort_by_start-All : (P : String × Entry → Type 0) (es : Store) → All P es → All P (sort_by_start es)
sort_by_start-All P [] h = h
sort_by_start-All P (e ∷ es) (h, hs) =
    insert_by_start-All P e (sort_by_start es) h (sort_by_start-All P es hs)

pub All-weaken :
    (P Q : String × Entry → Type 0) (es : Store)
    → ((e : String × Entry) → P e → Q e)
    → All P es
    → All Q es
All-weaken P Q [] f h = h
All-weaken P Q (e ∷ es) f (h, hs) = (f e h, All-weaken P Q es f hs)

has-All : (store : Store) → All (λ e. has e.0 store ≡ true) store
unfolding has
has-All [] = tt
has-All ((j, e) ∷ store) = (
  ground (arith, eq_iff j j),
  All-weaken (λ f. has f.0 store ≡ true) (λ f. has f.0 ((j, e) ∷ store) ≡ true) store
      (λ f h. ground (arith, h)) (has-All store),
)

-- The eviction removes at least the oldest entry.
delete_all-shorter :
    (n : ℕ) (oldest store : Store)
    → 1 ≤ n
    → 1 ≤ length oldest
    → All (λ e. has e.0 store ≡ true) oldest
    → length (delete_all (take n oldest) store) < length store
delete_all-shorter zero oldest store n l h = absurd (omega (arith, n))
delete_all-shorter (suc n) [] store _ l h = absurd (omega (arith, l))
delete_all-shorter (suc n) (e ∷ es) store _ l (h, hs) =
    let first = length-delete e.0 store h in
    let rest = (delete_all-IsPart (take n es) (delete e.0 store)).size in omega (arith, first, rest)

pub length-evict_oldest :
    (store : Store) → 1 ≤ length store → length (evict_oldest store) < length store
unfolding evict_oldest
length-evict_oldest store h =
    let oldest : Store = sort_by_start store in
    let same = length-sort_by_start store in
    delete_all-shorter (tenth (length oldest)) oldest store (omega (arith, same, h))
      (omega (arith, same, h)) (sort_by_start-All (λ e. has e.0 store ≡ true) store (has-All store))

pub evict_oldest-IsPart : (store : Store) → IsPart store (evict_oldest store)
unfolding evict_oldest
evict_oldest-IsPart store =
    delete_all-IsPart (take (tenth (length (sort_by_start store))) (sort_by_start store)) store

pub prune_expired_entries-IsPart :
    (now : ℕ) (store : Store) → IsPart store (prune_expired_entries now store)
unfolding prune_expired_entries
prune_expired_entries-IsPart now store =
    let dropped = keep-IsPart (λ e. not (is_over now e.1)) store in
    elim (Bool-cases (ltb (length store) max_store_entries)) [
      | inl small ↦ rw (small) (record { distinct = λ h. h; all = λ P h. h; size = omega arith })
      | inr full ↦ elim (Bool-cases (ltb (length (drop_over now store)) max_store_entries)) [
        | inl enough ↦ rw (full, enough) dropped
        | inr still ↦
            rw (full, still) (IsPart-trans dropped (evict_oldest-IsPart (drop_over now store)))
      ]
    ]

-- After the pruning there is room for one more entry.
pub length-prune_expired_entries :
    (now : ℕ) (store : Store)
    → length store ≤ max_store_entries
    → length (prune_expired_entries now store) < max_store_entries
unfolding prune_expired_entries
length-prune_expired_entries now store bounded =
    let dropped = length-keep (λ e. not (is_over now e.1)) store in
    elim (Bool-cases (ltb (length store) max_store_entries)) [
      | inl small ↦ rw (small) (ground (arith, small))
      | inr full ↦ elim (Bool-cases (ltb (length (drop_over now store)) max_store_entries)) [
        | inl enough ↦ rw (full, enough) (ground (arith, enough))
        | inr still ↦
            let many : max_store_entries ≤ length (drop_over now store) = ground (arith, still) in
            let fewer = length-evict_oldest (drop_over now store) (omega (arith, many)) in
            rw (full, still) (omega (arith, fewer, dropped, bounded))
      ]
    ]
