-- ===== src/RateLimit/Tests.antt =====
-- The rate limiter on concrete requests.
use atra_workunit_os.Prelude.{
  ℕ, zero, suc, ◌-◌, ◌≡◌, ◌≤◌, ◌<◌, refl, true, false, List, [], ◌∷◌, arith,
}
use atra_workunit_os.Prelude.Dict.Maps.{IsMap}
use atra_workunit_os.RateLimit.{
  RateLimitKey, max_requests, build_key, evict_oldest, prune_expired_entries, admit,
  check_rate_limit, get_rate_limit_count, window_ms,
}
use atra_workunit_os.RateLimit.Bounds.{TimedRequest, IsBounded, store_after, store_after-IsBounded}
use atra_workunit_os.RateLimit.Burst.{admitted, IsRoomy, admitted_burst}
use atra_workunit_os.RateLimit.History.{
  logged, recent, Reaches, started, requested, check_rate_limit_admits,
}

abbrev anna : RateLimitKey
anna = record {
  tenant_id = "t1";
  actor_user_id = "u1";
  client_ip = "::1";
  route_family = "workunit_tools";
}

abbrev bert : RateLimitKey
bert = record anna { actor_user_id = "u2" }

abbrev repeat : ℕ → TimedRequest → List TimedRequest
repeat zero request = []
repeat (suc n) request = request ∷ repeat n request

-- The sixty-first request in a window is refused, and the next window is open.
full_window : (check_rate_limit anna 60100 (store_after (repeat 60 (anna, 100)) [])).0 ≡ false
unfolding check_rate_limit store_after build_key prune_expired_entries admit
full_window = refl

next_window : (check_rate_limit anna 60101 (store_after (repeat 60 (anna, 100)) [])).0 ≡ true
unfolding check_rate_limit store_after build_key prune_expired_entries admit
next_window = refl

other_key : get_rate_limit_count bert (store_after (repeat 3 (anna, 100)) []) ≡ 0
unfolding check_rate_limit store_after build_key prune_expired_entries admit get_rate_limit_count
other_key = refl

-- A tenth, rounded up, of the entries goes, the oldest first.
oldest_goes :
    evict_oldest (
      ("a", record { count = 1; window_start = 7 })
      ∷ ("b", record { count = 1; window_start = 5 })
      ∷ [])
    ≡ ("a", record { count = 1; window_start = 7 }) ∷ []
unfolding evict_oldest
oldest_goes = refl

abbrev requests : List TimedRequest
requests = (anna, 100) ∷ (bert, 150) ∷ (anna, 60050) ∷ []

store_after-IsBounded_example : IsBounded (store_after requests [])
store_after-IsBounded_example = store_after-IsBounded requests

empty-IsBounded : IsBounded []
unfolding IsMap
empty-IsBounded = record { distinct = tt; counted = tt; size = omega arith }

requests-IsRoomy : IsRoomy requests []
unfolding IsRoomy check_rate_limit build_key prune_expired_entries admit
requests-IsRoomy = (omega arith, (omega arith, (omega arith, tt)))

admitted_burst_example : admitted "workunit_tools:t1:u1:::1" requests [] ≤ 119
admitted_burst_example =
    admitted_burst 100 "workunit_tools:t1:u1:::1" requests [] empty-IsBounded
      ((omega arith, omega arith), ((omega arith, omega arith), ((omega arith, omega arith), tt)))
      requests-IsRoomy

abbrev one_call : Reaches (logged anna 100 [] []) (check_rate_limit anna 100 []).1 100
one_call = requested anna 100 (omega arith) (started 0)

few_recent : recent (build_key anna) (200 - window_ms) (logged anna 100 [] []) < max_requests
unfolding recent check_rate_limit build_key prune_expired_entries admit
few_recent = omega arith

check_rate_limit_admits_example :
    (check_rate_limit anna 200 (check_rate_limit anna 100 []).1).0 ≡ true
check_rate_limit_admits_example = check_rate_limit_admits anna 200 one_call (omega arith) few_recent
