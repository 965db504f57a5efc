-- ===== src/Examples/Pools.antt =====
-- Examples of the pools, the hub, the limiter, the guard and the breaker.
use go_ddgs_stealth.Common.{
  ℕ, suc, ◌+◌, ◌*◌, ◌-◌, ◌%◌, ◌/◌, ◌≤◌, ◌≡◌, refl, ◌⊎◌, String, true, ◌&&◌, none, some, List, [],
  ◌∷◌, arith, length, get_elem?, inr, if◌then◌else◌, ltb, leb,
}
use go_ddgs_stealth.Common.Int.{ℤ, pos, negsuc, ◌+ℤ◌}
use go_ddgs_stealth.Common.Dict
use go_ddgs_stealth.Breaker.{Time, second, is_open, new_circuit_breaker}
use go_ddgs_stealth.Breaker.History.{blocked, after, is_open-after}
use go_ddgs_stealth.Limiter.{Floats, AdaptiveRateLimiter, new_adaptive_rate_limiter, reserve}
use go_ddgs_stealth.Limiter.Bounds.{waits, blocks, succeeds, use_all, IsBounded, use_all-IsBounded}
use go_ddgs_stealth.Limiter.Spacing.{reserve_spacing}
use go_ddgs_stealth.ProxyPool.{
  ProxyEntry, ProxyPool, new_entry, rotate_round_robin, rotate_weighted, new_proxy_pool, add_all,
  weighted_pick, picked, usable, available, available_from, next,
}
use go_ddgs_stealth.ProxyPool.Weights.{
  Call, sets_weight, takes_next, marks_failed, calls, IsTotalled, Bracketed, calls-IsTotalled,
  weighted_pick_brackets, weighted_pick_at,
}
use Prim.Native.Nat.{min}
use go_ddgs_stealth.Common.Dict.{Distinct}
use go_ddgs_stealth.Hub
use go_ddgs_stealth.Hub.{SessionHub, is_fresh}
use go_ddgs_stealth.Hub.Expiry.{get-put}
use go_ddgs_stealth.FetcherPool
use go_ddgs_stealth.FetcherPool.{FetcherSessionPool, pool_of, index_of}
use go_ddgs_stealth.FetcherPool.Fairness.{acquire_times, acquire-turn}
use go_ddgs_stealth.Guard.{StealthAccessGuard, count_of}
use go_ddgs_stealth.Guard.Window.{admitted, asked_by, admitted_lem}
use go_ddgs_stealth.ProxyPool.Picks.{IsUsable, turns, next-IsUsable, next-turns}

abbrev three : ProxyPool
three = record {
  entries = new_entry "http://a" ∷ new_entry "http://b" ∷ new_entry "http://c" ∷ [];
  strategy = rotate_round_robin;
  cooldown = pos 60;
  max_fails = pos 2;
  rr_index = 4;
  total = pos 3;
}

unfolded : Unit {0}
unfolding next available available_from usable new_proxy_pool add_all ◌+ℤ◌ Dict.lookup pool_of
    is_fresh
unfolded = tt

next-turns_example : (next (turns 4 three 100 0) 100 0).0 ≡ picked (2, new_entry "http://c")
unfolding unfolded
next-turns_example = next-turns 4 three 100 0 refl (omega arith)

next-IsUsable_example : IsUsable three 100 (1, new_entry "http://b")
unfolding unfolded
next-IsUsable_example = next-IsUsable three 100 0 (1, new_entry "http://b") refl

abbrev pair_of : ProxyPool
pair_of = record {
  entries = new_entry "http://a" ∷ new_entry "http://b" ∷ [];
  strategy = rotate_weighted;
  cooldown = pos (60 * second);
  max_fails = pos 3;
  rr_index = 0;
  total = pos 2;
}

abbrev uses : List Call
uses =
    sets_weight "http://b" (pos 5)
    ∷ takes_next 9 3
    ∷ marks_failed (some 1) 10
    ∷ sets_weight "http://a" (negsuc 8)
    ∷ []

calls-IsTotalled_example : IsTotalled (calls pair_of uses)
unfolding unfolded
calls-IsTotalled_example =
    calls-IsTotalled (λ url. true) ("http://a" ∷ "http://b" ∷ []) rotate_weighted pair_of uses refl

abbrev weighing : ℤ → ProxyEntry
weighing w = record (new_entry "http://w") { weight = w }

abbrev two_and_three : List (ℕ × ProxyEntry)
two_and_three = (0, weighing (pos 2)) ∷ (1, weighing (pos 3)) ∷ []

weighted_pick_brackets_example :
    (e : ℕ × ProxyEntry) × (weighted_pick two_and_three 7 ≡ picked e)
    × Bracketed (pos (7 % suc 4)) two_and_three e
unfolding unfolded
weighted_pick_brackets_example = weighted_pick_brackets two_and_three 7 4 refl

weighted_pick_at_example : weighted_pick two_and_three 7 ≡ picked (1, weighing (pos 3))
unfolding unfolded
weighted_pick_at_example =
    weighted_pick_at ((0, weighing (pos 2)) ∷ []) [] (1, weighing (pos 3)) 7 4 (omega arith) refl
      (omega arith) (omega arith)

abbrev halves : Floats
halves = record { grow = λ d. d * 2; shrink = λ d. d / 2; stddev = λ d. d / 4 }

shrink_halves : (d : ℕ) → d / 2 ≤ d
shrink_halves d = omega arith

use_all-IsBounded_example : IsBounded 300 30000 (
    use_all halves (new_adaptive_rate_limiter 300 30000) (waits (pos 5) 9 ∷ blocks ∷ succeeds ∷ []))
use_all-IsBounded_example =
    use_all-IsBounded halves shrink_halves 300 30000 (omega arith)
      (waits (pos 5) 9 ∷ blocks ∷ succeeds ∷ [])

abbrev limiter : AdaptiveRateLimiter
limiter = record { base = 300; current = 600; max = 30000; last_req = 50 }

reserve_spacing_example :
    let (wait, r') = reserve limiter (negsuc 3) 70 in
    (70 ≤ r'.last_req)
    × (50 + 300 / 2 ≤ r'.last_req)
    × ((r'.last_req ≡ 70) ⊎ (r'.last_req ≤ 50 + 30000 * 2))
    × (70 + wait ≡ r'.last_req)
reserve_spacing_example = reserve_spacing limiter (negsuc 3) 70 (omega arith) (omega arith)

is_open-after_example :
    is_open (after (new_circuit_breaker (pos 2) (pos 60)) (blocked 9 10 ∷ blocked 4 5 ∷ [])) 50
    ≡ (leb 2 2 && ltb 50 (10 + 60))
unfolding new_circuit_breaker
is_open-after_example = is_open-after (pos 2) (pos 60) (blocked 9 10 ∷ blocked 4 5 ∷ []) 50

abbrev hub : SessionHub ℕ
hub = record { ttl = 100; sessions = ("a", record { fetcher = 7; last_touch = 10 }) ∷ [] }

hub-Distinct : Distinct hub.sessions
hub-Distinct = ground arith

get-put_example :
    (Hub.get (Hub.put hub "b" (some 8) 20).0 "b" 120 121).1
    ≡ (if ltb (20 + 100) 120 then none else some 8)
get-put_example = get-put hub "b" 8 20 120 121 hub-Distinct refl

abbrev fetchers : FetcherSessionPool ℕ
fetchers = record { pools = ("http", 5 ∷ 6 ∷ []) ∷ []; next_idx = ("http", 1) ∷ [] }

acquire-turn_example :
    (f : ℕ) × ((FetcherPool.acquire (acquire_times 3 fetchers "http") "http").1 ≡ inr (some f))
    × (get_elem?
          (pool_of fetchers "http")
          ((index_of fetchers "http" + 3) % length (pool_of fetchers "http"))
        ≡ some f)
unfolding unfolded
acquire-turn_example = acquire-turn 3 fetchers "http" (omega arith)

abbrev fresh_guard : StealthAccessGuard
fresh_guard = record { window_start = 1000; counts = [] }

abbrev arrivals : List (String × Time)
arrivals = ("a", 1001) ∷ ("b", 1002) ∷ ("a", 1003) ∷ ("a", 1004) ∷ []

admitted_lem_example :
    admitted (pos (suc 1)) fresh_guard "a" arrivals
    ≡ min (asked_by "a" arrivals) (suc 1 - count_of fresh_guard "a")
admitted_lem_example = admitted_lem 1 fresh_guard "a" arrivals (ground arith)
