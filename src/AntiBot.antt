-- ===== src/AntiBot.antt =====
-- antibot.go: the configuration and the runtime state that is built from it; from transport.go, the
-- proxy that a round trip picks and remembers. `W` is the state of the world that solvers work in.
pub mod Build
use go_ddgs_stealth.Common.{
  ℕ, ◌*◌, String, Bool, true, false, ◌||◌, Option, none, some, List, [], ◌∷◌, ◌==◌, if◌then◌else◌,
}
use go_ddgs_stealth.Common.Int.{ℤ, pos, negsuc, or_default}
use go_ddgs_stealth.Breaker.{CircuitBreaker, new_circuit_breaker, Time, second}
use go_ddgs_stealth.Limiter.{AdaptiveRateLimiter, new_adaptive_rate_limiter}
use go_ddgs_stealth.ProxyPool
use go_ddgs_stealth.ProxyPool.{ProxyPool, Pick, picked, nothing, panics}
use go_ddgs_stealth.Session.{SessionManager, Heap, new_jar, new_session_manager}
use go_ddgs_stealth.Solver.{ChallengeSolver}

pub record AntiBotConfig (W : Type 0) : Type 0 where
  pub ua_rotation : Bool
  pub chrome_tls : Bool
  pub session_warmup : Bool
  pub warmup_ttl : ℤ
  pub proxy_pool : Option ProxyPool
  pub adaptive_rate_limit : Bool
  pub adaptive_base_delay : ℤ
  pub adaptive_max_delay : ℤ
  pub gaussian_jitter : Bool
  pub session_invalidate_on_block : Bool
  pub vqd_invalidate_on_block : Bool
  pub challenge_solvers : List (ChallengeSolver W)
  pub circuit_breaker_threshold : ℤ
  pub circuit_breaker_cooldown : ℤ

abbrev pub millisecond : ℕ
millisecond = 1_000_000

unfoldable pub new_anti_bot_config : {W : Type 0} → AntiBotConfig W
new_anti_bot_config = record {
  ua_rotation = true;
  chrome_tls = true;
  session_warmup = true;
  warmup_ttl = pos (20 * 60 * second);
  proxy_pool = none;
  adaptive_rate_limit = true;
  adaptive_base_delay = pos (300 * millisecond);
  adaptive_max_delay = pos (30 * second);
  gaussian_jitter = true;
  session_invalidate_on_block = true;
  vqd_invalidate_on_block = true;
  challenge_solvers = [];
  circuit_breaker_threshold = pos 5;
  circuit_breaker_cooldown = pos (60 * second);
}

-- Whether the transport picks a user agent for each request, or always the same one.
pub data UaPool : Type 0 where
  rotating : UaPool
  single : String → UaPool

pub record Transport : Type 0 where
  pub ua_pool : Option UaPool
  pub last_proxy : Option ℕ

-- The runtime objects. The proxy pool, which the configuration and the transport share, stands here
-- once, since its methods change it.
pub record AntiBotState (W : Type 0) : Type 0 where
  pub cfg : AntiBotConfig W
  pub proxy_pool : Option ProxyPool
  pub session : Option SessionManager
  pub transport : Option Transport
  pub rate_limit : Option AdaptiveRateLimiter
  pub solver : Option (List (ChallengeSolver W))
  pub circuit : Option CircuitBreaker

-- The parts of an `http.Client` that the program depends on: its jar, whether its requests go
-- through the anti-bot transport, and its timeout.
pub record HttpClient : Type 0 where
  pub jar : Option ℕ
  pub routed : Bool
  pub timeout : ℕ

abbrev pub is_some {ℓ} : {A : Type ℓ} → Option A → Bool
is_some none = false
is_some (some a) = true

module _ {W : Type 0} (cfg : AntiBotConfig W) where
  unfoldable pub build_session : Heap → ℕ × Option SessionManager × Heap
  build_session heap =
      let (s, heap1) = new_session_manager cfg.warmup_ttl heap in
      let (a, heap2) = new_jar heap in
      if cfg.session_warmup then (s.jar, some s, heap1) else (a, none, heap2)

  unfoldable pub build_limiter : Option AdaptiveRateLimiter
  build_limiter =
      let base = or_default cfg.adaptive_base_delay (300 * millisecond) in
      let max = or_default cfg.adaptive_max_delay (30 * second) in
      if cfg.adaptive_rate_limit then some (new_adaptive_rate_limiter base max) else none

  unfoldable pub build_transport : Option Transport
  build_transport =
      if cfg.chrome_tls || cfg.ua_rotation || is_some cfg.proxy_pool
      then some
          (record { ua_pool = if cfg.ua_rotation then some rotating else none; last_proxy = none })
      else none

  abbrev non_empty : List (ChallengeSolver W) → Option (List (ChallengeSolver W))
  non_empty [] = none
  non_empty (s ∷ ss) = some (s ∷ ss)

  abbrev breaker_of : ℤ → Option CircuitBreaker
  breaker_of (pos n) =
      if n == 0 then none else some (new_circuit_breaker (pos n) cfg.circuit_breaker_cooldown)
  breaker_of (negsuc n) = some (new_circuit_breaker (negsuc n) cfg.circuit_breaker_cooldown)

  unfoldable pub build_anti_bot_state : Heap → AntiBotState W × HttpClient × Heap
  unfolding build_session build_limiter build_transport
  build_anti_bot_state heap =
      let (jar, session, heap') = build_session heap in
      (
        record {
          cfg = cfg;
          proxy_pool = cfg.proxy_pool;
          session = session;
          transport = build_transport;
          rate_limit = build_limiter;
          solver = non_empty cfg.challenge_solvers;
          circuit = breaker_of cfg.circuit_breaker_threshold;
        },
        record { jar = some jar; routed = is_some build_transport; timeout = 15 * second },
        heap',
      )

-- pickAndStoreProxy: `none` is a panic of the pool. No proxy is picked without a pool, and then what
-- was remembered stays; a pool whose proxies are all in cooldown yields nil, and the request goes
-- out directly.
abbrev remember : Transport → Pick × ProxyPool → Option (Transport × ProxyPool)
remember t (picked (i, e), pool) = some (record t { last_proxy = some i }, pool)
remember t (nothing, pool) = some (record t { last_proxy = none }, pool)
remember t (panics, pool) = none

unfoldable pub pick_and_store_proxy :
    Transport → Option ProxyPool → Time → ℕ → Option (Transport × Option ProxyPool)
pick_and_store_proxy t none now draw = some (t, none)
pick_and_store_proxy t (some pool) now draw = elim (remember t (ProxyPool.next pool now draw)) [
  | none ↦ none
  | some (t', pool') ↦ some (t', some pool')
]
