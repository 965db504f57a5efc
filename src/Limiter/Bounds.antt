-- ===== src/Limiter/Bounds.antt =====
-- The delay of the limiter stays between its base and its ceiling.
use go_ddgs_stealth.Common.{ℕ, ◌≤◌, ◌<◌, ◌≡◌, List, [], ◌∷◌, arith}
use go_ddgs_stealth.Common.Int.{ℤ}
use go_ddgs_stealth.Breaker.{Time}
use go_ddgs_stealth.Limiter.{
  Floats, AdaptiveRateLimiter, new_adaptive_rate_limiter, reserve, on_block, on_success,
}

-- One use of the limiter by a client.
pub data Use : Type 0 where
  waits : (draw : ℤ) (now : Time) → Use
  blocks succeeds : Use

module _ (floats : Floats) where
  unfoldable pub use_limiter : AdaptiveRateLimiter → Use → AdaptiveRateLimiter
  use_limiter r (waits draw now) = (reserve r draw now).1
  use_limiter r blocks = on_block floats r
  use_limiter r succeeds = on_success floats r

  unfoldable pub use_all : AdaptiveRateLimiter → List Use → AdaptiveRateLimiter
  use_all r [] = r
  use_all r (u ∷ us) = use_all (use_limiter r u) us

pub record IsBounded (base max : ℕ) (r : AdaptiveRateLimiter) : Type 0 where
  pub same_base : r.base ≡ base
  pub same_max : r.max ≡ max
  pub above : base ≤ r.current
  pub below : r.current ≤ max

module _ (floats : Floats) (shrink-le : (d : ℕ) → floats.shrink d ≤ d) (base max : ℕ)
    (ordered : base ≤ max) where
  use_limiter-IsBounded :
      (r : AdaptiveRateLimiter) (u : Use)
      → IsBounded base max r
      → IsBounded base max (use_limiter floats r u)
  unfolding use_limiter reserve on_block on_success
  use_limiter-IsBounded r (waits draw now) h = ground arith
  use_limiter-IsBounded r blocks h = ground arith
  use_limiter-IsBounded r succeeds h = ground (arith, shrink-le r.current)

  use_all_from-IsBounded :
      (r : AdaptiveRateLimiter) (us : List Use)
      → IsBounded base max r
      → IsBounded base max (use_all floats r us)
  unfolding use_all
  use_all_from-IsBounded r [] h = h
  use_all_from-IsBounded r (u ∷ us) h =
      use_all_from-IsBounded (use_limiter floats r u) us (use_limiter-IsBounded r u h)

  -- Whatever waits, blocks and successes a limiter made with a base no larger than its ceiling has
  -- seen, its delay lies between the base and the ceiling, and these two are as they were made,
  -- provided that multiplying by the shrink factor never enlarges a duration.
  pub use_all-IsBounded :
      (us : List Use) → IsBounded base max (use_all floats (new_adaptive_rate_limiter base max) us)
  unfolding new_adaptive_rate_limiter
  use_all-IsBounded us = use_all_from-IsBounded _ us (ground arith)

-- A base above the ceiling is not refused by the constructor: the first block then lowers the delay
-- to the ceiling, if the growth does not shrink it.
on_block_inverted :
    (floats : Floats) (base max : ℕ)
    → max < base
    → base ≤ floats.grow base
    → (on_block floats (new_adaptive_rate_limiter base max)).current ≡ max
unfolding on_block new_adaptive_rate_limiter
on_block_inverted floats base max h g = ground arith
