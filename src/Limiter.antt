-- ===== src/Limiter.antt =====
-- timing.go: `clampDuration` and the `AdaptiveRateLimiter`.
-- Durations and times are nanoseconds. The products `float64(d) * factor`, converted back, are the
-- record `Floats`, since there are no floats here; a Gaussian draw (`gaussianDuration`) is an
-- argument, and so is each reading of the clock.
pub mod Bounds
pub mod Spacing
use go_ddgs_stealth.Common.{ℕ, ◌+◌, ◌*◌, ◌/◌, ◌≤◌, Bool, ltb, leb, ◌==◌, if◌then◌else◌}
use go_ddgs_stealth.Common.Int.{ℤ, pos, pos_part, sub_ℕ, ltb_ℤ, ◌-ℤ◌}
use go_ddgs_stealth.Breaker.{Time}

-- `time.Duration(float64(d) * factor)` at the three factors of the limiter.
pub record Floats : Type 0 where
  pub grow : ℕ → ℕ
  pub shrink : ℕ → ℕ
  pub stddev : ℕ → ℕ

pub record AdaptiveRateLimiter : Type 0 where
  pub base : ℕ
  pub current : ℕ
  pub max : ℕ
  pub last_req : Time

unfoldable pub new_adaptive_rate_limiter : ℕ → ℕ → AdaptiveRateLimiter
new_adaptive_rate_limiter base max = record { base = base; current = base; max = max; last_req = 0 }

unfoldable pub clamp_duration : ℕ → ℕ → ℕ → ℕ
clamp_duration d min max = if ltb d min then min else if ltb max d then max else d

-- `clampDuration` of a draw, which may be negative, between bounds that are not.
unfoldable pub clamp_draw : ℤ → ℕ → ℕ → ℕ
clamp_draw d min max =
    if ltb_ℤ d (pos min) then min else if ltb_ℤ (pos max) d then max else pos_part d

-- What `Wait` computes under its lock: how long to sleep, and the slot that it reserves. The draw
-- is the result of `gaussianDuration(delay, stddev)`.
unfoldable pub reserve : AdaptiveRateLimiter → ℤ → Time → ℕ × AdaptiveRateLimiter
unfolding clamp_draw ◌-ℤ◌
reserve r draw now =
    let jittered = clamp_draw draw (r.base / 2) (r.max * 2) in
    let elapsed = sub_ℕ now r.last_req in
    let pending = if ltb_ℤ elapsed (pos jittered) then pos_part (pos jittered -ℤ elapsed) else 0 in
    let wait = if r.last_req == 0 then 0 else pending in (wait, record r { last_req = now + wait })

module _ (floats : Floats) where
  unfoldable pub on_block : AdaptiveRateLimiter → AdaptiveRateLimiter
  unfolding clamp_duration
  on_block r = record r { current = clamp_duration (floats.grow r.current) r.base r.max }

  unfoldable pub on_success : AdaptiveRateLimiter → AdaptiveRateLimiter
  on_success r =
      let shrunk = floats.shrink r.current in
      record r { current = if ltb shrunk r.base then r.base else shrunk }
