-- ===== src/Limiter/Spacing.antt =====
-- The slots that successive calls of `Wait` reserve.
use go_ddgs_stealth.Common.{ℕ, ◌+◌, ◌*◌, ◌/◌, ◌≤◌, ◌<◌, ◌≡◌, ◌⊎◌, arith, if◌then◌else◌, leb}
use go_ddgs_stealth.Common.Int.{ℤ}
use go_ddgs_stealth.Breaker.{Time}
use go_ddgs_stealth.Limiter.{AdaptiveRateLimiter, clamp_draw, reserve}

clamp_draw_bounds :
    (d : ℤ) (min max : ℕ) → min ≤ max → (min ≤ clamp_draw d min max) × (clamp_draw d min max ≤ max)
unfolding clamp_draw
clamp_draw_bounds d min max h = ground arith

-- The slot is the later of the present and the previous slot plus the jittered delay.
reserve_slot :
    (r : AdaptiveRateLimiter) (draw : ℤ) (now : Time)
    → 0 < r.last_req
    → (reserve r draw now).1.last_req ≡ (
        let due = r.last_req + clamp_draw draw (r.base / 2) (r.max * 2) in
        if leb due now then now else due)
unfolding reserve
reserve_slot r draw now h = ground arith

-- A limiter that has served a request, with a base of at most its ceiling, reserves a slot that is
-- not in the past, that lies at least half the base delay after the slot before, and that is either
-- the present or at most twice the ceiling after the slot before; the caller sleeps until that slot.
pub reserve_spacing :
    (r : AdaptiveRateLimiter) (draw : ℤ) (now : Time)
    → 0 < r.last_req
    → r.base ≤ r.max
    → let (wait, r') = reserve r draw now in
      (now ≤ r'.last_req)
      × (r.last_req + r.base / 2 ≤ r'.last_req)
      × ((r'.last_req ≡ now) ⊎ (r'.last_req ≤ r.last_req + r.max * 2))
      × (now + wait ≡ r'.last_req)
unfolding reserve
reserve_spacing r draw now h o = ground (arith, clamp_draw_bounds draw (r.base / 2) (r.max * 2))
