-- ===== src/Breaker/History.antt =====
-- The circuit breaker as a function of what it was told: a history of blocks and successes.
use go_ddgs_stealth.Common.{
  ℕ, suc, ◌+◌, ◌<◌, ◌≡◌, refl, ◌&&◌, List, [], ◌∷◌, ltb, leb, if◌then◌else◌, arith,
}
use go_ddgs_stealth.Common.Int.{ℤ}
use go_ddgs_stealth.Breaker.{
  Time, CircuitBreaker, new_circuit_breaker, is_open, record_block, record_success,
}

-- What the clients report, the latest first. A block carries its two readings of the clock.
pub data Report : Type 0 where
  blocked : (now later : Time) → Report
  succeeded : (now : Time) → Report

unfoldable pub report : CircuitBreaker → Report → CircuitBreaker
report cb (blocked now later) = (record_block cb now later).0
report cb (succeeded now) = (record_success cb now).0

unfoldable pub after : CircuitBreaker → List Report → CircuitBreaker
after cb [] = cb
after cb (r ∷ rs) = report (after cb rs) r

-- The blocks since the latest success.
abbrev pub streak : List Report → ℕ
streak [] = 0
streak (blocked now later ∷ rs) = suc (streak rs)
streak (succeeded now ∷ rs) = 0

abbrev pub last_block : List Report → Time
last_block [] = 0
last_block (blocked now later ∷ rs) = later
last_block (succeeded now ∷ rs) = 0

record Agrees (cb : CircuitBreaker) (rs : List Report) (threshold cooldown : ℕ) : Type 0 where
  same_threshold : cb.threshold ≡ threshold
  same_cooldown : cb.cooldown ≡ cooldown
  counts : cb.consecutive ≡ streak rs
  deadline : cb.open_until ≡ (if leb threshold (streak rs) then last_block rs + cooldown else 0)

module _ (threshold cooldown : ℤ) where
  abbrev fresh : CircuitBreaker
  fresh = new_circuit_breaker threshold cooldown

  fresh_positive : (0 < fresh.threshold) × (0 < fresh.cooldown)
  unfolding new_circuit_breaker
  fresh_positive = ground arith

  fresh_start : (fresh.consecutive ≡ 0) × (fresh.open_until ≡ 0)
  unfolding new_circuit_breaker
  fresh_start = (refl, refl)

  Agrees-after : (rs : List Report) → Agrees (after fresh rs) rs fresh.threshold fresh.cooldown
  unfolding after report record_block record_success
  Agrees-after [] = ground (arith, fresh_positive, fresh_start)
  Agrees-after (blocked now later ∷ rs) = ground (arith, fresh_positive, Agrees-after rs)
  Agrees-after (succeeded now ∷ rs) = ground (arith, fresh_positive, Agrees-after rs)

  -- The breaker answers "open" at a time exactly when the latest unbroken run of blocks has reached
  -- the threshold and the time is before the latest block's time plus the cooldown.
  pub is_open-after :
      (rs : List Report) (now : Time)
      → is_open (after fresh rs) now
        ≡ (leb fresh.threshold (streak rs) && ltb now (last_block rs + fresh.cooldown))
  unfolding is_open
  is_open-after rs now = ground (arith, fresh_positive, Agrees-after rs)
