-- ===== src/Breaker.antt =====
-- antibot.go, the circuit breaker: `circuitBreaker`, `circuitSnapshot` and their methods.
-- A `time.Time` is the number of nanoseconds since the zero time, which `IsZero` recognises, so
-- `time.Time{}` is 0. Each call of `time.Now()` is an argument. The mutex makes each method atomic.
-- `int` counters are unbounded here. The constructor leaves both settings positive.
pub mod History
use go_ddgs_stealth.Common.{
  ℕ, zero, ◌+◌, ◌*◌, Bool, true, false, not, ◌&&◌, ltb, leb, ◌==◌, if◌then◌else◌,
}
use go_ddgs_stealth.Common.Int.{ℤ, or_default}

abbrev pub Time : Type 0
Time = ℕ

-- time.Second, in nanoseconds
abbrev pub second : ℕ
second = 1_000_000_000

pub record CircuitBreaker : Type 0 where
  pub threshold : ℕ
  pub cooldown : ℕ
  pub consecutive : ℕ
  pub open_until : Time

pub record CircuitSnapshot : Type 0 where
  pub threshold : ℕ
  pub cooldown : ℕ
  pub consecutive : ℕ
  pub open_until : Time

unfoldable pub new_circuit_breaker : ℤ → ℤ → CircuitBreaker
new_circuit_breaker threshold cooldown = record {
  threshold = or_default threshold 5;
  cooldown = or_default cooldown (60 * second);
  consecutive = 0;
  open_until = 0;
}

unfoldable pub is_open : CircuitBreaker → Time → Bool
is_open cb now = not (cb.open_until == 0) && ltb now cb.open_until

unfoldable pub snapshot : CircuitBreaker → CircuitSnapshot
snapshot cb = record {
  threshold = cb.threshold;
  cooldown = cb.cooldown;
  consecutive = cb.consecutive;
  open_until = cb.open_until;
}

-- `now` is read for `wasOpen`, `later` for the new deadline.
unfoldable pub record_block : CircuitBreaker → Time → Time → CircuitBreaker × Bool × CircuitSnapshot
unfolding is_open snapshot
record_block cb now later =
    let counted = record cb { consecutive = cb.consecutive + 1 } in
    let tripped = record counted { open_until = later + cb.cooldown } in
    if leb counted.threshold counted.consecutive
    then (tripped, not (is_open counted now), snapshot tripped)
    else (counted, false, snapshot counted)

unfoldable pub record_success : CircuitBreaker → Time → CircuitBreaker × Bool × CircuitSnapshot
unfolding is_open snapshot
record_success cb now =
    let reset = record cb { consecutive = 0; open_until = 0 } in
    (reset, is_open cb now, snapshot reset)
