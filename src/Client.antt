-- ===== src/Client.antt =====
-- client.go: the state of a `Client` and the parts of its request loop.
-- A method works on a `Ctx`: the client, the heap of cookie jars, the world, and the trace of what
-- can be seen from outside (requests sent, callbacks called). The network, the clock, the context's
-- cancellation and the random numbers are the record `Env`.
pub mod Loop
pub mod Settings
pub mod Search
pub mod Volume
pub mod Answers
pub mod Bounded
pub mod Unbounded
pub mod Success
use go_ddgs_stealth.Common.{
  ℕ, zero, suc, ◌+◌, ◌-◌, ◌*◌, ◌^◌, String, Bool, true, false, not, ◌&&◌, ◌||◌, Option, none, some,
  List, [], ◌∷◌, ◌++◌, ltb, leb, ◌==◌, if◌then◌else◌,
}
use go_ddgs_stealth.Common.Int.{ℤ, pos, pos_part, ltb_ℤ}
use go_ddgs_stealth.Common.Dict
use go_ddgs_stealth.Common.Dict.{Dict}
use go_ddgs_stealth.Common.Text.{is_empty}
use go_ddgs_stealth.Breaker
use go_ddgs_stealth.Breaker.{
  CircuitBreaker, CircuitSnapshot, Time, second, is_open, record_block, record_success, snapshot,
}
use go_ddgs_stealth.Limiter.{Floats, reserve, on_block, on_success}
use go_ddgs_stealth.ProxyPool.{mark_success, mark_failed}
use go_ddgs_stealth.Errors.{
  Err, Header, header_get, BlockedEvent, blocked_error, err_circuit_open, opaque,
}
use go_ddgs_stealth.Detect.{detect_block_signal, retry_after_seconds, BlockInfo}
use go_ddgs_stealth.Session.{Heap, set_cookies, invalidate}
use go_ddgs_stealth.Solver.{
  Cookie, ChallengeSolution, Solved, accepted, chain_solve, ChallengeSolver,
}
use go_ddgs_stealth.AntiBot.{
  AntiBotState, HttpClient, Transport, UaPool, single, pick_and_store_proxy,
}

pub record Request : Type 0 where
  pub method : String
  pub url : String
  pub headers : Header
  pub body : String

-- A response with its body read; `read_error` is the error of `io.ReadAll`.
pub record HttpReply : Type 0 where
  pub status_code : ℕ
  pub header : Header
  pub body : String
  pub read_error : Option String

pub data Sent : Type 0 where
  no_reply : String → Sent
  replied : HttpReply → Sent

pub record Env (W : Type 0) : Type 0 where
  pub now : W → Time × W
  pub send : Request → W → Sent × W
  -- A sleep of so long: whether the timer fired before the context was done.
  pub sleep : ℕ → W → Bool × W
  -- A draw of `gaussianDuration` around a mean with a deviation.
  pub gaussian : ℕ → ℕ → W → ℤ × W
  -- A random number, of which `rand.Intn(n)` takes the remainder.
  pub random : W → ℕ × W
  -- The backoff with its jitter: a product with a random factor near 1, as a duration.
  pub jittered : ℕ → W → ℤ × W
  -- The seconds until an HTTP date.
  pub until_date : W → String → ℕ
  pub floats : Floats

pub data CircuitState : Type 0 where
  state_closed state_open : CircuitState

pub record CircuitEvent : Type 0 where
  pub state : CircuitState
  pub trigger : String
  pub attempt : ℕ
  pub at : CircuitSnapshot

-- What can be seen from outside.
pub data Notice : Type 0 where
  sends : Request → Notice
  on_blocked : BlockedEvent → Notice
  on_circuit : CircuitEvent → Notice

pub record TokenEntry : Type 0 where
  pub value : String
  pub expires_at : Time

-- A compiled pattern of Options.BlockedBodyPatterns: its source and what it matches.
pub record BodyPattern : Type 0 where
  pub source : String
  pub matches : String → Bool

pub record Client (W : Type 0) : Type 0 where
  pub http : HttpClient
  pub ddg_base : String
  pub links_base : String
  pub html_base : String
  pub ua : String
  pub referer : String
  pub headers : Header
  pub retry_max : ℕ
  pub base_delay : ℕ
  pub vqd_ttl : ℕ
  pub min_gap : ℤ
  pub no_fallback : Bool
  pub blocked : List ℕ
  pub blocked_re : List BodyPattern
  pub has_on_blocked : Bool
  pub has_on_circuit : Bool
  pub vqd_cache : Dict TokenEntry
  pub last_req : Time
  pub anti_bot : Option (AntiBotState W)

pub record Ctx (W : Type 0) : Type 0 where
  pub client : Client W
  pub heap : Heap
  pub world : W
  pub trace : List Notice

pub data Result (A : Type 0) : Type 0 where
  ok : A → Result A
  err : Err → Result A
  -- A panic of the proxy pool; and fuel that ran out.
  crash out_of_fuel : Result A

abbrev pub ctx_done : Err
ctx_done = opaque "context"

abbrev pub circuit_event : CircuitState → String → ℕ → CircuitSnapshot → Notice
circuit_event state trigger attempt snap =
    on_circuit (record { state = state; trigger = trigger; attempt = attempt; at = snap })

-- The status is one that the client takes for a block.
unfoldable pub is_blocked_status : List ℕ → ℕ → Bool
is_blocked_status [] n = false
is_blocked_status (s ∷ ss) n = s == n || is_blocked_status ss n

-- blockedDetector: the source of the first pattern that matches, or "".
unfoldable pub blocked_detector : List BodyPattern → String → String
blocked_detector [] body = ""
blocked_detector (p ∷ ps) body =
    let rest = blocked_detector ps body in if p.matches body then p.source else rest

module _ {W : Type 0} where
  abbrev pub notify : Notice → Ctx W → Ctx W
  notify n c = record c { trace = c.trace ++ n ∷ [] }

  abbrev pub notify_if : Bool → Notice → Ctx W → Ctx W
  notify_if b n c = if b then notify n c else c

  abbrev pub set_client : Client W → Ctx W → Ctx W
  set_client k c = record c { client = k }

  -- Changes the anti-bot state, where there is one.
  abbrev pub with_state : (AntiBotState W → AntiBotState W) → Ctx W → Ctx W
  with_state f c = elim c.client.anti_bot [
    | none ↦ c
    | some st ↦ set_client (record c.client { anti_bot = some (f st) }) c
  ]

  abbrev pub breaker_of : Ctx W → Option CircuitBreaker
  breaker_of c = elim c.client.anti_bot [ none ↦ none | some st ↦ st.circuit ]

  abbrev pub clear_all_vqd : Client W → Client W
  clear_all_vqd k = record k { vqd_cache = [] }
