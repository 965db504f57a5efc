-- ===== src/Client/Loop.antt =====
-- client.go: `doWithRetry` and the methods that it calls.
use go_ddgs_stealth.Common.{
  ℕ, zero, suc, ◌+◌, ◌-◌, ◌*◌, ◌^◌, String, Bool, true, false, ◌&&◌, ◌||◌, Option, none, some, List,
  [], ◌∷◌, ltb, leb, ◌==◌, if◌then◌else◌,
}
use go_ddgs_stealth.Common.Int.{pos, pos_part, ltb_ℤ}
use go_ddgs_stealth.Common.Text.{is_empty, trim_space, unbroken, take, size, status_text}
use Prim.Native.String
use go_ddgs_stealth.Breaker.{
  CircuitBreaker, Time, second, is_open, record_block, record_success, snapshot,
}
use go_ddgs_stealth.Limiter.{AdaptiveRateLimiter, reserve, on_block, on_success}
use go_ddgs_stealth.ProxyPool.{mark_success, mark_failed}
use go_ddgs_stealth.Errors.{Err, header_get, BlockedEvent, blocked_error, err_circuit_open, opaque}
use go_ddgs_stealth.Detect.{detect_block_signal, retry_after_seconds}
use go_ddgs_stealth.Session.{set_cookies, invalidate}
use go_ddgs_stealth.Solver.{Cookie, ChallengeSolution, ChallengeSolver, chain_solve}
use go_ddgs_stealth.AntiBot.{AntiBotState, Transport, single, pick_and_store_proxy}
use go_ddgs_stealth.Client.{
  Request, HttpReply, Sent, no_reply, replied, Env, sends, on_blocked, state_closed, state_open,
  Ctx, Result, ok, err, crash, out_of_fuel, ctx_done, notify, notify_if, set_client, with_state,
  breaker_of, circuit_event, is_blocked_status, blocked_detector, clear_all_vqd,
}

-- What one reply counts as. A status outside 2xx that is neither blocked nor 429 nor 5xx ends the
-- loop.
pub data Judged : Type 0 where
  accepted : String → Judged
  fatal failed : Err → Judged
  blocked : BlockedEvent → Judged

-- How one turn of the loop ends: the loop returns, goes round at the same count after a solved
-- challenge, or goes on to the backoff with an error.
pub data Turn : Type 0 where
  returns : Result String → Turn
  again : Turn
  backs_off : Err → Turn

module _ {W : Type 0} (env : Env W) where
  abbrev pub set_world : W → Ctx W → Ctx W
  set_world w c = record c { world = w }

  -- time.Now()
  abbrev pub read_clock : Ctx W → Time × Ctx W
  read_clock c = let (t, w) = env.now c.world in (t, set_world w c)

  -- A timer against the context: whether the timer fired. One that is not positive fires at once.
  abbrev pub pause : ℕ → Ctx W → Bool × Ctx W
  pause d c = let (slept, w) = env.sleep d c.world in (slept, set_world w c)

  -- The check at the top of the loop: whether the breaker is open, with its callback.
  unfoldable pub check_circuit : ℕ → Ctx W → Bool × Ctx W
  check_circuit i c = elim (breaker_of c) [
    | none ↦ (false, c)
    | some cb ↦
        let (t, c') = read_clock c in
        let told =
          notify_if c'.client.has_on_circuit
            (circuit_event state_open "fail_fast" (i + 1) (snapshot cb)) c' in
        if is_open cb t then (true, told) else (false, c')
  ]

  -- AdaptiveRateLimiter.Wait on the limiter of the anti-bot state.
  unfoldable pub limiter_wait : AdaptiveRateLimiter → Ctx W → Bool × Ctx W
  limiter_wait r c =
      let (draw, w) = env.gaussian r.current (env.floats.stddev r.current) c.world in
      let (t, c1) = read_clock (set_world w c) in
      let (wait, r') = reserve r draw t in
      let c2 = with_state (λ st. record st { rate_limit = some r' }) c1 in
      let slept = pause wait c2 in if ltb 0 wait then slept else (true, c2)

  -- waitForTurn
  unfoldable pub wait_for_turn : Ctx W → Bool × Ctx W
  wait_for_turn c =
      let (t, c1) = read_clock c in
      let first = set_client (record c1.client { last_req = t }) c1 in
      let due = c1.client.last_req + pos_part c1.client.min_gap in
      let (slept, c2) = pause (due - t) c1 in
      let stamp = λ (c' : Ctx W).
        let (t', c3) = read_clock c' in set_client (record c3.client { last_req = t' }) c3 in
      let waited = if slept then (true, stamp c2) else (false, c2) in
      if ltb_ℤ (pos 0) c.client.min_gap
      then if c1.client.last_req == 0
        then (true, first)
        else if ltb t due
        then waited
        else (true, stamp c1)
      else (true, c)

  -- The rate limit of one attempt: the adaptive one if there is one.
  abbrev pub limiter_of : Ctx W → Option AdaptiveRateLimiter
  limiter_of c = elim c.client.anti_bot [ none ↦ none | some st ↦ st.rate_limit ]

  unfoldable pub take_turn : Ctx W → Bool × Ctx W
  take_turn c = elim (limiter_of c) [ some r ↦ limiter_wait r c | none ↦ wait_for_turn c ]

  -- The proxy that the transport picks for the round trip; `none` is a panic.
  abbrev route_state : AntiBotState W → Ctx W → Option (Ctx W)
  route_state st c = elim st.transport [
    | none ↦ some c
    | some t ↦
        let (now, c1) = read_clock c in
        let (draw, w) = env.random c1.world in
        let c2 = set_world w c1 in
        elim (pick_and_store_proxy t st.proxy_pool now draw) [
          | none ↦ none
          | some (t', pool') ↦
              some (with_state (λ s. record s { transport = some t'; proxy_pool = pool' }) c2)
        ]
  ]

  unfoldable pub route : Ctx W → Option (Ctx W)
  route c = elim c.client.anti_bot [
    | none ↦ some c
    | some st ↦ if c.client.http.routed then route_state st c else some c
  ]

  -- c.httpClient.Do(req), with the body read.
  unfoldable pub exchange : Request → Ctx W → Option (Sent × Ctx W)
  exchange req c = elim (route c) [
    | none ↦ none
    | some c1 ↦
        let (answer, w) = env.send req c1.world in
        some (answer, notify (sends req) (set_world w c1))
  ]

  -- The text of a body without line breaks and outer spaces, cut to so many.
  unfoldable pub snippet : String → ℕ → String
  snippet body max =
      let limit = if max == 0 then 200 else max in
      let s = trim_space (unbroken body) in
      if leb (size s) limit then s else String.◌++◌ (take limit s) "..."

  abbrev blocked_event : ℕ → HttpReply → String → BlockedEvent
  blocked_event i r detector = record {
    status_code = r.status_code;
    headers = r.header;
    body_snippet = snippet r.body 280;
    detector = detector;
    attempt = i + 1;
  }

  abbrev http_text : ℕ → String
  http_text n = String.◌++◌ "http " (status_text n)

  -- The wait that a `Retry-After` header asks for before the next attempt, if there is one.
  unfoldable pub respect_retry_after : ℕ → HttpReply → Ctx W → Bool × Ctx W
  respect_retry_after i r c =
      let secs = retry_after_seconds (env.until_date c.world) (header_get "Retry-After" r.header) in
      let slept = pause (secs * second) c in
      if ltb 0 secs && ltb (i + 1) c.client.retry_max then slept else (true, c)

  abbrev blocked_status : ℕ → HttpReply → Ctx W → Judged × Ctx W
  blocked_status i r c =
      let (slept, c') = respect_retry_after i r c in
      if slept then (blocked (blocked_event i r "status"), c') else (fatal ctx_done, c')

  abbrev two_hundred : ℕ → HttpReply → Ctx W → Judged
  two_hundred i r c =
      let det = blocked_detector c.client.blocked_re r.body in
      if is_empty det then accepted r.body else blocked (blocked_event i r det)

  unfoldable pub judge_reply : ℕ → HttpReply → Ctx W → Judged × Ctx W
  judge_reply i r c =
      let by_status : Judged × Ctx W =
        if leb 200 r.status_code && ltb r.status_code 300
        then (two_hundred i r c, c)
        else if r.status_code == 429 || leb 500 r.status_code
        then (failed (opaque (http_text r.status_code)), c)
        else (
          fatal (
              opaque
                (String.◌++◌ (http_text r.status_code) (String.◌++◌ ": " (trim_space r.body)))),
          c,
        ) in
      let by_block = blocked_status i r c in
      elim r.read_error [
        | some e ↦ (failed (opaque e), c)
        | none ↦ if is_blocked_status c.client.blocked r.status_code then by_block else by_status
      ]

  -- The success path: limiter, breaker, and proxy are told.
  abbrev state_success : AntiBotState W → Time → AntiBotState W
  state_success st t = record st {
    rate_limit = elim st.rate_limit [ none ↦ none | some r ↦ some (on_success env.floats r) ];
    circuit = elim st.circuit [ none ↦ none | some cb ↦ some (record_success cb t).0 ];
    proxy_pool = elim st.transport [
      | none ↦ st.proxy_pool
      | some tr ↦ elim st.proxy_pool [ none ↦ none | some p ↦ some (mark_success p tr.last_proxy) ]
    ];
  }

  abbrev success_notice : ℕ → CircuitBreaker → Time → Ctx W → Ctx W
  success_notice i cb t c =
      let (_, closed, snap) = record_success cb t in
      notify_if (closed && c.client.has_on_circuit)
        (circuit_event state_closed "success_reset" (i + 1) snap) c

  unfoldable pub after_success : ℕ → Ctx W → Ctx W
  after_success i c =
      let (t, c1) = read_clock c in
      elim (breaker_of c) [
        | none ↦ with_state (λ st. state_success st 0) c
        | some cb ↦ with_state (λ st. state_success st t) (success_notice i cb t c1)
      ]

  -- applySolution
  abbrev pin : String → Option Transport → Option Transport
  pin ua none = none
  pin ua (some t) =
      some (elim t.ua_pool [ none ↦ t | some p ↦ record t { ua_pool = some (single ua) } ])

  abbrev host_of : Cookie → String
  host_of ck = if is_empty ck.domain then "duckduckgo.com" else ck.domain

  abbrev pub inject : List Cookie → Ctx W → Ctx W
  inject [] c = c
  inject (ck ∷ cks) c = elim c.client.http.jar [
    | none ↦ inject cks c
    | some a ↦ inject cks (record c { heap = set_cookies c.heap a (host_of ck) (ck ∷ []) })
  ]

  unfoldable pub apply_solution : ChallengeSolution → Ctx W → Ctx W
  apply_solution sol c =
      let c1 = inject sol.cookies c in
      let c2 = set_client (record c1.client { ua = sol.user_agent }) c1 in
      if is_empty sol.user_agent
      then c1
      else with_state (λ st. record st { transport = pin sol.user_agent st.transport }) c2

  -- The anti-bot systems are told of a block; `t` and `t'` are the breaker's readings of the clock,
  -- `t''` the pool's.
  abbrev state_blocked : AntiBotState W → Time → Time → Time → AntiBotState W
  state_blocked st t t' t'' = record st {
    rate_limit = elim st.rate_limit [ none ↦ none | some r ↦ some (on_block env.floats r) ];
    circuit = elim st.circuit [ none ↦ none | some cb ↦ some (record_block cb t t').0 ];
    proxy_pool = elim st.transport [
      | none ↦ st.proxy_pool
      | some tr ↦ elim st.proxy_pool [
        | none ↦ none
        | some p ↦ some (mark_failed p tr.last_proxy t'')
      ]
    ];
  }

  abbrev block_notice : ℕ → Time → Time → AntiBotState W → Ctx W → Ctx W
  block_notice i t t' st c = elim st.circuit [
    | none ↦ c
    | some cb ↦
        let (_, opened, snap) = record_block cb t t' in
        notify_if (opened && c.client.has_on_circuit)
          (circuit_event state_open "threshold_reached" (i + 1) snap) c
  ]

  -- The vqd cache and the session, as the configuration says.
  abbrev forget_tokens : AntiBotState W → Ctx W → Ctx W
  forget_tokens st c =
      if st.cfg.vqd_invalidate_on_block then set_client (clear_all_vqd c.client) c else c

  abbrev reset_session : AntiBotState W → Ctx W → Ctx W
  reset_session st c = elim st.session [
    | none ↦ c
    | some s ↦
        let (s', heap') = invalidate s c.heap in
        if st.cfg.session_invalidate_on_block
        then with_state (λ st'. record st' { session = some s' }) (record c { heap = heap' })
        else c
  ]

  -- The readings of the clock are made where there is something to read it for; an unused reading
  -- changes nothing but the world.
  unfoldable pub tell_block : ℕ → AntiBotState W → Ctx W → Ctx W
  tell_block i st c =
      let (t, c1) = read_clock c in
      let (t', c2) = read_clock c1 in
      let (t'', c3) = read_clock c2 in
      reset_session st
        (forget_tokens st (with_state (λ s. state_blocked s t t' t'') (block_notice i t t' st c3)))

  -- Solving: whether a solution was applied.
  abbrev try_solvers :
      BlockedEvent → Request → String → List (ChallengeSolver W) → Ctx W → Bool × Ctx W
  try_solvers ev req body ss c =
      let info = detect_block_signal ev.status_code ev.headers body in
      let (answer, w) = chain_solve ss req.url info body c.world in
      let c' = set_world w c in
      elim answer.0 [
        | none ↦ (false, c')
        | some sol ↦ elim answer.1 [ none ↦ (true, apply_solution sol c') | some e ↦ (false, c') ]
      ]

  unfoldable pub solve_challenge :
      BlockedEvent → Request → String → AntiBotState W → Ctx W → Bool × Ctx W
  solve_challenge ev req body st c = elim st.solver [
    | none ↦ (false, c)
    | some ss ↦ try_solvers ev req body ss c
  ]

  unfoldable pub after_block : BlockedEvent → Request → String → ℕ → Ctx W → Bool × Ctx W
  after_block ev req body i c =
      let c1 = notify_if c.client.has_on_blocked (on_blocked ev) c in
      elim c.client.anti_bot [
        | none ↦ (false, c1)
        | some st ↦ solve_challenge ev req body st (tell_block i st c1)
      ]

  unfoldable pub on_reply : ℕ → Request → HttpReply → Ctx W → Turn × Ctx W
  on_reply i req r c =
      let (verdict, c1) = judge_reply i r c in
      elim verdict [
        | accepted body ↦ (returns (ok body), after_success i c1)
        | fatal e ↦ (returns (err e), c1)
        | failed e ↦ (backs_off e, c1)
        | blocked ev ↦
            let (solved, c2) = after_block ev req r.body i c1 in
            if solved then (again, c2) else (backs_off (blocked_error ev), c2)
      ]

  unfoldable pub on_sent : ℕ → Request → Option (Sent × Ctx W) → Ctx W → Turn × Ctx W
  on_sent i req none c = (returns crash, c)
  on_sent i req (some (no_reply e, c')) c = (backs_off (opaque e), c')
  on_sent i req (some (replied r, c')) c = on_reply i req r c'

  -- A builder of requests may change the client and the world, as `getVQD` does.
  abbrev pub Builder : Type 0
  Builder = Ctx W → Result Request × Ctx W

  unfoldable pub send_built : ℕ → Result Request → Ctx W → Turn × Ctx W
  send_built i (ok req) c = on_sent i req (exchange req c) c
  send_built i (err e) c = (returns (err e), c)
  send_built i crash c = (returns crash, c)
  send_built i out_of_fuel c = (returns out_of_fuel, c)

  unfoldable pub build_and_send : ℕ → Builder → Ctx W → Turn × Ctx W
  build_and_send i build c = send_built i (build c).0 (build c).1

  unfoldable pub turn : ℕ → Builder → Ctx W → Turn × Ctx W
  turn i build c =
      let (tripped, c1) = check_circuit i c in
      let (in_time, c2) = take_turn c1 in
      let sent = build_and_send i build c2 in
      if tripped
      then (returns (err err_circuit_open), c1)
      else if in_time
      then sent
      else (returns (err ctx_done), c2)

  -- sleepBackoff
  unfoldable pub sleep_backoff : ℕ → Ctx W → Bool × Ctx W
  sleep_backoff attempt c =
      let backoff = c.client.base_delay * 2 ^ attempt in
      let (d, w) = env.jittered backoff c.world in
      let c1 = set_world w c in
      let slept = pause (pos_part d) c1 in if ltb_ℤ (pos 0) d then slept else (true, c1)

  -- doWithRetry from attempt `i` on. Fuel bounds the turns, of which solved challenges take any
  -- number at one count; `none` is fuel that ran out.
  unfoldable pub retry_from : ℕ → ℕ → Builder → Ctx W → Option (Result String × Ctx W)
  retry_from zero i build c = none
  retry_from (suc fuel) i build c =
      let (end, c1) = turn i build c in
      elim end [
        | returns r ↦ some (r, c1)
        | again ↦ retry_from fuel i build c1
        | backs_off e ↦
            let (slept, c2) = sleep_backoff i c1 in
            let more = retry_from fuel (suc i) build c2 in
            if i + 1 == c.client.retry_max
            then some (err e, c1)
            else if slept
            then more
            else some (err ctx_done, c2)
      ]

  -- doWithRetry; without a single attempt it returns no body and no error.
  unfoldable pub do_with_retry : ℕ → Builder → Ctx W → Option (Result String × Ctx W)
  unfolding retry_from
  do_with_retry fuel build c =
      let looped = retry_from fuel 0 build c in
      if c.client.retry_max == 0 then some (ok "", c) else looped
