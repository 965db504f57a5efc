-- ===== src/Client/Unbounded.antt =====
-- client.go: the request loop against a server that always blocks, with a challenge solver that
-- always solves. A solved challenge does not count as an attempt.
use go_ddgs_stealth.Common.{
  ℕ, zero, suc, ◌<◌, ◌≡◌, refl, String, true, false, Option, none, some, List, [], ◌∷◌, ◌+◌, arith,
}
use go_ddgs_stealth.Breaker.{CircuitBreaker}
use go_ddgs_stealth.ProxyPool.{ProxyPool}
use go_ddgs_stealth.Errors.{BlockedEvent}
use go_ddgs_stealth.Detect.{BlockSignal, BlockInfo}
use go_ddgs_stealth.AntiBot.{AntiBotState, pick_and_store_proxy}
use go_ddgs_stealth.Solver.{Cookie, ChallengeSolution, ChallengeSolver, chain_solve, chain_from}
use go_ddgs_stealth.Solver
use go_ddgs_stealth.Client.{
  Request, HttpReply, replied, Env, Ctx, ok, notify, sends, breaker_of, is_blocked_status,
}
use go_ddgs_stealth.Client.Loop.{
  snippet, set_world, inject, check_circuit, limiter_wait, wait_for_turn, take_turn, route,
  exchange, blocked, respect_retry_after, judge_reply, apply_solution, tell_block, solve_challenge,
  after_block, again, on_reply, on_sent, send_built, build_and_send, turn, Builder, retry_from,
  do_with_retry,
}
use go_ddgs_stealth.Client.Settings.{
  solver_of, settings-exchange, shape-take_turn, shape-judge_reply, shape-after_block,
}

module _ {W : Type 0} where
  abbrev pool_in : Option (AntiBotState W) → Option ProxyPool
  pool_in none = none
  pool_in (some st) = st.proxy_pool

  -- The breaker and the proxy pool of a client.
  abbrev pub guards : Ctx W → Option CircuitBreaker × Option ProxyPool
  guards c = (breaker_of c, pool_in c.client.anti_bot)

  -- The client has neither breaker nor proxy pool.
  abbrev pub Unguarded : Ctx W → Type 0
  Unguarded c = guards c ≡ (none, none)

  -- The server's reply has a status listed as blocked, and the first solver is this one.
  pub record IsStuck (r : HttpReply) (s : ChallengeSolver W) (ss : List (ChallengeSolver W))
      (c : Ctx W) : Type 0 where
    pub free : Unguarded c
    pub listed : is_blocked_status c.client.blocked r.status_code ≡ true
    pub solving : solver_of c.client.anti_bot ≡ some (s ∷ ss)

  -- The builder gives the same request each time.
  unfoldable pub same : (env : Env W) → Request → Builder env
  same env req c = (ok req, c)

  module _ (env : Env W) where
    Unguarded-take_turn : (c : Ctx W) → Unguarded c → Unguarded (take_turn env c).1
    unfolding take_turn limiter_wait wait_for_turn
    Unguarded-take_turn c free = grind (arith)

    abbrev got : Ctx W → Option (Ctx W) → Ctx W
    got c none = c
    got c (some c') = c'

    Unguarded-route :
        (c : Ctx W)
        → Unguarded c
        → let c' = got c (route env c) in (route env c ≡ some c') × Unguarded c'
    unfolding route pick_and_store_proxy
    Unguarded-route c free = grind (arith)

    Unguarded-exchange :
        (req : Request) (c : Ctx W)
        → Unguarded c
        → (c' : Ctx W) × (w : W) × ((exchange env req c ≡ some ((env.send req w).0, c'))
            × Unguarded c')
    unfolding exchange
    Unguarded-exchange req c free =
        let c1 = got c (route env c) in
        (
          set_world env (env.send req c1.world).1 (notify (sends req) c1),
          c1.world,
          (ground (arith, Unguarded-route c free), ground (arith, Unguarded-route c free)),
        )

    Unguarded-judge_reply :
        (i : ℕ) (r : HttpReply) (c : Ctx W) → Unguarded c → Unguarded (judge_reply env i r c).1
    unfolding judge_reply respect_retry_after
    Unguarded-judge_reply i r c free = grind (arith)

    guards-inject : (cks : List Cookie) (c : Ctx W) → guards (inject env cks c) ≡ guards c
    guards-inject [] c = refl
    guards-inject (ck ∷ cks) c = grind (arith, guards-inject cks)

    guards-apply_solution :
        (sol : ChallengeSolution) (c : Ctx W) → guards (apply_solution env sol c) ≡ guards c
    unfolding apply_solution
    guards-apply_solution sol c = grind (arith, guards-inject sol.cookies c)

    Unguarded-tell_block :
        (i : ℕ) (st : AntiBotState W) (c : Ctx W)
        → c.client.anti_bot ≡ some st
        → Unguarded c
        → Unguarded (tell_block env i st c)
    unfolding tell_block
    Unguarded-tell_block i st c e free = grind (arith)

    guards-solve_challenge :
        (ev : BlockedEvent) (req : Request) (body : String) (st : AntiBotState W) (c : Ctx W)
        → guards (solve_challenge env ev req body st c).1 ≡ guards c
    unfolding solve_challenge
    guards-solve_challenge ev req body st c = grind (arith, guards-apply_solution)

    Unguarded-after_block :
        (ev : BlockedEvent) (req : Request) (body : String) (i : ℕ) (c : Ctx W)
        → Unguarded c
        → Unguarded (after_block env ev req body i c).1
    unfolding after_block
    Unguarded-after_block ev req body i c free =
        grind (arith, guards-solve_challenge, Unguarded-tell_block)

    -- The context is never done, the server always blocks, and a solver always solves.
    module _ (req : Request) (r : HttpReply) (s : ChallengeSolver W) (ss : List (ChallengeSolver W))
        (on_time : (d : ℕ) (w : W) → (env.sleep d w).0 ≡ true)
        (replies : (q : Request) (w : W) → (env.send q w).0 ≡ replied r)
        (readable : r.read_error ≡ none) (able : (b : BlockSignal) → s.supports b ≡ true)
        (solves : (u : String) (i : BlockInfo) (b : String) (w : W)
          → Solver.accepted (s.solve u i b w).0 ≡ true) where
      in_time : (c : Ctx W) → (take_turn env c).0 ≡ true
      unfolding take_turn limiter_wait wait_for_turn
      in_time c = grind (arith, on_time)

      abbrev event : ℕ → BlockedEvent
      event i = record {
        status_code = r.status_code;
        headers = r.header;
        body_snippet = snippet env r.body 280;
        detector = "status";
        attempt = i + 1;
      }

      judged :
          (i : ℕ) (c : Ctx W) → IsStuck r s ss c → (judge_reply env i r c).0 ≡ blocked (event i)
      unfolding judge_reply respect_retry_after
      judged i c stuck = grind (arith, on_time)

      solved :
          (ev : BlockedEvent) (body : String) (i : ℕ) (c : Ctx W)
          → IsStuck r s ss c
          → (after_block env ev req body i c).0 ≡ true
      unfolding after_block solve_challenge chain_solve chain_from
      solved ev body i c stuck = grind (arith, able, solves)

      IsStuck-judge_reply :
          (i : ℕ) (c : Ctx W) → IsStuck r s ss c → IsStuck r s ss (judge_reply env i r c).1
      IsStuck-judge_reply i c stuck =
          ground (arith, shape-judge_reply env i r c, Unguarded-judge_reply i r c stuck.free)

      IsStuck-after_block :
          (ev : BlockedEvent) (body : String) (i : ℕ) (c : Ctx W)
          → IsStuck r s ss c
          → IsStuck r s ss (after_block env ev req body i c).1
      IsStuck-after_block ev body i c stuck = ground (
        arith,
        shape-after_block env ev req body i c,
        Unguarded-after_block ev req body i c stuck.free,
      )

      IsStuck-on_reply :
          (i : ℕ) (c : Ctx W)
          → IsStuck r s ss c
          → ((on_reply env i req r c).0 ≡ again) × IsStuck r s ss (on_reply env i req r c).1
      unfolding on_reply
      IsStuck-on_reply i c stuck =
          let c1 = (judge_reply env i r c).1 in
          let stuck_1 = IsStuck-judge_reply i c stuck in
          ground (
            arith,
            judged i c stuck,
            solved (event i) r.body i c1 stuck_1,
            IsStuck-after_block (event i) r.body i c1 stuck_1,
          )

      IsStuck-on_sent :
          (i : ℕ) (c c' : Ctx W) (w : W)
          → exchange env req c ≡ some ((env.send req w).0, c')
          → Unguarded c'
          → IsStuck r s ss c
          → ((on_sent env i req (exchange env req c) c).0 ≡ again)
            × IsStuck r s ss (on_sent env i req (exchange env req c) c).1
      unfolding on_sent
      IsStuck-on_sent i c c' w sent free stuck =
          let stuck' : IsStuck r s ss c' =
            ground (arith, stuck, free, settings-exchange env req c c' (env.send req w).0 sent) in
          rw (sent, replies req w) (IsStuck-on_reply i c' stuck')

      unchecked : (i : ℕ) (c : Ctx W) → IsStuck r s ss c → check_circuit env i c ≡ (false, c)
      unfolding check_circuit
      unchecked i c stuck = ground (arith)

      IsStuck-take_turn : (c : Ctx W) → IsStuck r s ss c → IsStuck r s ss (take_turn env c).1
      IsStuck-take_turn c stuck =
          ground (arith, shape-take_turn env c, Unguarded-take_turn c stuck.free)

      IsStuck-turn :
          (i : ℕ) (c : Ctx W)
          → IsStuck r s ss c
          → ((turn env i (same env req) c).0 ≡ again)
            × IsStuck r s ss (turn env i (same env req) c).1
      unfolding turn build_and_send send_built same
      IsStuck-turn i c stuck =
          let c1 = (take_turn env c).1 in
          let stuck_1 = IsStuck-take_turn c stuck in
          let (c2, w, (sent, free)) = Unguarded-exchange req c1 stuck_1.free in
          ground
            (arith, unchecked i c stuck, in_time c, IsStuck-on_sent i c1 c2 w sent free stuck_1)

      never-retry_from :
          (fuel i : ℕ) (c : Ctx W)
          → IsStuck r s ss c
          → retry_from env fuel i (same env req) c ≡ none
      unfolding retry_from
      never-retry_from zero i c stuck = refl
      never-retry_from (suc fuel) i c stuck =
          let c1 = (turn env i (same env req) c).1 in
          ground
            (arith, IsStuck-turn i c stuck, never-retry_from fuel i c1 (IsStuck-turn i c stuck).1)

      -- Without breaker and proxy pool, against a server that answers every request with a status
      -- listed as blocked, and with a first solver that takes and solves every challenge,
      -- `doWithRetry` does not return within any number of turns, however small RetryMax is (but for
      -- 0). The context is never done.
      pub do_with_retry-never_returns :
          (fuel : ℕ) (c : Ctx W)
          → IsStuck r s ss c
          → 0 < c.client.retry_max
          → do_with_retry env fuel (same env req) c ≡ none
      unfolding do_with_retry
      do_with_retry-never_returns fuel c stuck positive =
          ground (arith, never-retry_from fuel 0 c stuck)
