-- ===== src/Client/Bounded.antt =====
-- client.go: how long the request loop of a client without challenge solvers runs.
use go_ddgs_stealth.Common.{
  ℕ, zero, suc, ◌+◌, ◌*◌, ◌≤◌, ◌<◌, ◌≡◌, refl, String, Bool, true, false, Option, none, some, leb,
  arith,
}
use go_ddgs_stealth.Errors.{BlockedEvent}
use go_ddgs_stealth.Client.{
  Request, HttpReply, Sent, no_reply, replied, Env, Ctx, Result, ok, err, crash, out_of_fuel,
}
use go_ddgs_stealth.Client.Loop.{
  check_circuit, take_turn, sleep_backoff, send_built, again, on_reply, on_sent, exchange,
  build_and_send, turn, Builder, retry_from, do_with_retry, solve_challenge, after_block,
}
use go_ddgs_stealth.Client.Settings.{
  Settings, settings, shape, sent_in, solver_of, settings-exchange, shape-check_circuit,
  shape-take_turn, shape-sleep_backoff, shape-judge_reply, shape-after_success, shape-after_block,
}

module _ {W : Type 0} (env : Env W) where
  -- From contexts of these settings, the builder keeps them and sends at most `b` requests of its own.
  pub record IsModest (s : Settings W) (build : Builder env) (b : ℕ) : Type 0 where
    pub keeps : (c : Ctx W) → settings c ≡ s → settings (build c).1 ≡ s
    pub adds : (c : Ctx W) → settings c ≡ s → sent_in (build c).1.trace ≤ sent_in c.trace + b

  shape-on_reply :
      (i : ℕ) (req : Request) (r : HttpReply) (c : Ctx W)
      → shape (on_reply env i req r c).1 ≡ shape c
  unfolding on_reply
  shape-on_reply i req r c =
      grind (arith, shape-judge_reply env, shape-after_success env, shape-after_block env)

  -- The settings stay, and at most so many requests are sent.
  record Within (n : ℕ) (c c' : Ctx W) : Type 0 where
    same : settings c' ≡ settings c
    few : sent_in c'.trace ≤ sent_in c.trace + n

  on_sent-Within :
      (i : ℕ) (req : Request) (o : Option (Sent × Ctx W)) (c : Ctx W)
      → ((a : Sent) (c' : Ctx W)
          → o ≡ some (a, c')
          → (settings c' ≡ settings c) × (sent_in c'.trace ≡ suc (sent_in c.trace)))
      → Within 1 c (on_sent env i req o c).1
  unfolding on_sent
  on_sent-Within i req none c f = ground (arith)
  on_sent-Within i req (some (no_reply e, c')) c f = ground (arith, f (no_reply e) c' refl)
  on_sent-Within i req (some (replied r, c')) c f =
      ground (arith, f (replied r) c' refl, shape-on_reply i req r c')

  send_built-Within :
      (i : ℕ) (made : Result Request) (c : Ctx W) → Within 1 c (send_built env i made c).1
  unfolding send_built
  send_built-Within i (ok req) c =
      on_sent-Within i req (exchange env req c) c (λ a c' e. settings-exchange env req c c' a e)
  send_built-Within i (err e) c = ground (arith)
  send_built-Within i crash c = ground (arith)
  send_built-Within i out_of_fuel c = ground (arith)

  turn-Within :
      (build : Builder env) (b i : ℕ) (c : Ctx W)
      → IsModest (settings c) build b
      → Within (1 + b) c (turn env i build c).1
  unfolding turn build_and_send
  turn-Within build b i c modest =
      let c1 = (check_circuit env i c).1 in
      let c2 = (take_turn env c1).1 in
      let c3 = (build c2).1 in
      let kept : settings c2 ≡ settings c =
        ground (arith, shape-check_circuit env i c, shape-take_turn env c1) in
      ground (
        arith,
        shape-check_circuit env i c,
        shape-take_turn env c1,
        modest.keeps c2 kept,
        modest.adds c2 kept,
        send_built-Within i (build c2).0 c3,
      )

  -- Without solvers no turn is taken again at the same count.
  unsolved-after_block :
      (ev : BlockedEvent) (req : Request) (body : String) (i : ℕ) (c : Ctx W)
      → solver_of c.client.anti_bot ≡ none
      → (after_block env ev req body i c).0 ≡ false
  unfolding after_block solve_challenge
  unsolved-after_block ev req body i c e = grind (arith)

  unsolved-on_reply :
      (i : ℕ) (req : Request) (r : HttpReply) (c : Ctx W)
      → solver_of c.client.anti_bot ≡ none
      → ¬ (on_reply env i req r c).0 ≡ again
  unfolding on_reply
  unsolved-on_reply i req r c e = grind (arith, shape-judge_reply env i r c, unsolved-after_block)

  unsolved-on_sent :
      (i : ℕ) (req : Request) (o : Option (Sent × Ctx W)) (c : Ctx W)
      → ((a : Sent) (c' : Ctx W) → o ≡ some (a, c') → solver_of c'.client.anti_bot ≡ none)
      → ¬ (on_sent env i req o c).0 ≡ again
  unfolding on_sent
  unsolved-on_sent i req none c f = ground (arith)
  unsolved-on_sent i req (some (no_reply e, c')) c f = ground (arith)
  unsolved-on_sent i req (some (replied r, c')) c f =
      unsolved-on_reply i req r c' (f (replied r) c' refl)

  unsolved-exchange :
      (req : Request) (a : Sent) (c c' : Ctx W)
      → exchange env req c ≡ some (a, c')
      → solver_of c.client.anti_bot ≡ none
      → solver_of c'.client.anti_bot ≡ none
  unsolved-exchange req a c c' e none_c = ground (arith, settings-exchange env req c c' a e)

  unsolved-send_built :
      (i : ℕ) (made : Result Request) (c : Ctx W)
      → solver_of c.client.anti_bot ≡ none
      → ¬ (send_built env i made c).0 ≡ again
  unfolding send_built
  unsolved-send_built i (ok req) c e =
      unsolved-on_sent i req (exchange env req c) c
        (λ a c' sent. unsolved-exchange req a c c' sent e)
  unsolved-send_built i (err x) c e = ground (arith)
  unsolved-send_built i crash c e = ground (arith)
  unsolved-send_built i out_of_fuel c e = ground (arith)

  unsolved-turn :
      (build : Builder env) (b i : ℕ) (c : Ctx W)
      → IsModest (settings c) build b
      → solver_of c.client.anti_bot ≡ none
      → ¬ (turn env i build c).0 ≡ again
  unfolding turn build_and_send
  unsolved-turn build b i c modest e =
      let c1 = (check_circuit env i c).1 in
      let c2 = (take_turn env c1).1 in
      let c3 = (build c2).1 in
      let kept : settings c2 ≡ settings c =
        ground (arith, shape-check_circuit env i c, shape-take_turn env c1) in
      ground (
        arith,
        shape-check_circuit env i c,
        shape-take_turn env c1,
        modest.keeps c2 kept,
        unsolved-send_built i (build c2).0 c3,
      )

  -- The loop returned, and the trace holds at most so many requests.
  abbrev returned_within : ℕ → Option (Result String × Ctx W) → Bool
  returned_within n none = false
  returned_within n (some (r, c)) = leb (sent_in c.trace) n

  later :
      {k : ℕ} {c c1 : Ctx W}
      → (c2 : Ctx W) → Within k c c1
      → shape c2 ≡ shape c1
      → solver_of c.client.anti_bot ≡ none
      → (solver_of c2.client.anti_bot ≡ none)
        × (c2.client.retry_max ≡ c.client.retry_max)
        × (sent_in c2.trace ≤ sent_in c.trace + k)
  later c2 first second e = ground (arith, first, second)

  retry_from-returned :
      (build : Builder env) (b fuel n i : ℕ) (c : Ctx W) (limit : ℕ)
      → IsModest (settings c) build b
      → solver_of c.client.anti_bot ≡ none
      → c.client.retry_max ≡ i + suc n
      → n < fuel
      → sent_in c.trace + suc n * (1 + b) ≤ limit
      → returned_within limit (retry_from env fuel i build c) ≡ true
  unfolding retry_from
  retry_from-returned build b zero n i c limit modest e max enough room = ground (arith)
  retry_from-returned build b (suc fuel) zero i c limit modest e max enough room =
      ground (arith, turn-Within build b i c modest, unsolved-turn build b i c modest e)
  retry_from-returned build b (suc fuel) (suc n) i c limit modest e max enough room =
      let c1 = (turn env i build c).1 in
      let c2 = (sleep_backoff env i c1).1 in
      let kept_2 : settings c2 ≡ settings c =
        ground (arith, turn-Within build b i c modest, shape-sleep_backoff env i c1) in
      let (none_2, max_2, few_2) =
        later c2 (turn-Within build b i c modest) (shape-sleep_backoff env i c1) e in
      ground (
        arith,
        turn-Within build b i c modest,
        unsolved-turn build b i c modest e,
        shape-sleep_backoff env i c1,
        retry_from-returned build b fuel n (suc i) c2 limit (rw kept_2 modest) none_2
            (omega (arith, max, max_2)) (omega arith) (omega arith),
      )

  do_with_retry-returned :
      (build : Builder env) (b fuel m : ℕ) (c : Ctx W)
      → IsModest (settings c) build b
      → solver_of c.client.anti_bot ≡ none
      → c.client.retry_max ≡ m
      → m ≤ fuel
      → returned_within
          (sent_in c.trace + c.client.retry_max * (1 + b))
          (do_with_retry env fuel build c)
        ≡ true
  unfolding do_with_retry
  do_with_retry-returned build b fuel zero c modest e max enough = ground (arith)
  do_with_retry-returned build b fuel (suc n) c modest e max enough = ground (
    arith,
    retry_from-returned build b fuel n 0 c (sent_in c.trace + c.client.retry_max * (1 + b)) modest e
        (omega arith) (omega arith) (rw max (omega arith)),
  )

  output :
      (limit : ℕ) (o : Option (Result String × Ctx W))
      → returned_within limit o ≡ true
      → (out : Result String × Ctx W) × ((o ≡ some out) × (sent_in out.1.trace ≤ limit))
  output limit none e = ground (arith)
  output limit (some out) e = (out, (refl, ground (arith)))

  -- When the client has no challenge solver, and the builder of requests keeps the client's settings
  -- and sends at most `b` requests of its own each time, `doWithRetry` returns, given fuel of at least
  -- the setting RetryMax, and sends at most RetryMax * (1 + b) requests.
  pub do_with_retry-returns :
      (build : Builder env) (b : ℕ) (fuel : ℕ) (c : Ctx W)
      → IsModest (settings c) build b
      → solver_of c.client.anti_bot ≡ none
      → c.client.retry_max ≤ fuel
      → (out : Result String × Ctx W) × ((do_with_retry env fuel build c ≡ some out)
          × (sent_in out.1.trace ≤ sent_in c.trace + c.client.retry_max * (1 + b)))
  do_with_retry-returns build b fuel c modest e enough =
      output (sent_in c.trace + c.client.retry_max * (1 + b)) (do_with_retry env fuel build c)
        (do_with_retry-returned build b fuel c.client.retry_max c modest e refl enough)

  pub turn-settings :
      (build : Builder env) (b i : ℕ) (c : Ctx W)
      → IsModest (settings c) build b
      → settings (turn env i build c).1 ≡ settings c
  turn-settings build b i c modest = (turn-Within build b i c modest).same

  settings-retry_from :
      (build : Builder env) (b fuel i : ℕ) (c : Ctx W) (out : Result String × Ctx W)
      → IsModest (settings c) build b
      → retry_from env fuel i build c ≡ some out
      → settings out.1 ≡ settings c
  unfolding retry_from
  settings-retry_from build b zero i c out modest e = ground (arith)
  settings-retry_from build b (suc fuel) i c out modest e =
      let c1 = (turn env i build c).1 in
      let c2 = (sleep_backoff env i c1).1 in
      let kept_1 : settings c1 ≡ settings c = turn-settings build b i c modest in
      let kept_2 : settings c2 ≡ settings c =
        ground (arith, kept_1, shape-sleep_backoff env i c1) in
      ground (
        arith,
        kept_1,
        kept_2,
        settings-retry_from build b fuel i c1 out (rw kept_1 modest),
        settings-retry_from build b fuel (suc i) c2 out (rw kept_2 modest),
      )

  pub settings-do_with_retry :
      (build : Builder env) (b fuel : ℕ) (c : Ctx W) (out : Result String × Ctx W)
      → IsModest (settings c) build b
      → do_with_retry env fuel build c ≡ some out
      → settings out.1 ≡ settings c
  unfolding do_with_retry
  settings-do_with_retry build b fuel c out modest e =
      ground (arith, settings-retry_from build b fuel 0 c out modest)

  pub send_built-settings :
      (i : ℕ) (made : Result Request) (c : Ctx W)
      → settings (send_built env i made c).1 ≡ settings c
  send_built-settings i made c = (send_built-Within i made c).same
