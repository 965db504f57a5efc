-- ===== src/Client/Settings.antt =====
-- client.go: what no step of the request loop changes. The settings of a client stay as they are, and
-- only the exchange with the server adds a request to the trace.
use go_ddgs_stealth.Common.{
  String, ℕ, suc, ◌+◌, ◌≡◌, refl, Option, none, some, List, [], ◌∷◌, ◌++◌, arith,
}
use go_ddgs_stealth.Common.Int.{ℤ}
use go_ddgs_stealth.Solver.{Cookie, ChallengeSolution, ChallengeSolver}
use go_ddgs_stealth.Errors.{BlockedEvent}
use go_ddgs_stealth.AntiBot.{AntiBotState}
use go_ddgs_stealth.Client.{
  Request, HttpReply, Sent, Env, Notice, sends, on_blocked, on_circuit, CircuitEvent, BodyPattern,
  Ctx,
}
use go_ddgs_stealth.Client.Loop.{
  inject, check_circuit, limiter_wait, wait_for_turn, take_turn, route, exchange,
  respect_retry_after, judge_reply, after_success, apply_solution, tell_block, solve_challenge,
  after_block, sleep_backoff,
}

abbrev pub is_send : Notice → ℕ
is_send (sends req) = 1
is_send _ = 0

-- The requests in a trace.
abbrev pub sent_in : List Notice → ℕ
sent_in [] = 0
sent_in (n ∷ ns) = is_send n + sent_in ns

sent_in-++ : (ms ns : List Notice) → sent_in (ms ++ ns) ≡ sent_in ms + sent_in ns
sent_in-++ [] ns = omega arith
sent_in-++ (m ∷ ms) ns = omega (arith, sent_in-++ ms ns)

sent_in-snoc :
    (ns : List Notice)
    → ((e : CircuitEvent) → sent_in (ns ++ on_circuit e ∷ []) ≡ sent_in ns)
      × ((e : BlockedEvent) → sent_in (ns ++ on_blocked e ∷ []) ≡ sent_in ns)
      × ((r : Request) → sent_in (ns ++ sends r ∷ []) ≡ suc (sent_in ns))
sent_in-snoc ns = (
  λ e. omega (arith, sent_in-++ ns (on_circuit e ∷ [])),
  λ e. omega (arith, sent_in-++ ns (on_blocked e ∷ [])),
  λ r. omega (arith, sent_in-++ ns (sends r ∷ [])),
)

sent_in-sends : (ns : List Notice) (r : Request) → sent_in (ns ++ sends r ∷ []) ≡ suc (sent_in ns)
sent_in-sends ns r = (sent_in-snoc ns).2 r

pub record Settings (W : Type 0) : Type 0 where
  pub retry_max : ℕ
  pub base_delay : ℕ
  pub min_gap : ℤ
  pub blocked : List ℕ
  pub blocked_re : List BodyPattern
  pub solver : Option (List (ChallengeSolver W))

module _ {W : Type 0} where
  abbrev pub solver_of : Option (AntiBotState W) → Option (List (ChallengeSolver W))
  solver_of none = none
  solver_of (some st) = st.solver

  abbrev pub settings : Ctx W → Settings W
  settings c = record {
    retry_max = c.client.retry_max;
    base_delay = c.client.base_delay;
    min_gap = c.client.min_gap;
    blocked = c.client.blocked;
    blocked_re = c.client.blocked_re;
    solver = solver_of c.client.anti_bot;
  }

  -- The settings and the number of requests sent.
  abbrev pub shape : Ctx W → Settings W × ℕ
  shape c = (settings c, sent_in c.trace)

  module _ (env : Env W) where
    pub shape-check_circuit : (i : ℕ) (c : Ctx W) → shape (check_circuit env i c).1 ≡ shape c
    unfolding check_circuit
    shape-check_circuit i c = grind (arith, (sent_in-snoc c.trace).0)

    pub shape-take_turn : (c : Ctx W) → shape (take_turn env c).1 ≡ shape c
    unfolding take_turn limiter_wait wait_for_turn
    shape-take_turn c = grind (arith, (sent_in-snoc c.trace).0)

    pub shape-sleep_backoff : (i : ℕ) (c : Ctx W) → shape (sleep_backoff env i c).1 ≡ shape c
    unfolding sleep_backoff
    shape-sleep_backoff i c = grind (arith, (sent_in-snoc c.trace).0)

    pub shape-judge_reply :
        (i : ℕ) (r : HttpReply) (c : Ctx W) → shape (judge_reply env i r c).1 ≡ shape c
    unfolding judge_reply respect_retry_after
    shape-judge_reply i r c = grind (arith, (sent_in-snoc c.trace).0)

    pub shape-after_success : (i : ℕ) (c : Ctx W) → shape (after_success env i c) ≡ shape c
    unfolding after_success
    shape-after_success i c = grind (arith, (sent_in-snoc c.trace).0)

    shape-route : (c c' : Ctx W) → route env c ≡ some c' → shape c' ≡ shape c
    unfolding route
    shape-route c c' e = grind (arith)

    pub settings-exchange :
        (req : Request) (c c' : Ctx W) (answer : Sent)
        → exchange env req c ≡ some (answer, c')
        → (settings c' ≡ settings c) × (sent_in c'.trace ≡ suc (sent_in c.trace))
    unfolding exchange
    settings-exchange req c c' answer e = grind (arith, shape-route c, sent_in-sends)

    shape-inject : (cks : List Cookie) (c : Ctx W) → shape (inject env cks c) ≡ shape c
    shape-inject [] c = refl
    shape-inject (ck ∷ cks) c = grind (arith, shape-inject cks)

    shape-apply_solution :
        (sol : ChallengeSolution) (c : Ctx W) → shape (apply_solution env sol c) ≡ shape c
    unfolding apply_solution
    shape-apply_solution sol c = grind (arith, shape-inject sol.cookies c)

    shape-tell_block :
        (i : ℕ) (st : AntiBotState W) (c : Ctx W)
        → c.client.anti_bot ≡ some st
        → shape (tell_block env i st c) ≡ shape c
    unfolding tell_block
    shape-tell_block i st c e = grind (arith, (sent_in-snoc c.trace).0)

    shape-solve_challenge :
        (ev : BlockedEvent) (req : Request) (body : String) (st : AntiBotState W) (c : Ctx W)
        → shape (solve_challenge env ev req body st c).1 ≡ shape c
    unfolding solve_challenge
    shape-solve_challenge ev req body st c = grind (arith, shape-apply_solution)

    pub shape-after_block :
        (ev : BlockedEvent) (req : Request) (body : String) (i : ℕ) (c : Ctx W)
        → shape (after_block env ev req body i c).1 ≡ shape c
    unfolding after_block
    shape-after_block ev req body i c =
        grind (arith, shape-solve_challenge, shape-tell_block, sent_in-snoc c.trace)
