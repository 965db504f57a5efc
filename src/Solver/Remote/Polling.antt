-- ===== src/Solver/Remote/Polling.antt =====
-- solver_2captcha.go, solver_capsolver.go: the polling ends.
use go_ddgs_stealth.Common.{
  ℕ, zero, suc, ◌+◌, ◌*◌, ◌≤◌, ◌<◌, ◌≡◌, refl, String, Bool, true, false, ◌⊎◌, inl, inr, Option,
  none, some, arith, ltb, if◌then◌else◌,
}
use native.Mathlib.Nat.{suc-mul}
use go_ddgs_stealth.Breaker.{Time}
use go_ddgs_stealth.Detect.{BlockInfo}
use go_ddgs_stealth.Errors.{Err}
use go_ddgs_stealth.Client.{Request}
use go_ddgs_stealth.Solver.{ChallengeSolution}
use go_ddgs_stealth.Solver.Remote.{
  Remote, Formats, SolverAccount, Poll, go_by, not_ready, ends, Polled, polled_to, out_of_turns,
  poll_until, poll_result, poll_two_captcha, poll_cap, after_submit, submit, lacks_key,
  challenge_type, extract_site_key, solution_of, two_captcha_solve, cap_solver_solve,
}

-- The clock reads the time of the world and does not go back, and a timer that fires has waited.
pub record IsClocked {W : Type 0} (env : Remote W) (time : W → ℕ) : Type 0 where
  pub reads : (w : W) → (env.now w).0 ≡ time w
  pub goes_on : (w : W) → time w ≤ time (env.now w).1
  pub waits : (d : ℕ) (w : W) → (env.sleep d w).0 ≡ true → time w + d ≤ time (env.sleep d w).1
  pub asks : (req : Request) (w : W) → time w ≤ time (env.ask req w).1

abbrev IsDone : Polled → Type 0
IsDone (polled_to r) = Unit
IsDone out_of_turns = ⊥

-- An answer was given within the fuel.
abbrev pub IsAnswered : Option (Err ⊎ ChallengeSolution) → Type 0
IsAnswered none = ⊥
IsAnswered (some r) = Unit

module _ {W : Type 0} (env : Remote W) (time : W → ℕ) (h : IsClocked env time) where
  IsDone-if :
      (b : Bool) (x y : Polled × W)
      → (b ≡ true → IsDone x.0)
      → (b ≡ false → IsDone y.0)
      → IsDone (if b then x else y).0
  IsDone-if true x y p q = p refl
  IsDone-if false x y p q = q refl

  IsDone-go_by :
      (a : Poll) (w : W) (later : Polled × W) → IsDone later.0 → IsDone (go_by env a w later).0
  IsDone-go_by not_ready w later p = p
  IsDone-go_by (ends r) w later p = tt

  poll_until-IsDone :
      (fuel interval : ℕ) (deadline : Time) (poll : W → Poll × W) (w : W)
      → ((v : W) → time v ≤ time (poll v).1)
      → deadline < time w + fuel * interval
      → IsDone (poll_until env (suc fuel) interval deadline poll w).0
  unfolding poll_until
  poll_until-IsDone zero interval deadline poll w p l =
      IsDone-if (ltb deadline (env.now w).0) _ _ (λ b. tt)
        (λ b. absurd (ground (arith, h.reads w, l, b)))
  poll_until-IsDone (suc fuel) interval deadline poll w p l =
      let w1 = (env.now w).1 in
      let w2 = (env.sleep interval w1).1 in
      let w3 = (poll w2).1 in
      let later = poll_until env (suc fuel) interval deadline poll w3 in
      IsDone-if (ltb deadline (env.now w).0) _ _ (λ b. tt)
        (λ b.
          IsDone-if (env.sleep interval w1).0 _ _
            (λ c. IsDone-go_by (poll w2).0 w3 later (
              poll_until-IsDone fuel interval deadline poll w3 p (
                omega (arith, suc-mul fuel interval, l, h.goes_on w, h.waits interval w1 c, p w2))))
            (λ c. tt))

  poll_result-IsDone :
      (fuel : ℕ) (s : SolverAccount) (poll : W → Poll × W) (w : W)
      → ((v : W) → time v ≤ time (poll v).1)
      → s.poll_timeout < fuel * s.poll_interval
      → IsDone (poll_result env (suc fuel) s poll w).0
  unfolding poll_result
  poll_result-IsDone fuel s poll w p l =
      poll_until-IsDone fuel s.poll_interval ((env.now w).0 + s.poll_timeout) poll (env.now w).1 p
        (omega (arith, l, h.reads w, h.goes_on w))

  module _ (lib : Formats) (s : SolverAccount) where
    solution_of-IsAnswered :
        (context : String) (p : Polled) → IsDone p → IsAnswered (solution_of env lib s context p)
    solution_of-IsAnswered context (polled_to (inl e)) d = tt
    solution_of-IsAnswered context (polled_to (inr t)) d = tt
    solution_of-IsAnswered context out_of_turns d = absurd d

    after_submit-IsAnswered :
        (fuel : ℕ) (poll : String → W → Poll × W) (r : (Err ⊎ String) × W)
        → ((id : String) (v : W) → time v ≤ time (poll id v).1)
        → s.poll_timeout < fuel * s.poll_interval
        → IsAnswered (after_submit env lib s (suc fuel) poll r).0
    after_submit-IsAnswered fuel poll (inl e, w) p l = tt
    after_submit-IsAnswered fuel poll (inr id, w) p l =
        solution_of-IsAnswered "poll" _ (poll_result-IsDone fuel s (poll id) w (p id) l)

    IsAnswered-if :
        (b : Bool) (x y : Option (Err ⊎ ChallengeSolution) × W)
        → IsAnswered x.0
        → IsAnswered y.0
        → IsAnswered (if b then x else y).0
    IsAnswered-if true x y h k = h
    IsAnswered-if false x y h k = k

    poll_two_captcha-on : (id : String) (v : W) → time v ≤ time (poll_two_captcha env lib s id v).1
    unfolding poll_two_captcha
    poll_two_captcha-on id v = h.asks _ v

    poll_cap-on : (id : String) (v : W) → time v ≤ time (poll_cap env lib s id v).1
    unfolding poll_cap
    poll_cap-on id v = h.asks _ v

    -- Where the clock goes on and a timer that fires has waited, both remote solvers end with a token
    -- or an error, whatever the service answers: as soon as n poll intervals exceed the poll timeout,
    -- n + 1 turns of the polling loop are enough.
    pub solves-IsAnswered :
        (fuel : ℕ) (page : String) (info : BlockInfo) (body : String) (w : W)
        → s.poll_timeout < fuel * s.poll_interval
        → IsAnswered (two_captcha_solve env lib s (suc fuel) page info body w).0
          × IsAnswered (cap_solver_solve env lib s (suc fuel) page info body w).0
    unfolding two_captcha_solve cap_solver_solve
    solves-IsAnswered fuel page info body w l = (
      let kind = challenge_type body info.signal in
          let key = extract_site_key lib body in
          let sent = submit env lib s kind page key w in
          IsAnswered-if (lacks_key env lib s kind key) (some (inl _), w)
            (after_submit env lib s (suc fuel) (poll_two_captcha env lib s) sent) tt
            (after_submit-IsAnswered fuel (poll_two_captcha env lib s) sent poll_two_captcha-on l),
      after_submit-IsAnswered fuel (poll_cap env lib s) _ poll_cap-on l,
    )
