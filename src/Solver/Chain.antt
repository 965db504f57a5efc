-- ===== src/Solver/Chain.antt =====
-- The solvers of a chain are tried in order until one succeeds.
use go_ddgs_stealth.Common.{
  ◌≡◌, refl, ap, ◌⊎◌, inl, inr, String, true, false, Option, none, some, List, [], ◌∷◌, ◌++◌, All,
  Bool-cases,
}
use go_ddgs_stealth.Detect.{BlockInfo}
use go_ddgs_stealth.Errors.{Err}
use go_ddgs_stealth.Solver.{ChallengeSolver, Solved, accepted, chain_from, chain_solve}

module _ {W : Type 0} (url : String) (info : BlockInfo) (body : String) where
  -- A solver that does not support the signal, or that was asked and did not succeed.
  pub data IsSkipped (s : ChallengeSolver W) : Type 0 where
    unsupported : s.supports info.signal ≡ false → IsSkipped s
    unsolved : (w : W) → accepted (s.solve url info body w).0 ≡ false → IsSkipped s

  -- The solver that succeeded, with its place in the chain and the answer that it gave.
  pub record IsSolvedBy (ss : List (ChallengeSolver W)) (answer : Solved) : Type 0 where
    pub before : List (ChallengeSolver W)
    pub winner : ChallengeSolver W
    pub after : List (ChallengeSolver W)
    pub splits : ss ≡ before ++ winner ∷ after
    pub supported : winner.supports info.signal ≡ true
    pub asked_in : W
    pub gave : answer ≡ (winner.solve url info body asked_in).0
    pub solution : accepted answer ≡ true
    pub skipped : All IsSkipped before

  -- How a run of the chain ends: with a solution, or with every solver skipped and an error.
  abbrev pub Ends : List (ChallengeSolver W) → Solved → Type 0
  Ends ss answer =
      IsSolvedBy ss answer
      ⊎ (All IsSkipped ss × (answer.0 ≡ none) × ((e : Err) × (answer.1 ≡ some e)))

  Ends-cons :
      (s : ChallengeSolver W) (ss : List (ChallengeSolver W)) (answer : Solved)
      → IsSkipped s
      → Ends ss answer
      → Ends (s ∷ ss) answer
  Ends-cons s ss answer skip (inr (all, nothing, failed)) = inr ((skip, all), nothing, failed)
  Ends-cons s ss answer skip (inl by) = inl (record {
    before = s ∷ by.before;
    winner = by.winner;
    after = by.after;
    splits = ap (λ l. s ∷ l) by.splits;
    supported = by.supported;
    asked_in = by.asked_in;
    gave = by.gave;
    solution = by.solution;
    skipped = (skip, by.skipped);
  })

  module _ (s : ChallengeSolver W) (ss : List (ChallengeSolver W)) (last : Option Err) (w : W) where
    chain_from-unsupported :
        s.supports info.signal ≡ false
        → chain_from (s ∷ ss) url info body last w ≡ chain_from ss url info body last w
    unfolding chain_from
    chain_from-unsupported off = rw off refl

    chain_from-solved :
        s.supports info.signal ≡ true
        → accepted (s.solve url info body w).0 ≡ true
        → chain_from (s ∷ ss) url info body last w ≡ s.solve url info body w
    unfolding chain_from
    chain_from-solved on good = rw (on, good) refl

    chain_from-unsolved :
        s.supports info.signal ≡ true
        → accepted (s.solve url info body w).0 ≡ false
        → chain_from (s ∷ ss) url info body last w
          ≡ chain_from ss url info body (s.solve url info body w).0.1 (s.solve url info body w).1
    unfolding chain_from
    chain_from-unsolved on bad = rw (on, bad) refl

  chain_from-Ends :
      (ss : List (ChallengeSolver W)) (last : Option Err) (w : W)
      → Ends ss (chain_from ss url info body last w).0
  chain_from-Ends [] none w = unfold chain_from in inr (tt, refl, (_, refl))
  chain_from-Ends [] (some e) w = unfold chain_from in inr (tt, refl, (_, refl))
  chain_from-Ends (s ∷ ss) last w = elim (Bool-cases (s.supports info.signal)) [
    | inr off ↦
        rw (chain_from-unsupported s ss last w off)
          (Ends-cons s ss _ (unsupported off) (chain_from-Ends ss last w))
    | inl on ↦ elim (Bool-cases (accepted (s.solve url info body w).0)) [
      | inr bad ↦
          rw (chain_from-unsolved s ss last w on bad)
            (Ends-cons s ss _ (unsolved w bad) (chain_from-Ends ss _ _))
      | inl good ↦ rw (chain_from-solved s ss last w on good) (
          inl (record {
            before = [];
            winner = s;
            after = ss;
            splits = refl;
            supported = on;
            asked_in = w;
            gave = refl;
            solution = good;
            skipped = tt;
          }))
    ]
  ]

  -- The chain returns the solution of the first solver, in order, that supports the signal and
  -- succeeds; and if there is none, no solution and an error.
  pub chain_solve-Ends :
      (ss : List (ChallengeSolver W)) (w : W) → Ends ss (chain_solve ss url info body w).0
  unfolding chain_solve
  chain_solve-Ends ss w = chain_from-Ends ss none w
