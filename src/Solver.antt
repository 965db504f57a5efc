-- ===== src/Solver.antt =====
-- solver.go: challenge solvers and their chain. A solver answers from the state of the world.
pub mod Chain
pub mod Remote
use go_ddgs_stealth.Common.{
  String, Bool, true, false, ◌||◌, Option, none, some, List, [], ◌∷◌, ◌++◌, if◌then◌else◌,
}
use go_ddgs_stealth.Detect.{BlockSignal, BlockInfo, signal_name}
use go_ddgs_stealth.Errors.{Err, wrapped, opaque}
use Prim.Native.String

pub record Cookie : Type 0 where
  pub domain : String
  pub name : String
  pub value : String

pub record ChallengeSolution : Type 0 where
  pub cookies : List Cookie
  pub user_agent : String
  pub token : String

-- (*ChallengeSolution, error): each may be nil
abbrev pub Solved : Type 0
Solved = Option ChallengeSolution × Option Err

pub record ChallengeSolver (W : Type 0) : Type 0 where
  pub supports : BlockSignal → Bool
  pub solve : String → BlockInfo → String → W → Solved × W

abbrev all_failed : BlockInfo → Option Err → Solved
all_failed info none =
    (none, some (opaque (String.◌++◌ "chain: no solver registered for " (signal_name info.signal))))
all_failed info (some e) = (
  none,
  some (wrapped (String.◌++◌ "chain: all solvers failed for " (signal_name info.signal)) e),
)

-- err == nil && sol != nil
abbrev pub accepted : Solved → Bool
accepted (some sol, none) = true
accepted _ = false

module _ {W : Type 0} where
  -- ChainSolver.Supports
  unfoldable pub chain_supports : List (ChallengeSolver W) → BlockSignal → Bool
  chain_supports [] signal = false
  chain_supports (s ∷ ss) signal = s.supports signal || chain_supports ss signal

  -- The loop of ChainSolver.Solve; `last` is the error of the latest solver that was asked.
  unfoldable pub chain_from :
      List (ChallengeSolver W) → String → BlockInfo → String → Option Err → W → Solved × W
  chain_from [] url info body last w = (all_failed info last, w)
  chain_from (s ∷ ss) url info body last w =
      let skipped = chain_from ss url info body last w in
      let (answer, w') = s.solve url info body w in
      let more = chain_from ss url info body answer.1 w' in
      let asked = if accepted answer then (answer, w') else more in
      if s.supports info.signal then asked else skipped

  -- ChainSolver.Solve
  unfoldable pub chain_solve :
      List (ChallengeSolver W) → String → BlockInfo → String → W → Solved × W
  unfolding chain_from
  chain_solve solvers url info body w = chain_from solvers url info body none w
