-- ===== src/Spider/Runs.antt =====
-- spider.go, Run: what every step keeps holds after every run.
use go_ddgs_stealth.Common.{some, List, [], ◌∷◌, All, When, When-some, When-then, ◌≡◌}
use go_ddgs_stealth.Spider.{Settings, UrlLib}
use go_ddgs_stealth.Spider.Crawl.{Crawl, Action, step, run}

module _ {ℓ κ} (lib : UrlLib) (cfg : Settings) (P : Crawl → Type ℓ) (Q : Action → Type κ) where
  run-When :
      (keeps : (a : Action) (c : Crawl) → Q a → P c → When P (step lib cfg a c)) (as' : List Action)
      (c : Crawl)
      → All Q as'
      → P c
      → When P (run lib cfg as' c)
  unfolding run
  run-When keeps [] c q h = h
  run-When keeps (a ∷ as') c q h =
      When-then P P (run lib cfg as') (step lib cfg a c) (λ d p. run-When keeps as' d q.1 p)
        (keeps a c q.0 h)

  -- As `run-keeps`, for runs of certain actions.
  pub run-keeps_by :
      (keeps : (a : Action) (c : Crawl) → Q a → P c → When P (step lib cfg a c)) (as' : List Action)
      (c c' : Crawl)
      → All Q as'
      → P c
      → run lib cfg as' c ≡ some c'
      → P c'
  run-keeps_by keeps as' c c' q h e =
      When-some P (run lib cfg as' c) c' (run-When keeps as' c q h) e

abbrev AnyAction : Action → Type 0
AnyAction a = Unit

any_actions : (as' : List Action) → All AnyAction as'
any_actions [] = tt
any_actions (a ∷ as') = (tt, any_actions as')

pub run-keeps {ℓ} :
    (lib : UrlLib) (cfg : Settings) (P : Crawl → Type ℓ)
    (keeps : (a : Action) (c : Crawl) → P c → When P (step lib cfg a c)) (as' : List Action)
    (c c' : Crawl)
    → P c
    → run lib cfg as' c ≡ some c'
    → P c'
run-keeps lib cfg P keeps as' c c' h e =
    run-keeps_by lib cfg P AnyAction (λ a d q p. keeps a d p) as' c c' (any_actions as') h e
