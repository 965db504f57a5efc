-- ===== src/Spider/Once.antt =====
-- spider.go, Run: every run of a crawl is a sequence of moves of its frontier, whatever the order in
-- which its goroutines go. So a page is fetched once at most, and no more pages than the budget.
use go_ddgs_stealth.Common.{
  ℕ, zero, suc, ◌+◌, ◌≤◌, ◌≡◌, refl, String, Bool, inl, inr, Option, none, some, List, arith, total,
  length, get_elem?, When, When-map, When-and, Option-cases,
}
use go_ddgs_stealth.Spider.{Settings, UrlLib, has}
use go_ddgs_stealth.Spider.Crawl.{
  Worker, Shared, Crawl, Action, WorkerAction, worker, goes, quits, answered, main_goes, main_skips,
  pauses, resumes, caller_cancels, step, run, start, worker_does, put_worker, put_shared, main_skip,
  main_step, all_stopped, idle_workers,
}
use go_ddgs_stealth.Spider.Cancels.{CancelsTo, step-CancelsTo}
use go_ddgs_stealth.Spider.Frontier.{
  Frontier, Move, rests, Moves, no_moves, then_moves, IsSound, Moves-IsSound, weaken, bit,
}
use go_ddgs_stealth.Spider.Refines.{
  hit, waits, frontier_of, goes-Move, quits-Move, answered-Move, MovesTo,
}
use go_ddgs_stealth.Spider.Runs.{run-keeps}
use go_ddgs_stealth.Spider.Supply.{main_step-Move, main_skip-Move, SkipTo}

module _ (lib : UrlLib) (cfg : Settings) where
  abbrev pub To : Crawl → Crawl → Type 0
  To c c' = Move c'.shared.cancelled (frontier_of c) (frontier_of c')

  put_worker-Move :
      (c : Crawl) (i : ℕ) (o : Option (Worker × Shared))
      → When (MovesTo lib cfg c.workers i c.shared) o
      → When (To c) (put_worker lib cfg i c.workers o)
  put_worker-Move c i none h = tt
  put_worker-Move c i (some p) h = h

  pub worker_does-Move :
      (c : Crawl) (i : ℕ) (a : WorkerAction) (w : Worker)
      → get_elem? c.workers i ≡ some w
      → When (MovesTo lib cfg c.workers i c.shared) (worker_does lib cfg a w c.shared)
  worker_does-Move c i goes w e = goes-Move lib cfg c.workers i w c.shared e
  worker_does-Move c i quits w e = quits-Move lib cfg c.workers i w c.shared e
  worker_does-Move c i (answered x) w e = answered-Move lib cfg c.workers i x w c.shared e

  put_shared-Move :
      (c : Crawl) (o : Option Shared)
      → When (SkipTo lib cfg c.workers c.shared) o
      → When (To c) (put_shared lib cfg c o)
  put_shared-Move c none h = tt
  put_shared-Move c (some s) h = h

  flag-Move : (b : Bool) (f : Frontier) → Move b f (record f { cancelled = b })
  flag-Move b f = rests record {
    seen = λ j. refl;
    pending = λ j. refl;
    visits = λ j. refl;
    pages = refl;
    budget = refl;
  }

  pub step-Move : (a : Action) (c : Crawl) → When (To c) (step lib cfg a c)
  unfolding step
  step-Move (worker i a) c = elim (Option-cases (get_elem? c.workers i)) [
    | inl e ↦ rw e tt
    | inr (w, e) ↦ rw e (put_worker-Move c i _ (worker_does-Move c i a w e))
  ]
  step-Move main_goes c =
      put_shared-Move c (main_step lib cfg (all_stopped c.workers) c.shared.main c.shared) (
        When-map _ (SkipTo lib cfg c.workers c.shared) _ (λ s m. weaken s.cancelled _ _ m)
          (main_step-Move lib cfg c.workers (all_stopped c.workers) c.shared.main c.shared refl))
  step-Move main_skips c =
      put_shared-Move c (main_skip c.shared.main c.shared)
        (main_skip-Move lib cfg c.workers c.shared.main c.shared refl)
  step-Move pauses c = flag-Move _ (frontier_of c)
  step-Move resumes c = flag-Move _ (frontier_of c)
  step-Move caller_cancels c = flag-Move _ (frontier_of c)

  -- Whatever steps a crawl takes, in any order, its frontier makes moves: a new URL waits; a URL that
  -- waits is fetched on the budget, or is given up by a crawl that is cancelled once the move is made;
  -- or URLs, pages and budget stay as they are. No move takes a cancellation back.
  pub run-Moves :
      (as' : List Action) (c c' : Crawl)
      → run lib cfg as' c ≡ some c'
      → Moves (frontier_of c) (frontier_of c')
  run-Moves as' c c' e =
      run-keeps lib cfg (λ d. Moves (frontier_of c) (frontier_of d))
        (λ a d ms.
          When-map (λ d'. To d d' × CancelsTo lib cfg d d')
            (λ d'. Moves (frontier_of c) (frontier_of d')) (step lib cfg a d)
            (λ d' (m, k). then_moves _ (frontier_of d) _ ms m k)
            (When-and (To d) (CancelsTo lib cfg d) (step lib cfg a d) (step-Move a d)
              (step-CancelsTo lib cfg a d)))
        as' c c' (no_moves (frontier_of c)) e

-- No worker holds a task when a crawl begins.
idle_workers-waits : (k : String) (n : ℕ) → total (waits k) (idle_workers n) ≡ 0
idle_workers-waits k zero = refl
idle_workers-waits k (suc n) = omega (arith, idle_workers-waits k n)

start-IsSound :
    (cfg : Settings) (seen : List String) (paused : Bool)
    → IsSound (λ k. has k seen) cfg.max_pages (frontier_of (start cfg seen paused))
unfolding start
start-IsSound cfg seen paused = record {
  once = λ j. ground (arith, idle_workers-waits j cfg.concurrency);
  paid = omega arith;
}

module _ (lib : UrlLib) (cfg : Settings) (seen : List String) (paused : Bool) where
  run-IsSound :
      (as' : List Action) (c : Crawl)
      → run lib cfg as' (start cfg seen paused) ≡ some c
      → IsSound (λ k. has k seen) cfg.max_pages (frontier_of c)
  run-IsSound as' c e =
      Moves-IsSound (λ k. has k seen) cfg.max_pages _ _ (run-Moves lib cfg as' _ c e)
        (start-IsSound cfg seen paused)

  -- In whatever order the goroutines of Run go, no URL, trimmed, is fetched twice, and none that the
  -- spider had seen when Run began, as after a restored checkpoint.
  pub run-fetched-once :
      (as' : List Action) (c : Crawl) (k : String)
      → run lib cfg as' (start cfg seen paused) ≡ some c
      → total (hit k) c.shared.fetched + bit (has k seen) ≤ 1
  run-fetched-once as' c k e = ground (arith, (run-IsSound as' c e).once k)

  -- In whatever order the goroutines of Run go, they begin at most `MaxPages` fetches.
  pub run-fetched-few :
      (as' : List Action) (c : Crawl)
      → run lib cfg as' (start cfg seen paused) ≡ some c
      → length c.shared.fetched ≤ cfg.max_pages
  run-fetched-few as' c e = omega (arith, (run-IsSound as' c e).paid)
