-- ===== src/Spider/Wedge.antt =====
-- spider.go, Run: when both channels are full and every worker waits to send a result, the loop that
-- would receive the results may itself wait to send a task.
use go_ddgs_stealth.Common.{
  ℕ, ◌≡◌, refl, Bool, true, false, Option, none, some, List, get_elem?, All, All-set_elem,
  All-get_elem?, When, When-if, Option-cases, inl, inr,
}
use go_ddgs_stealth.Spider.{Settings, UrlLib}
use go_ddgs_stealth.Spider.Crawl.{
  Worker, idle, got, paused_with, passed, fetching, holding, stopped, Main, seed_send, link_send,
  Shared, Crawl, WorkerAction, goes, quits, answered, worker_goes, worker_quits, worker_answered,
  worker_does, out_room, queue_room, Action, worker, main_goes, main_skips, pauses, resumes,
  caller_cancels, step, run, main_step, main_skip, put_worker, all_stopped,
}
use go_ddgs_stealth.Spider.Runs.{run-keeps_by}

-- The worker waits to send a result, or it stopped.
abbrev pub IsBlocked : Worker → Type 0
IsBlocked idle = ⊥
IsBlocked (got t) = ⊥
IsBlocked (paused_with t) = ⊥
IsBlocked (passed t) = ⊥
IsBlocked (fetching t) = ⊥
IsBlocked (holding r) = Unit
IsBlocked stopped = Unit

-- The goroutine of Run waits in a send that it cannot give up: that of a start URL, or that of a link
-- while the crawl is not cancelled.
abbrev pub Waits : Main → Bool → Type 0
Waits (seed_send t us) cancelled = Unit
Waits (link_send t d us) cancelled = cancelled ≡ false
Waits m cancelled = ⊥

-- The actions but a cancellation, in the send of a link.
abbrev pub Bears : Main → Action → Type 0
Bears (link_send t d us) caller_cancels = ⊥
Bears (link_send t d us) a = Unit
Bears m a = Unit

module _ (lib : UrlLib) (cfg : Settings) where
  pub record IsWedged (m : Main) (c : Crawl) : Type 0 where
    pub main : c.shared.main ≡ m
    pub waits : Waits m c.shared.cancelled
    pub full_queue : queue_room cfg c.shared ≡ false
    pub full_out : out_room cfg c.shared ≡ false
    pub workers : All IsBlocked c.workers

  -- Nothing but a worker's end comes of an action of a blocked worker.
  IsBlocked-does :
      (a : WorkerAction) (w : Worker) (s : Shared)
      → IsBlocked w
      → out_room cfg s ≡ false
      → When (λ p. IsBlocked p.0 × (p.1 ≡ s)) (worker_does lib cfg a w s)
  unfolding worker_goes worker_quits worker_answered
  IsBlocked-does goes (holding r) s h e = rw e tt
  IsBlocked-does goes stopped s h e = tt
  IsBlocked-does quits w s h e =
      When-if (λ p. IsBlocked p.0 × (p.1 ≡ s)) _ (stopped, s) (λ b. (tt, refl))
  IsBlocked-does (answered x) (holding r) s h e = tt
  IsBlocked-does (answered x) stopped s h e = tt
  IsBlocked-does goes idle s h e = absurd h
  IsBlocked-does goes (got t) s h e = absurd h
  IsBlocked-does goes (paused_with t) s h e = absurd h
  IsBlocked-does goes (passed t) s h e = absurd h
  IsBlocked-does goes (fetching t) s h e = absurd h
  IsBlocked-does (answered x) idle s h e = absurd h
  IsBlocked-does (answered x) (got t) s h e = absurd h
  IsBlocked-does (answered x) (paused_with t) s h e = absurd h
  IsBlocked-does (answered x) (passed t) s h e = absurd h
  IsBlocked-does (answered x) (fetching t) s h e = absurd h

  put_worker-IsWedged :
      (m : Main) (c : Crawl) (i : ℕ) (o : Option (Worker × Shared))
      → IsWedged m c
      → When (λ p. IsBlocked p.0 × (p.1 ≡ c.shared)) o
      → When (IsWedged m) (put_worker lib cfg i c.workers o)
  put_worker-IsWedged m c i none h k = tt
  put_worker-IsWedged m c i (some (w, s)) h k = record {
    main = rw (k.1) h.main;
    waits = rw (k.1) h.waits;
    full_queue = rw (k.1) h.full_queue;
    full_out = rw (k.1) h.full_out;
    workers = All-set_elem IsBlocked i w c.workers k.0 h.workers;
  }

  main_step_wedged :
      (m : Main) (b : Bool) (c : Crawl)
      → IsWedged m c
      → main_step lib cfg b c.shared.main c.shared ≡ none
  unfolding main_step
  main_step_wedged (seed_send t us) b c h = rw (h.main) (rw (h.full_queue) refl)
  main_step_wedged (link_send t d us) b c h = rw (h.main) (rw (h.full_queue) refl)
  main_step_wedged m b c h = absurd h.waits

  main_skip_wedged : (m : Main) (c : Crawl) → IsWedged m c → main_skip c.shared.main c.shared ≡ none
  main_skip_wedged (seed_send t us) c h = rw (h.main) refl
  main_skip_wedged (link_send t d us) c h = rw (h.main) (rw (h.waits) refl)
  main_skip_wedged m c h = absurd h.waits

  flags-IsWedged :
      (m : Main) (c : Crawl) (b p : Bool)
      → Waits m b
      → IsWedged m c
      → IsWedged m (record c { shared = record c.shared { cancelled = b; paused = p } })
  flags-IsWedged m c b p w h = record {
    main = h.main;
    waits = w;
    full_queue = h.full_queue;
    full_out = h.full_out;
    workers = h.workers;
  }

  Waits_cancelled : (m : Main) (c : Crawl) → Bears m caller_cancels → IsWedged m c → Waits m true
  Waits_cancelled (seed_send t us) c b h = tt
  Waits_cancelled (link_send t d us) c b h = absurd b
  Waits_cancelled m c b h = h.waits

  step-IsWedged :
      (m : Main) (a : Action) (c : Crawl)
      → Bears m a
      → IsWedged m c
      → When (IsWedged m) (step lib cfg a c)
  unfolding step
  step-IsWedged m (worker i a) c b h = elim (Option-cases (get_elem? c.workers i)) [
    | inl e ↦ rw e tt
    | inr (w, e) ↦ rw e (
        put_worker-IsWedged m c i (worker_does lib cfg a w c.shared) h (
          IsBlocked-does a w c.shared (All-get_elem? IsBlocked c.workers i w h.workers e)
            h.full_out))
  ]
  step-IsWedged m main_goes c b h = rw (main_step_wedged m (all_stopped c.workers) c h) tt
  step-IsWedged m main_skips c b h = rw (main_skip_wedged m c h) tt
  step-IsWedged m pauses c b h = flags-IsWedged m c c.shared.cancelled true h.waits h
  step-IsWedged m resumes c b h = flags-IsWedged m c c.shared.cancelled false h.waits h
  step-IsWedged m caller_cancels c b h =
      flags-IsWedged m c true c.shared.paused (Waits_cancelled m c b h) h

  -- When both channels are full, every worker waits to send a result or stopped, and Run waits to send
  -- a start URL, or a link while the crawl is not cancelled, then no steps lead Run out of that send,
  -- whatever they are; in the case of a link, whatever they are but a cancellation by the caller.
  pub run-wedged :
      (m : Main) (as' : List Action) (c c' : Crawl)
      → IsWedged m c
      → All (Bears m) as'
      → run lib cfg as' c ≡ some c'
      → c'.shared.main ≡ m
  run-wedged m as' c c' h b e =
      (run-keeps_by lib cfg (IsWedged m) (Bears m) (step-IsWedged m) as' c c' b h e).main
