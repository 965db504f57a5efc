-- ===== src/Spider/Allowed.antt =====
-- spider.go, Run: which pages are fetched.
use go_ddgs_stealth.Common.{
  ℕ, zero, suc, ◌≡◌, String, Bool, true, false, inl, inr, Option, none, some, List, [], ◌∷◌, ◌++◌,
  arith, ltb, get_elem?, All, All-append, All-set_elem, All-get_elem?, When, When-if, Bool-cases,
  Option-cases,
}
use go_ddgs_stealth.Spider.{CrawlResult, Settings, UrlLib, url_allowed}
use go_ddgs_stealth.Spider.Crawl.{
  Task, Worker, Main, seeding, seed_send, awaiting_none, receiving, handling, link_send, returned,
  Shared, Crawl, Action, worker, main_goes, main_skips, pauses, resumes, caller_cancels,
  end_seeding, consider, receive_result, end_page, return_from_run, main_step, step, run, start,
  main_skip, put_worker, put_shared, queue_room, all_stopped, idle_workers,
}
use go_ddgs_stealth.Spider.Refines.{consider-cases}
use go_ddgs_stealth.Spider.Runs.{run-keeps}
use go_ddgs_stealth.Spider.Fetchable.{
  Fetchable, HoldsFetchable, SendsFetchable, SharesFetchable, BothFetchable, does-Fetchable,
}

module _ (lib : UrlLib) (cfg : Settings) where
  -- The loop goes on to send nothing, or a task that may be fetched.
  go-Fetchable :
      (m : Main) (s : Shared)
      → SendsFetchable lib cfg m
      → SharesFetchable lib cfg s
      → SharesFetchable lib cfg (record s { main = m })
  go-Fetchable m s h k = record { queue = k.queue; main = h; fetched = k.fetched }

  push-Fetchable :
      (t : Task) (m : Main) (n p : ℕ) (s : Shared)
      → Fetchable lib cfg t
      → SendsFetchable lib cfg m
      → SharesFetchable lib cfg s
      → SharesFetchable lib cfg
          (record s { queue = s.queue ++ t ∷ []; main = m; seeded = n; in_flight = p })
  push-Fetchable t m n p s h h' k = record {
    queue = All-append (Fetchable lib cfg) s.queue (t ∷ []) k.queue (h, tt);
    main = h';
    fetched = k.fetched;
  }

  consider-Fetchable :
      (u : String) (past taken : Main) (s : Shared)
      → SendsFetchable lib cfg past
      → (url_allowed lib cfg u ≡ true → SendsFetchable lib cfg taken)
      → SharesFetchable lib cfg s
      → SharesFetchable lib cfg (consider lib cfg u past taken s)
  consider-Fetchable u past taken s h h' k = elim (consider-cases lib cfg u past taken s) [
    | inl e ↦ rw e (go-Fetchable past s h k)
    | inr (allowed, new, e) ↦
        rw e record { queue = k.queue; main = h' allowed; fetched = k.fetched }
  ]

  receive_result-Fetchable :
      (b : Bool) (s : Shared) (out : List CrawlResult)
      → SharesFetchable lib cfg s
      → When (SharesFetchable lib cfg) (receive_result b s out)
  unfolding receive_result return_from_run
  receive_result-Fetchable b s (r ∷ out) k = record {
    queue = k.queue;
    main = tt;
    fetched = k.fetched;
  }
  receive_result-Fetchable b s [] k =
      When-if (SharesFetchable lib cfg) b (return_from_run s.cancelled s)
        (λ e. record { queue = k.queue; main = tt; fetched = k.fetched })

  end_page-Fetchable :
      (s : Shared) → SharesFetchable lib cfg s → SharesFetchable lib cfg (end_page s)
  unfolding end_page return_from_run
  end_page-Fetchable s k = record {
    queue = ground (arith, k.queue);
    main = ground arith;
    fetched = ground (arith, k.fetched);
  }

  end_seeding-Fetchable :
      (s : Shared) → SharesFetchable lib cfg s → SharesFetchable lib cfg (end_seeding s)
  unfolding end_seeding
  end_seeding-Fetchable s k = record {
    queue = ground (arith, k.queue);
    main = ground arith;
    fetched = ground (arith, k.fetched);
  }

  main_step-Fetchable :
      (b : Bool) (m : Main) (s : Shared)
      → SendsFetchable lib cfg m
      → SharesFetchable lib cfg s
      → When (SharesFetchable lib cfg) (main_step lib cfg b m s)
  unfolding main_step return_from_run
  main_step-Fetchable b (seeding []) s h k = end_seeding-Fetchable s k
  main_step-Fetchable b (seeding (u ∷ us)) s h k =
      consider-Fetchable u (seeding us) _ s tt (λ e. (e, omega arith)) k
  main_step-Fetchable b (seed_send t us) s h k =
      When-if (SharesFetchable lib cfg) (queue_room cfg s) _
        (λ e. push-Fetchable t (seeding us) _ _ s h tt k)
  main_step-Fetchable b awaiting_none s h k =
      When-if (SharesFetchable lib cfg) b (return_from_run false s)
        (λ e. record { queue = k.queue; main = tt; fetched = k.fetched })
  main_step-Fetchable b receiving s h k = receive_result-Fetchable b s s.out k
  main_step-Fetchable b (handling d []) s h k = end_page-Fetchable s k
  main_step-Fetchable b (handling d (u ∷ us)) s h k = elim (Bool-cases (ltb cfg.max_depth d)) [
    | inl deep ↦ rw deep (go-Fetchable (handling d us) s tt k)
    | inr low ↦ rw low (consider-Fetchable u (handling d us) _ s tt (λ e. (e, ground arith)) k)
  ]
  main_step-Fetchable b (link_send t d us) s h k =
      When-if (SharesFetchable lib cfg) (queue_room cfg s) _
        (λ e. push-Fetchable t (handling d us) _ _ s h tt k)
  main_step-Fetchable b (returned failed) s h k = tt

  main_skip-Fetchable :
      (m : Main) (s : Shared)
      → SharesFetchable lib cfg s
      → When (SharesFetchable lib cfg) (main_skip m s)
  main_skip-Fetchable (seeding us) s k = tt
  main_skip-Fetchable (seed_send t us) s k = tt
  main_skip-Fetchable awaiting_none s k = tt
  main_skip-Fetchable receiving s k = tt
  main_skip-Fetchable (handling d us) s k = tt
  main_skip-Fetchable (link_send t d us) s k =
      When-if (SharesFetchable lib cfg) s.cancelled (record s { main = handling d us })
        (λ e. go-Fetchable (handling d us) s tt k)
  main_skip-Fetchable (returned failed) s k = tt

  record CrawlFetchable (c : Crawl) : Type 0 where
    shared : SharesFetchable lib cfg c.shared
    workers : All (HoldsFetchable lib cfg) c.workers

  put_worker-Fetchable :
      (c : Crawl) (i : ℕ) (o : Option (Worker × Shared))
      → All (HoldsFetchable lib cfg) c.workers
      → When (BothFetchable lib cfg) o
      → When CrawlFetchable (put_worker lib cfg i c.workers o)
  put_worker-Fetchable c i none h k = tt
  put_worker-Fetchable c i (some (w, s)) h k = record {
    shared = k.1;
    workers = All-set_elem (HoldsFetchable lib cfg) i w c.workers k.0 h;
  }

  put_shared-Fetchable :
      (c : Crawl) (o : Option Shared)
      → All (HoldsFetchable lib cfg) c.workers
      → When (SharesFetchable lib cfg) o
      → When CrawlFetchable (put_shared lib cfg c o)
  put_shared-Fetchable c none h k = tt
  put_shared-Fetchable c (some s) h k = record { shared = k; workers = h }

  -- The flags say nothing of tasks.
  same-Fetchable :
      (c : Crawl) (b p : Bool)
      → CrawlFetchable c
      → CrawlFetchable (record c { shared = record c.shared { cancelled = b; paused = p } })
  same-Fetchable c b p h = record {
    shared = record { queue = h.shared.queue; main = h.shared.main; fetched = h.shared.fetched };
    workers = h.workers;
  }

  step-Fetchable :
      (a : Action) (c : Crawl) → CrawlFetchable c → When CrawlFetchable (step lib cfg a c)
  unfolding step
  step-Fetchable (worker i a) c h = elim (Option-cases (get_elem? c.workers i)) [
    | inl e ↦ rw e tt
    | inr (w, e) ↦ rw e (
        put_worker-Fetchable c i _ h.workers (
          does-Fetchable lib cfg a w c.shared
            (All-get_elem? (HoldsFetchable lib cfg) c.workers i w h.workers e) h.shared))
  ]
  step-Fetchable main_goes c h =
      put_shared-Fetchable c _ h.workers
        (main_step-Fetchable (all_stopped c.workers) c.shared.main c.shared h.shared.main h.shared)
  step-Fetchable main_skips c h =
      put_shared-Fetchable c _ h.workers (main_skip-Fetchable c.shared.main c.shared h.shared)
  step-Fetchable pauses c h = same-Fetchable c c.shared.cancelled true h
  step-Fetchable resumes c h = same-Fetchable c c.shared.cancelled false h
  step-Fetchable caller_cancels c h = same-Fetchable c true c.shared.paused h

  idle_workers-Fetchable : (n : ℕ) → All (HoldsFetchable lib cfg) (idle_workers n)
  idle_workers-Fetchable zero = tt
  idle_workers-Fetchable (suc n) = (tt, idle_workers-Fetchable n)

  -- Every page that Run begins to fetch passes the tests of hosts, and its depth is at most `MaxDepth`.
  pub run-fetched-allowed :
      (as' : List Action) (seen : List String) (paused : Bool) (c : Crawl)
      → run lib cfg as' (start cfg seen paused) ≡ some c
      → All (Fetchable lib cfg) c.shared.fetched
  unfolding start
  run-fetched-allowed as' seen paused c e =
      (run-keeps lib cfg CrawlFetchable step-Fetchable as' (start cfg seen paused) c
        record {
          shared = record { queue = tt; main = tt; fetched = tt };
          workers = idle_workers-Fetchable cfg.concurrency;
        }
        e).shared.fetched
