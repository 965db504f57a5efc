-- ===== src/Spider/Cancels.antt =====
-- spider.go, Run: a crawl that is cancelled stays so.
use go_ddgs_stealth.Common.{
  ℕ, ◌≡◌, inl, inr, String, Bool, true, false, Option, none, some, List, [], ◌∷◌, arith, ltb,
  get_elem?, When, When-if, Option-cases, Bool-cases,
}
use go_ddgs_stealth.Spider.{CrawlResult, Settings, UrlLib, mark_seen}
use go_ddgs_stealth.Spider.Crawl.{
  Worker, Main, seeding, seed_send, awaiting_none, receiving, handling, link_send, returned, Shared,
  Crawl, Action, worker, main_goes, main_skips, pauses, resumes, caller_cancels, step, put_worker,
  put_shared, queue_room, end_seeding, consider, receive_result, end_page, return_from_run,
  main_step, main_skip, all_stopped,
}
use go_ddgs_stealth.Spider.Accounts.{SteadyTo, does-Steady}

module _ (lib : UrlLib) (cfg : Settings) where
  abbrev pub StillCancelled : Shared → Shared → Type 0
  StillCancelled s s' = s.cancelled ≡ true → s'.cancelled ≡ true

  consider-StillCancelled :
      (u : String) (past taken : Main) (s : Shared)
      → StillCancelled s (consider lib cfg u past taken s)
  unfolding consider mark_seen
  consider-StillCancelled u past taken s h = ground (arith, h)

  main_step-StillCancelled :
      (b : Bool) (m : Main) (s : Shared) → When (StillCancelled s) (main_step lib cfg b m s)
  unfolding main_step end_seeding receive_result end_page return_from_run
  main_step-StillCancelled b (seeding []) s = λ h. ground (arith, h)
  main_step-StillCancelled b (seeding (u ∷ us)) s =
      consider-StillCancelled u (seeding us) (seed_send _ us) s
  main_step-StillCancelled b (seed_send t us) s =
      When-if (StillCancelled s) (queue_room cfg s) _ (λ e h. h)
  main_step-StillCancelled b awaiting_none s =
      When-if (StillCancelled s) b (return_from_run false s) (λ e h. cc)
  main_step-StillCancelled b receiving s = received s.out
    where
      received : (out : List CrawlResult) → When (StillCancelled s) (receive_result b s out)
      received [] = When-if (StillCancelled s) b (return_from_run s.cancelled s) (λ e h. cc)
      received (r ∷ out) = λ h. h
  main_step-StillCancelled b (handling d []) s = λ h. ground (arith, h)
  main_step-StillCancelled b (handling d (u ∷ us)) s = elim (Bool-cases (ltb cfg.max_depth d)) [
    | inl deep ↦ rw deep (λ h. h)
    | inr low ↦ rw low (consider-StillCancelled u (handling d us) (link_send _ d us) s)
  ]
  main_step-StillCancelled b (link_send t d us) s =
      When-if (StillCancelled s) (queue_room cfg s) _ (λ e h. h)
  main_step-StillCancelled b (returned failed) s = tt

  main_skip-StillCancelled : (m : Main) (s : Shared) → When (StillCancelled s) (main_skip m s)
  main_skip-StillCancelled (link_send t d us) s =
      When-if (StillCancelled s) s.cancelled (record s { main = handling d us }) (λ e h. h)
  main_skip-StillCancelled (seeding us) s = tt
  main_skip-StillCancelled (seed_send t us) s = tt
  main_skip-StillCancelled awaiting_none s = tt
  main_skip-StillCancelled receiving s = tt
  main_skip-StillCancelled (handling d us) s = tt
  main_skip-StillCancelled (returned failed) s = tt

  abbrev pub CancelsTo : Crawl → Crawl → Type 0
  CancelsTo c c' = StillCancelled c.shared c'.shared

  put_worker-CancelsTo :
      (c : Crawl) (i : ℕ) (w : Worker) (o : Option (Worker × Shared))
      → When (SteadyTo lib cfg w c.shared) o
      → When (CancelsTo c) (put_worker lib cfg i c.workers o)
  put_worker-CancelsTo c i w none k = tt
  put_worker-CancelsTo c i w (some (w', s')) k =
      λ h. elim (Bool-cases s'.cancelled) [ inl e ↦ e | inr e ↦ let before = k.cancels e in cc ]

  put_shared-CancelsTo :
      (c : Crawl) (o : Option Shared)
      → When (StillCancelled c.shared) o
      → When (CancelsTo c) (put_shared lib cfg c o)
  put_shared-CancelsTo c none k = tt
  put_shared-CancelsTo c (some s) k = k

  pub step-CancelsTo : (a : Action) (c : Crawl) → When (CancelsTo c) (step lib cfg a c)
  unfolding step
  step-CancelsTo (worker i a) c = elim (Option-cases (get_elem? c.workers i)) [
    | inl e ↦ rw e tt
    | inr (w, e) ↦ rw e (put_worker-CancelsTo c i w _ (does-Steady lib cfg a w c.shared))
  ]
  step-CancelsTo main_goes c =
      put_shared-CancelsTo c _
        (main_step-StillCancelled (all_stopped c.workers) c.shared.main c.shared)
  step-CancelsTo main_skips c =
      put_shared-CancelsTo c _ (main_skip-StillCancelled c.shared.main c.shared)
  step-CancelsTo pauses c = λ h. h
  step-CancelsTo resumes c = λ h. h
  step-CancelsTo caller_cancels c = λ h. cc
