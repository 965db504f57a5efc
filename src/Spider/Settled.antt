-- ===== src/Spider/Settled.antt =====
-- spider.go, Run: the loop over the start URLs and the results keeps the count of the tasks in flight.
use go_ddgs_stealth.Common.{
  ℕ, suc, ◌+◌, ◌≤◌, ◌≡◌, refl, sym, ◌∙◌, String, Bool, true, false, inl, inr, List, [], ◌∷◌, ◌++◌,
  arith, length, length-append, When, When-if, ltb, leb, Bool-cases,
}
use go_ddgs_stealth.Common.Text.{trim_space}
use go_ddgs_stealth.Spider.{CrawlResult, Settings, UrlLib}
use go_ddgs_stealth.Spider.Crawl.{
  Task, Worker, Main, seeding, seed_send, awaiting_none, receiving, handling, link_send, returned,
  Shared, queue_room, end_seeding, consider, receive_result, end_page, return_from_run, main_step,
  main_skip, depth_of, all_stopped,
}
use go_ddgs_stealth.Spider.Refines.{consider-cases}
use go_ddgs_stealth.Spider.Accounts.{unfinished, due}
use go_ddgs_stealth.Spider.Counted.{Phase, IsCounted, gone_all}

module _ (lib : UrlLib) (cfg : Settings) (ws : List Worker) where
  abbrev pub CountedTo : Shared → Type 0
  CountedTo s = IsCounted s.main s ws

  -- The loop goes on, and the count changes as the tasks do.
  on_with :
      (m m' : Main) (s s' : Shared)
      → unfinished s' ws + due m s ≡ unfinished s ws + due m' s'
      → s'.cancelled ≡ s.cancelled
      → s'.closed ≡ s.closed
      → Phase m' s' ws
      → IsCounted m s ws
      → IsCounted m' s' ws
  on_with m m' s s' e h_cancelled h_closed p h = record {
    most = omega (arith, e, h.most);
    all = λ c. omega (arith, e, h.all (sym h_cancelled ∙ c));
    working = λ c o. h.working (sym h_cancelled ∙ c) (sym h_closed ∙ o);
    phase = p;
    some_worker = h.some_worker;
  }

  consider-counted :
      (u : String) (past taken : Main) (s : Shared)
      → CountedTo (record s { main = past })
      → CountedTo (record s { seen = trim_space u ∷ s.seen; main = taken })
      → CountedTo (consider lib cfg u past taken s)
  consider-counted u past taken s h h' = elim (consider-cases lib cfg u past taken s) [
    | inl e ↦ rw e h
    | inr (allowed, new, e) ↦ rw e h'
  ]

  return-counted :
      (m : Main) (b : Bool) (s : Shared)
      → (b ≡ false → unfinished s ws ≡ 0)
      → unfinished s ws ≤ s.in_flight
      → 1 ≤ length ws
      → CountedTo (return_from_run b s)
  unfolding return_from_run
  return-counted m true s e l w = record {
    most = l;
    all = λ c. cc;
    working = λ c. cc;
    phase = refl;
    some_worker = w;
  }
  return-counted m false s e l w = record {
    most = l;
    all = λ c. cc;
    working = λ c. cc;
    phase = (refl, e refl);
    some_worker = w;
  }

  receive_result-counted :
      (s : Shared) (out : List CrawlResult)
      → s.out ≡ out
      → IsCounted receiving s ws
      → When CountedTo (receive_result (all_stopped ws) s out)
  unfolding receive_result
  receive_result-counted s (r ∷ out) e h =
      on_with receiving (handling (suc (depth_of r.depth)) r.discovered) s _
        (ground (arith, h.most)) refl refl h.phase h
  receive_result-counted s [] e h =
      When-if CountedTo (all_stopped ws) (return_from_run s.cancelled s) (λ b.
        return-counted receiving s.cancelled s
          (λ c. absurd (omega (arith, gone_all ws b, h.working c h.phase, h.some_worker))) h.most
          h.some_worker)

  end_page-counted : (d : ℕ) (s : Shared) → IsCounted (handling d []) s ws → CountedTo (end_page s)
  unfolding end_page
  end_page-counted d s h = elim (Bool-cases (leb s.in_flight 0)) [
    | inl e ↦ rw e (
        return-counted (handling d []) s.cancelled s (λ c. ground (arith, h.most)) h.most
          h.some_worker)
    | inr e ↦ rw e (
        on_with (handling d []) receiving s (record s { main = receiving }) refl refl refl h.phase
          h)
  ]

  end_seeding-counted : (s : Shared) → IsCounted (seeding []) s ws → CountedTo (end_seeding s)
  unfolding end_seeding
  end_seeding-counted s h = elim (Bool-cases (leb s.seeded 0)) [
    | inl e ↦ rw e record {
      most = h.most;
      all = h.all;
      working = λ c o. cc;
      phase = (ground (arith, h.most), ground arith);
      some_worker = h.some_worker;
    }
    | inr e ↦ rw e (
        on_with (seeding []) receiving s (record s { in_flight = s.seeded; main = receiving }) refl
          refl refl h.phase h)
  ]

  push-counted :
      (t : Task) (m m' : Main) (n p : ℕ) (s : Shared)
      → suc (due m s)
        ≡ due m' (record s { queue = s.queue ++ t ∷ []; main = m'; seeded = n; in_flight = p })
      → Phase m' (record s { queue = s.queue ++ t ∷ []; main = m'; seeded = n; in_flight = p }) ws
      → IsCounted m s ws
      → CountedTo (record s { queue = s.queue ++ t ∷ []; main = m'; seeded = n; in_flight = p })
  push-counted t m m' n p s e h_phase h =
      on_with m m' s (record s { queue = s.queue ++ t ∷ []; main = m'; seeded = n; in_flight = p })
        (omega (arith, length-append s.queue (t ∷ []), e)) refl refl h_phase h

  pub main_step-counted :
      (m : Main) (s : Shared)
      → IsCounted m s ws
      → When CountedTo (main_step lib cfg (all_stopped ws) m s)
  unfolding main_step
  main_step-counted (seeding []) s h = end_seeding-counted s h
  main_step-counted (seeding (u ∷ us)) s h =
      consider-counted u (seeding us) (seed_send _ us) s
        (on_with (seeding (u ∷ us)) (seeding us) s (record s { main = seeding us }) refl refl refl
          h.phase h)
        (on_with (seeding (u ∷ us)) (seed_send _ us) s _ refl refl refl h.phase h)
  main_step-counted (seed_send t us) s h = When-if CountedTo (queue_room cfg s) _ (λ e.
      push-counted t (seed_send t us) (seeding us) (suc s.seeded) s.in_flight s refl h.phase h)
  main_step-counted awaiting_none s h =
      When-if CountedTo (all_stopped ws) (return_from_run false s) (λ e.
        return-counted awaiting_none false s (λ b. h.phase.0) (omega (arith, h.phase.0))
          h.some_worker)
  main_step-counted receiving s h = receive_result-counted s s.out refl h
  main_step-counted (handling d []) s h = end_page-counted d s h
  main_step-counted (handling d (u ∷ us)) s h =
      let past : CountedTo (record s { main = handling d us }) =
        on_with (handling d (u ∷ us)) (handling d us) s (record s { main = handling d us }) refl
          refl refl h.phase h in
      elim (Bool-cases (ltb cfg.max_depth d)) [
        | inl deep ↦ rw deep past
        | inr low ↦ rw low (
            consider-counted u (handling d us) (link_send _ d us) s past
              (on_with (handling d (u ∷ us)) (link_send _ d us) s _ refl refl refl h.phase h))
      ]
  main_step-counted (link_send t d us) s h = When-if CountedTo (queue_room cfg s) _ (λ e.
      push-counted t (link_send t d us) (handling d us) s.seeded (suc s.in_flight) s refl h.phase h)
  main_step-counted (returned failed) s h = tt

  pub main_skip-counted :
      (m : Main) (s : Shared) → IsCounted m s ws → When CountedTo (main_skip m s)
  main_skip-counted (seeding us) s h = tt
  main_skip-counted (seed_send t us) s h = tt
  main_skip-counted awaiting_none s h = tt
  main_skip-counted receiving s h = tt
  main_skip-counted (handling d us) s h = tt
  main_skip-counted (link_send t d us) s h =
      When-if CountedTo s.cancelled (record s { main = handling d us })
        (λ e.
          on_with (link_send t d us) (handling d us) s (record s { main = handling d us }) refl refl
            refl h.phase h)
  main_skip-counted (returned failed) s h = tt
