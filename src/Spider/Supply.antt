-- ===== src/Spider/Supply.antt =====
-- spider.go, Run: the loop over the start URLs and the results, as moves of the frontier.
use go_ddgs_stealth.Common.{
  ℕ, suc, ◌+◌, ◌-◌, ◌≡◌, refl, ap, String, Bool, false, inl, inr, List, [], ◌∷◌, ◌++◌, str_eq,
  arith, eq_refl, total, total-append, ltb, leb, length, When, When-if, Bool-cases,
}
use go_ddgs_stealth.Common.Text.{trim_space}
use go_ddgs_stealth.Spider.{CrawlResult, Settings, UrlLib, has}
use go_ddgs_stealth.Spider.Crawl.{
  Task, Worker, Main, seeding, seed_send, awaiting_none, receiving, handling, link_send, returned,
  Shared, end_seeding, consider, receive_result, end_page, return_from_run, main_step, main_skip,
  queue_room, depth_of,
}
use go_ddgs_stealth.Spider.Frontier.{bit, Move, rests, accepts, drops}
use go_ddgs_stealth.Spider.Refines.{hit, sends, view, consider-cases}

module _ (lib : UrlLib) (cfg : Settings) (ws : List Worker) where
  abbrev pub MainTo : Shared → Shared → Type 0
  MainTo s s' = Move false (view s ws) (view s' ws)

  -- The loop goes on and the frontier stays.
  stay-Move :
      (s s' : Shared)
      → s'.seen ≡ s.seen
      → ((k : String)
          → total (hit k) s'.queue + sends k s'.main ≡ total (hit k) s.queue + sends k s.main)
      → s'.fetched ≡ s.fetched
      → s'.budget ≡ s.budget
      → MainTo s s'
  stay-Move s s' h_seen h_pending h_fetched h_budget = rests record {
    seen = λ k. ap (has k) h_seen;
    pending = λ k. omega (arith, h_pending k);
    visits = λ k. ap (total (hit k)) h_fetched;
    pages = ap length h_fetched;
    budget = h_budget;
  }

  -- The loop that sent nothing goes on and sends nothing.
  still-Move :
      (s : Shared) (m : Main)
      → ((k : String) → sends k s.main ≡ 0)
      → ((k : String) → sends k m ≡ 0)
      → MainTo s (record s { main = m })
  still-Move s m h h' =
      stay-Move s (record s { main = m }) refl (λ k. omega (arith, h k, h' k)) refl refl

  consider-Move :
      (u : String) (past taken : Main) (s : Shared)
      → ((k : String) → sends k s.main ≡ 0)
      → ((k : String) → sends k past ≡ 0)
      → ((k : String) → sends k taken ≡ bit (str_eq (trim_space u) k))
      → MainTo s (consider lib cfg u past taken s)
  consider-Move u past taken s h h_past h_taken = elim (consider-cases lib cfg u past taken s) [
    | inl e ↦ rw e (still-Move s past h h_past)
    | inr (allowed, new, e) ↦ rw e (
        accepts (trim_space u) new record {
          seen = λ k. refl;
          pending = λ k. omega (arith, h k, h_taken k);
          visits = λ k. refl;
          pages = refl;
          budget = refl;
        })
  ]

  push-Move :
      (t : Task) (m : Main) (n p : ℕ) (s : Shared)
      → ((k : String) → sends k s.main ≡ hit k t)
      → ((k : String) → sends k m ≡ 0)
      → MainTo s (record s { queue = s.queue ++ t ∷ []; main = m; seeded = n; in_flight = p })
  push-Move t m n p s h h' =
      stay-Move s (record s { queue = s.queue ++ t ∷ []; main = m; seeded = n; in_flight = p }) refl
        (λ k. omega (arith, h k, h' k, total-append (hit k) s.queue (t ∷ []))) refl refl

  return-Move :
      (b : Bool) (s : Shared) → ((k : String) → sends k s.main ≡ 0) → MainTo s (return_from_run b s)
  unfolding return_from_run
  return-Move b s h = stay-Move s (return_from_run b s) refl (λ k. omega (arith, h k)) refl refl

  receive_result-Move :
      (b : Bool) (s : Shared) (out : List CrawlResult)
      → ((k : String) → sends k s.main ≡ 0)
      → When (MainTo s) (receive_result b s out)
  unfolding receive_result return_from_run
  receive_result-Move b s (r ∷ out) h =
      stay-Move s
        (record s {
          out = out;
          in_flight = s.in_flight - 1;
          main = handling (suc (depth_of r.depth)) r.discovered;
        })
        refl (λ k. omega (arith, h k)) refl refl
  receive_result-Move b s [] h =
      When-if (MainTo s) b (return_from_run s.cancelled s) (λ e. return-Move s.cancelled s h)

  end_page-Move : (s : Shared) → ((k : String) → sends k s.main ≡ 0) → MainTo s (end_page s)
  unfolding end_page
  end_page-Move s h = elim (Bool-cases (leb s.in_flight 0)) [
    | inl e ↦ rw e (return-Move s.cancelled s h)
    | inr e ↦ rw e (still-Move s receiving h (λ k. refl))
  ]

  end_seeding-Move : (s : Shared) → ((k : String) → sends k s.main ≡ 0) → MainTo s (end_seeding s)
  unfolding end_seeding
  end_seeding-Move s h =
      stay-Move s (end_seeding s) (ground arith) (λ k. ground (arith, h k)) (ground arith)
        (ground arith)

  pub main_step-Move :
      (b : Bool) (m : Main) (s : Shared) → s.main ≡ m → When (MainTo s) (main_step lib cfg b m s)
  unfolding main_step
  main_step-Move b (seeding []) s e = end_seeding-Move s (λ k. ap (sends k) e)
  main_step-Move b (seeding (u ∷ us)) s e =
      consider-Move u (seeding us) _ s (λ k. ap (sends k) e) (λ k. refl) (λ k. refl)
  main_step-Move b (seed_send t us) s e =
      When-if (MainTo s) (queue_room cfg s) _ (λ h.
        push-Move t (seeding us) (suc s.seeded) s.in_flight s (λ k. ap (sends k) e) (λ k. refl))
  main_step-Move b awaiting_none s e =
      When-if (MainTo s) b (return_from_run false s)
        (λ h. return-Move false s (λ k. ap (sends k) e))
  main_step-Move b receiving s e = receive_result-Move b s s.out (λ k. ap (sends k) e)
  main_step-Move b (handling d []) s e = end_page-Move s (λ k. ap (sends k) e)
  main_step-Move b (handling d (u ∷ us)) s e = elim (Bool-cases (ltb cfg.max_depth d)) [
    | inl deep ↦ rw deep (still-Move s (handling d us) (λ k. ap (sends k) e) (λ k. refl))
    | inr low ↦
        rw low (consider-Move u (handling d us) _ s (λ k. ap (sends k) e) (λ k. refl) (λ k. refl))
  ]
  main_step-Move b (link_send t d us) s e = When-if (MainTo s) (queue_room cfg s) _ (λ h.
      push-Move t (handling d us) s.seeded (suc s.in_flight) s (λ k. ap (sends k) e) (λ k. refl))
  main_step-Move b (returned failed) s e = tt

  abbrev pub SkipTo : Shared → Shared → Type 0
  SkipTo s s' = Move s'.cancelled (view s ws) (view s' ws)

  pub main_skip-Move : (m : Main) (s : Shared) → s.main ≡ m → When (SkipTo s) (main_skip m s)
  main_skip-Move (seeding us) s e = tt
  main_skip-Move (seed_send t us) s e = tt
  main_skip-Move awaiting_none s e = tt
  main_skip-Move receiving s e = tt
  main_skip-Move (handling d us) s e = tt
  main_skip-Move (link_send t d us) s e =
      When-if (SkipTo s) s.cancelled (record s { main = handling d us })
        (λ h.
          let sum = λ (k : String). ap (sends k) e in
          drops (trim_space t.url) h
            (ground (arith, sum (trim_space t.url), eq_refl (trim_space t.url)))
            record {
              seen = λ k. refl;
              pending = λ k. omega (arith, sum k);
              visits = λ k. refl;
              pages = refl;
              budget = refl;
            })
  main_skip-Move (returned failed) s e = tt
