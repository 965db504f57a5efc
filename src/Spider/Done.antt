-- ===== src/Spider/Done.antt =====
-- spider.go, Run: what is left when Run returns without an error.
use go_ddgs_stealth.Common.{
  ℕ, zero, suc, ◌+◌, ◌≤◌, ◌≡◌, refl, ap, subst, sym, ◌∙◌, String, Bool, true, false, ◌⊎◌, inl, inr,
  Option, none, some, List, [], ◌∷◌, arith, get_elem?, set_elem, length, total, When, When-if,
  When-some, Bool-cases, Option-cases,
}
use go_ddgs_stealth.Spider.{Settings, UrlLib, has}
use go_ddgs_stealth.Spider.Crawl.{
  Task, Worker, idle, got, paused_with, passed, fetching, holding, stopped, Main, seeding,
  seed_send, awaiting_none, receiving, handling, link_send, returned, Shared, Crawl, worker_does,
  Action, worker, main_goes, main_skips, pauses, resumes, caller_cancels, step, run, start,
  main_step, main_skip, put_worker, put_shared, all_stopped, idle_workers,
}
use go_ddgs_stealth.Spider.Accounts.{busy, gone, unfinished, Steady, SteadyTo, does-Steady}
use go_ddgs_stealth.Spider.Runs.{run-keeps}
use go_ddgs_stealth.Spider.Counted.{Phase, IsCounted, Steady-IsCounted, flags-IsCounted}
use go_ddgs_stealth.Spider.Settled.{CountedTo, main_step-counted, main_skip-counted}
use go_ddgs_stealth.Spider.Frontier.{Move, IsKept, Move-IsKept, bit}
use go_ddgs_stealth.Spider.Refines.{hit, waits, sends, view, MovesTo}
use go_ddgs_stealth.Spider.Once.{worker_does-Move}
use go_ddgs_stealth.Spider.Supply.{main_step-Move, MainTo}
use go_ddgs_stealth.Spider.Returns.{NilStep, main_step-nil}

-- A task waits only where one is unfinished or is being sent.
waits-le-busy : (k : String) (ws : List Worker) → total (waits k) ws ≤ total busy ws
waits-le-busy k [] = omega arith
waits-le-busy k (idle ∷ ws) = omega (arith, waits-le-busy k ws)
waits-le-busy k (stopped ∷ ws) = omega (arith, waits-le-busy k ws)
waits-le-busy k (got t ∷ ws) = ground (arith, waits-le-busy k ws)
waits-le-busy k (paused_with t ∷ ws) = ground (arith, waits-le-busy k ws)
waits-le-busy k (passed t ∷ ws) = ground (arith, waits-le-busy k ws)
waits-le-busy k (fetching t ∷ ws) = ground (arith, waits-le-busy k ws)
waits-le-busy k (holding r ∷ ws) = ground (arith, waits-le-busy k ws)

hits-le : (k : String) (q : List Task) → total (hit k) q ≤ length q
hits-le k [] = omega arith
hits-le k (t ∷ q) = ground (arith, hits-le k q)

returned-pending :
    (k : String) (s : Shared) (ws : List Worker)
    → s.main ≡ returned false
    → IsCounted s.main s ws
    → (view s ws).pending k ≡ 0
returned-pending k s ws e h =
    let phase : (s.cancelled ≡ true) × (unfinished s ws ≡ 0) =
      subst (λ (m : Main). Phase m s ws) e h.phase in
    omega (arith, phase.1, waits-le-busy k ws, hits-le k s.queue, ap (sends k) e)

module _ (lib : UrlLib) (cfg : Settings) (seen_before : String → Bool) where
  record IsFull (s : Shared) (ws : List Worker) : Type 0 where
    counted : IsCounted s.main s ws
    kept : s.cancelled ≡ false → IsKept seen_before (view s ws)
    nil : s.main ≡ returned false → (s.seeded ≡ 0) ⊎ IsKept seen_before (view s ws)

  abbrev Full : Crawl → Type 0
  Full c = IsFull c.shared c.workers

  worker-Full :
      (i : ℕ) (w w' : Worker) (s s' : Shared) (ws : List Worker)
      → get_elem? ws i ≡ some w
      → Steady w s w' s'
      → Move s'.cancelled (view s ws) (view s' (set_elem i w' ws))
      → IsFull s ws
      → IsFull s' (set_elem i w' ws)
  worker-Full i w w' s s' ws e k m h = record {
    counted =
        subst (λ (x : Main). IsCounted x s' (set_elem i w' ws)) (sym k.main)
          (Steady-IsCounted i w w' s s' ws e k s.main h.counted);
    kept = λ c. Move-IsKept seen_before s'.cancelled _ _ m (h.kept (k.cancels c)) (inl c);
    nil = λ r.
        let ended : s.main ≡ returned false = sym k.main ∙ r in
        elim (h.nil ended) [
          | inl none_seeded ↦ inl (k.counts.0 ∙ none_seeded)
          | inr all ↦ inr (
              Move-IsKept seen_before s'.cancelled _ _ m all
                (inr (λ k. returned-pending k s ws ended h.counted)))
        ];
  }

  put_worker-Full :
      (c : Crawl) (i : ℕ) (w : Worker) (o : Option (Worker × Shared))
      → get_elem? c.workers i ≡ some w
      → Full c
      → When (SteadyTo lib cfg w c.shared) o
      → When (MovesTo lib cfg c.workers i c.shared) o
      → When Full (put_worker lib cfg i c.workers o)
  put_worker-Full c i w none e h k m = tt
  put_worker-Full c i w (some (w', s')) e h k m = worker-Full i w w' c.shared s' c.workers e k m h

  main-Full :
      (s s' : Shared) (ws : List Worker)
      → IsFull s ws
      → CountedTo lib cfg ws s'
      → NilStep lib cfg s s'
      → MainTo lib cfg ws s s'
      → IsFull s' ws
  main-Full s s' ws h k n m = record {
    counted = k;
    kept = λ c. Move-IsKept seen_before false _ _ m (h.kept (n.earlier c)) (inl refl);
    nil = λ r. elim (n.nil r) [
      | inl c ↦ inr (Move-IsKept seen_before false _ _ m (h.kept c) (inl refl))
      | inr none_seeded ↦ inl none_seeded
    ];
  }

  put_shared-Full :
      (c : Crawl) (o : Option Shared)
      → Full c
      → When (CountedTo lib cfg c.workers) o
      → When (NilStep lib cfg c.shared) o
      → When (MainTo lib cfg c.workers c.shared) o
      → When Full (put_shared lib cfg c o)
  put_shared-Full c none h k n m = tt
  put_shared-Full c (some s) h k n m = main-Full c.shared s c.workers h k n m

  main_step-Full :
      (c : Crawl)
      → Full c
      → When Full
          (put_shared lib cfg c (main_step lib cfg (all_stopped c.workers) c.shared.main c.shared))
  main_step-Full c h =
      put_shared-Full c (main_step lib cfg (all_stopped c.workers) c.shared.main c.shared) h
        (main_step-counted lib cfg c.workers c.shared.main c.shared h.counted)
        (main_step-nil lib cfg (all_stopped c.workers) c.shared.main c.shared c.workers h.counted)
        (main_step-Move lib cfg c.workers (all_stopped c.workers) c.shared.main c.shared refl)

  main_skip-Full :
      (m : Main) (s : Shared) (ws : List Worker)
      → IsFull s ws
      → When (CountedTo lib cfg ws) (main_skip m s)
      → When (λ s'. IsFull s' ws) (main_skip m s)
  main_skip-Full (link_send t d us) s ws h k =
      When-if (λ s'. IsFull s' ws) s.cancelled (record s { main = handling d us })
        (λ e. record {
          counted =
              When-some (CountedTo lib cfg ws) _ (record s { main = handling d us }) k (rw e refl);
          kept = λ c. cc;
          nil = λ r. cc;
        })
  main_skip-Full (seeding us) s ws h k = tt
  main_skip-Full (seed_send t us) s ws h k = tt
  main_skip-Full awaiting_none s ws h k = tt
  main_skip-Full receiving s ws h k = tt
  main_skip-Full (handling d us) s ws h k = tt
  main_skip-Full (returned failed) s ws h k = tt

  put_skip-Full :
      (c : Crawl) (o : Option Shared)
      → When (λ s'. IsFull s' c.workers) o
      → When Full (put_shared lib cfg c o)
  put_skip-Full c none h = tt
  put_skip-Full c (some s) h = h

  -- A pause changes no count, nor does a cancellation.
  flags-Full :
      (c : Crawl) (b p : Bool)
      → (c.shared.cancelled ≡ true → b ≡ true)
      → Full c
      → Full (record c { shared = record c.shared { cancelled = b; paused = p } })
  flags-Full c b p e h = record {
    counted = flags-IsCounted c.shared c.workers b p e c.shared.main h.counted;
    kept = λ x. h.kept (elim (Bool-cases c.shared.cancelled) [
      | inl y ↦ absurd (ground (arith, e y, x))
      | inr y ↦ y
    ]);
    nil = h.nil;
  }

  step-Full : (a : Action) (c : Crawl) → Full c → When Full (step lib cfg a c)
  unfolding step
  step-Full (worker i a) c h = elim (Option-cases (get_elem? c.workers i)) [
    | inl e ↦ rw e tt
    | inr (w, e) ↦ rw e (
        put_worker-Full c i w (worker_does lib cfg a w c.shared) e h
          (does-Steady lib cfg a w c.shared) (worker_does-Move lib cfg c i a w e))
  ]
  step-Full main_goes c h = main_step-Full c h
  step-Full main_skips c h = put_skip-Full c (main_skip c.shared.main c.shared) (
      main_skip-Full c.shared.main c.shared c.workers h
        (main_skip-counted lib cfg c.workers c.shared.main c.shared h.counted))
  step-Full pauses c h = flags-Full c c.shared.cancelled true (λ e. e) h
  step-Full resumes c h = flags-Full c c.shared.cancelled false (λ e. e) h
  step-Full caller_cancels c h = flags-Full c true c.shared.paused (λ e. refl) h

idle_workers-idle : (n : ℕ) → (total gone (idle_workers n) ≡ 0) × (total busy (idle_workers n) ≡ 0)
idle_workers-idle zero = (refl, refl)
idle_workers-idle (suc n) =
    (omega (arith, (idle_workers-idle n).0), omega (arith, (idle_workers-idle n).1))

length-idle_workers : (n : ℕ) → length (idle_workers n) ≡ n
length-idle_workers zero = refl
length-idle_workers (suc n) = ap suc (length-idle_workers n)

start-Full :
    (lib : UrlLib) (cfg : Settings) (seen : List String) (paused : Bool)
    → 1 ≤ cfg.concurrency
    → Full lib cfg (λ k. has k seen) (start cfg seen paused)
unfolding start
start-Full lib cfg seen paused h =
    let empty = idle_workers-idle cfg.concurrency in
    record {
      counted = record {
        most = omega (arith, empty.1);
        all = λ c. omega (arith, empty.1);
        working = λ c o. empty.0;
        phase = refl;
        some_worker = omega (arith, length-idle_workers cfg.concurrency, h);
      };
      kept = λ c j. ground (arith, waits-le-busy j (idle_workers cfg.concurrency), empty.1);
      nil = λ e. cc;
    }

-- When Run, with at least one worker, returns without an error after it took up at least one start URL,
-- in whatever order its goroutines went: nothing is left in the queue, with the workers or in the
-- channel of results, and every URL that was marked as seen in this run was fetched, once.
pub run-nil_complete :
    (lib : UrlLib) (cfg : Settings) (seen : List String) (paused : Bool) (as' : List Action)
    (c : Crawl) (k : String)
    → 1 ≤ cfg.concurrency
    → run lib cfg as' (start cfg seen paused) ≡ some c
    → c.shared.main ≡ returned false
    → 1 ≤ c.shared.seeded
    → (unfinished c.shared c.workers ≡ 0)
      × (total (hit k) c.shared.fetched + bit (has k seen) ≡ bit (has k c.shared.seen))
run-nil_complete lib cfg seen paused as' c k h e r seeded =
    let full : Full lib cfg (λ k. has k seen) c =
      run-keeps lib cfg (Full lib cfg (λ k. has k seen)) (step-Full lib cfg (λ k. has k seen)) as' _
        c (start-Full lib cfg seen paused h) e in
    let phase : (c.shared.cancelled ≡ true) × (unfinished c.shared c.workers ≡ 0) =
      subst (λ (m : Main). Phase m c.shared c.workers) r full.counted.phase in
    (
      phase.1,
      elim (full.nil r) [
        | inl none_seeded ↦ absurd (omega (arith, none_seeded, seeded))
        | inr all ↦ omega (arith, all k, returned-pending k c.shared c.workers r full.counted)
      ],
    )
