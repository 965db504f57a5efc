-- ===== src/Spider/Fetchable.antt =====
-- spider.go, Run: the tasks that a crawl holds may be fetched, and the steps of a worker keep that.
use go_ddgs_stealth.Common.{
  ℕ, zero, suc, ◌≤◌, ◌≡◌, true, List, [], ◌∷◌, ◌++◌, arith, All, When, When-if,
}
use go_ddgs_stealth.Spider.{Settings, UrlLib, url_allowed}
use go_ddgs_stealth.Spider.Crawl.{
  Task, Worker, idle, got, paused_with, passed, fetching, holding, stopped, Main, seeding,
  seed_send, awaiting_none, receiving, handling, link_send, returned, Shared, WorkerAction, goes,
  quits, answered, worker_goes, worker_quits, worker_answered, receive, consume, worker_does,
  out_room,
}

module _ (lib : UrlLib) (cfg : Settings) where
  -- The task may be fetched.
  abbrev pub Fetchable : Task → Type 0
  Fetchable t = (url_allowed lib cfg t.url ≡ true) × (t.depth ≤ cfg.max_depth)

  abbrev pub HoldsFetchable : Worker → Type 0
  HoldsFetchable idle = Unit
  HoldsFetchable (got t) = Fetchable t
  HoldsFetchable (paused_with t) = Fetchable t
  HoldsFetchable (passed t) = Fetchable t
  HoldsFetchable (fetching t) = Fetchable t
  HoldsFetchable (holding r) = Unit
  HoldsFetchable stopped = Unit

  abbrev pub SendsFetchable : Main → Type 0
  SendsFetchable (seeding us) = Unit
  SendsFetchable (seed_send t us) = Fetchable t
  SendsFetchable awaiting_none = Unit
  SendsFetchable receiving = Unit
  SendsFetchable (handling d us) = Unit
  SendsFetchable (link_send t d us) = Fetchable t
  SendsFetchable (returned failed) = Unit

  pub record SharesFetchable (s : Shared) : Type 0 where
    pub queue : All Fetchable s.queue
    pub main : SendsFetchable s.main
    pub fetched : All Fetchable s.fetched

  abbrev pub BothFetchable : Worker × Shared → Type 0
  BothFetchable p = HoldsFetchable p.0 × SharesFetchable p.1

  consume-Fetchable :
      (t : Task) (s : Shared) (n : ℕ)
      → Fetchable t
      → SharesFetchable s
      → BothFetchable (consume t s n)
  consume-Fetchable t s zero h k =
      (tt, record { queue = k.queue; main = k.main; fetched = k.fetched })
  consume-Fetchable t s (suc n) h k =
      (h, record { queue = k.queue; main = k.main; fetched = (h, k.fetched) })

  receive-Fetchable :
      (s : Shared) (q : List Task)
      → All Fetchable q
      → SharesFetchable s
      → When BothFetchable (receive s q)
  receive-Fetchable s [] h k = When-if BothFetchable s.closed (stopped, s) (λ e. (tt, k))
  receive-Fetchable s (t ∷ q) h k =
      (h.0, record { queue = h.1; main = k.main; fetched = k.fetched })

  goes-Fetchable :
      (w : Worker) (s : Shared)
      → HoldsFetchable w
      → SharesFetchable s
      → When BothFetchable (worker_goes cfg w s)
  unfolding worker_goes
  goes-Fetchable idle s h k = receive-Fetchable s s.queue k.queue k
  goes-Fetchable (got t) s h k = (ground (arith, h), k)
  goes-Fetchable (paused_with t) s h k = (h, k)
  goes-Fetchable (passed t) s h k = consume-Fetchable t s s.budget h k
  goes-Fetchable (fetching t) s h k = tt
  goes-Fetchable (holding r) s h k =
      When-if BothFetchable (out_room cfg s) (idle, record s { out = s.out ++ r ∷ [] })
        (λ e. (tt, record { queue = k.queue; main = k.main; fetched = k.fetched }))
  goes-Fetchable stopped s h k = tt

  pub does-Fetchable :
      (a : WorkerAction) (w : Worker) (s : Shared)
      → HoldsFetchable w
      → SharesFetchable s
      → When BothFetchable (worker_does lib cfg a w s)
  unfolding worker_quits worker_answered
  does-Fetchable goes w s h k = goes-Fetchable w s h k
  does-Fetchable quits w s h k = When-if BothFetchable _ (stopped, s) (λ e. (tt, k))
  does-Fetchable (answered x) (fetching t) s h k = (tt, k)
  does-Fetchable (answered x) idle s h k = tt
  does-Fetchable (answered x) (got t) s h k = tt
  does-Fetchable (answered x) (paused_with t) s h k = tt
  does-Fetchable (answered x) (passed t) s h k = tt
  does-Fetchable (answered x) (holding r) s h k = tt
  does-Fetchable (answered x) stopped s h k = tt
