-- ===== src/Spider/Accounts.antt =====
-- spider.go, Run: the number of tasks in flight, as the code counts it, against the tasks that there
-- are; the steps of a worker.
use go_ddgs_stealth.Common.{
  ℕ, zero, suc, ◌+◌, ◌≤◌, ◌≡◌, refl, Bool, true, false, List, [], ◌∷◌, ◌++◌, arith, length,
  length-append, total, When, When-if, if◌then◌else◌, ◌&&◌,
}
use go_ddgs_stealth.Spider.{CrawlResult, Settings, UrlLib}
use go_ddgs_stealth.Spider.Crawl.{
  Task, Worker, idle, got, paused_with, passed, fetching, holding, stopped, Main, seeding,
  seed_send, awaiting_none, receiving, handling, link_send, returned, Shared, WorkerAction, goes,
  quits, answered, worker_goes, worker_quits, worker_answered, receive, consume, worker_does,
  out_room, may_quit, result_of,
}

abbrev pub busy : Worker → ℕ
busy idle = 0
busy (got t) = 1
busy (paused_with t) = 1
busy (passed t) = 1
busy (fetching t) = 1
busy (holding r) = 1
busy stopped = 0

abbrev pub gone : Worker → ℕ
gone idle = 0
gone (got t) = 0
gone (paused_with t) = 0
gone (passed t) = 0
gone (fetching t) = 0
gone (holding r) = 0
gone stopped = 1

-- The tasks that were sent and whose result was not received.
abbrev pub unfinished : Shared → List Worker → ℕ
unfinished s ws = length s.queue + total busy ws + length s.out

-- What the code counts: `seeded` until the first result is awaited, then `inFlight`.
abbrev pub due : Main → Shared → ℕ
due (seeding us) s = s.seeded
due (seed_send t us) s = s.seeded
due awaiting_none s = s.seeded
due receiving s = s.in_flight
due (handling d us) s = s.in_flight
due (link_send t d us) s = s.in_flight
due (returned failed) s = s.in_flight

-- What a step of a worker changes of that.
pub record Steady (w : Worker) (s : Shared) (w' : Worker) (s' : Shared) : Type 0 where
  pub main : s'.main ≡ s.main
  pub closed : s'.closed ≡ s.closed
  pub counts : (s'.seeded ≡ s.seeded) × (s'.in_flight ≡ s.in_flight)
  pub cancels : s'.cancelled ≡ false → s.cancelled ≡ false
  pub fewer : length s'.queue + busy w' + length s'.out ≤ length s.queue + busy w + length s.out
  pub same :
      s'.cancelled ≡ false
      → length s'.queue + busy w' + length s'.out ≡ length s.queue + busy w + length s.out
  pub works : s'.cancelled ≡ false → s.closed ≡ false → gone w' ≡ gone w

module _ (lib : UrlLib) (cfg : Settings) where
  abbrev pub SteadyTo : Worker → Shared → Worker × Shared → Type 0
  SteadyTo w s p = Steady w s p.0 p.1

  -- A worker goes on, and no task is lost.
  moved :
      (w w' : Worker) (s : Shared) (q : List Task) (o : List CrawlResult) (b : ℕ) (f : List Task)
      → length q + busy w' + length o ≡ length s.queue + busy w + length s.out
      → gone w' ≡ gone w
      → SteadyTo w s (w', record s { queue = q; out = o; budget = b; fetched = f })
  moved w w' s q o b f e h = record {
    main = refl;
    closed = refl;
    counts = (refl, refl);
    cancels = λ c. c;
    fewer = omega (arith, e);
    same = λ c. e;
    works = λ c d. h;
  }

  -- A worker leaves when the crawl is cancelled, perhaps by itself.
  left :
      (w : Worker) (s : Shared) (b : Bool)
      → b ≡ true
      → SteadyTo w s (stopped, record s { cancelled = b })
  left w s b e = record {
    main = refl;
    closed = refl;
    counts = (refl, refl);
    cancels = λ c. cc;
    fewer = omega arith;
    same = λ c. cc;
    works = λ c d. cc;
  }

  receive-Steady : (s : Shared) (q : List Task) → s.queue ≡ q → When (SteadyTo idle s) (receive s q)
  receive-Steady s [] e =
      When-if (SteadyTo idle s) s.closed (stopped, s)
        (λ b. record {
          main = refl;
          closed = refl;
          counts = (refl, refl);
          cancels = λ c. c;
          fewer = omega arith;
          same = λ c. omega arith;
          works = λ c d. cc;
        })
  receive-Steady s (t ∷ q) e = moved idle (got t) s q s.out s.budget s.fetched (ground arith) refl

  consume-Steady : (t : Task) (s : Shared) (n : ℕ) → SteadyTo (passed t) s (consume t s n)
  consume-Steady t s zero = left (passed t) s true refl
  consume-Steady t s (suc n) =
      moved (passed t) (fetching t) s s.queue s.out n (t ∷ s.fetched) refl refl

  goes-Steady : (w : Worker) (s : Shared) → When (SteadyTo w s) (worker_goes cfg w s)
  unfolding worker_goes
  goes-Steady idle s = receive-Steady s s.queue refl
  goes-Steady (got t) s =
      moved (got t) (if s.paused then paused_with t else passed t) s s.queue s.out s.budget
        s.fetched (ground arith) (ground arith)
  goes-Steady (paused_with t) s =
      moved (paused_with t) (got t) s s.queue s.out s.budget s.fetched refl refl
  goes-Steady (passed t) s = consume-Steady t s s.budget
  goes-Steady (fetching t) s = tt
  goes-Steady (holding r) s =
      When-if (SteadyTo (holding r) s) (out_room cfg s) (idle, record s { out = s.out ++ r ∷ [] })
        (λ e.
          moved (holding r) idle s s.queue (s.out ++ r ∷ []) s.budget s.fetched
            (omega (arith, length-append s.out (r ∷ []))) refl)
  goes-Steady stopped s = tt

  quits-Steady : (w : Worker) (s : Shared) → When (SteadyTo w s) (worker_quits w s)
  unfolding worker_quits
  quits-Steady w s =
      When-if (SteadyTo w s) (may_quit w && s.cancelled) (stopped, s)
        (λ e. left w s s.cancelled (ground arith))

  pub does-Steady :
      (a : WorkerAction) (w : Worker) (s : Shared) → When (SteadyTo w s) (worker_does lib cfg a w s)
  unfolding worker_answered
  does-Steady goes w s = goes-Steady w s
  does-Steady quits w s = quits-Steady w s
  does-Steady (answered x) (fetching t) s =
      moved (fetching t) (holding (result_of lib cfg t x)) s s.queue s.out s.budget s.fetched refl
        refl
  does-Steady (answered x) idle s = tt
  does-Steady (answered x) (got t) s = tt
  does-Steady (answered x) (paused_with t) s = tt
  does-Steady (answered x) (passed t) s = tt
  does-Steady (answered x) (holding r) s = tt
  does-Steady (answered x) stopped s = tt
