-- ===== src/Spider/Crawl.antt =====
-- spider.go, Run: the workers, the loop that gives them tasks, and the two channels between them. A
-- step is one action of one of them, in any order, as the scheduler and the `select` statements may
-- choose. A send on a channel is a step that needs room; a receive needs an element.
use go_ddgs_stealth.Common.{
  ℕ, zero, suc, ◌-◌, ◌*◌, String, Bool, true, false, Option, none, some, List, [], ◌∷◌, ◌++◌, ◌⊎◌,
  ltb, leb, ◌&&◌, if◌then◌else◌, length, get_elem?, set_elem,
}
use go_ddgs_stealth.Errors.{Err}
use go_ddgs_stealth.Fetcher.{FetchResponse}
use go_ddgs_stealth.Spider.{CrawlResult, Settings, UrlLib, url_allowed, mark_seen, fetch_one}

-- crawlTask
pub record Task : Type 0 where
  pub url : String
  pub depth : ℕ

-- A worker by what it holds and where it stands: in the first `select`, before and after the test of
-- a pause, in the fetch, and in the send of a result.
pub data Worker : Type 0 where
  idle : Worker
  got : Task → Worker
  paused_with : Task → Worker
  passed : Task → Worker
  fetching : Task → Worker
  holding : CrawlResult → Worker
  stopped : Worker

-- The goroutine of Run: the start URLs or links that it has left, and the task that it sends.
pub data Main : Type 0 where
  seeding : List String → Main
  seed_send : Task → List String → Main
  awaiting_none : Main
  receiving : Main
  handling : ℕ → List String → Main
  link_send : Task → ℕ → List String → Main
  -- whether Run returned an error
  returned : Bool → Main

-- What the goroutines share. `fetched` lists the tasks whose fetch was begun, the latest first; the
-- code keeps no such list.
pub record Shared : Type 0 where
  pub queue : List Task
  pub closed : Bool
  pub out : List CrawlResult
  pub budget : ℕ
  pub seen : List String
  pub cancelled : Bool
  pub paused : Bool
  pub main : Main
  pub seeded : ℕ
  pub in_flight : ℕ
  pub fetched : List Task

pub record Crawl : Type 0 where
  pub shared : Shared
  pub workers : List Worker

pub data WorkerAction : Type 0 where
  -- the next statement, or a receive or send that is ready
  goes : WorkerAction
  -- the case ctx.Done() of a `select`
  quits : WorkerAction
  -- the return of Fetch
  answered : Err ⊎ FetchResponse → WorkerAction

pub data Action : Type 0 where
  worker : ℕ → WorkerAction → Action
  main_goes : Action
  -- the case ctx.Done() of the send of a link
  main_skips : Action
  pauses : Action
  resumes : Action
  caller_cancels : Action

abbrev pub queue_room : Settings → Shared → Bool
queue_room cfg s = ltb (length s.queue) (cfg.concurrency * 8)

abbrev pub out_room : Settings → Shared → Bool
out_room cfg s = ltb (length s.out) (cfg.concurrency * 4)

abbrev pub receive : Shared → List Task → Option (Worker × Shared)
receive s (t ∷ queue) = some (got t, record s { queue = queue })
receive s [] = if s.closed then some (stopped, s) else none

-- consumeBudget, and the cancellation when it fails.
abbrev pub consume : Task → Shared → ℕ → Worker × Shared
consume t s zero = (stopped, record s { cancelled = true })
consume t s (suc n) = (fetching t, record s { budget = n; fetched = t ∷ s.fetched })

unfoldable pub worker_goes : Settings → Worker → Shared → Option (Worker × Shared)
worker_goes cfg idle s = receive s s.queue
worker_goes cfg (got t) s = some ((if s.paused then paused_with t else passed t), s)
worker_goes cfg (paused_with t) s = some (got t, s)
worker_goes cfg (passed t) s = some (consume t s s.budget)
worker_goes cfg (fetching t) s = none
worker_goes cfg (holding r) s =
    if out_room cfg s then some (idle, record s { out = s.out ++ r ∷ [] }) else none
worker_goes cfg stopped s = none

-- Whether the worker is in a `select` with a case for ctx.Done().
abbrev pub may_quit : Worker → Bool
may_quit idle = true
may_quit (got t) = false
may_quit (paused_with t) = true
may_quit (passed t) = false
may_quit (fetching t) = false
may_quit (holding r) = true
may_quit stopped = false

unfoldable pub worker_quits : Worker → Shared → Option (Worker × Shared)
worker_quits w s = if may_quit w && s.cancelled then some (stopped, s) else none

-- The result of a fetch, with the depth of its task.
abbrev pub result_of : UrlLib → Settings → Task → Err ⊎ FetchResponse → CrawlResult
result_of lib cfg t answer = record (fetch_one lib cfg t.url answer) { depth = some t.depth }

unfoldable pub worker_answered :
    UrlLib → Settings → Err ⊎ FetchResponse → Worker → Shared → Option (Worker × Shared)
worker_answered lib cfg answer idle s = none
worker_answered lib cfg answer (got t) s = none
worker_answered lib cfg answer (paused_with t) s = none
worker_answered lib cfg answer (passed t) s = none
worker_answered lib cfg answer (fetching t) s = some (holding (result_of lib cfg t answer), s)
worker_answered lib cfg answer (holding r) s = none
worker_answered lib cfg answer stopped s = none

abbrev pub is_stopped : Worker → Bool
is_stopped idle = false
is_stopped (got t) = false
is_stopped (paused_with t) = false
is_stopped (passed t) = false
is_stopped (fetching t) = false
is_stopped (holding r) = false
is_stopped stopped = true

abbrev pub all_stopped : List Worker → Bool
all_stopped [] = true
all_stopped (w ∷ ws) = is_stopped w && all_stopped ws

-- close(queue) and the return, whose deferred call cancels.
unfoldable pub return_from_run : Bool → Shared → Shared
return_from_run failed s = record s { closed = true; cancelled = true; main = returned failed }

-- The end of the loop over the start URLs.
unfoldable pub end_seeding : Shared → Shared
end_seeding s =
    if leb s.seeded 0
    then record s { closed = true; main = awaiting_none }
    else record s { in_flight = s.seeded; main = receiving }

abbrev pub after_seen : Main → Main → Shared → Bool × List String → Shared
after_seen past taken s (false, seen) = record s { main = past }
after_seen past taken s (true, seen) = record s { seen = seen; main = taken }

-- A start URL or a link that is allowed and new is sent next; any other is passed over.
unfoldable pub consider : UrlLib → Settings → String → Main → Main → Shared → Shared
consider lib cfg u past taken s =
    let marked = after_seen past taken s (mark_seen u s.seen) in
    if url_allowed lib cfg u then marked else record s { main = past }

abbrev pub depth_of : Option ℕ → ℕ
depth_of none = 0
depth_of (some d) = d

-- The loop over the results: `range` ends when `out` is closed, which it is when every worker stopped.
unfoldable pub receive_result : Bool → Shared → List CrawlResult → Option Shared
unfolding return_from_run
receive_result ended s (r ∷ out) = some (record s {
  out = out;
  in_flight = s.in_flight - 1;
  main = handling (suc (depth_of r.depth)) r.discovered;
})
receive_result ended s [] = if ended then some (return_from_run s.cancelled s) else none

-- The end of the loop over the links of a page.
unfoldable pub end_page : Shared → Shared
unfolding return_from_run
end_page s =
    if leb s.in_flight 0 then return_from_run s.cancelled s else record s { main = receiving }

unfoldable pub main_step : UrlLib → Settings → Bool → Main → Shared → Option Shared
unfolding end_seeding consider receive_result end_page return_from_run
main_step lib cfg ended (seeding []) s = some (end_seeding s)
main_step lib cfg ended (seeding (u ∷ us)) s =
    some (consider lib cfg u (seeding us) (seed_send (record { url = u; depth = 0 }) us) s)
main_step lib cfg ended (seed_send t us) s =
    if queue_room cfg s
    then some (record s { queue = s.queue ++ t ∷ []; seeded = suc s.seeded; main = seeding us })
    else none
main_step lib cfg ended awaiting_none s = if ended then some (return_from_run false s) else none
main_step lib cfg ended receiving s = receive_result ended s s.out
main_step lib cfg ended (handling d []) s = some (end_page s)
main_step lib cfg ended (handling d (u ∷ us)) s =
    let sent =
      consider lib cfg u (handling d us) (link_send (record { url = u; depth = d }) d us) s in
    some (if ltb cfg.max_depth d then record s { main = handling d us } else sent)
main_step lib cfg ended (link_send t d us) s =
    if queue_room cfg s
    then some
        (record s { queue = s.queue ++ t ∷ []; in_flight = suc s.in_flight; main = handling d us })
    else none
main_step lib cfg ended (returned failed) s = none

abbrev pub main_skip : Main → Shared → Option Shared
main_skip (seeding us) s = none
main_skip (seed_send t us) s = none
main_skip awaiting_none s = none
main_skip receiving s = none
main_skip (handling d us) s = none
main_skip (link_send t d us) s =
    if s.cancelled then some (record s { main = handling d us }) else none
main_skip (returned failed) s = none

module _ (lib : UrlLib) (cfg : Settings) where
  abbrev pub worker_does : WorkerAction → Worker → Shared → Option (Worker × Shared)
  worker_does goes w s = worker_goes cfg w s
  worker_does quits w s = worker_quits w s
  worker_does (answered a) w s = worker_answered lib cfg a w s

  abbrev pub put_worker : ℕ → List Worker → Option (Worker × Shared) → Option Crawl
  put_worker i ws none = none
  put_worker i ws (some (w, s)) = some (record { shared = s; workers = set_elem i w ws })

  abbrev pub on_worker : ℕ → WorkerAction → Crawl → Option Worker → Option Crawl
  on_worker i a c none = none
  on_worker i a c (some w) = put_worker i c.workers (worker_does a w c.shared)

  abbrev pub put_shared : Crawl → Option Shared → Option Crawl
  put_shared c none = none
  put_shared c (some s) = some (record c { shared = s })

  unfoldable pub step : Action → Crawl → Option Crawl
  unfolding worker_goes worker_quits worker_answered main_step
  step (worker i a) c = on_worker i a c (get_elem? c.workers i)
  step main_goes c = put_shared c (main_step lib cfg (all_stopped c.workers) c.shared.main c.shared)
  step main_skips c = put_shared c (main_skip c.shared.main c.shared)
  step pauses c = some (record c { shared = record c.shared { paused = true } })
  step resumes c = some (record c { shared = record c.shared { paused = false } })
  step caller_cancels c = some (record c { shared = record c.shared { cancelled = true } })

  -- A sequence of steps; `none` when one of them is not possible.
  unfoldable pub run : List Action → Crawl → Option Crawl
  unfolding step
  run [] c = some c
  run (a ∷ as') c = elim (step a c) [ none ↦ none | some c' ↦ run as' c' ]

abbrev pub idle_workers : ℕ → List Worker
idle_workers zero = []
idle_workers (suc n) = idle ∷ idle_workers n

-- Run when it begins, with the URLs that are seen already and whether the spider is paused.
unfoldable pub start : Settings → List String → Bool → Crawl
start cfg seen paused = record {
  shared = record {
    queue = [];
    closed = false;
    out = [];
    budget = cfg.max_pages;
    seen = seen;
    cancelled = false;
    paused = paused;
    main = seeding cfg.start_urls;
    seeded = 0;
    in_flight = 0;
    fetched = [];
  };
  workers = idle_workers cfg.concurrency;
}
