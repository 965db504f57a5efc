-- ===== src/Examples/Crawls.antt =====
-- Crawls of one worker, and their runs.
use go_ddgs_stealth.Common.{
  ℕ, zero, suc, ◌+◌, ◌≤◌, ◌≡◌, refl, String, true, false, inr, none, some, List, [], ◌∷◌, ◌++◌,
  arith, All, total, length,
}
use go_ddgs_stealth.Common.Dict
use go_ddgs_stealth.Common.Dict.{Dict}
use go_ddgs_stealth.Common.{str_eq, if◌then◌else◌}
use go_ddgs_stealth.Breaker.{Time}
use go_ddgs_stealth.Fetcher.{FetchResponse}
use go_ddgs_stealth.Spider.{
  ParseFunc, Settings, UrlLib, has, wait_domain, mark_seen, url_allowed, host_of, fetch_one,
  normalize_urls, normalize_link,
}
use go_ddgs_stealth.Common.Text.{trim_space, trim_left, trim_right, is_space, lower, take}
use go_ddgs_stealth.Spider.Crawl.{
  seed_send, returned, Crawl, goes, answered, Action, worker, main_goes, caller_cancels, step, run,
  start, worker_goes, worker_quits, worker_answered, main_step, end_seeding, consider,
  receive_result, end_page, return_from_run,
}
use go_ddgs_stealth.Spider.Frontier.{Moves, bit}
use go_ddgs_stealth.Spider.Refines.{hit, frontier_of}
use go_ddgs_stealth.Spider.Once.{run-Moves, run-fetched-once, run-fetched-few}
use go_ddgs_stealth.Spider.Accounts.{unfinished}
use go_ddgs_stealth.Spider.Allowed.{run-fetched-allowed}
use go_ddgs_stealth.Spider.Fetchable.{Fetchable}
use go_ddgs_stealth.Spider.Done.{run-nil_complete}
use go_ddgs_stealth.Spider.Pace.{wait_domain-spaced}
use go_ddgs_stealth.Spider.Wedge.{IsWedged, run-wedged}

-- Every text is an absolute URL of one host.
abbrev any_url : UrlLib
any_url = record {
  U = String;
  parse = λ raw. some raw;
  host = λ u. "go.dev";
  scheme = λ u. "https";
  is_abs = λ u. true;
  resolve_reference = λ base u. u;
  text = λ u. u;
}

-- The start page links to itself and to one other page.
abbrev two_links : ParseFunc
two_links res body = inr ("https://go.dev/" ∷ "https://go.dev/doc" ∷ [])

abbrev small : List String → Settings
small urls = record {
  start_urls = urls;
  concurrency = 1;
  domain_min_interval = 0;
  max_pages = 5;
  max_depth = 1;
  allow_hosts = [];
  deny_hosts = [];
  parse_page = some two_links;
}

abbrev page : FetchResponse
page = record {
  status_code = 200;
  headers = [];
  body = "";
  final_url = "https://go.dev/";
  duration = 0;
  fetcher = "http";
}

abbrev times : ℕ → List Action → List Action
times zero as' = []
times (suc n) as' = as' ++ times n as'

-- The worker takes a task and fetches the page.
abbrev fetches_page : List Action
fetches_page = times 3 (worker 0 goes ∷ []) ++ worker 0 (answered (inr page)) ∷ []

abbrev reached : Settings → List Action → Crawl
reached cfg as' = elim (run any_url cfg as' (start cfg [] false)) [
  | none ↦ start cfg [] false
  | some c ↦ c
]

abbrev two_pages : Settings
two_pages = small ("https://go.dev/" ∷ [])

-- The start page is fetched, its new link is sent and fetched, and Run returns.
abbrev whole_crawl : List Action
whole_crawl =
    times 3 (main_goes ∷ [])
    ++ fetches_page
    ++ worker 0 goes ∷ times 5 (main_goes ∷ [])
    ++ fetches_page
    ++ worker 0 goes ∷ times 4 (main_goes ∷ [])

-- More start URLs than the channels and the worker hold.
abbrev many_pages : Settings
many_pages = small (
    "https://go.dev/1" ∷ "https://go.dev/2" ∷ "https://go.dev/3" ∷ "https://go.dev/4"
    ∷ "https://go.dev/5" ∷ "https://go.dev/6" ∷ "https://go.dev/7" ∷ "https://go.dev/8"
    ∷ "https://go.dev/9" ∷ "https://go.dev/10" ∷ "https://go.dev/11" ∷ "https://go.dev/12"
    ∷ "https://go.dev/13" ∷ "https://go.dev/14" ∷ [])

abbrev fills_channels : List Action
fills_channels =
    times 16 (main_goes ∷ [])
    ++ times 4 (fetches_page ++ worker 0 goes ∷ main_goes ∷ main_goes ∷ [])
    ++ fetches_page
    ++ times 3 (main_goes ∷ [])

all_steps : Unit {0}
unfolding run step start worker_goes worker_quits worker_answered main_step end_seeding consider
    receive_result end_page return_from_run mark_seen url_allowed host_of fetch_one normalize_urls
    normalize_link trim_space trim_left trim_right is_space lower take
all_steps = tt

whole_crawl_runs :
    run any_url two_pages whole_crawl (start two_pages [] false)
    ≡ some (reached two_pages whole_crawl)
unfolding all_steps
whole_crawl_runs = refl

whole_crawl_returns : (reached two_pages whole_crawl).shared.main ≡ returned false
unfolding all_steps
whole_crawl_returns = refl

fills_channels_wedges :
    IsWedged any_url many_pages
      (seed_send (record { url = "https://go.dev/14"; depth = 0 }) [])
      (reached many_pages fills_channels)
unfolding all_steps
fills_channels_wedges = record {
  main = refl;
  waits = tt;
  full_queue = refl;
  full_out = refl;
  workers = (tt, tt);
}

run-Moves_example :
    Moves (frontier_of (start two_pages [] false)) (frontier_of (reached two_pages whole_crawl))
run-Moves_example =
    run-Moves any_url two_pages whole_crawl (start two_pages [] false)
      (reached two_pages whole_crawl) whole_crawl_runs

run-fetched-once_example :
    total (hit "https://go.dev/doc") (reached two_pages whole_crawl).shared.fetched
      + bit (has "https://go.dev/doc" [])
    ≤ 1
run-fetched-once_example =
    run-fetched-once any_url two_pages [] false whole_crawl (reached two_pages whole_crawl)
      "https://go.dev/doc" whole_crawl_runs

run-fetched-few_example : length (reached two_pages whole_crawl).shared.fetched ≤ 5
run-fetched-few_example =
    run-fetched-few any_url two_pages [] false whole_crawl (reached two_pages whole_crawl)
      whole_crawl_runs

run-fetched-allowed_example :
    All (Fetchable any_url two_pages) (reached two_pages whole_crawl).shared.fetched
run-fetched-allowed_example =
    run-fetched-allowed any_url two_pages whole_crawl [] false (reached two_pages whole_crawl)
      whole_crawl_runs

whole_crawl_seeds : (reached two_pages whole_crawl).shared.seeded ≡ 1
unfolding all_steps
whole_crawl_seeds = refl

run-nil_complete_example :
    (unfinished (reached two_pages whole_crawl).shared (reached two_pages whole_crawl).workers ≡ 0)
    × (total (hit "https://go.dev/doc") (reached two_pages whole_crawl).shared.fetched
          + bit (has "https://go.dev/doc" [])
        ≡ bit (has "https://go.dev/doc" (reached two_pages whole_crawl).shared.seen))
run-nil_complete_example =
    run-nil_complete any_url two_pages [] false whole_crawl (reached two_pages whole_crawl)
      "https://go.dev/doc" (omega arith) whole_crawl_runs whole_crawl_returns
      (omega (arith, whole_crawl_seeds))

abbrev after_cancel : Crawl
after_cancel =
    let c = reached many_pages fills_channels in
    record c { shared = record c.shared { cancelled = true } }

run-wedged_example :
    after_cancel.shared.main ≡ seed_send (record { url = "https://go.dev/14"; depth = 0 }) []
unfolding run step
run-wedged_example =
    run-wedged any_url many_pages (seed_send (record { url = "https://go.dev/14"; depth = 0 }) [])
      (caller_cancels ∷ []) (reached many_pages fills_channels) after_cancel fills_channels_wedges
      (tt, tt) refl

abbrev hits_before : Dict Time
hits_before = ("go.dev", 100) ∷ []

abbrev paced : Settings
paced = record (small []) { domain_min_interval = 350 }

wait_domain-spaced_example :
    (100 + 350 ≤ 450)
    × (Dict.lookup "pkg.go.dev"
          (wait_domain any_url paced hits_before "https://go.dev/doc" 150 450).1
        ≡ (if str_eq "go.dev" "pkg.go.dev" then some 450 else Dict.lookup "pkg.go.dev" hits_before))
unfolding wait_domain host_of lower take Dict.lookup
wait_domain-spaced_example =
    wait_domain-spaced any_url paced hits_before "https://go.dev/doc" "go.dev" "pkg.go.dev" 100 150
      450 refl refl (omega arith) (omega arith)
