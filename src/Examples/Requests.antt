-- ===== src/Examples/Requests.antt =====
-- Examples of the client's request loop.
use go_ddgs_stealth.Common.{
  ℕ, ◌+◌, ◌*◌, ◌/◌, ◌≤◌, ◌≡◌, refl, String, true, false, Option, none, some, [], ◌∷◌, arith,
}
use go_ddgs_stealth.Common.Int.{pos}
use go_ddgs_stealth.Breaker.{CircuitBreaker}
use go_ddgs_stealth.Errors.{header_get}
use go_ddgs_stealth.Solver.{ChallengeSolver}
use go_ddgs_stealth.Session.{empty_heap}
use go_ddgs_stealth.AntiBot.{AntiBotState, new_anti_bot_config}
use go_ddgs_stealth.Client.{
  Request, HttpReply, replied, Env, Client, Ctx, Result, ok, sends, is_blocked_status,
  blocked_detector,
}
use go_ddgs_stealth.Client.Loop.{
  Builder, do_with_retry, retry_from, turn, build_and_send, send_built, on_sent, on_reply,
  judge_reply, exchange, route, take_turn, wait_for_turn, check_circuit, after_success,
}
use go_ddgs_stealth.Common.{inr, length}
use go_ddgs_stealth.Common.Int.{or_default}
use go_ddgs_stealth.Common.Text.{trim_space, trim_left, trim_right, is_space}
use go_ddgs_stealth.Common.Dict
use go_ddgs_stealth.Engine.{safe_moderate}
use go_ddgs_stealth.Client.Search.{
  SearchOptions, RawResult, Library, search_results, warm_up, search_djs, fetch, djs_builder,
  get_vqd, new_request, apply_headers, extract_vqd, after_vqd, quoted, bare, run, parse_djs_results,
  from_open, to_close, after_djs, search_pages,
}
use go_ddgs_stealth.Client.Volume.{search_results-Sends}
use go_ddgs_stealth.Client.Answers.{Within, search_results-Within, search_pages-length}
use go_ddgs_stealth.Client.Settings.{settings, sent_in}
use go_ddgs_stealth.Client.Bounded.{IsModest, do_with_retry-returns}
use go_ddgs_stealth.Client.Success.{Delivered, do_with_retry-Delivered}
use go_ddgs_stealth.Client.Unbounded.{same, IsStuck, do_with_retry-never_returns}

loop : Unit {0}
unfolding do_with_retry retry_from turn build_and_send send_built on_sent on_reply judge_reply
    exchange route take_turn wait_for_turn check_circuit after_success is_blocked_status
    blocked_detector
loop = tt

abbrev reply_of : ℕ → HttpReply
reply_of n = record { status_code = n; header = []; body = "page"; read_error = none }

-- The world is the time. The server answers each request with one status.
abbrev pub server : ℕ → Env ℕ
server n = record {
  now = λ w. (w, w + 1);
  send = λ req w. (replied (reply_of n), w + 5);
  sleep = λ d w. (true, w + d);
  gaussian = λ m d w. (pos m, w);
  random = λ w. (w, w);
  jittered = λ d w. (pos d, w);
  until_date = λ w s. 0;
  floats = record { grow = λ d. d * 2; shrink = λ d. d / 2; stddev = λ d. d / 4 };
}

abbrev pub plain : Option (AntiBotState ℕ) → Client ℕ
plain st = record {
  http = record { jar = none; routed = false; timeout = 15 };
  ddg_base = "https://d";
  links_base = "https://l";
  html_base = "https://h";
  ua = "ua";
  referer = "https://d/";
  headers = [];
  retry_max = 2;
  base_delay = 10;
  vqd_ttl = 100;
  min_gap = pos 0;
  no_fallback = false;
  blocked = 403 ∷ 429 ∷ [];
  blocked_re = [];
  has_on_blocked = false;
  has_on_circuit = true;
  vqd_cache = [];
  last_req = 0;
  anti_bot = st;
}

abbrev pub start : Option (AntiBotState ℕ) → Ctx ℕ
start st = record { client = plain st; heap = empty_heap; world = 20; trace = [] }

abbrev home : Request
home = record { method = "GET"; url = "https://d/"; headers = []; body = "" }

abbrev just : (n : ℕ) → Builder (server n)
just n c = (ok home, c)

just-IsModest : (n : ℕ) → IsModest (server n) (settings (start none)) (just n) 0
just-IsModest n = record { keeps = λ c e. e; adds = λ c e. omega arith }

do_with_retry-returns_example :
    (out : Result String × Ctx ℕ) × ((do_with_retry (server 403) 2 (just 403) (start none)
        ≡ some out)
      × (sent_in out.1.trace ≤ sent_in (start none).trace + 2 * (1 + 0)))
do_with_retry-returns_example =
    do_with_retry-returns (server 403) (just 403) 0 2 (start none) (just-IsModest 403) refl
      (omega arith)

abbrev served : Ctx ℕ
served = record (start none) { world = 25; trace = sends home ∷ [] }

do_with_retry-Delivered_example : Delivered (server 200) (settings (start none)) "page"
unfolding loop
do_with_retry-Delivered_example =
    do_with_retry-Delivered (server 200) (just 200) 0 2 (start none) served "page"
      (just-IsModest 200) (omega arith) refl

abbrev solver : ChallengeSolver ℕ
solver = record {
  supports = λ b. true;
  solve = λ u i b w. ((some (record { cookies = []; user_agent = ""; token = "t" }), none), w + 1);
}

abbrev state : Option CircuitBreaker → AntiBotState ℕ
state circuit = record {
  cfg = new_anti_bot_config;
  proxy_pool = none;
  session = none;
  transport = none;
  rate_limit = none;
  solver = some (solver ∷ []);
  circuit = circuit;
}

abbrev burned : CircuitBreaker
burned = record { threshold = 5; cooldown = 60; consecutive = 5; open_until = 70 }

start-IsStuck : IsStuck (reply_of 403) solver [] (start (some (state none)))
unfolding is_blocked_status
start-IsStuck = record { free = refl; listed = refl; solving = refl }

do_with_retry-never_returns_example :
    do_with_retry (server 403) 100 (same (server 403) home) (start (some (state none))) ≡ none
do_with_retry-never_returns_example =
    do_with_retry-never_returns (server 403) home (reply_of 403) solver [] (λ d w. refl)
      (λ q w. refl) refl (λ b. refl) (λ u i b w. refl) 100 (start (some (state none))) start-IsStuck
      (omega arith)

abbrev found : RawResult
found = record { title = " T "; url = "https://x"; body = "" }

abbrev library : Library
library = record {
  encode = λ ps. "q";
  itoa = λ n. "0";
  refuses = λ url. none;
  unmarshal = λ payload. inr (found ∷ found ∷ []);
  anchors = λ body. [];
  strip_tags = λ s. s;
  unescape = λ s. s;
}

abbrev talking : Env ℕ
talking = record (server 200) {
  send = λ req w. (replied (record (reply_of 200) { body = "vqd='4-1'& [{}]" }), w + 5);
}

abbrev options : SearchOptions
options = record {
  max_results = pos 1;
  region = "";
  safe_search = safe_moderate;
  time_range = "";
  offset = pos 0;
}

searching : Unit {0}
unfolding loop search_results warm_up search_djs fetch djs_builder get_vqd new_request apply_headers
    extract_vqd after_vqd quoted bare run parse_djs_results from_open to_close after_djs trim_space
    trim_left trim_right is_space Dict.lookup Dict.insert header_get
searching = tt

search_results-Within_example :
    Within (or_default (pos 1) 10) (record { title = "T"; url = "https://x"; snippet = "" } ∷ [])
unfolding searching
search_results-Within_example =
    search_results-Within talking library 2 "go" options (start none)
      (record { title = "T"; url = "https://x"; snippet = "" } ∷ []) refl

search_pages-length_example :
    length (search_pages talking library 2 "go" (pos 5) (pos 3) options (start none)).0.0
    ≤ or_default (pos 3) 1 * or_default (pos 5) 30
search_pages-length_example =
    search_pages-length talking library 2 "go" (pos 5) (pos 3) options (start none)

search_results-Sends_example :
    sent_in (search_results talking library 2 "go" options (start none)).1.trace
    ≤ sent_in (start none).trace + (2 + 2 * (1 + 2) + 2)
search_results-Sends_example =
    search_results-Sends talking library 2 "go" options (start none) refl (omega arith)
