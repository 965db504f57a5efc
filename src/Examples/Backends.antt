-- ===== src/Examples/Backends.antt =====
-- Examples of providers, of the configuration, and of the HTTP fetcher.
use go_ddgs_stealth.Common.{
  ℕ, suc, ◌+◌, ◌≤◌, ◌≡◌, String, true, ◌||◌, ◌&&◌, inr, none, some, [], ◌∷◌, str_eq,
}
use go_ddgs_stealth.Common.Int.{pos}
use go_ddgs_stealth.Client.{Request, Sent, replied}
use go_ddgs_stealth.Client.Settings.{sent_in}
use go_ddgs_stealth.Engine.{SearchRequest, safe_moderate}
use go_ddgs_stealth.Providers.{Formats, brave_search, tavily_search, serpapi_search}
use go_ddgs_stealth.Providers.Replies.{IsReply, paid_searches-IsReply}
use go_ddgs_stealth.Config.{order_providers}
use go_ddgs_stealth.Config.Order.{occurs, order_providers-occurs, provider_names}
use go_ddgs_stealth.Spider.{has}
use go_ddgs_stealth.Spider.Frontier.{bit}
use go_ddgs_stealth.AntiBot.{new_anti_bot_config}
use go_ddgs_stealth.Fetcher.{FetchRequest}
use go_ddgs_stealth.Fetcher.Http.{FetchLib, Stealth, fetch_http}
use go_ddgs_stealth.Fetcher.Clean.{IsClean, fetch_http-IsClean}
use go_ddgs_stealth.Fetcher.Volume.{sent-fetch_http}
use go_ddgs_stealth.Examples.Requests.{server, start}

abbrev formats : Formats
formats = record {
  encode = λ ps. "q";
  decimal = λ n. "5";
  quote = λ s. s;
  refuses = λ url. none;
  brave_items = λ body. inr (record { title = "Go"; link = "https://go.dev"; text = "" } ∷ []);
  tavily_items = λ body. inr [];
  serpapi_items = λ body. inr [];
}

abbrev asking : SearchRequest
asking = record {
  query = "go";
  max_results = pos 5;
  region = "";
  safe_search = safe_moderate;
  time_range = "";
  offset = pos 0;
}

abbrev replies : Request → ℕ → Sent × ℕ
replies req w =
    (replied (record { status_code = 200; header = []; body = "{}"; read_error = none }), suc w)

paid_searches-IsReply_example :
    IsReply "brave" (brave_search formats replies "key" asking 0).0
    × IsReply "tavily" (tavily_search formats replies "key" asking 0).0
    × IsReply "serpapi" (serpapi_search formats replies "key" asking 0).0
paid_searches-IsReply_example = paid_searches-IsReply formats replies "key" asking 0

order_providers-occurs_example :
    occurs {A = ℕ} "brave" (order_providers 1 2 3 4 ("brave" ∷ "bing" ∷ "brave" ∷ []))
    ≡ bit (
        str_eq "ddg" "brave"
        || has "brave" provider_names && has "brave" ("brave" ∷ "bing" ∷ "brave" ∷ []))
order_providers-occurs_example =
    order_providers-occurs 1 2 3 4 ("brave" ∷ "bing" ∷ "brave" ∷ []) "brave"

abbrev fetch_lib : FetchLib
fetch_lib = record {
  U = String;
  parse = λ raw. some raw;
  scheme = λ u. "https";
  host = λ u. "go.dev";
  refuses = λ method url. none;
  landed = λ req r. none;
}

abbrev stealth : Stealth ℕ
stealth = record {
  config = new_anti_bot_config;
  http_client = none;
  headless = true;
  stealth_level = "strong";
  user_agent = "ua";
  extra_headers = [];
  request_timeout = 20;
  max_body_bytes = 4096;
}

abbrev front_page : FetchRequest
front_page = record { method = "get"; url = "https://go.dev/"; headers = []; body = "" }

fetch_http-IsClean_example :
    IsClean (fetch_http (server 200) fetch_lib stealth front_page (start none)).0
fetch_http-IsClean_example =
    fetch_http-IsClean (server 200) fetch_lib stealth front_page (start none)

sent-fetch_http_example :
    sent_in (fetch_http (server 403) fetch_lib stealth front_page (start none)).1.trace
    ≤ sent_in (start none).trace + 6
sent-fetch_http_example = sent-fetch_http (server 403) fetch_lib stealth front_page (start none)
