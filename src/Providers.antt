-- ===== src/Providers.antt =====
-- provider.go: the provider over the client, and the paid ones over HTTP. The three paid providers
-- differ in the request they make and in the payload they read. What they take from the packages
-- net/url, net/http, fmt and encoding/json is the record `Formats`.
pub mod Replies
use go_ddgs_stealth.Common.{
  ℕ, String, Bool, true, false, not, Option, none, some, List, [], ◌∷◌, ◌++◌, ◌⊎◌, inl, inr, ltb,
  leb, ◌==◌, if◌then◌else◌,
}
use go_ddgs_stealth.Common.Int.{ℤ, pos, pos_part, or_default}
use go_ddgs_stealth.Common.Text.{is_empty, trim_space, status_text}
use go_ddgs_stealth.Errors.{
  Err, ErrorKind, SearchError, provider_unavailable, rate_limited, parse, internal, invalid_input,
  no_results, err_no_results, opaque, to_err, classify,
}
use go_ddgs_stealth.Engine.{SearchRequest, SearchResult, Answer, Provider}
use go_ddgs_stealth.Client.{
  Request, Sent, no_reply, replied, HttpReply, Env, Ctx, Result, ok, err, crash, out_of_fuel,
}
use go_ddgs_stealth.Client.Search.{SearchOptions, Library, search_results, ◌^^◌}

-- toSearchOptions
unfoldable pub to_search_options : SearchRequest → SearchOptions
to_search_options r = record {
  max_results = r.max_results;
  region = r.region;
  safe_search = r.safe_search;
  time_range = r.time_range;
  offset = r.offset;
}

abbrev pub search_fault : String → ErrorKind → Bool → Err → Err
search_fault provider kind temporary cause =
    to_err record {
      kind = kind;
      provider = provider;
      temporary = temporary;
      cause = cause;
      details = [];
    }

-- DDGProvider.Search, for a provider with a client or without one.
module _ {W : Type 0} (env : Env W) (lib : Library) where
  abbrev pub ddg_answer : Result (List SearchResult) → Result (List SearchResult)
  ddg_answer (ok []) = err (search_fault "ddg" no_results false err_no_results)
  ddg_answer (ok (r ∷ rs)) = ok (r ∷ rs)
  ddg_answer (err e) = err (to_err (classify "ddg" e))
  ddg_answer crash = crash
  ddg_answer out_of_fuel = out_of_fuel

  unfoldable pub ddg_search : ℕ → Bool → SearchRequest → Ctx W → Result (List SearchResult) × Ctx W
  ddg_search fuel has_client req c =
      let (answer, c1) = search_results env lib fuel req.query (to_search_options req) c in
      if not has_client
      then (err (search_fault "ddg" provider_unavailable false (opaque "nil ddg client")), c)
      else if is_empty (trim_space req.query)
      then (err (search_fault "ddg" invalid_input false (opaque "query is required")), c)
      else (ddg_answer answer, c1)

-- An entry of a payload: title, address, and text.
pub record Item : Type 0 where
  pub title : String
  pub link : String
  pub text : String

pub record Formats : Type 0 where
  -- url.Values.Encode
  pub encode : List (String × String) → String
  -- %d and %q
  pub decimal : ℤ → String
  pub quote : String → String
  -- http.NewRequestWithContext: the error for a URL, if it gives one.
  pub refuses : String → Option Err
  -- json.Unmarshal into the payload of each provider
  pub brave_items : String → Err ⊎ List Item
  pub tavily_items : String → Err ⊎ List Item
  pub serpapi_items : String → Err ⊎ List Item

-- The loop over the entries of a payload.
unfoldable pub results_of : List Item → List SearchResult
results_of [] = []
results_of (i ∷ is) =
    let rest = results_of is in
    if is_empty (trim_space i.link)
    then rest
    else record { title = trim_space i.title; url = trim_space i.link; snippet = trim_space i.text }
      ∷ rest

-- The error that the status of a reply stands for.
unfoldable pub status_fault : String → ℕ → String → Option Err
status_fault provider n body =
    let http = "http " ^^ status_text n in
    if n == 429
    then some (search_fault provider rate_limited true (opaque http))
    else if leb 500 n
    then some (search_fault provider provider_unavailable true (opaque http))
    else if leb 400 n
    then some (
        search_fault provider provider_unavailable false (opaque (http ^^ ": " ^^ trim_space body)))
    else none

abbrev pub none_or : String → List SearchResult → Answer
none_or provider [] = ([], some (search_fault provider no_results false err_no_results))
none_or provider (r ∷ rs) = (r ∷ rs, none)

unfoldable pub read_payload : String → Err ⊎ List Item → Answer
unfolding results_of
read_payload provider (inl e) = ([], some (search_fault provider parse true e))
read_payload provider (inr items) = none_or provider (results_of items)

-- The answer, unless there is an error before it.
abbrev pub unless : Option Err → Answer → Answer
unless (some e) a = ([], some e)
unless none a = a

unfoldable pub after_do : String → (String → Err ⊎ List Item) → Sent → Answer
unfolding status_fault read_payload
after_do provider items (no_reply e) =
    ([], some (search_fault provider provider_unavailable true (opaque e)))
after_do provider items (replied r) =
    unless (status_fault provider r.status_code r.body) (read_payload provider (items r.body))

-- A paid provider, from its name and key, the request that it makes and how it reads a payload.
pub record Paid : Type 0 where
  pub name : String
  pub api_key : String
  pub request : SearchRequest → Request
  pub items : String → Err ⊎ List Item

abbrev pub paid_enabled : Paid → Bool
paid_enabled p = not (is_empty p.api_key)

-- Where http.NewRequestWithContext gives an error, nothing is sent.
abbrev pub refused_or {ℓ} : {W : Type ℓ} → String → W → Option Err → Answer × W → Answer × W
refused_or name w (some e) done = (([], some (search_fault name internal false e)), w)
refused_or name w none done = done

unfoldable pub paid_search {ℓ} :
    {W : Type ℓ} → Formats → (Request → W → Sent × W) → Paid → SearchRequest → W → Answer × W
unfolding after_do
paid_search lib send p req w =
    let (sent, w1) = send (p.request req) w in
    if paid_enabled p
    then refused_or p.name w (lib.refuses (p.request req).url) (after_do p.name p.items sent, w1)
    else (
      ([], some (search_fault p.name provider_unavailable false (opaque "provider disabled"))),
      w,
    )

-- `if req.MaxResults > 0 { q.Set("count", …) }`
abbrev count_pair : Formats → ℤ → List (String × String)
count_pair lib n = if ltb 0 (pos_part n) then ("count", lib.decimal n) ∷ [] else []

-- NewBraveProvider and its request
unfoldable pub brave : Formats → String → Paid
brave lib key = record {
  name = "brave";
  api_key = trim_space key;
  request = λ req. record {
    method = "GET";
    url =
        "https://api.search.brave.com/res/v1/web/search?"
        ^^ lib.encode (("q", req.query) ∷ count_pair lib req.max_results);
    headers = ("Accept", "application/json") ∷ ("X-Subscription-Token", trim_space key) ∷ [];
    body = "";
  };
  items = lib.brave_items;
}

-- NewTavilyProvider and its request
unfoldable pub tavily : Formats → String → Paid
tavily lib key = record {
  name = "tavily";
  api_key = trim_space key;
  request = λ req. record {
    method = "POST";
    url = "https://api.tavily.com/search";
    headers = ("Content-Type", "application/json") ∷ ("Accept", "application/json") ∷ [];
    body =
        "{\"api_key\":"
        ^^ lib.quote (trim_space key)
        ^^ ",\"query\":"
        ^^ lib.quote req.query
        ^^ ",\"max_results\":"
        ^^ lib.decimal (pos (or_default req.max_results 10))
        ^^ "}";
  };
  items = lib.tavily_items;
}

-- NewSerpAPIProvider and its request
unfoldable pub serpapi : Formats → String → Paid
serpapi lib key = record {
  name = "serpapi";
  api_key = trim_space key;
  request = λ req. record {
    method = "GET";
    url =
        "https://serpapi.com/search.json?"
        ^^ lib.encode
            (("engine", "duckduckgo") ∷ ("q", req.query) ∷ ("api_key", trim_space key) ∷ []);
    headers = [];
    body = "";
  };
  items = lib.serpapi_items;
}

-- The Search of each paid provider, with its key.
module _ {ℓ} {W : Type ℓ} (lib : Formats) (send : Request → W → Sent × W) (key : String) where
  unfoldable pub brave_search : SearchRequest → W → Answer × W
  unfolding paid_search brave
  brave_search req w = paid_search lib send (brave lib key) req w

  unfoldable pub tavily_search : SearchRequest → W → Answer × W
  unfolding paid_search tavily
  tavily_search req w = paid_search lib send (tavily lib key) req w

  unfoldable pub serpapi_search : SearchRequest → W → Answer × W
  unfolding paid_search serpapi
  serpapi_search req w = paid_search lib send (serpapi lib key) req w
