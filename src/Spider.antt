-- ===== src/Spider.antt =====
-- spider.go: the configuration of a crawl, the tests that a URL passes, and the fetch of one page.
-- `UrlLib` is what the spider takes from the package net/url. The texts of errors are not modelled,
-- only that there is one; a panic in the caller's `Parse` is not modelled either.
pub mod Crawl
pub mod Frontier
pub mod Refines
mod Runs
pub mod Fetchable
mod Supply
pub mod Once
pub mod Accounts
mod Counted
mod Settled
mod Returns
pub mod Done
pub mod Wedge
mod Cancels
pub mod Pace
pub mod Allowed
use go_ddgs_stealth.Common.{
  ℕ, zero, suc, ◌+◌, ◌-◌, ◌*◌, String, Bool, true, false, not, ◌&&◌, ◌||◌, Option, none, some, List,
  [], ◌∷◌, ◌++◌, ◌⊎◌, inl, inr, ltb, leb, ◌==◌, if◌then◌else◌, str_eq,
}
use go_ddgs_stealth.Common.Int.{ℤ, or_default}
use go_ddgs_stealth.Common.Dict
use go_ddgs_stealth.Common.Dict.{Dict}
use go_ddgs_stealth.Common.Text.{is_empty, trim_space, lower}
use go_ddgs_stealth.Breaker.{Time}
use go_ddgs_stealth.Errors.{Err}
use go_ddgs_stealth.Fetcher.{FetchResponse}
use go_ddgs_stealth.AntiBot.{millisecond}

-- `depth` is the entry of that name in `Meta`, the only one that the spider makes. The time of the
-- fetch is left out.
pub record CrawlResult : Type 0 where
  pub url : String
  pub final_url : String
  pub status_code : ℕ
  pub discovered : List String
  pub fetcher : String
  pub error : Option Err
  pub depth : Option ℕ

-- Links found on a page, or an error.
abbrev pub ParseFunc : Type 0
ParseFunc = CrawlResult → String → Err ⊎ List String

pub record SpiderConfig : Type 0 where
  pub start_urls : List String
  pub concurrency : ℤ
  pub domain_min_interval : ℤ
  pub max_pages : ℤ
  pub max_depth : ℤ
  pub allow_hosts : List String
  pub deny_hosts : List String
  pub parse_page : Option ParseFunc

-- The settings after the defaults of `NewSpider`, and the normalized sets of hosts.
pub record Settings : Type 0 where
  pub start_urls : List String
  pub concurrency : ℕ
  pub domain_min_interval : ℕ
  pub max_pages : ℕ
  pub max_depth : ℕ
  pub allow_hosts : List String
  pub deny_hosts : List String
  pub parse_page : Option ParseFunc

pub record UrlLib : Type 1 where
  pub U : Type 0
  pub parse : String → Option U
  pub host : U → String
  pub scheme : U → String
  pub is_abs : U → Bool
  -- base.ResolveReference(u)
  pub resolve_reference : U → U → U
  pub text : U → String

abbrev pub has : String → List String → Bool
has key [] = false
has key (k ∷ ks) = str_eq k key || has key ks

unfoldable pub normalize_host_set : List String → List String
normalize_host_set [] = []
normalize_host_set (h ∷ hs) =
    let rest = normalize_host_set hs in
    let host = lower (trim_space h) in if is_empty host then rest else host ∷ rest

-- NewSpider; `none` is its error, for a missing fetcher or no start URL.
unfoldable pub new_spider : Bool → SpiderConfig → Option Settings
unfolding normalize_host_set
new_spider has_fetcher cfg = elim cfg.start_urls [
  | [] ↦ none
  | u ∷ us ↦
      let made : Settings = record {
        start_urls = cfg.start_urls;
        concurrency = or_default cfg.concurrency 4;
        domain_min_interval = or_default cfg.domain_min_interval (350 * millisecond);
        max_pages = or_default cfg.max_pages 200;
        max_depth = or_default cfg.max_depth 4;
        allow_hosts = normalize_host_set cfg.allow_hosts;
        deny_hosts = normalize_host_set cfg.deny_hosts;
        parse_page = cfg.parse_page;
      } in
      if has_fetcher then some made else none
]

abbrev is_nil : List String → Bool
is_nil [] = true
is_nil (x ∷ xs) = false

-- The lower-case host of a URL that parses to one with a host.
unfoldable pub host_of : (lib : UrlLib) → String → Option String
host_of lib raw = elim (lib.parse raw) [
  | none ↦ none
  | some u ↦ let h = lib.host u in if is_empty h then none else some (lower h)
]

abbrev host_allowed : Settings → String → Bool
host_allowed cfg h = (is_nil cfg.allow_hosts || has h cfg.allow_hosts) && not (has h cfg.deny_hosts)

unfoldable pub url_allowed : UrlLib → Settings → String → Bool
unfolding host_of
url_allowed lib cfg raw = elim (host_of lib raw) [ none ↦ false | some h ↦ host_allowed cfg h ]

-- Whether the URL is new; then its trimmed text is remembered.
unfoldable pub mark_seen : String → List String → Bool × List String
mark_seen raw seen =
    let key = trim_space raw in
    if is_empty key
    then (false, seen)
    else if has key seen
    then (false, seen)
    else (true, key ∷ seen)

abbrev absolute : (lib : UrlLib) → Option lib.U → lib.U → lib.U
absolute lib none u = u
absolute lib (some base) u = if lib.is_abs u then u else lib.resolve_reference base u

abbrev http_text : (lib : UrlLib) → lib.U → Option String
http_text lib u =
    if str_eq (lib.scheme u) "http" || str_eq (lib.scheme u) "https"
    then some (lib.text u)
    else none

-- A link in the absolute form in which it is crawled; `none` for one that is left out.
unfoldable pub normalize_link : (lib : UrlLib) → Option lib.U → String → Option String
normalize_link lib base link =
    let l = trim_space link in
    let parsed : Option String = elim (lib.parse l) [
      | none ↦ none
      | some u ↦ http_text lib (absolute lib base u)
    ] in
    if is_empty l then none else parsed

unfoldable pub normalize_urls : UrlLib → String → List String → List String
unfolding normalize_link
normalize_urls lib base [] = []
normalize_urls lib base (link ∷ links) =
    let rest = normalize_urls lib base links in
    elim (normalize_link lib (lib.parse base) link) [ none ↦ rest | some u ↦ u ∷ rest ]

abbrev parsed_page : UrlLib → CrawlResult → String → Err ⊎ List String → CrawlResult
parsed_page lib res final_url (inl e) = record res { error = some e }
parsed_page lib res final_url (inr links) = record res {
  discovered = normalize_urls lib final_url links;
}

-- fetchOne after waitDomain, with the fetcher's answer.
unfoldable pub fetch_one : UrlLib → Settings → String → Err ⊎ FetchResponse → CrawlResult
fetch_one lib cfg raw answer =
    let empty : CrawlResult = record {
      url = raw;
      final_url = "";
      status_code = 0;
      discovered = [];
      fetcher = "";
      error = none;
      depth = none;
    } in
    elim answer [
      | inl e ↦ record empty { error = some e }
      | inr fr ↦
          let res = record empty {
            status_code = fr.status_code;
            final_url = fr.final_url;
            fetcher = fr.fetcher;
          } in
          elim cfg.parse_page [
            | none ↦ res
            | some parse_page ↦ parsed_page lib res fr.final_url (parse_page res fr.body)
          ]
    ]

-- waitDomain: how long the caller sleeps under the lock, for `now` read before, and the table of the
-- latest hits with `later` read after.
unfoldable pub wait_domain : UrlLib → Settings → Dict Time → String → Time → Time → ℕ × Dict Time
unfolding host_of
wait_domain lib cfg hits raw now later = elim (host_of lib raw) [
  | none ↦ (0, hits)
  | some h ↦ elim (Dict.lookup h hits) [
    | none ↦ (0, Dict.insert h later hits)
    | some at ↦ (cfg.domain_min_interval - (now - at), Dict.insert h later hits)
  ]
]
