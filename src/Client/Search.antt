-- ===== src/Client/Search.antt =====
-- client.go: `Search`, `SearchPages`, and what they call.
-- `Library` holds what the methods take from the packages net/url, strconv, encoding/json, html and
-- regexp. Header names are canonical.
use go_ddgs_stealth.Common.{
  ℕ, zero, suc, ◌+◌, ◌*◌, String, Bool, true, false, not, ◌&&◌, ◌||◌, Option, none, some, List, [],
  ◌∷◌, ◌++◌, ◌⊎◌, inl, inr, ltb, ◌==◌, if◌then◌else◌, length,
}
use Prim.Native.Char.{code}
use Prim.Native.String
use go_ddgs_stealth.Common.Int.{ℤ, pos, ◌+ℤ◌, or_default}
use go_ddgs_stealth.Common.Dict
use go_ddgs_stealth.Common.Dict.{Dict}
use go_ddgs_stealth.Common.Text.{is_empty, trim_space, codes, begins_with, drop}
use go_ddgs_stealth.Breaker.{Time}
use go_ddgs_stealth.Errors.{
  Err, Header, header_get, opaque, wrapped, err_no_vqd, err_no_results, err_unexpected_body,
  is_no_results,
}
use go_ddgs_stealth.Session.{SessionManager, needs_warmup, warmup}
use go_ddgs_stealth.Engine.{SearchResult, SafeSearch, safe_moderate, safe_off, safe_strict}
use go_ddgs_stealth.Client.{
  Request, Sent, no_reply, replied, Env, TokenEntry, Client, Ctx, Result, ok, err, crash,
  out_of_fuel, set_client, with_state,
}
use go_ddgs_stealth.Client.Loop.{Builder, read_clock, exchange, do_with_retry}

pub record SearchOptions : Type 0 where
  pub max_results : ℤ
  pub region : String
  pub safe_search : SafeSearch
  pub time_range : String
  pub offset : ℤ

-- The fields of an element of the JSON payload.
pub record RawResult : Type 0 where
  pub title : String
  pub url : String
  pub body : String

pub record Library : Type 0 where
  -- url.Values.Encode
  pub encode : List (String × String) → String
  pub itoa : ℤ → String
  -- http.NewRequestWithContext: the error for a URL, if it gives one.
  pub refuses : String → Option Err
  -- json.Unmarshal of the payload
  pub unmarshal : String → Err ⊎ List RawResult
  -- htmlResultRe.FindAllSubmatch: the two groups of each match.
  pub anchors : String → List (String × String)
  -- htmlTagRe.ReplaceAllString(s, "")
  pub strip_tags : String → String
  -- html.UnescapeString
  pub unescape : String → String

infixr 60 ◌^^◌
abbrev pub ◌^^◌ : String → String → String
s ^^ t = String.◌++◌ s t

unfoldable pub ddg_param : SafeSearch → String
ddg_param safe_off = "-2"
ddg_param safe_strict = "1"
ddg_param safe_moderate = "-1"

abbrev is_quote : ℕ → Bool
is_quote c = c == b'"' || c == 39

abbrev ends_bare : ℕ → Bool
ends_bare c = is_quote c || c == b'&' || c == 32 || c == 9 || c == 10 || c == 12 || c == 13

-- The longest start of a text without a character that ends it, and the rest.
unfoldable pub run : (ℕ → Bool) → String → String × String
run stop String.[] = (String.[], String.[])
run stop (String.◌∷◌ c s) =
    let (taken, rest) = run stop s in
    if stop (code c) then (String.[], String.◌∷◌ c s) else (String.◌∷◌ c taken, rest)

-- The group of `['"]([^'"]+)['"]` at the start of a text.
unfoldable pub quoted : String → Option String
quoted String.[] = none
quoted (String.◌∷◌ c s) =
    let (taken, rest) = run is_quote s in
    if is_quote (code c) && not (is_empty taken) && not (is_empty rest) then some taken else none

-- The group of `([^&'"\s]+)` at the start of a text.
unfoldable pub bare : String → Option String
bare s = let (taken, rest) = run ends_bare s in if is_empty taken then none else some taken

abbrev or_later : Option String → Option String → Option String
or_later none later = later
or_later (some s) later = some s

-- The leftmost "vqd=" after which a group matches.
unfoldable pub after_vqd : (String → Option String) → String → Option String
after_vqd group String.[] = none
after_vqd group (String.◌∷◌ c s) =
    let later = after_vqd group s in
    let here = group (drop 3 s) in
    if begins_with (codes (String.◌∷◌ c s)) (codes "vqd=") then or_later here later else later

unfoldable pub extract_vqd : String → String
extract_vqd body = elim (or_later (after_vqd quoted body) (after_vqd bare body)) [
  | none ↦ ""
  | some vqd ↦ vqd
]

-- s[strings.Index(s, "[{"):]
unfoldable pub from_open : String → Option String
from_open String.[] = none
from_open (String.◌∷◌ c s) =
    let later = from_open s in
    if begins_with (codes (String.◌∷◌ c s)) (codes "[{") then some (String.◌∷◌ c s) else later

-- s[:strings.LastIndex(s, "}]")+2]
unfoldable pub to_close : String → Option String
to_close String.[] = none
to_close (String.◌∷◌ c s) =
    let rest = to_close s in
    let here = if begins_with (codes (String.◌∷◌ c s)) (codes "}]") then some "}]" else none in
    elim rest [ some t ↦ some (String.◌∷◌ c t) | none ↦ here ]

module _ (lib : Library) where
  abbrev keep_raw : List RawResult → List SearchResult
  keep_raw [] = []
  keep_raw (r ∷ rs) =
      let rest = keep_raw rs in
      let result : SearchResult = record {
        title = trim_space r.title;
        url = trim_space r.url;
        snippet = trim_space r.body;
      } in
      if is_empty (trim_space r.url) then rest else result ∷ rest

  abbrev parse_payload : Option String → Err ⊎ List SearchResult
  parse_payload none = inl err_unexpected_body
  parse_payload (some payload) = elim (lib.unmarshal payload) [
    | inl e ↦ inl e
    | inr rs ↦ inr (keep_raw rs)
  ]

  -- A payload whose last "}]" stands before its first "[{" is refused, as one without either.
  unfoldable pub parse_djs_results : String → Err ⊎ List SearchResult
  parse_djs_results body = elim (from_open body) [
    | none ↦ inl err_unexpected_body
    | some tail ↦ parse_payload (to_close tail)
  ]

  unfoldable pub keep_anchors : List (String × String) → List SearchResult
  keep_anchors [] = []
  keep_anchors ((h, t) ∷ rest) =
      let more = keep_anchors rest in
      let href = trim_space (lib.unescape h) in
      let title = trim_space (lib.unescape (lib.strip_tags t)) in
      let result : SearchResult = record { title = title; url = href; snippet = "" } in
      if is_empty href || is_empty title then more else result ∷ more

  unfoldable pub parse_html_results : String → List SearchResult
  parse_html_results body = keep_anchors (lib.anchors body)

-- applyHeaders; header fields of Options go last and override.
abbrev set_all : Dict String → Header → Header
set_all [] h = h
set_all ((k, v) ∷ more) h = set_all more (Dict.insert k v h)

unfoldable pub apply_headers : {W : Type 0} → Client W → Request → Request
apply_headers k req =
    let agent = Dict.insert "User-Agent" k.ua req.headers in
    let referred = Dict.insert "Referer" k.referer agent in
    record req {
      headers =
          set_all k.headers (if is_empty (header_get "Referer" agent) then referred else agent);
    }

abbrev pub with_header : String → String → Request → Request
with_header name v req = record req { headers = Dict.insert name v req.headers }

-- A chain of calls on the client, each of which may fail.
abbrev pub and_then :
    {A B W : Type 0} → Result A × Ctx W → (A → Ctx W → Result B × Ctx W) → Result B × Ctx W
and_then (ok a, c) f = f a c
and_then (err e, c) f = (err e, c)
and_then (crash, c) f = (crash, c)
and_then (out_of_fuel, c) f = (out_of_fuel, c)

abbrev pub non_empty : List SearchResult → Result (List SearchResult)
non_empty [] = err err_no_results
non_empty (r ∷ rs) = ok (r ∷ rs)

abbrev pub djs_results : Err ⊎ List SearchResult → Result (List SearchResult)
djs_results (inl e) = err e
djs_results (inr rs) = non_empty rs

abbrev pub first : ℕ → List SearchResult → List SearchResult
first zero rs = []
first (suc n) [] = []
first (suc n) (r ∷ rs) = r ∷ first n rs

-- How the fallback's results are given out, after d.js gave an error or (`none`) nothing.
abbrev pub from_html : ℕ → Option Err → Result (List SearchResult) → Result (List SearchResult)
from_html max e (ok []) = err err_no_results
from_html max e (ok (r ∷ rs)) = ok (first max (r ∷ rs))
from_html max none (err fallback) = err fallback
from_html max (some e) (err fallback) =
    err (wrapped "goddgs: d.js failed, html fallback failed" fallback)
from_html max e crash = crash
from_html max e out_of_fuel = out_of_fuel

abbrev or_no_results : Option Err → Err
or_no_results none = err_no_results
or_no_results (some e) = e

abbrev pub with_region : SearchOptions → SearchOptions
with_region opts = record opts { region = if is_empty opts.region then "us-en" else opts.region }

module _ {W : Type 0} (env : Env W) (lib : Library) where
  -- A new request with the client's headers, and more of them after these.
  unfoldable pub new_request :
      String → String → String → (Request → Request) → Ctx W → Result Request × Ctx W
  new_request method url body more c = elim (lib.refuses url) [
    | some e ↦ (err e, c)
    | none ↦
        let req : Request = record { method = method; url = url; headers = []; body = body } in
        (ok (more (apply_headers c.client req)), c)
  ]

  -- doWithRetry, with fuel that runs out as a result.
  unfoldable pub fetch : ℕ → Builder env → Ctx W → Result String × Ctx W
  fetch fuel build c = elim (do_with_retry env fuel build c) [
    | none ↦ (out_of_fuel, c)
    | some out ↦ out
  ]

  abbrev pub form : Request → Request
  form req = with_header "Content-Type" "application/x-www-form-urlencoded" req

  abbrev pub vqd_builder : String → Builder env
  vqd_builder query c =
      new_request "POST" (c.client.ddg_base ^^ "/") (lib.encode (("q", query) ∷ [])) form c

  -- The token is stored under the key of the user agent at the start, and lives on from then.
  abbrev pub store_vqd : String → Time → String → Ctx W → Result String × Ctx W
  store_vqd key now body c =
      let vqd = extract_vqd body in
      let entry : TokenEntry = record { value = vqd; expires_at = now + c.client.vqd_ttl } in
      let stored =
        set_client (record c.client { vqd_cache = Dict.insert key entry c.client.vqd_cache }) c in
      if is_empty vqd then (err err_no_vqd, c) else (ok vqd, stored)

  abbrev cached : Time → Option TokenEntry → Option String
  cached now none = none
  cached now (some entry) =
      if not (is_empty entry.value) && ltb now entry.expires_at then some entry.value else none

  unfoldable pub get_vqd : ℕ → String → Ctx W → Result String × Ctx W
  get_vqd fuel query c =
      let key = query ^^ "|" ^^ c.client.ua in
      let (now, c1) = read_clock env c in
      elim (cached now (Dict.lookup key c.client.vqd_cache)) [
        | some vqd ↦ (ok vqd, c1)
        | none ↦ and_then (fetch fuel (vqd_builder query) c1) (store_vqd key now)
      ]

  abbrev pub djs_params : String → String → SearchOptions → List (String × String)
  djs_params query vqd opts =
      ("q", query)
      ∷ ("vqd", vqd)
      ∷ ("l", opts.region)
      ∷ ("p", "1")
      ∷ ("s", lib.itoa opts.offset)
      ∷ ("df", opts.time_range)
      ∷ ("ex", "-1")
      ∷ ("kp", ddg_param opts.safe_search)
      ∷ []

  -- The token is asked for at each attempt.
  unfoldable pub djs_builder : ℕ → String → SearchOptions → Builder env
  djs_builder fuel query opts c = and_then (get_vqd fuel query c) (λ vqd c1.
      new_request "GET" (c1.client.links_base ^^ "/d.js?" ^^ lib.encode (djs_params query vqd opts))
        "" (with_header "Accept" "*/*") c1)

  unfoldable pub search_djs :
      ℕ → String → SearchOptions → Ctx W → Result (List SearchResult) × Ctx W
  search_djs fuel query opts c =
      and_then (fetch fuel (djs_builder fuel query opts) c)
        (λ body c1. (djs_results (parse_djs_results lib body), c1))

  abbrev pub html_params : String → SearchOptions → List (String × String)
  html_params query opts =
      let always =
        ("q", query)
        ∷ ("s", lib.itoa opts.offset)
        ∷ ("kl", opts.region)
        ∷ ("kp", ddg_param opts.safe_search)
        ∷ [] in
      if is_empty opts.time_range then always else always ++ ("df", opts.time_range) ∷ []

  unfoldable pub html_builder : String → SearchOptions → Builder env
  html_builder query opts c =
      new_request "POST" (c.client.html_base ^^ "/html/") (lib.encode (html_params query opts))
        (λ req. with_header "Referer" (c.client.html_base ^^ "/") (form req)) c

  unfoldable pub search_html :
      ℕ → String → SearchOptions → Ctx W → Result (List SearchResult) × Ctx W
  search_html fuel query opts c =
      and_then (fetch fuel (html_builder query opts) c)
        (λ body c1. (non_empty (parse_html_results lib body), c1))

  abbrev pub warm_answer : Ctx W → Option (Sent × Ctx W) → Bool × (Bool × Ctx W)
  warm_answer c none = (false, (true, c))
  warm_answer c (some (no_reply e, c1)) = (false, (false, c1))
  warm_answer c (some (replied r, c1)) = (true, (false, c1))

  -- doWarmupGET; the flag is a panic of the proxy pool, after which nothing is done.
  abbrev pub warm_send : Result Request × Ctx W → Bool × (Bool × Ctx W)
  warm_send (err e, c) = (false, (false, c))
  warm_send (crash, c) = (false, (true, c))
  warm_send (out_of_fuel, c) = (false, (false, c))
  warm_send (ok req, c) = warm_answer c (exchange env req c)

  abbrev pub warm_get : String → Bool × Ctx W → Bool × (Bool × Ctx W)
  warm_get url (true, c) = (false, (true, c))
  warm_get url (false, c) = warm_send (new_request "GET" url "" (λ req. req) c)

  abbrev pub warm_clock : Bool × Ctx W → Time × (Bool × Ctx W)
  warm_clock (b, c) = let (t, c1) = read_clock env c in (t, (b, c1))

  abbrev pub warm_with : SessionManager → Ctx W → Bool × Ctx W
  warm_with s c =
      let (now, c1) = read_clock env c in
      let (fine, s', (crashed, c2)) =
        warmup warm_clock warm_get s (c1.client.ddg_base ^^ "/") (false, c1) in
      if needs_warmup s now
      then (crashed, with_state (λ st. record st { session = some s' }) c2)
      else (false, c1)

  -- The session's warm-up before a search: whether the pool panicked.
  unfoldable pub warm_up : Ctx W → Bool × Ctx W
  warm_up c = elim c.client.anti_bot [
    | none ↦ (false, c)
    | some st ↦ elim st.session [ none ↦ (false, c) | some s ↦ warm_with s c ]
  ]

  unfoldable pub fall_back :
      ℕ → ℕ → String → SearchOptions → Option Err → Ctx W → Result (List SearchResult) × Ctx W
  fall_back fuel max query opts e c =
      let (answer, c1) = search_html fuel query opts c in
      if c.client.no_fallback then (err (or_no_results e), c) else (from_html max e answer, c1)

  unfoldable pub after_djs :
      ℕ
      → ℕ
      → String
      → SearchOptions
      → Result (List SearchResult)
      → Ctx W
      → Result (List SearchResult) × Ctx W
  after_djs fuel max query opts (ok []) c = fall_back fuel max query opts none c
  after_djs fuel max query opts (ok (r ∷ rs)) c = (ok (first max (r ∷ rs)), c)
  after_djs fuel max query opts (err e) c = fall_back fuel max query opts (some e) c
  after_djs fuel max query opts crash c = (crash, c)
  after_djs fuel max query opts out_of_fuel c = (out_of_fuel, c)

  -- Search
  unfoldable pub search_results :
      ℕ → String → SearchOptions → Ctx W → Result (List SearchResult) × Ctx W
  search_results fuel query opts c =
      let q = trim_space query in
      let max = or_default opts.max_results 10 in
      let (crashed, c1) = warm_up c in
      let (answer, c2) = search_djs fuel q (with_region opts) c1 in
      let found = after_djs fuel max q (with_region opts) answer c2 in
      if is_empty q
      then (err (opaque "goddgs: query is required"), c)
      else if crashed
      then (crash, c1)
      else found

  -- The loop of SearchPages at page `i`, with so many pages to go: all results, and how it ended.
  -- The source returns the results so far beside an error.
  unfoldable pub pages_from :
      ℕ
      → String
      → ℕ
      → ℕ
      → ℕ
      → SearchOptions
      → List SearchResult
      → Ctx W
      → (List SearchResult × Result (Unit {0})) × Ctx W
  pages_from fuel query per_page i zero opts all c = ((all, ok tt), c)
  pages_from fuel query per_page i (suc left) opts all c =
      let curr = record opts { max_results = pos per_page; offset = opts.offset +ℤ pos (i * 30) } in
      let (answer, c1) = search_results fuel query curr c in
      elim answer [
        | err e ↦ if is_no_results e then ((all, ok tt), c1) else ((all, err e), c1)
        | crash ↦ ((all, crash), c1)
        | out_of_fuel ↦ ((all, out_of_fuel), c1)
        | ok rs ↦
            let more = pages_from fuel query per_page (suc i) left opts (all ++ rs) c1 in
            if ltb (length rs) per_page then ((all ++ rs, ok tt), c1) else more
      ]

  unfoldable pub search_pages :
      ℕ → String → ℤ → ℤ → SearchOptions → Ctx W → (List SearchResult × Result (Unit {0})) × Ctx W
  search_pages fuel query per_page pages opts c =
      pages_from fuel query (or_default per_page 30) 0 (or_default pages 1) opts [] c
