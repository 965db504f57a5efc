-- ===== src/Service.antt =====
-- service.go and service_stealth.go: the handlers of the HTTP service. A request's JSON body is
-- given decoded (`none` where `json.Decode` fails), the clock and the fetchers are arguments, and a
-- reply is its status with the kind of its error payload, or what was encoded.
pub mod Search
pub mod Stealth
use go_ddgs_stealth.Common.{
  ℕ, ◌*◌, ◌+◌, String, Bool, true, false, not, ◌&&◌, ◌||◌, Option, none, some, List, [], ◌∷◌,
  if◌then◌else◌, ◌==◌, length, str_eq, ltb,
}
use go_ddgs_stealth.Common.Int.{ℤ, pos}
use go_ddgs_stealth.Common.Text.{trim_space, is_empty}
use go_ddgs_stealth.Breaker.{Time}
use go_ddgs_stealth.Errors.{
  ErrorKind, Err, SearchError, blocked, rate_limited, provider_unavailable, parse, invalid_input,
  no_results, internal, is_blocked, to_err,
}
use go_ddgs_stealth.Engine.{
  SearchRequest, SearchResponse, Provider, Finished, search, enabled_providers, safe_moderate,
}
use go_ddgs_stealth.Guard.{StealthAccessGuard, allow, require_api_token}

-- What a handler writes: a bare status, an `APIError` with its kind, or an encoded value.
pub data Reply {ℓ} (A : Type ℓ) : Type ℓ where
  bare : ℕ → Reply A
  api_error : ℕ → ErrorKind → Reply A
  encoded : A → Reply A

-- The status line; an encoded value goes out with 200.
abbrev pub status {ℓ} : {A : Type ℓ} → Reply A → ℕ
status (bare n) = n
status (api_error n kind) = n
status (encoded a) = 200

pub record ServiceSearchRequest : Type 0 where
  pub query : String
  pub max_results : ℤ
  pub region : String

-- /readyz
unfoldable pub readyz : {W : Type 0} → Option (List (Provider W)) → Reply (Unit {0})
readyz none = bare 503
readyz (some providers) = elim (enabled_providers providers) [ [] ↦ bare 503 | n ∷ ns ↦ bare 200 ]

-- The switch on the kind of an error that is itself a `*SearchError`; the status so far is kept
-- where no case fits.
abbrev pub kind_status : ErrorKind → ℕ → ℕ
kind_status invalid_input n = 400
kind_status no_results n = 404
kind_status rate_limited n = 429
kind_status blocked n = 429
kind_status _ n = n

unfoldable pub search_failure : SearchError → Reply SearchResponse
search_failure se =
    let early = if is_blocked (to_err se) then 429 else 502 in
    api_error (kind_status se.kind early) se.kind

abbrev pub to_request : ServiceSearchRequest → SearchRequest
to_request r = record {
  query = r.query;
  max_results = r.max_results;
  region = r.region;
  safe_search = safe_moderate;
  time_range = "";
  offset = pos 0;
}

-- The end of the handler: what the engine's answer is turned into.
unfoldable pub respond : {W : Type 0} → Finished W → Reply SearchResponse × W
unfolding search_failure
respond done = elim done.error [
  | none ↦ (encoded done.response, done.world)
  | some se ↦ (search_failure se, done.world)
]

module _ {W : Type 0} (now : W → Time × W) where
  -- /v1/search with a decoded body
  unfoldable pub search_decoded :
      List (Provider W) → Option ServiceSearchRequest → W → Reply SearchResponse × W
  search_decoded providers none w = (api_error 400 invalid_input, w)
  search_decoded providers (some r) w =
      let done = search now providers (to_request r) w in
      if is_empty (trim_space r.query) then (api_error 400 invalid_input, w) else respond done

  -- /v1/search; an engine may be nil
  unfoldable pub handle_search :
      Option (List (Provider W))
      → (method : String) → Option ServiceSearchRequest
      → W
      → Reply SearchResponse × W
  unfolding search_decoded
  handle_search engine method body w =
      let reply : Reply SearchResponse × W = elim engine [
        | none ↦ (api_error 502 provider_unavailable, w)
        | some providers ↦ search_decoded providers body w
      ] in
      if str_eq method "POST" then reply else (bare 405, w)

-- The checks that both stealth endpoints make first: method, token, and the guard, which counts the
-- request only if the first two let it through. `none` lets the request go on.
unfoldable pub admit :
    (method env_token authorization : String) (limit : ℤ) (g : StealthAccessGuard) (ip : String)
    (now : Time)
    → StealthAccessGuard × Option (Reply (Unit {0}))
admit method env_token authorization limit g ip now =
    let (g', through) = allow limit g ip now in
    let counted = if through then (g', none) else (g', some (api_error 429 rate_limited)) in
    if not (str_eq method "POST")
    then (g, some (bare 405))
    else if require_api_token env_token authorization
    then counted
    else (g, some (api_error 401 invalid_input))
