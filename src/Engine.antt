-- ===== src/Engine.antt =====
-- engine.go, api.go, events.go: the failover over a chain of search providers.
-- A provider answers from the state `W` of the world (network, its own caches), which it may change;
-- `now` reads the clock from there. A hook is called with each event in order: the engine's calls
-- are the list of events. `Name` and `Enabled` are read from fields, as the providers have them.

mod Steps
pub mod Chain
pub mod Events
use go_ddgs_stealth.Common.{
  ℕ, zero, suc, ◌+◌, ◌-◌, String, Bool, true, false, not, ◌&&◌, Option, none, some, List, [], ◌∷◌,
  ◌++◌, map, ltb, leb, if◌then◌else◌, length,
}
use go_ddgs_stealth.Common.Int.{ℤ, pos, or_default}
use go_ddgs_stealth.Common.Dict
use go_ddgs_stealth.Common.Dict.{Dict}
use go_ddgs_stealth.Common.Text.{trim_space, is_empty}
use go_ddgs_stealth.Breaker.{Time}
use go_ddgs_stealth.Detect.{BlockInfo, generic}
use go_ddgs_stealth.Errors.{
  ErrorKind, Err, SearchError, blocked, invalid_input, no_results, provider_unavailable,
  err_no_results, opaque, to_err, classify_error,
}

pub record SearchResult : Type 0 where
  pub title : String
  pub url : String
  pub snippet : String

pub data SafeSearch : Type 0 where
  safe_moderate safe_off safe_strict : SafeSearch

pub record SearchRequest : Type 0 where
  pub query : String
  pub max_results : ℤ
  pub region : String
  pub safe_search : SafeSearch
  pub time_range : String
  pub offset : ℤ

pub record ProviderError : Type 0 where
  pub provider : String
  pub kind : ErrorKind
  pub message : Err
  pub details : Dict String

pub record Diagnostics : Type 0 where
  pub block_info : Option BlockInfo
  pub attempts : ℕ
  pub provider_chain : List String
  pub timings : Dict ℕ
  pub errors : List ProviderError

pub record SearchResponse : Type 0 where
  pub results : List SearchResult
  pub provider : String
  pub fallback_used : Bool
  pub diagnostics : Diagnostics

-- The types of events, with the fields that each of them sets.
pub data Event : Type 0 where
  search_start : Event
  search_finish : (duration : ℕ) → Event
  provider_start : String → Event
  provider_end :
      String → (duration : ℕ) → (success : Bool) → Option ErrorKind → Option BlockInfo → Event
  blocked_event : String → BlockInfo → Event
  fallback : String → ErrorKind → Event

-- What a provider's `Search` returns: results, and an error or nil.
abbrev pub Answer : Type 0
Answer = List SearchResult × Option Err

pub record Provider (W : Type 0) : Type 0 where
  pub name : String
  pub enabled : Bool
  pub search : SearchRequest → W → Answer × W

-- The loop of `NewEngine` over the providers given, which drops the nil ones.
unfoldable pub non_nil {ℓ} : {A : Type ℓ} → List (Option A) → List A
non_nil [] = []
non_nil (none ∷ ps) = non_nil ps
non_nil (some p ∷ ps) = p ∷ non_nil ps

-- The engine is its list of providers; `none` stands for the two errors of the constructor.
unfoldable pub new_engine {ℓ} : {A : Type ℓ} → List (Option A) → Option (List A)
unfolding non_nil
new_engine ps = elim (non_nil ps) [ [] ↦ none | p ∷ qs ↦ some (p ∷ qs) ]

abbrev pub engine_error : ErrorKind → Bool → String → SearchError
engine_error kind temporary cause = record {
  kind = kind;
  provider = "engine";
  temporary = temporary;
  cause = opaque cause;
  details = [];
}

abbrev pub no_diagnostics : Diagnostics
no_diagnostics = record {
  block_info = none;
  attempts = 0;
  provider_chain = [];
  timings = [];
  errors = [];
}

-- What a provider's answer counts as: its results, or the error that the engine records.
pub data Verdict : Type 0 where
  hit : List SearchResult → Verdict
  miss : SearchError → Verdict

abbrev or_no_results : String → Option SearchError → SearchError
or_no_results name (some se) = se
or_no_results name none = record {
  kind = no_results;
  provider = name;
  temporary = false;
  cause = err_no_results;
  details = [];
}

unfoldable pub judge : String → Answer → Verdict
judge name (r ∷ rs, none) = hit (r ∷ rs)
judge name (rs, err) = miss (or_no_results name (classify_error name err))

abbrev detector_of : Option String → String
detector_of none = "blocked"
detector_of (some d) = if is_empty d then "blocked" else d

unfoldable pub is_kind_blocked : ErrorKind → Bool
is_kind_blocked blocked = true
is_kind_blocked _ = false

-- The block that an error reports, if it is of the kind `blocked`.
unfoldable pub block_of : SearchError → Option BlockInfo
unfolding is_kind_blocked
block_of se =
    let info : BlockInfo = record {
      signal = generic;
      detector_key = detector_of (Dict.lookup "detector" se.details);
    } in
    if is_kind_blocked se.kind then some info else none

abbrev pub or_else {ℓ} : {A : Type ℓ} → Option A → Option A → Option A
or_else none d = d
or_else (some a) d = some a

abbrev pub block_events : String → Option BlockInfo → List Event
block_events name none = []
block_events name (some info) = blocked_event name info ∷ []

-- How a search ends, with the events emitted on the way and the world that it leaves.
pub record Finished (W : Type 0) : Type 0 where
  pub response : SearchResponse
  pub error : Option SearchError
  pub events : List Event
  pub world : W

abbrev pub begin_attempt : Diagnostics → String → Diagnostics
begin_attempt diag name = record diag { provider_chain = diag.provider_chain ++ name ∷ [] }

abbrev pub count_attempt : Diagnostics → String → ℕ → Diagnostics
count_attempt diag name dur = record diag {
  timings = Dict.insert name dur diag.timings;
  attempts = diag.attempts + 1;
}

abbrev pub record_error : Diagnostics → String → SearchError → Diagnostics
record_error diag name se = record diag {
  errors =
      diag.errors
      ++ record { provider = name; kind = se.kind; message = to_err se; details = se.details } ∷ [];
  block_info = or_else (block_of se) diag.block_info;
}

abbrev pub failed_response : Diagnostics → SearchResponse
failed_response diag = record {
  results = [];
  provider = "";
  fallback_used = false;
  diagnostics = diag;
}

abbrev pub fallback_events : Bool → String → SearchError → List Event
fallback_events last name se = if last then [] else fallback name se.kind ∷ []

-- After the loop.
unfoldable pub give_up : {W : Type 0} → Diagnostics → List Event → W → Finished W
give_up diag log w =
    let error : SearchError = elim diag.errors [
      | [] ↦ engine_error provider_unavailable true "no enabled providers"
      | e ∷ es ↦ engine_error no_results false "all providers exhausted"
    ] in
    record { response = failed_response diag; error = some error; events = log; world = w }

abbrev pub with_defaults : SearchRequest → SearchRequest
with_defaults req = record req {
  max_results = pos (or_default req.max_results 10);
  region = if is_empty req.region then "us-en" else req.region;
}

unfoldable pub enabled_providers : {W : Type 0} → List (Provider W) → List String
enabled_providers [] = []
enabled_providers (p ∷ ps) =
    let rest = enabled_providers ps in if p.enabled then p.name ∷ rest else rest

module _ {W : Type 0} (now : W → Time × W) where
  -- The loop over the providers from an index on; `log` holds the events so far. The provider is
  -- the last one if no other follows it in the list, enabled or not.
  unfoldable pub try_from :
      SearchRequest → ℕ → List (Provider W) → Diagnostics → List Event → W → Finished W
  try_from req idx [] diag log w = give_up diag log w
  try_from req idx (p ∷ ps) diag log w =
      let (ps_time, w1) = now w in
      let (answer, w2) = p.search req w1 in
      let (end_time, w3) = now w2 in
      let counted = count_attempt (begin_attempt diag p.name) p.name (end_time - ps_time) in
      let started = log ++ provider_start p.name ∷ [] in
      let skipped = try_from req (suc idx) ps diag log w in
      let attempted : Finished W = elim (judge p.name answer) [
        | hit rs ↦ record {
          response = record {
            results = rs;
            provider = p.name;
            fallback_used = ltb 0 idx;
            diagnostics = counted;
          };
          error = none;
          events = started ++ provider_end p.name (end_time - ps_time) true none none ∷ [];
          world = w3;
        }
        | miss se ↦
            try_from req (suc idx) ps (record_error counted p.name se)
              (started
                ++ block_events p.name (block_of se)
                ++ provider_end p.name (end_time - ps_time) false (some se.kind) (block_of se)
                  ∷ fallback_events (leb (length ps) 0) p.name se)
              w3
      ] in
      if p.enabled then attempted else skipped

  -- The deferred call emits the last event with the time since the start.
  unfoldable pub search : List (Provider W) → SearchRequest → W → Finished W
  search providers req w =
      let (started, w1) = now w in
      let done = try_from (with_defaults req) 0 providers no_diagnostics (search_start ∷ []) w1 in
      let (ended, w2) = now done.world in
      let invalid : SearchError = engine_error invalid_input false "query is required" in
      if is_empty (trim_space req.query)
      then record {
        response = failed_response no_diagnostics;
        error = some invalid;
        events = [];
        world = w;
      }
      else record done { events = done.events ++ search_finish (ended - started) ∷ []; world = w2 }
