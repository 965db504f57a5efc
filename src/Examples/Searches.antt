-- ===== src/Examples/Searches.antt =====
-- Examples of the engine, the service, the errors, the detector and the solvers' chain.
use go_ddgs_stealth.Common.{
  ℕ, ◌+◌, ◌≡◌, ◌≢◌, refl, ◌⊎◌, String, Bool, true, false, none, some, List, [], ◌∷◌, length, All,
}
use go_ddgs_stealth.Common.Int.{pos}
use go_ddgs_stealth.Common.Text.{trim_space, trim_left, trim_right, is_space, fold}
use go_ddgs_stealth.Breaker.{Time}
use go_ddgs_stealth.Errors.{Err, blocked_error, opaque, classify, classify_error}
use go_ddgs_stealth.Errors.Classify.{wrap_all, classify-wrap_all}
use go_ddgs_stealth.Detect.{
  detect_block_signal, no_block, is_detected, detect_by_headers, body_patterns,
}
use go_ddgs_stealth.Detect.Order.{Misses, IsFirst, detect_block_signal_lem}
use go_ddgs_stealth.Solver.{ChallengeSolver, chain_solve, chain_from}
use go_ddgs_stealth.Solver.Chain.{chain_solve-Ends}
use go_ddgs_stealth.Engine.{
  Provider, SearchRequest, SearchResult, search, with_defaults, no_diagnostics, enabled_providers,
  safe_moderate, try_from, judge,
}
use go_ddgs_stealth.Engine.Chain
use go_ddgs_stealth.Solver.Chain as Solvers
use go_ddgs_stealth.Engine.Chain.{IsAnswered, search-IsAnswered, search-Ends, search_blank}
use go_ddgs_stealth.Engine.Events.{observe_all, waiting, finished, search-observed}
use go_ddgs_stealth.Session.{
  SessionManager, empty_heap, set_cookies, invalidate, cookies_for, has_cookies_for,
}
use go_ddgs_stealth.AntiBot.{new_anti_bot_config, build_anti_bot_state}
use go_ddgs_stealth.AntiBot.Build.{build-invalidate}
use go_ddgs_stealth.Service.{ServiceSearchRequest, handle_search, status, to_request}
use go_ddgs_stealth.Service.Search.{Replied, handle_search-status, handle_search-ne-429}

bundle : Unit {0}
unfolding trim_space trim_left trim_right is_space search try_from judge enabled_providers
    chain_solve chain_from classify_error detect_block_signal
bundle = tt

-- The world is the time, which every reading moves on.
abbrev tick : ℕ → Time × ℕ
tick w = (w, w + 1)

abbrev page : SearchResult
page = record { title = "t"; url = "http://x"; snippet = "s" }

abbrev off_air : Provider ℕ
off_air = record { name = "brave"; enabled = false; search = λ req w. (([], none), w) }

abbrev failing : Provider ℕ
failing = record {
  name = "ddg";
  enabled = true;
  search = λ req w. (([], some (opaque "down")), w + 2);
}

abbrev finding : Provider ℕ
finding = record { name = "tavily"; enabled = true; search = λ req w. ((page ∷ [], none), w + 3) }

abbrev chain : List (Provider ℕ)
chain = off_air ∷ failing ∷ finding ∷ []

abbrev asking : String → SearchRequest
asking q = record {
  query = q;
  max_results = pos 0;
  region = "";
  safe_search = safe_moderate;
  time_range = "";
  offset = pos 0;
}

search-IsAnswered_example :
    IsAnswered
      (with_defaults (asking "go"))
      0
      chain
      no_diagnostics
      (search tick chain (asking "go") 5)
unfolding bundle
search-IsAnswered_example = search-IsAnswered tick chain (asking "go") 5 refl refl

search-Ends_example :
    Chain.Ends tick
      (with_defaults (asking "go"))
      (off_air ∷ failing ∷ [])
      (length (enabled_providers (off_air ∷ failing ∷ [])))
      (search tick (off_air ∷ failing ∷ []) (asking "go") 5).error
unfolding bundle
search-Ends_example = search-Ends tick (off_air ∷ failing ∷ []) (asking "go") 5 refl

search-observed_example :
    observe_all (waiting chain) (search tick chain (asking "go") 5).events
    ≡ some (finished (search tick chain (asking "go") 5).response.diagnostics.attempts)
unfolding bundle
search-observed_example = search-observed tick chain (asking "go") 5 refl

abbrev posted : ServiceSearchRequest
posted = record { query = "go"; max_results = pos 3; region = "" }

handle_search-status_example :
    Replied tick chain
      (with_defaults (to_request posted))
      (search tick chain (to_request posted) 5)
      (handle_search tick (some chain) "POST" (some posted) 5).0
unfolding bundle
handle_search-status_example = handle_search-status tick chain posted 5 refl

handle_search-ne-429_example :
    status (handle_search tick (some chain) "POST" (some posted) 5).0 ≢ 429
handle_search-ne-429_example = handle_search-ne-429 tick chain "POST" (some posted) 5

abbrev challenge_page : String
challenge_page = "please wait: CAPTCHA"

detect_block_signal_lem_example :
    ((is_detected (detect_by_headers 200 []) ≡ true)
      × (detect_block_signal 200 [] challenge_page ≡ detect_by_headers 200 []))
    ⊎ ((is_detected (detect_by_headers 200 []) ≡ false)
        × (((detect_block_signal 200 [] challenge_page ≡ no_block)
              × All (Misses (fold challenge_page)) body_patterns)
            ⊎ IsFirst body_patterns
                (fold challenge_page)
                (detect_block_signal 200 [] challenge_page)))
detect_block_signal_lem_example = detect_block_signal_lem 200 [] challenge_page

abbrev block_error : Err
block_error = blocked_error (record {
  status_code = 429;
  headers = [];
  body_snippet = "";
  detector = "status";
  attempt = 1;
})

classify-wrap_all_example :
    let s = classify "ddg" (wrap_all ("a" ∷ "b" ∷ []) block_error) in
    let s' = classify "ddg" block_error in
    (s.kind ≡ s'.kind)
    × (s.provider ≡ s'.provider)
    × (s.temporary ≡ s'.temporary)
    × (s.details ≡ s'.details)
classify-wrap_all_example = classify-wrap_all "ddg" ("a" ∷ "b" ∷ []) block_error

abbrev refusing : ChallengeSolver ℕ
refusing = record { supports = λ b. true; solve = λ u i b w. ((none, some (opaque "no")), w + 1) }

abbrev solving : ChallengeSolver ℕ
solving = record {
  supports = λ b. true;
  solve =
      λ u i b w. ((some (record { cookies = []; user_agent = "ua"; token = "t" }), none), w + 1);
}

chain_solve-Ends_example :
    Solvers.Ends "u" no_block "b"
      (refusing ∷ solving ∷ [])
      (chain_solve (refusing ∷ solving ∷ []) "u" no_block "b" 4).0
chain_solve-Ends_example = chain_solve-Ends "u" no_block "b" (refusing ∷ solving ∷ []) 4

abbrev get_ok : String → ℕ → Bool × ℕ
get_ok url w = (true, w + 7)

abbrev cold : SessionManager
cold = record { jar = 0; warmed_up = false; last_warmup = 0; warmup_ttl = 60 }

build-invalidate_example :
    let (st, hc, heap1) = build_anti_bot_state (new_anti_bot_config {W = ℕ}) empty_heap in
    (s : SessionManager) × (jar : ℕ) × (st.session ≡ some s)
    × (hc.jar ≡ some jar)
    × (s.jar ≡ jar)
    × (let heap2 =
          set_cookies heap1 jar "d" (record { domain = "d"; name = "n"; value = "v" } ∷ []) in
        let (s', heap3) = invalidate s heap2 in
        (cookies_for heap3 jar "d" ≡ cookies_for heap2 jar "d")
        × (has_cookies_for s' heap3 "d" ≡ false))
unfolding new_anti_bot_config
build-invalidate_example =
    build-invalidate (new_anti_bot_config {W = ℕ}) empty_heap "d"
      (record { domain = "d"; name = "n"; value = "v" } ∷ []) refl
