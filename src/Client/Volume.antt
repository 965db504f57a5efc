-- ===== src/Client/Volume.antt =====
-- client.go: how many requests a whole search sends.
use go_ddgs_stealth.Common.{
  ℕ, suc, ◌+◌, ◌*◌, ◌≤◌, ◌≡◌, refl, String, Bool, true, false, Option, none, some, List, [], ◌∷◌,
  arith,
}
use go_ddgs_stealth.Common.Text.{trim_space}
use go_ddgs_stealth.Common.Int.{or_default}
use go_ddgs_stealth.Breaker.{Time}
use go_ddgs_stealth.Engine.{SearchResult}
use go_ddgs_stealth.Session.{SessionManager, warmup}
use go_ddgs_stealth.Client.{
  Request, Sent, no_reply, replied, Env, Ctx, Result, ok, err, crash, out_of_fuel,
}
use go_ddgs_stealth.Client.Loop.{read_clock, Builder, exchange}
use go_ddgs_stealth.Client.Settings.{
  Settings, settings, shape, sent_in, solver_of, settings-exchange,
}
use go_ddgs_stealth.Client.Bounded.{IsModest, do_with_retry-returns, settings-do_with_retry}
use go_ddgs_stealth.Client.Search.{
  Library, SearchOptions, djs_results, non_empty, parse_djs_results, parse_html_results,
  new_request, fetch, and_then, vqd_builder, ◌^^◌, with_header, djs_params, store_vqd, get_vqd,
  djs_builder, search_djs, html_builder, search_html, fall_back, after_djs, warm_answer, warm_send,
  warm_get, warm_with, warm_up, search_results, with_region,
}

module _ {W : Type 0} (env : Env W) (lib : Library) where
  -- The settings are kept, and at most so many requests are sent.
  record Sends (n : ℕ) (c c' : Ctx W) : Type 0 where
    same : settings c' ≡ settings c
    few : sent_in c'.trace ≤ sent_in c.trace + n

  abbrev Unsolved : ℕ → Ctx W → Type 0
  Unsolved fuel c = (solver_of c.client.anti_bot ≡ none) × (c.client.retry_max ≤ fuel)

  and_then-shape :
      {A B : Type 0}
      → (m : Result A × Ctx W) (f : A → Ctx W → Result B × Ctx W)
      → ((a : A) (c : Ctx W) → shape (f a c).1 ≡ shape c)
      → shape (and_then m f).1 ≡ shape m.1
  and_then-shape (ok a, c) f h = h a c
  and_then-shape (err e, c) f h = refl
  and_then-shape (crash, c) f h = refl
  and_then-shape (out_of_fuel, c) f h = refl

  new_request-shape :
      (method url body : String) (more : Request → Request) (c : Ctx W)
      → (new_request env lib method url body more c).1 ≡ c
  unfolding new_request
  new_request-shape method url body more c = grind (arith)

  fetch-Sends :
      (fuel b : ℕ) (build : Builder env) (c : Ctx W)
      → IsModest env (settings c) build b
      → Unsolved fuel c
      → Sends (c.client.retry_max * (1 + b)) c (fetch env lib fuel build c).1
  unfolding fetch
  fetch-Sends fuel b build c modest free =
      let (out, (e, few)) = do_with_retry-returns env build b fuel c modest free.0 free.1 in
      let same = settings-do_with_retry env build b fuel c out modest e in
      rw (e, fetch) (record { same = same; few = few })

  vqd_builder-IsModest :
      (query : String) (s : Settings W) → IsModest env s (vqd_builder env lib query) 0
  vqd_builder-IsModest query s = record {
    keeps = λ c e. rw (vqd_builder-same query c) e;
    adds = λ c e. rw (vqd_builder-same query c) (omega arith);
  }
    where
      vqd_builder-same : (q : String) (c : Ctx W) → (vqd_builder env lib q c).1 ≡ c
      vqd_builder-same q c = new_request-shape _ _ _ _ c

  store_vqd-shape :
      (key : String) (now : Time) (body : String) (c : Ctx W)
      → shape (store_vqd env lib key now body c).1 ≡ shape c
  store_vqd-shape key now body c = grind (arith)

  -- A token costs at most RetryMax requests.
  get_vqd-Sends :
      (fuel : ℕ) (query : String) (c : Ctx W)
      → Unsolved fuel c
      → Sends c.client.retry_max c (get_vqd env lib fuel query c).1
  unfolding get_vqd
  get_vqd-Sends fuel query c free =
      let (now, c1) = read_clock env c in
      let key = query ^^ "|" ^^ c.client.ua in
      let fetched = fetch env lib fuel (vqd_builder env lib query) c1 in
      ground (
        arith,
        fetch-Sends fuel 0 (vqd_builder env lib query) c1 (vqd_builder-IsModest query (settings c1))
            free,
        and_then-shape fetched (store_vqd env lib key now) (store_vqd-shape key now),
      )

  djs_request : String → SearchOptions → String → Ctx W → Result Request × Ctx W
  djs_request query opts vqd c =
      new_request env lib "GET"
        (c.client.links_base ^^ "/d.js?" ^^ lib.encode (djs_params env lib query vqd opts)) ""
        (with_header "Accept" "*/*") c

  djs_builder-Sends :
      (fuel : ℕ) (query : String) (opts : SearchOptions) (c : Ctx W)
      → Unsolved fuel c
      → Sends c.client.retry_max c (djs_builder env lib fuel query opts c).1
  unfolding djs_builder djs_request
  djs_builder-Sends fuel query opts c free = ground (
    arith,
    get_vqd-Sends fuel query c free,
    and_then-shape (get_vqd env lib fuel query c) (djs_request query opts)
        (λ vqd c1. rw (new_request-shape _ _ _ _ c1) refl),
  )

  djs_builder-IsModest :
      (fuel : ℕ) (query : String) (opts : SearchOptions) (c : Ctx W)
      → Unsolved fuel c
      → IsModest env (settings c) (djs_builder env lib fuel query opts) c.client.retry_max
  djs_builder-IsModest fuel query opts c free = record {
    keeps = λ c1 e. ground (arith, djs_builder-Sends fuel query opts c1 (carried c1 e));
    adds = λ c1 e. ground (arith, djs_builder-Sends fuel query opts c1 (carried c1 e));
  }
    where
      carried : (c1 : Ctx W) → settings c1 ≡ settings c → Unsolved fuel c1
      carried c1 e = ground (arith)

  search_djs-Sends :
      (fuel : ℕ) (query : String) (opts : SearchOptions) (c : Ctx W)
      → Unsolved fuel c
      → Sends
          (c.client.retry_max * (1 + c.client.retry_max))
          c
          (search_djs env lib fuel query opts c).1
  unfolding search_djs
  search_djs-Sends fuel query opts c free =
      let build = djs_builder env lib fuel query opts in
      ground (
        arith,
        fetch-Sends fuel c.client.retry_max build c (djs_builder-IsModest fuel query opts c free)
            free,
        and_then-shape (fetch env lib fuel build c)
            (λ (body : String) (c1 : Ctx W). (djs_results (parse_djs_results lib body), c1))
            (λ body c1. refl),
      )

  html_builder-IsModest :
      (query : String) (opts : SearchOptions) (s : Settings W)
      → IsModest env s (html_builder env lib query opts) 0
  unfolding html_builder
  html_builder-IsModest query opts s = record {
    keeps = λ c e. rw (kept c) e;
    adds = λ c e. rw (kept c) (omega arith);
  }
    where
      kept : (c : Ctx W) → (html_builder env lib query opts c).1 ≡ c
      kept c = new_request-shape _ _ _ _ c

  search_html-Sends :
      (fuel : ℕ) (query : String) (opts : SearchOptions) (c : Ctx W)
      → Unsolved fuel c
      → Sends c.client.retry_max c (search_html env lib fuel query opts c).1
  unfolding search_html
  search_html-Sends fuel query opts c free =
      let build = html_builder env lib query opts in
      ground (
        arith,
        fetch-Sends fuel 0 build c (html_builder-IsModest query opts (settings c)) free,
        and_then-shape (fetch env lib fuel build c)
            (λ (body : String) (c1 : Ctx W). (non_empty (parse_html_results lib body), c1))
            (λ body c1. refl),
      )

  after_djs-Sends :
      (fuel max : ℕ) (query : String) (opts : SearchOptions) (a : Result (List SearchResult))
      (c : Ctx W)
      → Unsolved fuel c
      → Sends c.client.retry_max c (after_djs env lib fuel max query opts a c).1
  unfolding after_djs fall_back
  after_djs-Sends fuel max query opts (ok []) c free =
      ground (arith, search_html-Sends fuel query opts c free)
  after_djs-Sends fuel max query opts (ok (r ∷ rs)) c free = ground (arith)
  after_djs-Sends fuel max query opts (err e) c free =
      ground (arith, search_html-Sends fuel query opts c free)
  after_djs-Sends fuel max query opts crash c free = ground (arith)
  after_djs-Sends fuel max query opts out_of_fuel c free = ground (arith)

  warm_answer-Sends :
      (req : Request) (c : Ctx W) → Sends 1 c (warm_answer env lib c (exchange env req c)).1.1
  warm_answer-Sends req c =
      of_answer (exchange env req c) (λ a c1. settings-exchange env req c c1 a)
    where
      of_answer :
          (o : Option (Sent × Ctx W))
          → ((a : Sent) (c1 : Ctx W)
              → o ≡ some (a, c1)
              → (settings c1 ≡ settings c) × (sent_in c1.trace ≡ suc (sent_in c.trace)))
          → Sends 1 c (warm_answer env lib c o).1.1
      of_answer none h = ground (arith)
      of_answer (some (no_reply e, c1)) h = ground (arith, h (no_reply e) c1 refl)
      of_answer (some (replied r, c1)) h = ground (arith, h (replied r) c1 refl)

  warm_send-Sends : (made : Result Request × Ctx W) → Sends 1 made.1 (warm_send env lib made).1.1
  warm_send-Sends (ok req, c) = warm_answer-Sends req c
  warm_send-Sends (err e, c) = ground (arith)
  warm_send-Sends (crash, c) = ground (arith)
  warm_send-Sends (out_of_fuel, c) = ground (arith)

  warm_get-Sends :
      (url : String) (b : Bool) (c : Ctx W) → Sends 1 c (warm_get env lib url (b, c)).1.1
  warm_get-Sends url true c = ground (arith)
  warm_get-Sends url false c =
      let made = new_request env lib "GET" url "" (λ req. req) c in
      ground (arith, warm_send-Sends made, new_request-shape "GET" url "" (λ req. req) c)

  warm_with-Sends : (s : SessionManager) (c : Ctx W) → Sends 2 c (warm_with env lib s c).1
  unfolding warmup
  warm_with-Sends s c =
      let c1 = (read_clock env c).1 in
      let home = c1.client.ddg_base ^^ "/" in
      let c2 = (read_clock env c1).1 in
      let m1 = (warm_get env lib home (false, c2)).1 in
      ground (arith, warm_get-Sends home false c2, warm_get-Sends (home ^^ "?q=") m1.0 m1.1)

  warm_up-Sends : (c : Ctx W) → Sends 2 c (warm_up env lib c).1
  unfolding warm_up
  warm_up-Sends c = grind (arith, λ (s : SessionManager). warm_with-Sends s c)

  -- A search of a client without challenge solvers sends, with fuel of at least RetryMax = n, at most
  -- 2 requests for the warm-up, n * (1 + n) for d.js, whose every attempt may need a new token, and n
  -- for the HTML page.
  pub search_results-Sends :
      (fuel : ℕ) (query : String) (opts : SearchOptions) (c : Ctx W)
      → solver_of c.client.anti_bot ≡ none
      → c.client.retry_max ≤ fuel
      → let n = c.client.retry_max in
        sent_in (search_results env lib fuel query opts c).1.trace
        ≤ sent_in c.trace + (2 + n * (1 + n) + n)
  unfolding search_results
  search_results-Sends fuel query opts c unsolved enough =
      let n = c.client.retry_max in
      let q = trim_space query in
      let opts' = with_region opts in
      let c1 = (warm_up env lib c).1 in
      let (answer, c2) = search_djs env lib fuel q opts' c1 in
      let warm = warm_up-Sends c in
      let free_1 : Unsolved fuel c1 = ground (arith, warm) in
      let djs = search_djs-Sends fuel q opts' c1 free_1 in
      let free_2 : Unsolved fuel c2 = ground (arith, djs, free_1) in
      let html = after_djs-Sends fuel (or_default opts.max_results 10) q opts' answer c2 free_2 in
      let same_1 : c1.client.retry_max ≡ n = ground (arith, warm) in
      let same_2 : c2.client.retry_max ≡ n = ground (arith, warm, djs) in
      let few_1 : sent_in c2.trace ≤ sent_in c1.trace + n * (1 + n) = rw same_1 at djs.few in
      ground (arith, warm, few_1, same_2, html)
