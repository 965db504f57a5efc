-- ===== src/Fetcher/Http.antt =====
-- fetcher.go, HTTPFetcher, and the defaults of stealth_options.go. The fetcher has the `http.Client`
-- and the anti-bot state of a client of client.go, and works on a context of one, of which it reads
-- nothing else. Its HTTP client, when the caller gives one, may have no transport of ours.
use go_ddgs_stealth.Common.{
  ℕ, ◌-◌, ◌*◌, String, Bool, true, false, not, ◌&&◌, ◌||◌, Option, none, some, [], ◌∷◌, ◌⊎◌, inl,
  inr, if◌then◌else◌, ltb, length,
}
use Prim.Native.String
use go_ddgs_stealth.Common.Int.{ℤ, or_default}
use go_ddgs_stealth.Common.Dict
use go_ddgs_stealth.Common.Dict.{Dict}
use go_ddgs_stealth.Common.Text.{is_empty, trim_space, upper, take, codes}
use go_ddgs_stealth.Breaker.{Time, second, is_open, record_block, record_success}
use go_ddgs_stealth.Limiter.{on_block, on_success}
use go_ddgs_stealth.Errors.{
  Err, Header, header_get, BlockedEvent, blocked_error, err_circuit_open, opaque,
}
use go_ddgs_stealth.Detect.{BlockInfo, detect_block_signal, is_detected}
use go_ddgs_stealth.Session.{Heap, SessionManager, needs_warmup, warmup, invalidate}
use go_ddgs_stealth.Solver.{Solved, chain_solve}
use go_ddgs_stealth.AntiBot.{
  AntiBotState, AntiBotConfig, HttpClient, new_anti_bot_config, build_anti_bot_state,
}
use go_ddgs_stealth.Client.{
  Request, HttpReply, Sent, no_reply, replied, Env, Ctx, Result, ok, err, crash, ctx_done,
  with_state, breaker_of,
}
use go_ddgs_stealth.Client.Loop.{read_clock, set_world, exchange, limiter_of, limiter_wait}
use go_ddgs_stealth.Fetcher.{FetchRequest, FetchResponse}

pub record StealthOptions (W : Type 0) : Type 0 where
  pub anti_bot_config : Option (AntiBotConfig W)
  pub http_client : Option HttpClient
  pub headless : Bool
  pub human_like_behavior : Bool
  pub stealth_level : String
  pub persistent_context_dir : String
  pub browser_binary : String
  pub proxy_url : String
  pub user_agent : String
  pub extra_headers : Dict String
  pub request_timeout : ℤ
  pub max_body_bytes : ℤ

-- The options after the defaults.
pub record Stealth (W : Type 0) : Type 0 where
  pub config : AntiBotConfig W
  pub http_client : Option HttpClient
  pub headless : Bool
  pub stealth_level : String
  pub user_agent : String
  pub extra_headers : Dict String
  pub request_timeout : ℕ
  pub max_body_bytes : ℕ

unfoldable pub with_defaults : {W : Type 0} → StealthOptions W → Stealth W
with_defaults o = record {
  config = elim o.anti_bot_config [ none ↦ new_anti_bot_config | some cfg ↦ cfg ];
  http_client = o.http_client;
  headless = if o.headless then o.headless else true;
  stealth_level = if is_empty o.stealth_level then "strong" else o.stealth_level;
  user_agent = o.user_agent;
  extra_headers = o.extra_headers;
  request_timeout = or_default o.request_timeout (20 * second);
  max_body_bytes = or_default o.max_body_bytes 4_194_304;
}

-- NewHTTPFetcher: the anti-bot state, the client that requests go through, and the heap of jars. The
-- constructor of the state gives no error.
unfoldable pub new_http_fetcher :
    {W : Type 0} → Stealth W → Heap → (AntiBotState W × HttpClient) × Heap
new_http_fetcher o heap =
    let (st, built, heap') = build_anti_bot_state o.config heap in
    let hc : HttpClient = elim o.http_client [ none ↦ built | some given ↦ given ] in
    ((st, record hc { timeout = o.request_timeout }), heap')

pub record FetchLib : Type 1 where
  pub U : Type 0
  pub parse : String → Option U
  pub scheme : U → String
  pub host : U → String
  -- http.NewRequestWithContext: the error for a method and a URL, if it gives one.
  pub refuses : String → String → Option Err
  -- resp.Request.URL.String()
  pub landed : Request → HttpReply → Option String

unfoldable pub set_headers : Dict String → Header → Header
set_headers [] h = h
set_headers ((k, v) ∷ kvs) h = set_headers kvs (Dict.insert k v h)

module _ (lib : FetchLib) where
  abbrev home_of : lib.U → Option String
  home_of u =
      if is_empty (lib.scheme u) || is_empty (lib.host u)
      then none
      else some (String.◌++◌ (lib.scheme u) (String.◌++◌ "://" (String.◌++◌ (lib.host u) "/")))

  -- The page that a session is warmed up with; `none` for a URL that is refused.
  unfoldable pub home_page : String → Option String
  home_page raw = elim (lib.parse raw) [ none ↦ none | some u ↦ home_of u ]

  abbrev built_or : Option Err → Request → Err ⊎ Request
  built_or none req = inr req
  built_or (some e) req = inl e

  abbrev method_of : FetchRequest → String
  method_of req =
      let method = upper (trim_space req.method) in if is_empty method then "GET" else method

  abbrev default_agent : String → Header → Header
  default_agent agent h =
      if not (is_empty agent) && is_empty (header_get "User-Agent" h)
      then Dict.insert "User-Agent" agent h
      else h

  unfoldable pub build_request : {W : Type 0} → Stealth W → FetchRequest → String → Err ⊎ Request
  build_request o req raw = built_or (lib.refuses (method_of req) raw) record {
    method = method_of req;
    url = raw;
    headers = default_agent o.user_agent (set_headers req.headers (set_headers o.extra_headers []));
    body = req.body;
  }

  abbrev warm_headers : {W : Type 0} → Stealth W → Header
  warm_headers o =
      let h = set_headers o.extra_headers [] in
      if is_empty o.user_agent then h else Dict.insert "User-Agent" o.user_agent h

module _ {W : Type 0} (env : Env W) (lib : FetchLib) (o : Stealth W) where
  abbrev pub warm_answer : Ctx W → Option (Sent × Ctx W) → Bool × (Bool × Ctx W)
  warm_answer c none = (false, (true, c))
  warm_answer c (some (no_reply e, c1)) = (false, (false, c1))
  warm_answer c (some (replied r, c1)) = (true, (false, c1))

  abbrev pub warm_built : Option Err → String → Ctx W → Bool × (Bool × Ctx W)
  warm_built (some e) url c = (false, (false, c))
  warm_built none url c = warm_answer c (
      exchange env (record { method = "GET"; url = url; headers = warm_headers lib o; body = "" })
        c)

  -- doWarmupGET; the flag is a panic of the proxy pool, after which nothing is done.
  abbrev pub warm_get : String → Bool × Ctx W → Bool × (Bool × Ctx W)
  warm_get url (true, c) = (false, (true, c))
  warm_get url (false, c) = warm_built (lib.refuses "GET" url) url c

  abbrev pub warm_clock : Bool × Ctx W → Time × (Bool × Ctx W)
  warm_clock (b, c) = let (t, c1) = read_clock env c in (t, (b, c1))

  abbrev pub warm_with : SessionManager → String → Ctx W → Bool × Ctx W
  warm_with s home c =
      let (now, c1) = read_clock env c in
      let (fine, s', (crashed, c2)) = warmup warm_clock warm_get s home (false, c1) in
      if needs_warmup s now
      then (crashed, with_state (λ st. record st { session = some s' }) c2)
      else (false, c1)

  -- The warm-up of the session: whether the pool panicked.
  unfoldable pub warm_session : String → Ctx W → Bool × Ctx W
  warm_session home c = elim c.client.anti_bot [
    | none ↦ (false, c)
    | some st ↦ elim st.session [
      | none ↦ (false, c)
      | some s ↦ if st.cfg.session_warmup then warm_with s home c else (false, c)
    ]
  ]

  -- The check of the breaker.
  unfoldable pub circuit_open : Ctx W → Bool × Ctx W
  circuit_open c = elim (breaker_of c) [
    | none ↦ (false, c)
    | some cb ↦ let (t, c1) = read_clock env c in (is_open cb t, c1)
  ]

  -- The wait for the adaptive limiter: whether it was not interrupted.
  unfoldable pub await_turn : Ctx W → Bool × Ctx W
  await_turn c = elim (limiter_of env c) [ none ↦ (true, c) | some r ↦ limiter_wait env r c ]

  -- The limiter alone is told of a request that had no reply.
  abbrev slow_down : AntiBotState W → AntiBotState W
  slow_down st = record st {
    rate_limit = elim st.rate_limit [ none ↦ none | some r ↦ some (on_block env.floats r) ];
  }

  -- Limiter and breaker are told of a block, with the readings of the clock.
  abbrev told_block : Time → Time → AntiBotState W → AntiBotState W
  told_block t t' st = record st {
    rate_limit = elim st.rate_limit [ none ↦ none | some r ↦ some (on_block env.floats r) ];
    circuit = elim st.circuit [ none ↦ none | some cb ↦ some (record_block cb t t').0 ];
  }

  abbrev told_success : Time → AntiBotState W → AntiBotState W
  told_success t st = record st {
    rate_limit = elim st.rate_limit [ none ↦ none | some r ↦ some (on_success env.floats r) ];
    circuit = elim st.circuit [ none ↦ none | some cb ↦ some (record_success cb t).0 ];
  }

  abbrev drop_session : AntiBotState W → Ctx W → Ctx W
  drop_session st c = elim st.session [
    | none ↦ c
    | some s ↦
        let (s', heap') = invalidate s c.heap in
        if st.cfg.session_invalidate_on_block
        then with_state (λ st'. record st' { session = some s' }) (record c { heap = heap' })
        else c
  ]

  -- What the fetcher does of a block before it asks the solvers.
  unfoldable pub note_block : Ctx W → Ctx W
  note_block c =
      let (t, c1) = read_clock env c in
      let (t', c2) = read_clock env c1 in
      elim c.client.anti_bot [
        | none ↦ c2
        | some st ↦ drop_session st (with_state (told_block t t') c2)
      ]

  unfoldable pub note_success : Ctx W → Ctx W
  note_success c = let (t, c1) = read_clock env c in with_state (told_success t) c1

  -- The solvers are asked once, where they may be: whether one of them gave no error. What it gave is
  -- not used.
  abbrev no_error : Solved → Bool
  no_error (sol, none) = true
  no_error (sol, some e) = false

  unfoldable pub ask_solvers : Bool → String → BlockInfo → String → Ctx W → Bool × Ctx W
  ask_solvers false raw info body c = (false, c)
  ask_solvers true raw info body c = elim c.client.anti_bot [
    | none ↦ (false, c)
    | some st ↦ elim st.solver [
      | none ↦ (false, c)
      | some ss ↦
          let (answer, w) = chain_solve ss raw info body c.world in
          (no_error answer, set_world env w c)
    ]
  ]

  abbrev event_of : HttpReply → BlockInfo → String → BlockedEvent
  event_of r info body = record {
    status_code = r.status_code;
    headers = r.header;
    body_snippet = take 512 body;
    detector = info.detector_key;
    attempt = 1;
  }

  abbrev final_url : String → Request → HttpReply → String
  final_url raw req r = elim (lib.landed req r) [ none ↦ raw | some u ↦ u ]

  -- The answer to a reply that shows no block.
  abbrev pub answer_of : String → Time → Request → HttpReply → Ctx W → Result FetchResponse × Ctx W
  answer_of raw started req r c =
      let (done, c1) = read_clock env (note_success c) in
      (
        ok record {
          status_code = r.status_code;
          headers = r.header;
          body = take o.max_body_bytes r.body;
          final_url = final_url raw req r;
          duration = done - started;
          fetcher = "http";
        },
        c1,
      )

  -- The answer to a reply that shows a block: after a challenge that was solved, that of `again`.
  abbrev pub answer_block :
      Bool
      → (Ctx W → Result FetchResponse × Ctx W)
      → String
      → BlockInfo
      → HttpReply
      → Ctx W
      → Result FetchResponse × Ctx W
  answer_block may_solve again raw info r c =
      let body = take o.max_body_bytes r.body in
      let (solved, c1) = ask_solvers may_solve raw info body (note_block c) in
      let retried = again c1 in
      if solved then retried else (err (blocked_error (event_of r info body)), c1)

  -- The error of the body, if it comes before the limit of `io.LimitReader` ends the reading.
  abbrev pub read_fault : HttpReply → Option String
  read_fault r = if ltb (length (codes r.body)) o.max_body_bytes then r.read_error else none

  -- Where the body cannot be read, its error is the answer.
  abbrev pub unread_or :
      Option String → Ctx W → Result FetchResponse × Ctx W → Result FetchResponse × Ctx W
  unread_or none c judged = judged
  unread_or (some e) c judged = (err (opaque e), c)

  abbrev pub judge_fetch :
      Bool
      → (Ctx W → Result FetchResponse × Ctx W)
      → String
      → Time
      → Request
      → HttpReply
      → Ctx W
      → Result FetchResponse × Ctx W
  judge_fetch may_solve again raw started req r c =
      let info = detect_block_signal r.status_code r.header (take o.max_body_bytes r.body) in
      let blocked = answer_block may_solve again raw info r c in
      let fine = answer_of raw started req r c in
      unread_or (read_fault r) c (if is_detected info then blocked else fine)

  abbrev pub after_exchange :
      Bool
      → (Ctx W → Result FetchResponse × Ctx W)
      → String
      → Time
      → Request
      → Option (Sent × Ctx W)
      → Ctx W
      → Result FetchResponse × Ctx W
  after_exchange may_solve again raw started req none c = (crash, c)
  after_exchange may_solve again raw started req (some (no_reply e, c1)) c =
      (err (opaque e), with_state slow_down c1)
  after_exchange may_solve again raw started req (some (replied r, c1)) c =
      judge_fetch may_solve again raw started req r c1

  abbrev pub send_fetch :
      Bool
      → (Ctx W → Result FetchResponse × Ctx W)
      → String
      → Err ⊎ Request
      → Ctx W
      → Result FetchResponse × Ctx W
  send_fetch may_solve again raw (inl e) c = (err e, c)
  send_fetch may_solve again raw (inr req) c =
      let (started, c1) = read_clock env c in
      after_exchange may_solve again raw started req (exchange env req c1) c1

  -- One round of `fetch` for a URL with its home page; `again` is the call that it may make.
  unfoldable pub fetch_round :
      Bool
      → (Ctx W → Result FetchResponse × Ctx W)
      → String
      → String
      → FetchRequest
      → Ctx W
      → Result FetchResponse × Ctx W
  fetch_round may_solve again raw home req c =
      let (tripped, c1) = circuit_open c in
      let (in_time, c2) = await_turn c1 in
      let (crashed, c3) = warm_session home c2 in
      let sent = send_fetch may_solve again raw (build_request lib o req raw) c3 in
      if tripped
      then (err err_circuit_open, c1)
      else if not in_time
      then (err ctx_done, c2)
      else if crashed
      then (crash, c3)
      else sent

  abbrev pub refusal : Ctx W → Result FetchResponse × Ctx W
  refusal c = (err (opaque "fetch url"), c)

  abbrev pub fetch_at : Bool → FetchRequest → Option String → Ctx W → Result FetchResponse × Ctx W
  fetch_at may_solve req none c = refusal c
  fetch_at may_solve req (some home) c =
      let last = fetch_round false refusal (trim_space req.url) home req in
      fetch_round may_solve (if may_solve then last else refusal) (trim_space req.url) home req c

  -- fetch, with solverRetry: a call that may ask the solvers makes at most one that may not.
  unfoldable pub fetch_url : Bool → FetchRequest → Ctx W → Result FetchResponse × Ctx W
  fetch_url may_solve req c = fetch_at may_solve req (home_page lib (trim_space req.url)) c

  -- HTTPFetcher.Fetch
  unfoldable pub fetch_http : FetchRequest → Ctx W → Result FetchResponse × Ctx W
  fetch_http req c = fetch_url true req c
