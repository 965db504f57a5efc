-- ===== src/Solver/Remote.antt =====
-- solver.go, the reading of a challenge page; solver_2captcha.go and solver_capsolver.go. A remote
-- solver submits a task and polls for its result. The packages regexp, net/url and encoding/json are
-- the record `Formats`; the clock, the timer against the context, and the requests are `Remote`.
pub mod Polling
use go_ddgs_stealth.Common.{
  ℕ, zero, suc, ◌+◌, String, Bool, true, false, ◌||◌, not, Option, none, some, List, [], ◌∷◌, ◌⊎◌,
  inl, inr, ltb, ◌==◌, str_eq, if◌then◌else◌,
}
use go_ddgs_stealth.Common.Text.{is_empty, contains}
use go_ddgs_stealth.Breaker.{Time}
use go_ddgs_stealth.Detect.{BlockSignal, BlockInfo, cloudflare, recaptcha, generic}
use go_ddgs_stealth.Errors.{Err, opaque, wrapped}
use go_ddgs_stealth.Client.{Request}
use go_ddgs_stealth.Client.Search.{◌^^◌}
use go_ddgs_stealth.Solver.{ChallengeSolution}

-- The values of challengeType.
pub data Challenge : Type 0 where
  hcaptcha turnstile recaptcha_v2 recaptcha_v3 unknown : Challenge

abbrev pub is_cloudflare : BlockSignal → Bool
is_cloudflare cloudflare = true
is_cloudflare _ = false

unfoldable pub challenge_type : String → BlockSignal → Challenge
challenge_type body signal =
    if contains body "hcaptcha.com"
    then hcaptcha
    else if contains body "turnstile" || is_cloudflare signal
    then turnstile
    else if contains body "recaptcha/api2"
    then recaptcha_v2
    else if contains body "recaptcha/enterprise"
    then recaptcha_v3
    else if contains body "google.com/recaptcha"
    then recaptcha_v2
    else unknown

-- Supports, of both solvers
unfoldable pub remote_supports : BlockSignal → Bool
remote_supports cloudflare = true
remote_supports recaptcha = true
remote_supports generic = true
remote_supports _ = false

-- The answer of 2captcha, and those of CapSolver to the creation of a task and to a poll.
pub record TwoCaptchaReply : Type 0 where
  pub status : ℕ
  pub request : String

pub record CapCreated : Type 0 where
  pub error_id : ℕ
  pub error_text : String
  pub task_id : String

pub record CapPolled : Type 0 where
  pub error_id : ℕ
  pub error_text : String
  pub status : String
  pub g_recaptcha_response : String
  pub token : String

pub record Formats : Type 0 where
  -- The first group of each of siteKeyPatterns, in a text.
  pub site_keys : List (String → Option String)
  pub encode : List (String × String) → String
  -- The object of a poll, and that of a new task with its task object.
  pub marshal_poll : (key task_id : String) → String
  pub marshal_task : String → List (String × String) → String
  -- 2captcha's object at the start of a reply to a submission (a json.Decoder), and that which is the
  -- whole of a reply to a poll (json.Unmarshal).
  pub two_submitted : String → Err ⊎ TwoCaptchaReply
  pub two_captcha : String → Err ⊎ TwoCaptchaReply
  pub created : String → Err ⊎ CapCreated
  pub polled : String → Err ⊎ CapPolled

pub record Remote (W : Type 0) : Type 0 where
  pub now : W → Time × W
  -- Whether the timer fired before the context was done.
  pub sleep : ℕ → W → Bool × W
  -- A request, built and sent: an error, or the body of the reply.
  pub ask : Request → W → (Err ⊎ String) × W

abbrev first_key : List (String → Option String) → String → String
first_key [] body = ""
first_key (re ∷ res) body =
    let rest = first_key res body in elim (re body) [ none ↦ rest | some k ↦ k ]

-- extractSiteKey
unfoldable pub extract_site_key : Formats → String → String
extract_site_key lib body = first_key lib.site_keys body

-- The settings of a solver.
pub record SolverAccount : Type 0 where
  pub api_key : String
  pub base_url : String
  pub poll_interval : ℕ
  pub poll_timeout : ℕ

-- What a poll says: the result is not ready, or how the polling ends.
pub data Poll : Type 0 where
  not_ready : Poll
  ends : Err ⊎ String → Poll

pub data Polled : Type 0 where
  polled_to : Err ⊎ String → Polled
  out_of_turns : Polled

module _ {W : Type 0} (env : Remote W) where
  abbrev pub go_by : Poll → W → Polled × W → Polled × W
  go_by not_ready w later = later
  go_by (ends r) w later = (polled_to r, w)

  -- The polling loop, on fuel.
  unfoldable pub poll_until : ℕ → ℕ → Time → (W → Poll × W) → W → Polled × W
  poll_until zero interval deadline poll w = (out_of_turns, w)
  poll_until (suc fuel) interval deadline poll w =
      let (t, w1) = env.now w in
      let (fired, w2) = env.sleep interval w1 in
      let (answer, w3) = poll w2 in
      let later = poll_until fuel interval deadline poll w3 in
      if ltb deadline t
      then (polled_to (inl (opaque "poll timeout")), w1)
      else if fired
      then go_by answer w3 later
      else (polled_to (inl (opaque "context")), w2)

  -- The loop with the deadline that it sets.
  unfoldable pub poll_result : ℕ → SolverAccount → (W → Poll × W) → W → Polled × W
  unfolding poll_until
  poll_result fuel s poll w =
      let (t, w1) = env.now w in poll_until fuel s.poll_interval (t + s.poll_timeout) poll w1

module _ {W : Type 0} (env : Remote W) (lib : Formats) (s : SolverAccount) where
  abbrev judge_two_captcha : Err ⊎ TwoCaptchaReply → Poll
  judge_two_captcha (inl e) = ends (inl e)
  judge_two_captcha (inr r) =
      if str_eq r.request "CAPCHA_NOT_READY"
      then not_ready
      else if is_empty r.request
      then if r.status == 0
        then ends (inl (opaque "solve failed: empty response"))
        else if r.status == 1
        then ends (inr r.request)
        else ends (inl (opaque "solve failed"))
      else if r.status == 1
      then ends (inr r.request)
      else ends (inl (opaque "solve failed"))

  abbrev judged_two : Err ⊎ String → Poll
  judged_two (inl e) = ends (inl e)
  judged_two (inr body) = judge_two_captcha (lib.two_captcha body)

  -- One poll of pollResult.
  unfoldable pub poll_two_captcha : String → W → Poll × W
  poll_two_captcha task_id w =
      let (answer, w1) =
        env.ask
          (record {
            method = "GET";
            url =
                s.base_url
                ^^ "/res.php?"
                ^^ lib.encode
                    (("key", s.api_key) ∷ ("action", "get") ∷ ("id", task_id) ∷ ("json", "1") ∷ []);
            headers = [];
            body = "";
          })
          w in
      (judged_two answer, w1)

  abbrev task_of : Err ⊎ TwoCaptchaReply → Err ⊎ String
  task_of (inl e) = inl e
  task_of (inr r) = if r.status == 1 then inr r.request else inl (opaque r.request)

  abbrev submitted : Err ⊎ String → Err ⊎ String
  submitted (inl e) = inl e
  submitted (inr body) = task_of (lib.two_submitted body)

  -- submitTask
  unfoldable pub submit_task : List (String × String) → W → (Err ⊎ String) × W
  submit_task params w =
      let (answer, w1) =
        env.ask
          (record {
            method = "POST";
            url = s.base_url ^^ "/in.php";
            headers = ("Content-Type", "application/x-www-form-urlencoded") ∷ [];
            body = lib.encode params;
          })
          w in
      (submitted answer, w1)

  abbrev task_params : String → String → String → String → List (String × String)
  task_params method key_name site_key page =
      ("key", s.api_key)
      ∷ ("method", method)
      ∷ (key_name, site_key)
      ∷ ("pageurl", page)
      ∷ ("json", "1")
      ∷ []

  abbrev with_key : String → String → (Err ⊎ String) × W → W → (Err ⊎ String) × W
  with_key site_key what sent w = if is_empty site_key then (inl (opaque what), w) else sent

  -- The submission for each kind of challenge. The one for hCaptcha and that for Turnstile ask for a
  -- key; for reCAPTCHA v2 and an unknown challenge the caller does, and for reCAPTCHA v3 none does.
  unfoldable pub submit : Challenge → String → String → W → (Err ⊎ String) × W
  unfolding submit_task
  submit hcaptcha page key w =
      with_key key "no hcaptcha site key found"
        (submit_task (task_params "hcaptcha" "sitekey" key page) w) w
  submit turnstile page key w =
      with_key key "no turnstile site key found"
        (submit_task (task_params "turnstile" "sitekey" key page) w) w
  submit recaptcha_v3 page key w =
      submit_task
        (("version", "v3")
          ∷ ("action", "verify")
          ∷ ("min_score", "0.5")
          ∷ task_params "userrecaptcha" "googlekey" key page)
        w
  submit recaptcha_v2 page key w = submit_task (task_params "userrecaptcha" "googlekey" key page) w
  submit unknown page key w = submit_task (task_params "userrecaptcha" "googlekey" key page) w

  abbrev pub solution_of : String → Polled → Option (Err ⊎ ChallengeSolution)
  solution_of context out_of_turns = none
  solution_of context (polled_to (inl e)) = some (inl (wrapped context e))
  solution_of context (polled_to (inr t)) =
      some (inr (record { cookies = []; user_agent = ""; token = t }))

  abbrev pub after_submit :
      ℕ → (String → W → Poll × W) → (Err ⊎ String) × W → Option (Err ⊎ ChallengeSolution) × W
  after_submit fuel poll (inl e, w) = (some (inl (wrapped "submit" e)), w)
  after_submit fuel poll (inr id, w) =
      let (r, w1) = poll_result env fuel s (poll id) w in (solution_of "poll" r, w1)

  -- Whether Solve gives up before it submits anything.
  abbrev pub lacks_key : Challenge → String → Bool
  lacks_key hcaptcha key = false
  lacks_key recaptcha_v3 key = false
  lacks_key turnstile key = false
  lacks_key recaptcha_v2 key = is_empty key
  lacks_key unknown key = is_empty key

  -- TwoCaptchaSolver.Solve; `none` when the fuel of the polling ran out.
  unfoldable pub two_captcha_solve :
      ℕ → String → BlockInfo → String → W → Option (Err ⊎ ChallengeSolution) × W
  unfolding submit poll_two_captcha challenge_type extract_site_key poll_result
  two_captcha_solve fuel page info body w =
      let kind = challenge_type body info.signal in
      let key = extract_site_key lib body in
      let polled = after_submit fuel poll_two_captcha (submit kind page key w) in
      if lacks_key kind key
      then (some (inl (opaque "2captcha: no site key found in challenge page")), w)
      else polled

  abbrev keyed : String → String → List (String × String) → Err ⊎ List (String × String)
  keyed site_key what task = if is_empty site_key then inl (opaque what) else inr task

  abbrev task_object : String → String → String → List (String × String)
  task_object type page site_key =
      ("type", type) ∷ ("websiteURL", page) ∷ ("websiteKey", site_key) ∷ []

  -- buildTask
  unfoldable pub build_task : String → String → Challenge → Err ⊎ List (String × String)
  build_task page key hcaptcha =
      keyed key "no hcaptcha site key found" (task_object "HCaptchaTaskProxyless" page key)
  build_task page key recaptcha_v3 = keyed key "no recaptcha v3 site key found" (
      ("pageAction", "verify")
      ∷ ("minScore", "0.5")
      ∷ task_object "ReCaptchaV3TaskProxyless" page key)
  build_task page key turnstile =
      keyed key "no turnstile site key found" (task_object "AntiTurnstileTaskProxyless" page key)
  build_task page key recaptcha_v2 =
      keyed key "no site key found in challenge page"
        (task_object "ReCaptchaV2TaskProxyless" page key)
  build_task page key unknown =
      keyed key "no site key found in challenge page"
        (task_object "ReCaptchaV2TaskProxyless" page key)

  abbrev json_request : String → String → Request
  json_request path body = record {
    method = "POST";
    url = s.base_url ^^ path;
    headers = ("Content-Type", "application/json") ∷ [];
    body = body;
  }

  abbrev id_of : Err ⊎ CapCreated → Err ⊎ String
  id_of (inl e) = inl e
  id_of (inr r) = if r.error_id == 0 then inr r.task_id else inl (opaque r.error_text)

  abbrev created : Err ⊎ String → Err ⊎ String
  created (inl e) = inl e
  created (inr body) = id_of (lib.created body)

  abbrev send_task : Err ⊎ List (String × String) → W → (Err ⊎ String) × W
  send_task (inl e) w = (inl e, w)
  send_task (inr task) w =
      let (answer, w1) = env.ask (json_request "/createTask" (lib.marshal_task s.api_key task)) w in
      (created answer, w1)

  -- createTask
  unfoldable pub create_task : String → String → Challenge → W → (Err ⊎ String) × W
  unfolding build_task
  create_task page key kind w = send_task (build_task page key kind) w

  abbrev ready : CapPolled → Poll
  ready r =
      if is_empty r.g_recaptcha_response
      then if is_empty r.token
        then ends (inl (opaque "ready but solution token is empty"))
        else ends (inr r.token)
      else ends (inr r.g_recaptcha_response)

  abbrev judge_cap : Err ⊎ CapPolled → Poll
  judge_cap (inl e) = ends (inl e)
  judge_cap (inr r) =
      if not (r.error_id == 0)
      then ends (inl (opaque r.error_text))
      else if str_eq r.status "processing"
      then not_ready
      else if str_eq r.status "ready"
      then ready r
      else ends (inl (opaque "unexpected status"))

  abbrev judged_cap : Err ⊎ String → Poll
  judged_cap (inl e) = ends (inl e)
  judged_cap (inr body) = judge_cap (lib.polled body)

  -- One poll of getTaskResult.
  unfoldable pub poll_cap : String → W → Poll × W
  poll_cap task_id w =
      let (answer, w1) =
        env.ask (json_request "/getTaskResult" (lib.marshal_poll s.api_key task_id)) w in
      (judged_cap answer, w1)

  -- CapSolverSolver.Solve
  unfoldable pub cap_solver_solve :
      ℕ → String → BlockInfo → String → W → Option (Err ⊎ ChallengeSolution) × W
  unfolding create_task poll_cap challenge_type extract_site_key poll_result
  cap_solver_solve fuel page info body w =
      after_submit fuel poll_cap
        (create_task page (extract_site_key lib body) (challenge_type body info.signal) w)
