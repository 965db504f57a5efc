-- ===== src/Fetcher/Volume.antt =====
-- fetcher.go: how many requests a fetch sends.
use go_ddgs_stealth.Common.{
  ℕ, suc, ◌+◌, ◌≤◌, ◌≡◌, refl, String, Bool, true, false, ◌⊎◌, inl, inr, Option, none, some, arith,
  if◌then◌else◌,
}
use Prim.Native.String
use go_ddgs_stealth.Common.Text.{trim_space, take}
use go_ddgs_stealth.Breaker.{Time}
use go_ddgs_stealth.Errors.{Err}
use go_ddgs_stealth.Detect.{BlockInfo, detect_block_signal}
use go_ddgs_stealth.Session.{SessionManager, warmup}
use go_ddgs_stealth.Client.{Request, HttpReply, Sent, no_reply, replied, Env, Ctx, Result}
use go_ddgs_stealth.Client.Loop.{read_clock, exchange, limiter_wait}
use go_ddgs_stealth.Client.Settings.{sent_in, settings-exchange}
use go_ddgs_stealth.Fetcher.{FetchRequest, FetchResponse}
use go_ddgs_stealth.Fetcher.Http.{
  Stealth, FetchLib, home_page, build_request, warm_answer, warm_built, warm_get, warm_with,
  warm_session, circuit_open, await_turn, note_block, note_success, ask_solvers, judge_fetch,
  after_exchange, send_fetch, fetch_round, fetch_at, refusal, fetch_url, fetch_http,
}

module _ {W : Type 0} (env : Env W) (lib : FetchLib) (o : Stealth W) where
  abbrev sent : Ctx W → ℕ
  sent c = sent_in c.trace

  sent-circuit_open : (c : Ctx W) → sent (circuit_open env lib o c).1 ≡ sent c
  unfolding circuit_open
  sent-circuit_open c = grind (arith)

  sent-await_turn : (c : Ctx W) → sent (await_turn env lib o c).1 ≡ sent c
  unfolding await_turn limiter_wait
  sent-await_turn c = grind (arith)

  sent-note_block : (c : Ctx W) → sent (note_block env lib o c) ≡ sent c
  unfolding note_block
  sent-note_block c = grind (arith)

  sent-note_success : (c : Ctx W) → sent (note_success env lib o c) ≡ sent c
  unfolding note_success
  sent-note_success c = grind (arith)

  sent-ask_solvers :
      (b : Bool) (raw : String) (info : BlockInfo) (body : String) (c : Ctx W)
      → sent (ask_solvers env lib o b raw info body c).1 ≡ sent c
  unfolding ask_solvers
  sent-ask_solvers true raw info body c = grind (arith)
  sent-ask_solvers false raw info body c = refl

  -- What an exchange with a reply adds.
  abbrev Adds : Ctx W → Option (Sent × Ctx W) → Type 0
  Adds c x = (a : Sent) (d : Ctx W) → x ≡ some (a, d) → sent d ≡ suc (sent c)

  exchange-Adds : (req : Request) (c : Ctx W) → Adds c (exchange env req c)
  exchange-Adds req c a d e = (settings-exchange env req c d a e).1

  sent-warm_answer :
      (c : Ctx W) (x : Option (Sent × Ctx W))
      → Adds c x
      → sent (warm_answer env lib o c x).1.1 ≤ sent c + 1
  sent-warm_answer c none h = omega arith
  sent-warm_answer c (some (no_reply e, d)) h = omega (arith, h (no_reply e) d refl)
  sent-warm_answer c (some (replied r, d)) h = omega (arith, h (replied r) d refl)

  sent-warm_built :
      (e : Option Err) (url : String) (c : Ctx W)
      → sent (warm_built env lib o e url c).1.1 ≤ sent c + 1
  sent-warm_built (some e) url c = omega arith
  sent-warm_built none url c = sent-warm_answer c _ (exchange-Adds _ c)

  sent-warm_get :
      (url : String) (b : Bool) (c : Ctx W) → sent (warm_get env lib o url (b, c)).1.1 ≤ sent c + 1
  sent-warm_get url true c = omega arith
  sent-warm_get url false c = sent-warm_built (lib.refuses "GET" url) url c

  sent-warm_with :
      (s : SessionManager) (home : String) (c : Ctx W)
      → sent (warm_with env lib o s home c).1 ≤ sent c + 2
  unfolding warmup
  sent-warm_with s home c =
      let c2 = (read_clock env (read_clock env c).1).1 in
      let m1 = (warm_get env lib o home (false, c2)).1 in
      ground (arith, sent-warm_get home false c2, sent-warm_get (String.◌++◌ home "?q=") m1.0 m1.1)

  sent-warm_session :
      (home : String) (c : Ctx W) → sent (warm_session env lib o home c).1 ≤ sent c + 2
  unfolding warm_session
  sent-warm_session home c = grind (arith, λ (s : SessionManager). sent-warm_with s home c)

  abbrev Call : Type 0
  Call = Ctx W → Result FetchResponse × Ctx W

  sent-if :
      (b : Bool) (x y : Result FetchResponse × Ctx W) (n : ℕ)
      → sent x.1 ≤ n
      → sent y.1 ≤ n
      → sent (if b then x else y).1 ≤ n
  sent-if true x y n h k = h
  sent-if false x y n h k = k

  sent-judge_fetch :
      (b : Bool) (again : Call) (n : ℕ) (raw : String) (t : Time) (req : Request) (r : HttpReply)
      (c : Ctx W)
      → ((d : Ctx W) → sent (again d).1 ≤ sent d + n)
      → sent (judge_fetch env lib o b again raw t req r c).1 ≤ sent c + n
  sent-judge_fetch b again n raw t req r c h =
      let body = take o.max_body_bytes r.body in
      let info = detect_block_signal r.status_code r.header body in
      let noted = note_block env lib o c in
      let asked = (ask_solvers env lib o b raw info body noted).1 in
      ground (
        arith,
        sent-note_block c,
        sent-ask_solvers b raw info body noted,
        h asked,
        sent-note_success c,
      )

  sent-send_fetch :
      (b : Bool) (again : Call) (n : ℕ) (raw : String) (made : Err ⊎ Request) (c : Ctx W)
      → ((d : Ctx W) → sent (again d).1 ≤ sent d + n)
      → sent (send_fetch env lib o b again raw made c).1 ≤ sent c + (1 + n)
  sent-send_fetch b again n raw (inl e) c h = omega arith
  sent-send_fetch b again n raw (inr req) c h =
      go (exchange env req (read_clock env c).1) (exchange-Adds req (read_clock env c).1)
    where
      go :
          (x : Option (Sent × Ctx W))
          → Adds (read_clock env c).1 x
          → sent
              (after_exchange env lib o b again raw
                (read_clock env c).0
                req
                x
                (read_clock env c).1).1
            ≤ sent c + (1 + n)
      go none e = omega arith
      go (some (no_reply m, d)) e = ground (arith, e (no_reply m) d refl)
      go (some (replied r, d)) e = omega (
        arith,
        sent-judge_fetch b again n raw (read_clock env c).0 req r d h,
        e (replied r) d refl,
      )

  sent-fetch_round :
      (b : Bool) (again : Call) (n : ℕ) (raw home : String) (req : FetchRequest) (c : Ctx W)
      → ((d : Ctx W) → sent (again d).1 ≤ sent d + n)
      → sent (fetch_round env lib o b again raw home req c).1 ≤ sent c + (3 + n)
  unfolding fetch_round
  sent-fetch_round b again n raw home req c h =
      let c1 = (circuit_open env lib o c).1 in
      let c2 = (await_turn env lib o c1).1 in
      let c3 = (warm_session env lib o home c2).1 in
      ground (
        arith,
        sent-circuit_open c,
        sent-await_turn c1,
        sent-warm_session home c2,
        sent-send_fetch b again n raw (build_request lib o req raw) c3 h,
      )

  sent-fetch_at :
      (req : FetchRequest) (home : Option String) (c : Ctx W)
      → sent (fetch_at env lib o true req home c).1 ≤ sent c + 6
  sent-fetch_at req none c = omega arith
  sent-fetch_at req (some home) c =
      sent-fetch_round true _ 3 _ home req c
        (λ d. sent-fetch_round false (refusal env lib o) 0 _ home req d (λ d'. omega arith))

  -- However often the server blocks and whatever the solvers answer, a call of Fetch sends at most 6
  -- requests: twice the request itself with two for the warm-up of the session.
  pub sent-fetch_http :
      (req : FetchRequest) (c : Ctx W)
      → sent_in (fetch_http env lib o req c).1.trace ≤ sent_in c.trace + 6
  unfolding fetch_http fetch_url
  sent-fetch_http req c = sent-fetch_at req (home_page lib (trim_space req.url)) c
