-- ===== src/Fetcher/Clean.antt =====
-- fetcher.go: what a fetch returns, and how many requests it sends.
use go_ddgs_stealth.Common.{
  ◌≡◌, refl, String, Bool, true, false, not, ◌⊎◌, inl, inr, Option, none, some, if◌then◌else◌,
}
use go_ddgs_stealth.Common.Text.{trim_space, take}
use go_ddgs_stealth.Breaker.{Time}
use go_ddgs_stealth.Errors.{Err, err_circuit_open}
use go_ddgs_stealth.Detect.{detect_block_signal, is_detected}
use go_ddgs_stealth.Client.{
  Request, HttpReply, Sent, no_reply, replied, Env, Ctx, Result, ok, err, crash, out_of_fuel,
  ctx_done,
}
use go_ddgs_stealth.Client.Loop.{read_clock, exchange}
use go_ddgs_stealth.Fetcher.{FetchRequest, FetchResponse}
use go_ddgs_stealth.Fetcher.Http.{
  Stealth, FetchLib, home_page, build_request, warm_session, circuit_open, await_turn, note_block,
  ask_solvers, answer_of, answer_block, judge_fetch, read_fault, unread_or, after_exchange,
  send_fetch, fetch_round, fetch_at, refusal, fetch_url, fetch_http,
}

-- A response of the fetcher "http" that shows no block.
abbrev pub IsClean : Result FetchResponse → Type 0
IsClean (ok r) =
    (is_detected (detect_block_signal r.status_code r.headers r.body) ≡ false)
    × (r.fetcher ≡ "http")
IsClean (err e) = Unit
IsClean crash = Unit
IsClean out_of_fuel = Unit

module _ {W : Type 0} (env : Env W) (lib : FetchLib) (o : Stealth W) where
  abbrev Call : Type 0
  Call = Ctx W → Result FetchResponse × Ctx W

  IsClean-if :
      (b : Bool) (x y : Result FetchResponse × Ctx W)
      → (b ≡ true → IsClean x.0)
      → (b ≡ false → IsClean y.0)
      → IsClean (if b then x else y).0
  IsClean-if true x y h k = h refl
  IsClean-if false x y h k = k refl

  unread_or-IsClean :
      (e : Option String) (c : Ctx W) (x : Result FetchResponse × Ctx W)
      → IsClean x.0
      → IsClean (unread_or env lib o e c x).0
  unread_or-IsClean none c x h = h
  unread_or-IsClean (some e) c x h = tt

  judge_fetch-IsClean :
      (may_solve : Bool) (again : Call) (raw : String) (started : Time) (req : Request)
      (r : HttpReply) (c : Ctx W)
      → ((d : Ctx W) → IsClean (again d).0)
      → IsClean (judge_fetch env lib o may_solve again raw started req r c).0
  judge_fetch-IsClean may_solve again raw started req r c h =
      let body = take o.max_body_bytes r.body in
      let info = detect_block_signal r.status_code r.header body in
      let asked = ask_solvers env lib o may_solve raw info body (note_block env lib o c) in
      let blocked = answer_block env lib o may_solve again raw info r c in
      let fine = answer_of env lib o raw started req r c in
      unread_or-IsClean (read_fault env lib o r) c (if is_detected info then blocked else fine) (
        IsClean-if (is_detected info) blocked fine
          (λ b. IsClean-if asked.0 (again asked.1) (err _, asked.1) (λ s. h asked.1) (λ s. tt))
          (λ b. (b, refl)))

  send_fetch-IsClean :
      (may_solve : Bool) (again : Call) (raw : String) (made : Err ⊎ Request) (c : Ctx W)
      → ((d : Ctx W) → IsClean (again d).0)
      → IsClean (send_fetch env lib o may_solve again raw made c).0
  send_fetch-IsClean may_solve again raw (inl e) c h = tt
  send_fetch-IsClean may_solve again raw (inr req) c h =
      go (read_clock env c).0 (exchange env req (read_clock env c).1) (read_clock env c).1
    where
      go :
          (t : Time) (sent : Option (Sent × Ctx W)) (d : Ctx W)
          → IsClean (after_exchange env lib o may_solve again raw t req sent d).0
      go t none d = tt
      go t (some (no_reply e, d1)) d = tt
      go t (some (replied r, d1)) d = judge_fetch-IsClean may_solve again raw t req r d1 h

  fetch_round-IsClean :
      (may_solve : Bool) (again : Call) (raw home : String) (req : FetchRequest) (c : Ctx W)
      → ((d : Ctx W) → IsClean (again d).0)
      → IsClean (fetch_round env lib o may_solve again raw home req c).0
  unfolding fetch_round
  fetch_round-IsClean may_solve again raw home req c h =
      let tripped = circuit_open env lib o c in
      let in_time = await_turn env lib o tripped.1 in
      let crashed = warm_session env lib o home in_time.1 in
      let sent = send_fetch env lib o may_solve again raw (build_request lib o req raw) crashed.1 in
      let warmed : Result FetchResponse × Ctx W = if crashed.0 then (crash, crashed.1) else sent in
      let awaited : Result FetchResponse × Ctx W =
        if not in_time.0 then (err ctx_done, in_time.1) else warmed in
      IsClean-if tripped.0 (err err_circuit_open, tripped.1) awaited (λ b. tt)
        (λ b.
          IsClean-if (not in_time.0) (err ctx_done, in_time.1) warmed (λ d. tt)
            (λ d.
              IsClean-if crashed.0 (crash, crashed.1) sent (λ e. tt)
                (λ e.
                  send_fetch-IsClean may_solve again raw (build_request lib o req raw) crashed.1
                    h)))

  fetch_at-IsClean :
      (req : FetchRequest) (home : Option String) (c : Ctx W)
      → IsClean (fetch_at env lib o true req home c).0
  fetch_at-IsClean req none c = tt
  fetch_at-IsClean req (some home) c =
      fetch_round-IsClean true _ _ home req c
        (λ d. fetch_round-IsClean false (refusal env lib o) _ home req d (λ d'. tt))

  -- A response that Fetch returns without an error shows no block to the detector, and is of the
  -- fetcher "http".
  pub fetch_http-IsClean : (req : FetchRequest) (c : Ctx W) → IsClean (fetch_http env lib o req c).0
  unfolding fetch_http fetch_url
  fetch_http-IsClean req c = fetch_at-IsClean req (home_page lib (trim_space req.url)) c
