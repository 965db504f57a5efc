-- ===== src/Client/Success.antt =====
-- client.go: what a result of the request loop tells of the server.
use go_ddgs_stealth.Common.{
  ℕ, zero, suc, ◌<◌, ◌≡◌, ◌⊎◌, inl, inr, refl, String, true, false, ◌&&◌, Option, none, some, List,
  [], ◌∷◌, leb, Bool-cases, ltb, arith,
}
use go_ddgs_stealth.Common.Text.{is_empty}
use go_ddgs_stealth.Client.{
  Request, HttpReply, Sent, no_reply, replied, Env, Ctx, Result, ok, err, crash, out_of_fuel,
  is_blocked_status, blocked_detector, BodyPattern,
}
use go_ddgs_stealth.Client.Loop.{
  check_circuit, take_turn, sleep_backoff, send_built, accepted, judge_reply, returns, on_reply,
  on_sent, exchange, build_and_send, turn, Builder, retry_from, do_with_retry,
}
use go_ddgs_stealth.Client.Bounded.{IsModest, turn-settings}
use go_ddgs_stealth.Client.Settings.{
  Settings, settings, settings-exchange, shape-check_circuit, shape-take_turn, shape-sleep_backoff,
}

-- No pattern matches a body, but that a pattern of empty source that matches hides those after it:
-- the code takes its source for "no pattern".
abbrev pub Unmatched : List BodyPattern → String → Type 0
Unmatched [] body = Unit
Unmatched (p ∷ ps) body =
    ((p.matches body ≡ false) × Unmatched ps body)
    ⊎ ((p.matches body ≡ true) × (is_empty p.source ≡ true))

blocked_detector-Unmatched :
    (ps : List BodyPattern) (body : String)
    → is_empty (blocked_detector ps body) ≡ true
    → Unmatched ps body
unfolding blocked_detector
blocked_detector-Unmatched [] body h = tt
blocked_detector-Unmatched (p ∷ ps) body h = elim (Bool-cases (p.matches body)) [
  | inl e ↦ inr (e, rw e at h)
  | inr e ↦ inl (e, blocked_detector-Unmatched ps body (rw e at h))
]

-- A reply that the settings let pass: read to its end, of a status in 200–299 that is not listed as
-- blocked, with a body for which the detector of blocked bodies names no pattern.
pub record IsClean {W : Type 0} (s : Settings W) (r : HttpReply) : Type 0 where
  read : r.read_error ≡ none
  two_hundreds : (leb 200 r.status_code && ltb r.status_code 300) ≡ true
  unlisted : is_blocked_status s.blocked r.status_code ≡ false
  undetected : is_empty (blocked_detector s.blocked_re r.body) ≡ true

module _ {W : Type 0} (env : Env W) where
  IsClean-judge_reply :
      (i : ℕ) (r : HttpReply) (c : Ctx W) (body : String)
      → (judge_reply env i r c).0 ≡ accepted body
      → (r.body ≡ body) × IsClean (settings c) r
  unfolding judge_reply
  IsClean-judge_reply i r c body e = ground (arith)

  IsClean-on_reply :
      (i : ℕ) (req : Request) (r : HttpReply) (c : Ctx W) (body : String)
      → (on_reply env i req r c).0 ≡ returns (ok body)
      → (r.body ≡ body) × IsClean (settings c) r
  unfolding on_reply
  IsClean-on_reply i req r c body e = grind (arith, IsClean-judge_reply i r c)

  -- What the server replied to a request, with a reply that the settings let pass.
  pub record Delivered (s : Settings W) (body : String) : Type 0 where
    req : Request
    before : Ctx W
    after : Ctx W
    reply : HttpReply
    exchanged : exchange env req before ≡ some (replied reply, after)
    clean : IsClean s reply
    unmatched : Unmatched s.blocked_re body
    same_body : reply.body ≡ body

  on_sent-Delivered :
      (i : ℕ) (req : Request) (o : Option (Sent × Ctx W)) (c : Ctx W) (body : String)
      → exchange env req c ≡ o
      → (on_sent env i req o c).0 ≡ returns (ok body)
      → Delivered (settings c) body
  unfolding on_sent
  on_sent-Delivered i req none c body sent e = ground (arith)
  on_sent-Delivered i req (some (no_reply x, c')) c body sent e = ground (arith)
  on_sent-Delivered i req (some (replied r, c')) c body sent e =
      let (same, passed) = IsClean-on_reply i req r c' body e in
      let clean : IsClean (settings c) r =
        ground (arith, passed, settings-exchange env req c c' (replied r) sent) in
      record {
        req = req;
        before = c;
        after = c';
        reply = r;
        exchanged = sent;
        clean = clean;
        unmatched =
            rw (← same)
              (blocked_detector-Unmatched (settings c).blocked_re r.body clean.undetected);
        same_body = same;
      }

  send_built-Delivered :
      (i : ℕ) (made : Result Request) (c : Ctx W) (body : String)
      → (send_built env i made c).0 ≡ returns (ok body)
      → Delivered (settings c) body
  unfolding send_built
  send_built-Delivered i (ok req) c body e =
      on_sent-Delivered i req (exchange env req c) c body refl e
  send_built-Delivered i (err x) c body e = ground (arith)
  send_built-Delivered i crash c body e = ground (arith)
  send_built-Delivered i out_of_fuel c body e = ground (arith)

  turn-sent :
      (i : ℕ) (build : Builder env) (c : Ctx W) (body : String)
      → (turn env i build c).0 ≡ returns (ok body)
      → let c2 = (take_turn env (check_circuit env i c).1).1 in
        (send_built env i (build c2).0 (build c2).1).0 ≡ returns (ok body)
  unfolding turn build_and_send
  turn-sent i build c body e = ground (arith)

  module _ (build : Builder env) (b : ℕ) where
    turn-Delivered :
        (i : ℕ) (c : Ctx W) (body : String)
        → IsModest env (settings c) build b
        → (turn env i build c).0 ≡ returns (ok body)
        → Delivered (settings c) body
    turn-Delivered i c body modest e =
        let c1 = (check_circuit env i c).1 in
        let c2 = (take_turn env c1).1 in
        let kept_2 : settings c2 ≡ settings c =
          ground (arith, shape-check_circuit env i c, shape-take_turn env c1) in
        let kept : settings c ≡ settings (build c2).1 = ground (arith, modest.keeps c2 kept_2) in
        rw kept (send_built-Delivered i (build c2).0 (build c2).1 body (turn-sent i build c body e))

    -- How a result comes about: by this turn, by the next at the same count, or after the backoff.
    came_by :
        (fuel i : ℕ) (c c' : Ctx W) (body : String)
        → retry_from env (suc fuel) i build c ≡ some (ok body, c')
        → let c1 = (turn env i build c).1 in
          ((turn env i build c).0 ≡ returns (ok body))
          ⊎ ((retry_from env fuel i build c1 ≡ some (ok body, c'))
              ⊎ (retry_from env fuel (suc i) build (sleep_backoff env i c1).1 ≡ some (ok body, c')))
    unfolding retry_from
    came_by fuel i c c' body e = ground (arith)

    retry_from-Delivered :
        (fuel i : ℕ) (c c' : Ctx W) (body : String)
        → IsModest env (settings c) build b
        → retry_from env fuel i build c ≡ some (ok body, c')
        → Delivered (settings c) body
    unfolding retry_from
    retry_from-Delivered zero i c c' body modest e = ground (arith)
    retry_from-Delivered (suc fuel) i c c' body modest e =
        let c1 = (turn env i build c).1 in
        let c2 = (sleep_backoff env i c1).1 in
        let kept_1 : settings c ≡ settings c1 =
          ground (arith, turn-settings env build b i c modest) in
        let kept_2 : settings c ≡ settings c2 =
          ground (arith, kept_1, shape-sleep_backoff env i c1) in
        elim (came_by fuel i c c' body e) [
          | inl now ↦ turn-Delivered i c body modest now
          | inr (inl repeated) ↦
              rw kept_1 (retry_from-Delivered fuel i c1 c' body (rw kept_1 at modest) repeated)
          | inr (inr retried) ↦
              rw kept_2 (retry_from-Delivered fuel (suc i) c2 c' body (rw kept_2 at modest) retried)
        ]

    -- A body that `doWithRetry` returns without an error, where RetryMax is not 0 and the builder of
    -- requests keeps the client's settings and sends at most `b` requests of its own each time, is
    -- the whole body of a reply that the server gave to a request. That reply was read without an
    -- error, its status is in 200–299 and not one of the statuses listed as blocked, and no pattern
    -- for blocked bodies matches it, of those up to the first pattern of empty source that matches.
    pub do_with_retry-Delivered :
        (fuel : ℕ) (c c' : Ctx W) (body : String)
        → IsModest env (settings c) build b
        → 0 < c.client.retry_max
        → do_with_retry env fuel build c ≡ some (ok body, c')
        → Delivered (settings c) body
    unfolding do_with_retry
    do_with_retry-Delivered fuel c c' body modest positive e =
        retry_from-Delivered fuel 0 c c' body modest (ground arith)
