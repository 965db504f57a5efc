-- ===== src/Session.antt =====
-- session.go: the session manager, with the cookie jars that it and the HTTP client point to.
-- A `*cookiejar.Jar` is an address in a heap of jars, so that two holders of one jar, or a holder of
-- a jar that another has given up, are told apart. A jar keeps the cookies set for each host; paths,
-- expiry and sub-domains are left out. A GET of the warm-up is a parameter that returns whether it
-- succeeded. Other goroutines do not interleave.
pub mod Warmup
pub mod Jars
use Prim.Native.String
use go_ddgs_stealth.Common.{
  ℕ, suc, ◌-◌, ◌*◌, ◌+◌, ◌<◌, ◌≡◌, String, Bool, true, false, not, ◌&&◌, ◌||◌, Option, none, some,
  List, [], ◌++◌, ltb, leb, ◌==◌, if◌then◌else◌,
}
use go_ddgs_stealth.Common.Int.{ℤ, or_default}
use go_ddgs_stealth.Common.Dict
use go_ddgs_stealth.Common.Dict.{Dict}
use go_ddgs_stealth.Breaker.{Time, second}
use go_ddgs_stealth.Solver.{Cookie}

abbrev pub Jar : Type 0
Jar = Dict (List Cookie)

-- The jars allocated so far have the addresses below `fresh`.
pub record Heap : Type 0 where
  pub fresh : ℕ
  pub jar_at : ℕ → Jar

abbrev pub empty_heap : Heap
empty_heap = record { fresh = 0; jar_at = λ a. [] }

-- cookiejar.New(nil)
unfoldable pub new_jar : Heap → ℕ × Heap
new_jar heap =
    let a = heap.fresh in
    (a, record { fresh = suc a; jar_at = λ b. if b == a then [] else heap.jar_at b })

abbrev pub or_no_cookies : Option (List Cookie) → List Cookie
or_no_cookies none = []
or_no_cookies (some cs) = cs

-- jar.Cookies(u), of the host of u
unfoldable pub cookies_for : Heap → ℕ → String → List Cookie
cookies_for heap a host = or_no_cookies (Dict.lookup host (heap.jar_at a))

-- jar.SetCookies(u, cookies)
unfoldable pub set_cookies : Heap → ℕ → String → List Cookie → Heap
unfolding cookies_for
set_cookies heap a host cs = record heap {
  jar_at = λ b.
      if b == a
      then Dict.insert host (cookies_for heap a host ++ cs) (heap.jar_at a)
      else heap.jar_at b;
}

pub record SessionManager : Type 0 where
  pub jar : ℕ
  pub warmed_up : Bool
  pub last_warmup : Time
  pub warmup_ttl : ℕ

unfoldable pub new_session_manager : ℤ → Heap → SessionManager × Heap
new_session_manager ttl heap =
    let (a, heap') = new_jar heap in
    (
      record {
        jar = a;
        warmed_up = false;
        last_warmup = 0;
        warmup_ttl = or_default ttl (20 * 60 * second);
      },
      heap',
    )

unfoldable pub needs_warmup : SessionManager → Time → Bool
needs_warmup s now = not s.warmed_up || ltb s.warmup_ttl (now - s.last_warmup)

unfoldable pub mark_warmed : SessionManager → Time → SessionManager
mark_warmed s now = record s { warmed_up = true; last_warmup = now }

unfoldable pub invalidate : SessionManager → Heap → SessionManager × Heap
invalidate s heap =
    let (a, heap') = new_jar heap in (record s { warmed_up = false; jar = a }, heap')

-- HasCookiesFor, at the host of a URL that parses
unfoldable pub has_cookies_for : SessionManager → Heap → String → Bool
unfolding cookies_for
has_cookies_for s heap host = elim (cookies_for heap s.jar host) [ [] ↦ false | _ ↦ true ]

-- The result of Warmup: whether the error is nil, the session, and the world.
module _ {W : Type 0} (now : W → Time × W) (get : String → W → Bool × W) where
  unfoldable pub warmup : SessionManager → String → W → Bool × SessionManager × W
  unfolding mark_warmed
  warmup s home w =
      let (t, w1) = now w in
      let (first, w2) = get home w1 in
      let (probe, w3) = get (String.◌++◌ home "?q=") w2 in
      let (done, w4) = now w3 in
      if s.warmed_up && leb (t - s.last_warmup) s.warmup_ttl
      then (true, s, w1)
      else if first
      then (true, mark_warmed s done, w4)
      else (false, s, w2)
