-- ===== src/AntiBot/Build.antt =====
-- What `buildAntiBotState` puts together.
use go_ddgs_stealth.Common.{ℕ, ◌≡◌, refl, String, true, false, some, List, arith, ◌<◌}
use go_ddgs_stealth.Solver.{Cookie}
use go_ddgs_stealth.Session.{
  Heap, SessionManager, new_jar, new_session_manager, invalidate, cookies_for, set_cookies,
  has_cookies_for,
}
use go_ddgs_stealth.Session.Jars.{invalidate_jars}
use go_ddgs_stealth.AntiBot.{AntiBotConfig, build_anti_bot_state}

-- With session warm-up configured, the HTTP client is given the session's own jar; but once a block
-- has invalidated the session, the client still has the old jar with all its cookies, while the
-- session looks into a new, empty one.
pub build-invalidate :
    {W : Type 0} (cfg : AntiBotConfig W) (heap : Heap) (host : String) (cs : List Cookie)
    → cfg.session_warmup ≡ true
    → let (st, hc, heap1) = build_anti_bot_state cfg heap in
      (s : SessionManager) × (jar : ℕ) × (st.session ≡ some s)
      × (hc.jar ≡ some jar)
      × (s.jar ≡ jar)
      × (let heap2 = set_cookies heap1 jar host cs in
          let (s', heap3) = invalidate s heap2 in
          (cookies_for heap3 jar host ≡ cookies_for heap2 jar host)
          × (has_cookies_for s' heap3 host ≡ false))
unfolding build_anti_bot_state new_session_manager new_jar
build-invalidate cfg heap host cs on =
    let s = (new_session_manager cfg.warmup_ttl heap).0 in
    let heap2 = set_cookies (new_jar heap).1 heap.fresh host cs in
    let allocated : heap.fresh < heap2.fresh = unfold set_cookies in omega arith in
    let facts = invalidate_jars s heap2 heap.fresh host allocated in
    rw on (s, heap.fresh, refl, refl, refl, (facts.1, facts.0))
