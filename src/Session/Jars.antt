-- ===== src/Session/Jars.antt =====
-- Which cookies an invalidation takes away: the session's, and not those of an HTTP client that was
-- given the session's jar before.
use go_ddgs_stealth.Common.{ℕ, ◌<◌, ◌≡◌, ◌≢◌, String, false, arith}
use go_ddgs_stealth.Common.Dict
use go_ddgs_stealth.Session.{
  Heap, SessionManager, new_jar, cookies_for, invalidate, has_cookies_for,
}

-- Every pointer of the session is to an allocated jar.
abbrev pub IsAllocated : SessionManager → Heap → Type 0
IsAllocated s heap = s.jar < heap.fresh

-- After an invalidation the session has a jar of its own with no cookie for any host, and every jar
-- allocated before, whoever holds it, has the cookies that it had: an HTTP client made with the
-- session's old jar goes on sending the same cookies, from a jar that is no longer the session's.
pub invalidate_jars :
    (s : SessionManager) (heap : Heap) (client : ℕ) (host : String)
    → client < heap.fresh
    → let (s', heap') = invalidate s heap in
      (has_cookies_for s' heap' host ≡ false)
      × (cookies_for heap' client host ≡ cookies_for heap client host)
      × (s'.jar ≢ client)
      × IsAllocated s' heap'
unfolding invalidate new_jar has_cookies_for cookies_for Dict.lookup
invalidate_jars s heap client host h = (ground arith, ground arith, omega arith, omega arith)
