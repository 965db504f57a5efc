-- ===== src/Session/Warmup.antt =====
-- When a session is warm.
use Prim.Native.String
use go_ddgs_stealth.Common.{◌+◌, ◌≡◌, refl, String, Bool, true, false, arith, ltb}
use go_ddgs_stealth.Breaker.{Time}
use go_ddgs_stealth.Session.{SessionManager, Heap, needs_warmup, invalidate, warmup}

module _ {W : Type 0} (now : W → Time × W) (get : String → W → Bool × W) where
  -- A warm-up of a session that needs one, whose first GET succeeds, succeeds whatever the second
  -- GET does, and the session needs none until its time to live has passed since the clock was read
  -- after both.
  pub warmup_succeeds :
      (s : SessionManager) (home : String) (w : W) (later : Time)
      → needs_warmup s (now w).0 ≡ true
      → (get home (now w).1).0 ≡ true
      → let (ok, s', w') = warmup now get s home w in
        (ok ≡ true)
        × (needs_warmup s' later
            ≡ ltb
                ((now (get (String.◌++◌ home "?q=") (get home (now w).1).1).1).0 + s.warmup_ttl)
                later)
  unfolding warmup needs_warmup
  warmup_succeeds s home w later h ok = ground arith

  -- If the first GET fails, so does the warm-up: no second GET is sent, and the session stays as it
  -- was.
  pub warmup_fails :
      (s : SessionManager) (home : String) (w : W)
      → needs_warmup s (now w).0 ≡ true
      → (get home (now w).1).0 ≡ false
      → warmup now get s home w ≡ (false, s, (get home (now w).1).1)
  unfolding warmup needs_warmup
  warmup_fails s home w h ok = ground arith

  -- A session that is warm sends nothing: it only reads the clock.
  pub warmup_warm :
      (s : SessionManager) (home : String) (w : W)
      → needs_warmup s (now w).0 ≡ false
      → warmup now get s home w ≡ (true, s, (now w).1)
  unfolding warmup needs_warmup
  warmup_warm s home w h = ground arith

-- An invalidated session needs a warm-up at every time.
pub invalidate-needs_warmup :
    (s : SessionManager) (heap : Heap) (now : Time) → needs_warmup (invalidate s heap).0 now ≡ true
unfolding invalidate needs_warmup
invalidate-needs_warmup s heap now = refl
