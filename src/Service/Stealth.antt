-- ===== src/Service/Stealth.antt =====
-- The checks before the stealth endpoints.
use go_ddgs_stealth.Common.{◌≡◌, ◌↔◌, String, true, none, arith, if◌then◌else◌, str_eq}
use go_ddgs_stealth.Common.Int.{ℤ}
use go_ddgs_stealth.Breaker.{Time}
use go_ddgs_stealth.Guard.{StealthAccessGuard, allow, require_api_token}
use go_ddgs_stealth.Service.{admit}

module _ (method env_token authorization : String) (limit : ℤ) (g : StealthAccessGuard)
    (ip : String) (now : Time) where
  -- A request to a stealth endpoint goes on exactly when it is a POST with an accepted token and the
  -- guard allows its address; and the guard's counts and window change only for a POST with an
  -- accepted token, by one call of `allow`.
  pub admit_lem :
      (((admit method env_token authorization limit g ip now).1 ≡ none) ↔ (
        (str_eq method "POST" ≡ true)
        × (require_api_token env_token authorization ≡ true)
        × ((allow limit g ip now).1 ≡ true)))
      × ((admit method env_token authorization limit g ip now).0 ≡ (
          if str_eq method "POST"
          then if require_api_token env_token authorization then (allow limit g ip now).0 else g
          else g))
  unfolding admit
  admit_lem = (ground arith, ground arith)
