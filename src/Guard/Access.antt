-- ===== src/Guard/Access.antt =====
-- Who the guard lets in, and by which address a requester is known.
use Prim.Native.String.{String}
use go_ddgs_stealth.Common.{◌≡◌, true, ◌↔◌, arith, eq_iff, ◌⊎◌}
use go_ddgs_stealth.Common.Text.{trim_space, is_empty}
use go_ddgs_stealth.Guard.{credential, require_api_token}

-- With a token configured, a request is let in exactly when its credential is the token; with none
-- configured, every request is.
pub require_api_token_iff :
    (env header : String)
    → (require_api_token env header ≡ true)
      ↔ ((is_empty (trim_space env) ≡ true) ⊎ (credential header ≡ trim_space env))
unfolding require_api_token
require_api_token_iff env header = ground (arith, eq_iff (credential header) (trim_space env))
