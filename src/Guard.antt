-- ===== src/Guard.antt =====
-- service_stealth_guard.go: the access guard of the stealth endpoints. The values of environment
-- variables and of request headers are arguments, with "" for an absent one, as `os.Getenv` and
-- `Header.Get` give them. `now` is the reading of the clock in `allow`.
pub mod Window
pub mod Access
use go_ddgs_stealth.Common.{
  ℕ, ◌+◌, ◌-◌, ◌*◌, String, Bool, true, false, Option, none, some, List, [], ◌∷◌, ltb, leb,
  if◌then◌else◌, str_eq,
}
use go_ddgs_stealth.Common.Int.{ℤ, pos, negsuc, ltb_ℤ}
use go_ddgs_stealth.Common.Dict
use go_ddgs_stealth.Common.Dict.{Dict}
use go_ddgs_stealth.Common.Text.{trim_space, is_empty, fold, begins_with, drop, before, atoi}
use go_ddgs_stealth.Breaker.{Time, second}

pub record StealthAccessGuard : Type 0 where
  pub window_start : Time
  pub counts : Dict ℕ

abbrev pub minute : ℕ
minute = 60 * second

unfoldable pub count_of : StealthAccessGuard → String → ℕ
count_of g ip = elim (Dict.lookup ip g.counts) [ none ↦ 0 | some n ↦ n ]

abbrev limit_or : Option ℤ → ℤ
limit_or none = pos 120
limit_or (some (pos n)) = pos n
limit_or (some (negsuc n)) = pos 120

unfoldable pub stealth_rate_limit_per_min : String → ℤ
stealth_rate_limit_per_min env =
    let v = trim_space env in if is_empty v then pos 120 else limit_or (atoi v)

-- A new window begins where the old one has lasted a minute.
unfoldable pub roll : StealthAccessGuard → Time → StealthAccessGuard
roll g now =
    if leb minute (now - g.window_start) then record { window_start = now; counts = [] } else g

abbrev pub at_most : ℕ → ℤ → Bool
at_most n (pos l) = leb n l
at_most n (negsuc l) = false

unfoldable pub allow : ℤ → StealthAccessGuard → String → Time → StealthAccessGuard × Bool
unfolding roll count_of
allow limit g ip now =
    let g' = roll g now in
    let n = count_of g' ip + 1 in
    if ltb_ℤ (pos 0) limit
    then (record g' { counts = Dict.insert ip n g'.counts }, at_most n limit)
    else (g, true)

-- The scheme of an Authorization header, `bearer ` in any case, is taken off.
unfoldable pub credential : String → String
credential header =
    let auth = trim_space header in
    if begins_with (fold auth) (fold "bearer ") then trim_space (drop 7 auth) else auth

unfoldable pub require_api_token : String → String → Bool
unfolding credential
require_api_token env header =
    let token = trim_space env in if is_empty token then true else str_eq (credential header) token

-- `split` is the host that `net.SplitHostPort` finds in the trimmed remote address, or `none`.
abbrev remote_host : String → Option String → String
remote_host addr none = if is_empty addr then "unknown" else addr
remote_host addr (some host) =
    if is_empty host then (if is_empty addr then "unknown" else addr) else host

unfoldable pub requester_ip : String → String → (String → Option String) → String
requester_ip forwarded remote_addr split =
    let xff = trim_space forwarded in
    let addr = trim_space remote_addr in
    if is_empty xff then remote_host addr (split addr) else trim_space (before b',' xff)
