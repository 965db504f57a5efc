-- ===== src/Spider/Pace.antt =====
-- spider.go, waitDomain: the fetches of one host are apart.
use go_ddgs_stealth.Common.{
  ℕ, ◌+◌, ◌-◌, ◌≤◌, ◌≡◌, refl, ap, ◌∙◌, String, some, arith, str_eq, if◌then◌else◌,
}
use go_ddgs_stealth.Common.Dict
use go_ddgs_stealth.Common.Dict.{Dict, lookup-insert}
use go_ddgs_stealth.Breaker.{Time}
use go_ddgs_stealth.Spider.{Settings, UrlLib, host_of, wait_domain}

-- When a host was hit before, the call of waitDomain that sleeps as long as it says records a hit at
-- least `DomainMinInterval` after the one before, and leaves the hits of the other hosts.
pub wait_domain-spaced :
    (lib : UrlLib) (cfg : Settings) (hits : Dict Time) (raw h k : String) (before now later : Time)
    → host_of lib raw ≡ some h
    → Dict.lookup h hits ≡ some before
    → before ≤ now
    → now + (wait_domain lib cfg hits raw now later).0 ≤ later
    → (before + cfg.domain_min_interval ≤ later)
      × (Dict.lookup k (wait_domain lib cfg hits raw now later).1
          ≡ (if str_eq h k then some later else Dict.lookup k hits))
unfolding wait_domain
wait_domain-spaced lib cfg hits raw h k before now later e f order slept =
    let waited : wait_domain lib cfg hits raw now later
        ≡ (cfg.domain_min_interval - (now - before), Dict.insert h later hits) =
      rw (e, f, wait_domain) refl in
    (
      omega (arith, ap (λ (x : ℕ × Dict Time). x.0) waited, slept, order),
      ap (λ (x : ℕ × Dict Time). Dict.lookup k x.1) waited ∙ lookup-insert h k later hits,
    )
