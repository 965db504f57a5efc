-- ===== src/Config/Order.antt =====
-- config.go: which providers an engine has, and what a configuration holds.
use go_ddgs_stealth.Common.{
  ℕ, ◌*◌, ◌<◌, ◌≡◌, length, String, Bool, true, false, not, ◌&&◌, ◌||◌, inl, inr, Option, none,
  some, List, [], ◌∷◌, str_eq, eq_iff, arith, total, Bool-cases,
}
use go_ddgs_stealth.Common.Dict
use go_ddgs_stealth.Common.Dict.{Dict}
use go_ddgs_stealth.Config.{
  provider_table, ordered_from, order_providers, load_config_from_env, order_of, or_all,
  positive_or,
}
use go_ddgs_stealth.Common.Int.{ℤ}
use go_ddgs_stealth.Common.Text.{trim_space, split_on, atoi}
use go_ddgs_stealth.Breaker.{second}
use go_ddgs_stealth.Spider.{has}
use go_ddgs_stealth.Spider.Frontier.{bit}

module _ {ℓ} {A : Type ℓ} where
  -- How often a name stands in the list of providers.
  abbrev pub occurs : String → List (String × A) → ℕ
  occurs n ps = total (λ (p : String × A). bit (str_eq p.0 n)) ps

  abbrev known : Dict A → String → Bool
  known table n = elim (Dict.lookup n table) [ none ↦ false | some p ↦ true ]

  ordered_from-seen :
      (table : Dict A) (n : String) (names seen : List String)
      → has n (ordered_from table names seen).1 ≡ (has n seen || known table n && has n names)
  unfolding ordered_from
  ordered_from-seen table n [] seen = ground arith
  ordered_from-seen table n (m ∷ ms) seen = ground (
    arith,
    ordered_from-seen table n ms seen,
    ordered_from-seen table n ms (m ∷ seen),
    eq_iff m n,
  )

  -- Each known name that is not seen yet is taken once.
  ordered_from-occurs :
      (table : Dict A) (n : String) (names seen : List String)
      → occurs n (ordered_from table names seen).0
        ≡ bit (known table n && has n names && not (has n seen))
  unfolding ordered_from
  ordered_from-occurs table n [] seen = ground arith
  ordered_from-occurs table n (m ∷ ms) seen = ground (
    arith,
    ordered_from-occurs table n ms seen,
    ordered_from-occurs table n ms (m ∷ seen),
    eq_iff m n,
  )

-- The names of the providers that there are.
abbrev pub provider_names : List String
provider_names = "ddg" ∷ "brave" ∷ "tavily" ∷ "serpapi" ∷ []

module _ {ℓ} {A : Type ℓ} (ddg brave tavily serpapi : A) where
  known_names :
      (n : String) → known (provider_table ddg brave tavily serpapi) n ≡ has n provider_names
  unfolding Dict.lookup
  known_names n = ground arith

  -- Whatever the order that is configured, with repetitions and unknown names: an engine has the
  -- provider "ddg" once, each other provider that the order names once, and no other.
  pub order_providers-occurs :
      (order : List String) (n : String)
      → occurs n (order_providers ddg brave tavily serpapi order)
        ≡ bit (str_eq "ddg" n || has n provider_names && has n order)
  unfolding order_providers
  order_providers-occurs order n =
      let table : Dict A = provider_table ddg brave tavily serpapi in
      let seen_ddg = ordered_from-seen table "ddg" order [] in
      elim (Bool-cases (has "ddg" (ordered_from table order []).1)) [
        | inl e ↦ rw e (
            ground (
              arith,
              ordered_from-occurs table n order [],
              seen_ddg,
              known_names n,
              known_names "ddg",
              eq_iff "ddg" n,
            ))
        | inr e ↦ rw e (
            ground (
              arith,
              ordered_from-occurs table n order [],
              seen_ddg,
              known_names n,
              known_names "ddg",
              eq_iff "ddg" n,
            ))
      ]

positive_or-positive : (n : ℕ) (o : Option ℤ) → 0 < n → 0 < positive_or n o
positive_or-positive n none h = h
positive_or-positive n (some v) h = ground arith

length-or_all : (ns : List String) → 0 < length (or_all ns)
length-or_all [] = omega arith
length-or_all (n ∷ ns) = omega arith

-- The configuration from any environment has a positive timeout, at least one retry, and an order of
-- providers that is not empty.
pub load_config_from_env-bounds :
    (getenv : String → String) (parse_duration : String → Option ℤ)
    → (0 < (load_config_from_env getenv parse_duration).timeout)
      × (0 < (load_config_from_env getenv parse_duration).max_retries)
      × (0 < length (load_config_from_env getenv parse_duration).provider_order)
unfolding load_config_from_env
load_config_from_env-bounds getenv parse_duration =
    let variable = λ (name : String). trim_space (getenv name) in
    let order = variable "GODDGS_PROVIDER_ORDER" in
    (
      ground (
        arith,
        positive_or-positive (20 * second) (parse_duration (variable "GODDGS_TIMEOUT"))
            (omega arith),
      ),
      ground (arith, positive_or-positive 3 (atoi (variable "GODDGS_MAX_RETRIES")) (omega arith)),
      ground (arith, length-or_all (order_of (split_on b',' order))),
    )
