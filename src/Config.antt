-- ===== src/Config.antt =====
-- config.go: the configuration from the environment, and the order of an engine's providers.
pub mod Order
use go_ddgs_stealth.Common.{
  ℕ, ◌*◌, String, Bool, true, false, Option, none, some, List, [], ◌∷◌, map, str_eq, ltb,
  if◌then◌else◌,
}
use go_ddgs_stealth.Common.Int.{ℤ, pos_part}
use go_ddgs_stealth.Common.Dict
use go_ddgs_stealth.Common.Dict.{Dict}
use go_ddgs_stealth.Common.Text.{is_empty, trim_space, lower, split_on, atoi}
use go_ddgs_stealth.Breaker.{second}
use go_ddgs_stealth.Engine.{new_engine}
use go_ddgs_stealth.Spider.{has}

pub record Config : Type 0 where
  pub brave_api_key : String
  pub tavily_api_key : String
  pub serp_api_key : String
  pub duck_duck_go_base : String
  pub links_base : String
  pub html_base : String
  pub provider_order : List String
  pub timeout : ℕ
  pub max_retries : ℕ
  pub disable_html_fallback : Bool

-- The loop over the parts of GODDGS_PROVIDER_ORDER.
unfoldable pub order_of : List String → List String
order_of [] = []
order_of (p ∷ ps) =
    let rest = order_of ps in
    let name = lower (trim_space p) in if is_empty name then rest else name ∷ rest

abbrev pub or_all : List String → List String
or_all [] = "ddg" ∷ "brave" ∷ "tavily" ∷ "serpapi" ∷ []
or_all (n ∷ ns) = n ∷ ns

abbrev pub positive_or : ℕ → Option ℤ → ℕ
positive_or n none = n
positive_or n (some v) = if ltb 0 (pos_part v) then pos_part v else n

-- LoadConfigFromEnv, with os.Getenv and time.ParseDuration, whose error is `none`.
unfoldable pub load_config_from_env : (String → String) → (String → Option ℤ) → Config
unfolding order_of
load_config_from_env getenv parse_duration =
    let variable = λ (name : String). trim_space (getenv name) in
    let order = variable "GODDGS_PROVIDER_ORDER" in
    let timeout = variable "GODDGS_TIMEOUT" in
    let retries = variable "GODDGS_MAX_RETRIES" in
    record {
      brave_api_key = variable "GODDGS_BRAVE_API_KEY";
      tavily_api_key = variable "GODDGS_TAVILY_API_KEY";
      serp_api_key = variable "GODDGS_SERPAPI_API_KEY";
      duck_duck_go_base = variable "GODDGS_DDG_BASE";
      links_base = variable "GODDGS_LINKS_BASE";
      html_base = variable "GODDGS_HTML_BASE";
      provider_order =
          if is_empty order then or_all [] else or_all (order_of (split_on b',' order));
      timeout =
          if is_empty timeout
          then 20 * second
          else positive_or (20 * second) (parse_duration timeout);
      max_retries = if is_empty retries then 3 else positive_or 3 (atoi retries);
      disable_html_fallback = str_eq (lower (variable "GODDGS_DISABLE_HTML_FALLBACK")) "true";
    }

module _ {ℓ} {A : Type ℓ} where
  -- The map from names to providers of NewDefaultEngineFromConfig.
  abbrev pub provider_table : A → A → A → A → Dict A
  provider_table ddg brave tavily serpapi =
      ("ddg", ddg) ∷ ("brave", brave) ∷ ("tavily", tavily) ∷ ("serpapi", serpapi) ∷ []

  -- The loop over the order: the providers taken, by name, and the names seen.
  unfoldable pub ordered_from : Dict A → List String → List String → List (String × A) × List String
  ordered_from table [] seen = ([], seen)
  ordered_from table (name ∷ names) seen =
      let skipped = ordered_from table names seen in
      let taken = ordered_from table names (name ∷ seen) in
      elim (Dict.lookup name table) [
        | none ↦ skipped
        | some p ↦ if has name seen then skipped else ((name, p) ∷ taken.0, taken.1)
      ]

  abbrev pub with_ddg : A → List (String × A) × List String → List (String × A)
  with_ddg ddg (ordered, seen) = if has "ddg" seen then ordered else ("ddg", ddg) ∷ ordered

  -- The providers of an engine, by name.
  unfoldable pub order_providers : A → A → A → A → List String → List (String × A)
  unfolding ordered_from
  order_providers ddg brave tavily serpapi order =
      with_ddg ddg (ordered_from (provider_table ddg brave tavily serpapi) order [])

  abbrev providers_of : List (String × A) → List (Option A)
  providers_of [] = []
  providers_of ((name, p) ∷ ps) = some p ∷ providers_of ps

  -- NewDefaultEngineFromConfig, from the four providers that it makes.
  unfoldable pub new_default_engine : A → A → A → A → Config → Option (List A)
  unfolding order_providers
  new_default_engine ddg brave tavily serpapi cfg =
      new_engine (providers_of (order_providers ddg brave tavily serpapi cfg.provider_order))
