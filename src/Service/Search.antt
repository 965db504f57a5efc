-- ===== src/Service/Search.antt =====
-- The statuses of /v1/search.
use go_ddgs_stealth.Common.{
  ℕ, ◌≡◌, refl, ◌⊎◌, inl, inr, String, true, false, Option, none, some, List, [], ◌∷◌, arith,
  str_eq, Bool-cases, length, ◌≢◌, ◌<◌, ap, All,
}
use go_ddgs_stealth.Common.Text.{trim_space, is_empty}
use go_ddgs_stealth.Breaker.{Time}
use go_ddgs_stealth.Errors.{no_results, provider_unavailable, is_blocked}
use go_ddgs_stealth.Engine.{
  Provider, Finished, search, enabled_providers, engine_error, SearchRequest, SearchResponse,
  with_defaults, no_diagnostics,
}
use go_ddgs_stealth.Engine.Chain.{search-Ends, search-IsAnswered, IsAnswered, IsPassedOver}
use go_ddgs_stealth.Service.{
  Reply, api_error, encoded, status, ServiceSearchRequest, to_request, respond, search_decoded,
  handle_search,
}

respond_fine :
    {W : Type 0} (done : Finished W) → done.error ≡ none → (respond done).0 ≡ encoded done.response
unfolding respond
respond_fine done h = rw (h, respond) refl

respond_unavailable :
    {W : Type 0} (done : Finished W)
    → done.error ≡ some (engine_error provider_unavailable true "no enabled providers")
    → (respond done).0 ≡ api_error 502 provider_unavailable
unfolding respond is_blocked
respond_unavailable done h = rw (h, respond) refl

respond_exhausted :
    {W : Type 0} (done : Finished W)
    → done.error ≡ some (engine_error no_results false "all providers exhausted")
    → (respond done).0 ≡ api_error 404 no_results
unfolding respond is_blocked
respond_exhausted done h = rw (h, respond) refl

nil_of_length : (l : List String) → length l ≡ 0 → l ≡ []
nil_of_length [] h = refl
nil_of_length (x ∷ l) h = absurd (omega arith)

cons_ne_nil : (l : List String) → 0 < length l → l ≢ []
cons_ne_nil l h e = let none_left : length l ≡ 0 = ap length e in omega arith

module _ {W : Type 0} (now : W → Time × W) (providers : List (Provider W)) where
  -- What the handler may answer to a query that is not blank, by how the engine's search ends.
  abbrev pub Replied : SearchRequest → Finished W → Reply SearchResponse → Type 0
  Replied req done reply =
      (IsAnswered req 0 providers no_diagnostics done × (reply ≡ encoded done.response))
      ⊎ (All (IsPassedOver req) providers
          × (((enabled_providers providers ≡ []) × (reply ≡ api_error 502 provider_unavailable))
              ⊎ ((enabled_providers providers ≢ []) × (reply ≡ api_error 404 no_results))))

  -- A query that is not blank, posted to a service with an engine, is answered in one of three ways.
  -- If some enabled provider gave results and every provider before it was disabled, failed or gave
  -- nothing: 200 with the engine's response, which holds the results of that provider. If every
  -- provider is disabled, failed or gave nothing: 502 if none of them is enabled, and 404 otherwise.
  pub handle_search-status :
      (r : ServiceSearchRequest) (w : W)
      → is_empty (trim_space r.query) ≡ false
      → Replied
          (with_defaults (to_request r))
          (search now providers (to_request r) w)
          (handle_search now (some providers) "POST" (some r) w).0
  unfolding handle_search
  handle_search-status r w q = elim (search-Ends now providers (to_request r) w q) [
    | inl fine ↦
        inl (search-IsAnswered now providers (to_request r) w q fine, rw q (respond_fine _ fine))
    | inr (over, inl (few, unavailable)) ↦
        inr (over, inl (nil_of_length _ few, rw q (respond_unavailable _ unavailable)))
    | inr (over, inr (many, exhausted)) ↦
        inr (over, inr (λ e. absurd (cons_ne_nil _ many e), rw q (respond_exhausted _ exhausted)))
  ]

  search_decoded-ne-429 :
      (body : Option ServiceSearchRequest) (w : W)
      → status (search_decoded now providers body w).0 ≢ 429
  unfolding search_decoded
  search_decoded-ne-429 none w h = absurd (omega arith)
  search_decoded-ne-429 (some r) w h = elim (Bool-cases (is_empty (trim_space r.query))) [
    | inl blank ↦ let k : ◌≡◌ {A = ℕ} 400 429 = rw blank at h in absurd (omega arith)
    | inr q ↦ elim (search-Ends now providers (to_request r) w q) [
      | inl fine ↦
          let k : ◌≡◌ {A = ℕ} 200 429 =
            rw (q, respond_fine (search now providers (to_request r) w) fine) at h in
          absurd (omega arith)
      | inr (over, inl (few, unavailable)) ↦
          let k : ◌≡◌ {A = ℕ} 502 429 =
            rw (q, respond_unavailable (search now providers (to_request r) w) unavailable) at h in
          absurd (omega arith)
      | inr (over, inr (many, exhausted)) ↦
          let k : ◌≡◌ {A = ℕ} 404 429 =
            rw (q, respond_exhausted (search now providers (to_request r) w) exhausted) at h in
          absurd (omega arith)
    ]
  ]

  -- /v1/search never answers 429, whatever the request and whatever the providers report: the
  -- engine's errors no longer tell a block or a rate limit.
  pub handle_search-ne-429 :
      (method : String) (body : Option ServiceSearchRequest) (w : W)
      → status (handle_search now (some providers) method body w).0 ≢ 429
  unfolding handle_search
  handle_search-ne-429 method body w h = elim (Bool-cases (str_eq method "POST")) [
    | inr other ↦ let k : ◌≡◌ {A = ℕ} 405 429 = rw other at h in absurd (omega arith)
    | inl posted ↦ search_decoded-ne-429 body w (rw posted at h)
  ]
