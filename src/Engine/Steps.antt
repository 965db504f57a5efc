-- ===== src/Engine/Steps.antt =====
-- One turn of the engine's loop: a provider that is disabled, that answers, or that does not.
use go_ddgs_stealth.Common.{
  ℕ, suc, ◌-◌, ◌≡◌, refl, ◌⊎◌, inl, inr, true, false, none, some, List, [], ◌∷◌, ◌++◌, ltb, leb,
  length,
}
use go_ddgs_stealth.Breaker.{Time}
use go_ddgs_stealth.Errors.{SearchError}
use go_ddgs_stealth.Engine.{
  SearchRequest, SearchResult, Diagnostics, Event, Provider, Verdict, hit, miss, judge, Finished,
  begin_attempt, count_attempt, record_error, try_from, block_of, provider_start, provider_end,
  block_events, fallback_events,
}

pub Verdict-cases :
    (v : Verdict) → ((rs : List SearchResult) × (v ≡ hit rs)) ⊎ ((se : SearchError) × (v ≡ miss se))
Verdict-cases (hit rs) = inl (rs, refl)
Verdict-cases (miss se) = inr (se, refl)

module _ {W : Type 0} (now : W → Time × W) (req : SearchRequest) (idx : ℕ) (p : Provider W)
    (ps : List (Provider W)) (diag : Diagnostics) (log : List Event) (w : W) where
  abbrev pub asked : W
  asked = (now w).1

  abbrev pub dur : ℕ
  dur = (now (p.search req asked).1).0 - (now w).0

  abbrev pub counted : Diagnostics
  counted = count_attempt (begin_attempt diag p.name) p.name dur

  abbrev pub hit_result : List SearchResult → Finished W
  hit_result rs = record {
    response = record {
      results = rs;
      provider = p.name;
      fallback_used = ltb 0 idx;
      diagnostics = counted;
    };
    error = none;
    events = (log ++ provider_start p.name ∷ []) ++ provider_end p.name dur true none none ∷ [];
    world = (now (p.search req asked).1).1;
  }

  abbrev pub miss_result : SearchError → Finished W
  miss_result se =
      try_from now req (suc idx) ps (record_error counted p.name se)
        ((log ++ provider_start p.name ∷ [])
          ++ block_events p.name (block_of se)
          ++ provider_end p.name dur false (some se.kind) (block_of se)
            ∷ fallback_events (leb (length ps) 0) p.name se)
        (now (p.search req asked).1).1

  pub try_from-disabled :
      p.enabled ≡ false
      → try_from now req idx (p ∷ ps) diag log w ≡ try_from now req (suc idx) ps diag log w
  unfolding try_from
  try_from-disabled off = rw off refl

  pub try_from-hit :
      (rs : List SearchResult)
      → p.enabled ≡ true
      → judge p.name (p.search req asked).0 ≡ hit rs
      → try_from now req idx (p ∷ ps) diag log w ≡ hit_result rs
  unfolding try_from
  try_from-hit rs on judged = rw (on, judged, try_from) refl

  pub try_from-miss :
      (se : SearchError)
      → p.enabled ≡ true
      → judge p.name (p.search req asked).0 ≡ miss se
      → try_from now req idx (p ∷ ps) diag log w ≡ miss_result se
  unfolding try_from
  try_from-miss se on judged = rw (on, judged, try_from) refl
