-- ===== src/Engine/Chain.antt =====
-- Which provider answers, and what the diagnostics say of the others.
use go_ddgs_stealth.Common.{
  ℕ, suc, ◌+◌, ◌<◌, ◌≡◌, refl, ap, ◌∙◌, ◌⊎◌, inl, inr, true, false, Option, none, some, List, [],
  ◌∷◌, ◌++◌, arith, ltb, length, length-append, All, Bool-cases,
}
use native.Mathlib.Nat.{zero-add}
use mathlib.Core.List.{append_assoc}
use go_ddgs_stealth.Breaker.{Time}
use go_ddgs_stealth.Common.Text.{trim_space, is_empty}
use go_ddgs_stealth.Errors.{SearchError, no_results, provider_unavailable, invalid_input}
use go_ddgs_stealth.Engine.{
  SearchRequest, Diagnostics, Event, Provider, hit, miss, judge, Finished, begin_attempt,
  count_attempt, record_error, give_up, enabled_providers, try_from, search, with_defaults,
  no_diagnostics, engine_error, search_start,
}
use go_ddgs_stealth.Engine.Steps.{
  Verdict-cases, try_from-disabled, try_from-hit, try_from-miss, counted, dur,
}

-- A provider is passed over if it is disabled, or if it was asked in some state of the world and
-- gave an error or no results.
pub data IsPassedOver {W : Type 0} (req : SearchRequest) (p : Provider W) : Type 0 where
  disabled : p.enabled ≡ false → IsPassedOver req p
  missed :
      (w : W) (se : SearchError) → judge p.name (p.search req w).0 ≡ miss se → IsPassedOver req p

-- The provider that answered, its place in the chain, and the diagnostics that go with it, for a
-- search that started with some diagnostics at some index.
pub record IsAnswered {W : Type 0} (req : SearchRequest) (idx : ℕ) (ps : List (Provider W))
    (diag : Diagnostics) (done : Finished W) : Type 0 where
  pub before : List (Provider W)
  pub chosen : Provider W
  pub after : List (Provider W)
  pub splits : ps ≡ before ++ chosen ∷ after
  pub is_enabled : chosen.enabled ≡ true
  pub named : done.response.provider ≡ chosen.name
  pub asked_in : W
  pub answered : judge chosen.name (chosen.search req asked_in).0 ≡ hit done.response.results
  pub passed_over : All (IsPassedOver req) before
  pub chain :
      done.response.diagnostics.provider_chain
      ≡ diag.provider_chain ++ (enabled_providers before ++ chosen.name ∷ [])
  pub attempts :
      done.response.diagnostics.attempts ≡ diag.attempts + (length (enabled_providers before) + 1)
  pub errors :
      length done.response.diagnostics.errors
      ≡ length diag.errors + length (enabled_providers before)
  pub fallback_used : done.response.fallback_used ≡ ltb 0 (idx + length before)

module _ {W : Type 0} (req : SearchRequest) (idx : ℕ) (p : Provider W)
    (ps : List (Provider W)) where
  after_disabled :
      (diag : Diagnostics) (done : Finished W)
      → p.enabled ≡ false
      → IsAnswered req (suc idx) ps diag done
      → IsAnswered req idx (p ∷ ps) diag done
  unfolding enabled_providers
  after_disabled diag done off a = record {
    before = p ∷ a.before;
    chosen = a.chosen;
    after = a.after;
    splits = ap (λ l. p ∷ l) a.splits;
    is_enabled = a.is_enabled;
    named = a.named;
    asked_in = a.asked_in;
    answered = a.answered;
    passed_over = (disabled off, a.passed_over);
    chain = rw off a.chain;
    attempts = rw off a.attempts;
    errors = rw off a.errors;
    fallback_used = a.fallback_used ∙ ground arith;
  }

  after_missed :
      (diag : Diagnostics) (done : Finished W) (dur : ℕ) (se : SearchError) (w : W)
      → p.enabled ≡ true
      → judge p.name (p.search req w).0 ≡ miss se
      → IsAnswered req
          (suc idx)
          ps
          (record_error (count_attempt (begin_attempt diag p.name) p.name dur) p.name se)
          done
      → IsAnswered req idx (p ∷ ps) diag done
  unfolding enabled_providers
  after_missed diag done dur se w on judged a = record {
    before = p ∷ a.before;
    chosen = a.chosen;
    after = a.after;
    splits = ap (λ l. p ∷ l) a.splits;
    is_enabled = a.is_enabled;
    named = a.named;
    asked_in = a.asked_in;
    answered = a.answered;
    passed_over = (missed w se judged, a.passed_over);
    chain = rw on (a.chain ∙ append_assoc diag.provider_chain (p.name ∷ []) _);
    attempts = rw on (omega (arith, a.attempts));
    errors = rw on (omega (arith, a.errors, length-append {0}));
    fallback_used = a.fallback_used ∙ ground arith;
  }

module _ {W : Type 0} (now : W → Time × W) (req : SearchRequest) where
  try_from-IsAnswered :
      (idx : ℕ) (ps : List (Provider W)) (diag : Diagnostics) (log : List Event) (w : W)
      → (try_from now req idx ps diag log w).error ≡ none
      → IsAnswered req idx ps diag (try_from now req idx ps diag log w)
  try_from-IsAnswered idx [] diag log w h = absurd (unfold try_from give_up in cc h)
  try_from-IsAnswered idx (p ∷ ps) diag log w h = elim (Bool-cases p.enabled) [
    | inr off ↦
        let same = try_from-disabled now req idx p ps diag log w off in
        rw same (
          after_disabled req idx p ps diag _ off
            (try_from-IsAnswered (suc idx) ps diag log w (rw same at h)))
    | inl on ↦ elim (Verdict-cases (judge p.name (p.search req (now w).1).0)) [
      | inl (rs, judged) ↦ rw (try_from-hit now req idx p ps diag log w rs on judged) (record {
        before = [];
        chosen = p;
        after = ps;
        splits = refl;
        is_enabled = on;
        named = refl;
        asked_in = (now w).1;
        answered = judged;
        passed_over = tt;
        chain = unfold enabled_providers in refl;
        attempts = unfold enabled_providers in omega arith;
        errors = unfold enabled_providers in omega arith;
        fallback_used = ground arith;
      })
      | inr (se, judged) ↦
          let same = try_from-miss now req idx p ps diag log w se on judged in
          rw same (
            after_missed req idx p ps diag _ (dur now req idx p ps diag log w) se (now w).1 on
              judged
              (try_from-IsAnswered (suc idx) ps
                (record_error (counted now req idx p ps diag log w) p.name se) _ _ (rw same at h)))
    ]
  ]

  -- What a loop that recorded so many errors before reports, if it ends without an answer.
  abbrev pub EndsWith : ℕ → Option SearchError → Type 0
  EndsWith n e =
      ((n ≡ 0) × (e ≡ some (engine_error provider_unavailable true "no enabled providers")))
      ⊎ ((0 < n) × (e ≡ some (engine_error no_results false "all providers exhausted")))

  abbrev pub Ends : List (Provider W) → ℕ → Option SearchError → Type 0
  Ends ps n e = (e ≡ none) ⊎ (All (IsPassedOver req) ps × EndsWith n e)

  give_up-EndsWith :
      (diag : Diagnostics) (log : List Event) (w : W)
      → EndsWith (length diag.errors) (give_up diag log w).error
  unfolding give_up
  give_up-EndsWith diag log w = ground arith

  Ends-cons :
      (p : Provider W) (ps : List (Provider W)) (n m : ℕ) (e : Option SearchError)
      → IsPassedOver req p
      → n ≡ m
      → Ends ps n e
      → Ends (p ∷ ps) m e
  Ends-cons p ps n m e over same (inl ok) = inl ok
  Ends-cons p ps n m e over same (inr (all, ends)) = inr ((over, all), rw (← same) ends)

  try_from-Ends :
      (idx : ℕ) (ps : List (Provider W)) (diag : Diagnostics) (log : List Event) (w : W)
      → Ends ps
          (length diag.errors + length (enabled_providers ps))
          (try_from now req idx ps diag log w).error
  try_from-Ends idx [] diag log w =
      let none_left : length diag.errors + 0 ≡ length diag.errors = omega arith in
      inr (tt, unfold try_from enabled_providers in rw none_left (give_up-EndsWith diag log w))
  try_from-Ends idx (p ∷ ps) diag log w = elim (Bool-cases p.enabled) [
    | inr off ↦
        let same : length (enabled_providers ps) ≡ length (enabled_providers (p ∷ ps)) =
          unfold enabled_providers in rw off refl in
        rw (try_from-disabled now req idx p ps diag log w off) (
          Ends-cons p ps _ _ _ (disabled off) (ap (λ n. length diag.errors + n) same)
            (try_from-Ends (suc idx) ps diag log w))
    | inl on ↦ elim (Verdict-cases (judge p.name (p.search req (now w).1).0)) [
      | inl (rs, judged) ↦ inl (rw (try_from-hit now req idx p ps diag log w rs on judged) refl)
      | inr (se, judged) ↦
          let same : length (enabled_providers (p ∷ ps)) ≡ suc (length (enabled_providers ps)) =
            unfold enabled_providers in rw on refl in
          rw (try_from-miss now req idx p ps diag log w se on judged) (
            Ends-cons p ps _ _ _ (missed (now w).1 se judged)
              (omega (arith, same, length-append {0}))
              (try_from-Ends (suc idx) ps
                (record_error (counted now req idx p ps diag log w) p.name se) _ _))
    ]
  ]

module _ {W : Type 0} (now : W → Time × W) (providers : List (Provider W))
    (req : SearchRequest) where
  -- A search for a query that is not blank, when it succeeds, returns the results of the first
  -- enabled provider in the chain that gave any, and names it; every provider before it is disabled
  -- or gave an error or nothing; the chain, the attempts and the errors of the diagnostics are those
  -- of the enabled providers up to it; and a fallback is reported unless it stands first.
  pub search-IsAnswered :
      (w : W)
      → is_empty (trim_space req.query) ≡ false
      → (search now providers req w).error ≡ none
      → IsAnswered (with_defaults req) 0 providers no_diagnostics (search now providers req w)
  unfolding search
  search-IsAnswered w q h =
      let done =
        try_from-IsAnswered now (with_defaults req) 0 providers no_diagnostics (search_start ∷ [])
          (now w).1 (rw q at h) in
      rw q (record {
        before = done.before;
        chosen = done.chosen;
        after = done.after;
        splits = done.splits;
        is_enabled = done.is_enabled;
        named = done.named;
        asked_in = done.asked_in;
        answered = done.answered;
        passed_over = done.passed_over;
        chain = done.chain;
        attempts = done.attempts;
        errors = done.errors;
        fallback_used = done.fallback_used;
      })

  -- A search for a query that is not blank ends without an error, or with every provider passed
  -- over: then the error is "provider_unavailable", temporary, if none of them is enabled, and
  -- "no_results" otherwise.
  pub search-Ends :
      (w : W)
      → is_empty (trim_space req.query) ≡ false
      → Ends now
          (with_defaults req)
          providers
          (length (enabled_providers providers))
          (search now providers req w).error
  unfolding search
  search-Ends w q = rw q (
      rw zero-add at (
        try_from-Ends now (with_defaults req) 0 providers no_diagnostics (search_start ∷ [])
          (now w).1))

  -- A blank query is refused before any provider is asked: the world and the events stay as they
  -- were, and the error is "invalid_input".
  pub search_blank :
      (w : W)
      → is_empty (trim_space req.query) ≡ true
      → ((search now providers req w).error
          ≡ some (engine_error invalid_input false "query is required"))
        × ((search now providers req w).world ≡ w)
        × ((search now providers req w).events ≡ [])
  unfolding search
  search_blank w q = rw q (refl, refl, refl)
