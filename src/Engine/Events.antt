-- ===== src/Engine/Events.antt =====
-- The order of the engine's events: an automaton that accepts the log of every search.
use go_ddgs_stealth.Common.{
  ℕ, suc, ◌+◌, ◌≡◌, refl, ◌∙◌, inl, inr, String, Bool, true, false, Option, none, some, List, [],
  ◌∷◌, ◌++◌, not, ◌&&◌, arith, leb, if◌then◌else◌, length, str_eq, eq_refl, Bool-cases,
  Option-cases,
}
use mathlib.Core.List.{append_assoc}
use go_ddgs_stealth.Breaker.{Time}
use go_ddgs_stealth.Common.Text.{trim_space, is_empty}
use go_ddgs_stealth.Detect.{BlockInfo}
use go_ddgs_stealth.Errors.{SearchError}
use go_ddgs_stealth.Engine.{
  SearchRequest, Diagnostics, Event, search_start, search_finish, provider_start, provider_end,
  blocked_event, fallback, Provider, judge, try_from, search, with_defaults, no_diagnostics,
  block_of, block_events, fallback_events, record_error, give_up,
}
use go_ddgs_stealth.Engine.Steps.{
  Verdict-cases, try_from-disabled, try_from-hit, try_from-miss, counted, dur,
}

-- The providers from the first enabled one on.
unfoldable pub from_enabled : {W : Type 0} → List (Provider W) → List (Provider W)
from_enabled [] = []
from_enabled (p ∷ ps) = let rest = from_enabled ps in if p.enabled then p ∷ ps else rest

-- Where an observer stands: before a search over the providers given; between attempts, with those
-- that are left from the next enabled one on; in an attempt at a provider, without and with a block
-- report, with those after it; after a failure, before the fallback to those that are left; after an
-- answer; and after the search. The number counts the attempts that ended.
pub data Phase (W : Type 0) : Type 0 where
  waiting : List (Provider W) → Phase W
  ready : ℕ → List (Provider W) → Phase W
  attempting : ℕ → String → List (Provider W) → Phase W
  blocked_by : ℕ → String → List (Provider W) → Phase W
  falling_back : ℕ → String → List (Provider W) → Phase W
  answered : ℕ → Phase W
  finished : ℕ → Phase W

-- A fallback is due if any provider is left in the chain, enabled or not.
abbrev pub after_failure : {W : Type 0} → ℕ → String → List (Provider W) → Phase W
after_failure n name [] = ready n []
after_failure n name (p ∷ ps) = falling_back n name (p ∷ ps)

abbrev pub is_some {ℓ} : {A : Type ℓ} → Option A → Bool
is_some none = false
is_some (some a) = true

-- The phase after an event; `none` if the event cannot come there.
unfoldable pub observe : {W : Type 0} → Phase W → Event → Option (Phase W)
unfolding from_enabled
observe (waiting ps) search_start = some (ready 0 (from_enabled ps))
observe (ready n (p ∷ ps)) (provider_start name) =
    if str_eq p.name name then some (attempting n name ps) else none
observe (ready n []) (search_finish d) = some (finished n)
observe (attempting n name ps) (blocked_event other info) =
    if str_eq name other then some (blocked_by n name ps) else none
observe (attempting n name ps) (provider_end other d success kind info) =
    if str_eq name other && not (is_some info)
    then some (if success then answered (n + 1) else after_failure (n + 1) name ps)
    else none
observe (blocked_by n name ps) (provider_end other d success kind info) =
    if str_eq name other && is_some info && not success
    then some (after_failure (n + 1) name ps)
    else none
observe (falling_back n name ps) (fallback other kind) =
    if str_eq name other then some (ready n (from_enabled ps)) else none
observe (answered n) (search_finish d) = some (finished n)
observe _ _ = none

unfoldable pub observe_all : {W : Type 0} → Phase W → List Event → Option (Phase W)
observe_all phase [] = some phase
observe_all phase (e ∷ es) = elim (observe phase e) [
  | none ↦ none
  | some next ↦ observe_all next es
]

observe_all-append :
    {W : Type 0} (phase next : Phase W) (es fs : List Event)
    → observe_all phase es ≡ some next
    → observe_all phase (es ++ fs) ≡ observe_all next fs
unfolding observe_all
observe_all-append phase next [] fs h = ground arith
observe_all-append {W} phase next (e ∷ es) fs h = elim (Option-cases (observe phase e)) [
  | inl q ↦
      let clash : ◌≡◌ {A = Option (Phase W)} none (some next) = rw (q, observe_all) at h in
      absurd (cc)
  | inr (middle, q) ↦
      rw (q, observe_all) (observe_all-append middle next es fs (rw (q, observe_all) at h))
]

-- The events of one attempt that fails, up to where the next enabled provider may start.
attempt_events :
    {W : Type 0} (n : ℕ) (p : Provider W) (ps : List (Provider W)) (d : ℕ) (info : Option BlockInfo)
    (se : SearchError)
    → observe_all (ready n (p ∷ ps)) (
        provider_start p.name ∷ block_events p.name info
        ++ provider_end p.name d false (some se.kind) info
          ∷ fallback_events (leb (length ps) 0) p.name se)
      ≡ some (ready (n + 1) (from_enabled ps))
unfolding observe_all observe from_enabled
attempt_events n p [] d none se = ground (arith, eq_refl p.name)
attempt_events n p [] d (some info) se = ground (arith, eq_refl p.name)
attempt_events n p (q ∷ ps) d none se = ground (arith, eq_refl p.name)
attempt_events n p (q ∷ ps) d (some info) se = ground (arith, eq_refl p.name)

-- The events of one attempt that succeeds, and the end of the search.
hit_events :
    {W : Type 0} (n : ℕ) (p : Provider W) (ps : List (Provider W)) (d e : ℕ)
    → observe_all
        (ready n (p ∷ ps))
        (provider_start p.name ∷ provider_end p.name d true none none ∷ search_finish e ∷ [])
      ≡ some (finished (n + 1))
unfolding observe_all observe
hit_events n p ps d e = ground (arith, eq_refl p.name)

regroup {ℓ} : {A : Type ℓ} (a b c d : List A) → ((a ++ b) ++ c) ++ d ≡ a ++ (b ++ c ++ d)
regroup a b c d = simp append_assoc

module _ {W : Type 0} (now : W → Time × W) (req : SearchRequest) (all : List (Provider W))
    (end : ℕ) where
  -- From between two attempts the loop goes on to where the search may finish, with as many attempts
  -- as its diagnostics count.
  try_from-observed :
      (idx : ℕ) (ps : List (Provider W)) (diag : Diagnostics) (log : List Event) (w : W)
      → observe_all (waiting all) log ≡ some (ready diag.attempts (from_enabled ps))
      → let done = try_from now req idx ps diag log w in
        observe_all (waiting all) (done.events ++ search_finish end ∷ [])
        ≡ some (finished done.response.diagnostics.attempts)
  try_from-observed idx [] diag log w h =
      unfold try_from give_up in
      (observe_all-append (waiting all) (ready diag.attempts []) log _ (unfold from_enabled in h)
        ∙ unfold observe_all observe in refl)
  try_from-observed idx (p ∷ ps) diag log w h = elim (Bool-cases p.enabled) [
    | inr off ↦
        let skipped : from_enabled (p ∷ ps) ≡ from_enabled ps =
          unfold from_enabled in rw off refl in
        rw (try_from-disabled now req idx p ps diag log w off)
          (try_from-observed (suc idx) ps diag log w (rw skipped at h))
    | inl on ↦
        let next : from_enabled (p ∷ ps) ≡ p ∷ ps = unfold from_enabled in rw on refl in
        let come = rw next at h in
        elim (Verdict-cases (judge p.name (p.search req (now w).1).0)) [
          | inl (rs, judged) ↦ rw (try_from-hit now req idx p ps diag log w rs on judged) (
              rw (regroup log _ _ _) (
                observe_all-append (waiting all) (ready diag.attempts (p ∷ ps)) log _ come
                ∙ hit_events diag.attempts p ps (dur now req idx p ps diag log w) end))
          | inr (se, judged) ↦ rw (try_from-miss now req idx p ps diag log w se on judged) (
              try_from-observed (suc idx) ps
                (record_error (counted now req idx p ps diag log w) p.name se) _ _
                (rw (regroup log _ _ _) (
                  observe_all-append (waiting all) (ready diag.attempts (p ∷ ps)) log _ come
                  ∙ attempt_events diag.attempts p ps (dur now req idx p ps diag log w)
                      (block_of se) se)))
        ]
  ]

-- The hooks see the events of every search for a query that is not blank in this order: a start; then
-- the enabled providers, in the order of the chain, each with its start, a block report exactly if
-- its end tells a block, and its end, all under its name; after the end of one that failed a fallback
-- exactly if another provider, enabled or not, stands after it in the chain; after one that succeeded
-- no other provider; and the finish, not before every enabled provider had its attempt unless one
-- succeeded. As many attempts end as the diagnostics count.
pub search-observed :
    {W : Type 0} (now : W → Time × W) (providers : List (Provider W)) (req : SearchRequest) (w : W)
    → is_empty (trim_space req.query) ≡ false
    → let done = search now providers req w in
      observe_all (waiting providers) done.events
      ≡ some (finished done.response.diagnostics.attempts)
unfolding search
search-observed now providers req w q = rw q (
    try_from-observed now (with_defaults req) providers _ 0 providers no_diagnostics
      (search_start ∷ []) (now w).1 (unfold observe_all observe in refl))
