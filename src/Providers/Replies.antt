-- ===== src/Providers/Replies.antt =====
-- provider.go: what the providers answer.
use go_ddgs_stealth.Common.{
  ℕ, ◌≡◌, ◌≢◌, refl, String, Bool, true, false, ◌⊎◌, inl, inr, Option, none, some, List, [], ◌∷◌,
  All, Bool-cases, When, ◌==◌, leb,
}
use go_ddgs_stealth.Common.Int.{or_default}
use go_ddgs_stealth.Common.Text.{is_empty, trim_space}
use go_ddgs_stealth.Errors.{Err, ErrorKind, SearchError, classify, as_search_error}
use go_ddgs_stealth.Errors.Classify.{classify-provider}
use go_ddgs_stealth.Engine.{SearchRequest, SearchResult, Answer}
use go_ddgs_stealth.Client.{
  Request, Sent, no_reply, replied, Env, Ctx, Result, ok, err, crash, out_of_fuel,
}
use go_ddgs_stealth.Client.Search.{Library}
use go_ddgs_stealth.Client.Answers.{Within, search_results-Within}
use go_ddgs_stealth.Providers.{
  Item, Formats, Paid, search_fault, results_of, status_fault, read_payload, after_do, paid_search,
  brave, tavily, serpapi, brave_search, tavily_search, serpapi_search, paid_enabled, none_or,
  ddg_answer, unless, refused_or, ddg_search, to_search_options,
}

-- The result has an address that is not blank.
abbrev pub IsAddressed : SearchResult → Type 0
IsAddressed r = is_empty r.url ≡ false

-- Results with addresses and no error, or an error that names the provider and no results.
pub data IsReply (name : String) (a : Answer) : Type 0 where
  found : a.1 ≡ none → a.0 ≢ [] → All IsAddressed a.0 → IsReply name a
  failed :
      (kind : ErrorKind) (temporary : Bool) (cause : Err)
      → a ≡ ([], some (search_fault name kind temporary cause))
      → IsReply name a

results_of-IsAddressed : (is : List Item) → All IsAddressed (results_of is)
unfolding results_of
results_of-IsAddressed [] = tt
results_of-IsAddressed (i ∷ is) = elim (Bool-cases (is_empty (trim_space i.link))) [
  | inl e ↦ rw e (results_of-IsAddressed is)
  | inr e ↦ rw e (e, results_of-IsAddressed is)
]

read_payload-IsReply :
    (name : String) (payload : Err ⊎ List Item) → IsReply name (read_payload name payload)
unfolding read_payload
read_payload-IsReply name (inl e) = failed _ _ _ refl
read_payload-IsReply name (inr items) = go (results_of items) (results_of-IsAddressed items)
  where
    go : (rs : List SearchResult) → All IsAddressed rs → IsReply name (none_or name rs)
    go [] h = failed _ _ _ refl
    go (r ∷ rs) h = found refl (λ e. cc) h

status_fault-IsReply :
    (name : String) (n : ℕ) (body : String)
    → When (λ e. IsReply name ([], some e)) (status_fault name n body)
unfolding status_fault
status_fault-IsReply name n body = elim (Bool-cases (n == 429)) [
  | inl e ↦ rw e (failed _ _ _ refl)
  | inr e ↦ rw e (elim (Bool-cases (leb 500 n)) [
    | inl h ↦ rw h (failed _ _ _ refl)
    | inr h ↦
        rw h (elim (Bool-cases (leb 400 n)) [ inl k ↦ rw k (failed _ _ _ refl) | inr k ↦ rw k tt ])
  ])
]

unless-IsReply :
    (name : String) (o : Option Err) (a : Answer)
    → When (λ e. IsReply name ([], some e)) o
    → IsReply name a
    → IsReply name (unless o a)
unless-IsReply name (some e) a h k = h
unless-IsReply name none a h k = k

after_do-IsReply :
    (name : String) (items : String → Err ⊎ List Item) (sent : Sent)
    → IsReply name (after_do name items sent)
unfolding after_do
after_do-IsReply name items (no_reply e) = failed _ _ _ refl
after_do-IsReply name items (replied r) =
    unless-IsReply name _ _ (status_fault-IsReply name r.status_code r.body)
      (read_payload-IsReply name (items r.body))

refused_or-IsReply {ℓ} :
    {W : Type ℓ} (name : String) (w : W) (o : Option Err) (done : Answer × W)
    → IsReply name done.0
    → IsReply name (refused_or name w o done).0
refused_or-IsReply name w (some e) done h = failed _ _ _ refl
refused_or-IsReply name w none done h = h

paid_search-IsReply {ℓ} :
    {W : Type ℓ} (lib : Formats) (send : Request → W → Sent × W) (p : Paid) (req : SearchRequest)
    (w : W)
    → IsReply p.name (paid_search lib send p req w).0
unfolding paid_search
paid_search-IsReply lib send p req w = elim (Bool-cases (paid_enabled p)) [
  | inr e ↦ rw e (failed _ _ _ refl)
  | inl e ↦
      rw e (
        refused_or-IsReply p.name w _ _
          (after_do-IsReply p.name p.items (send (p.request req) w).0))
]

-- Each paid provider answers, whatever it is asked and whatever comes over the network, with results
-- and no error, each result with an address that is not blank, or with an error that names the
-- provider, and no results.
pub paid_searches-IsReply {ℓ} :
    {W : Type ℓ} (lib : Formats) (send : Request → W → Sent × W) (key : String)
    (req : SearchRequest) (w : W)
    → IsReply "brave" (brave_search lib send key req w).0
      × IsReply "tavily" (tavily_search lib send key req w).0
      × IsReply "serpapi" (serpapi_search lib send key req w).0
unfolding brave_search tavily_search serpapi_search brave tavily serpapi
paid_searches-IsReply lib send key req w = (
  paid_search-IsReply lib send (brave lib key) req w,
  paid_search-IsReply lib send (tavily lib key) req w,
  paid_search-IsReply lib send (serpapi lib key) req w,
)

-- A SearchError that names a provider.
abbrev pub IsNamed : Err → Type 0
IsNamed e = (se : SearchError) × (as_search_error e ≡ some se) × (is_empty se.provider ≡ false)

classify-named : (e : Err) → is_empty (classify "ddg" e).provider ≡ false
classify-named e = classify-provider "ddg" e refl

-- Between one result and so many; or an error that names a provider.
abbrev pub IsDdgReply : ℕ → Result (List SearchResult) → Type 0
IsDdgReply max (ok rs) = Within max rs
IsDdgReply max (err e) = IsNamed e
IsDdgReply max crash = Unit
IsDdgReply max out_of_fuel = Unit

IsNamed-search_fault :
    (kind : ErrorKind) (cause : Err) → IsNamed (search_fault "ddg" kind false cause)
unfolding as_search_error
IsNamed-search_fault kind cause = (_, refl, refl)

module _ {W : Type 0} (env : Env W) (lib : Library) where
  ddg_answer-IsDdgReply :
      (max : ℕ) (a : Result (List SearchResult))
      → ((rs : List SearchResult) → a ≡ ok rs → Within max rs)
      → IsDdgReply max (ddg_answer env lib a)
  unfolding as_search_error
  ddg_answer-IsDdgReply max (ok []) h = IsNamed-search_fault _ _
  ddg_answer-IsDdgReply max (ok (r ∷ rs)) h = h (r ∷ rs) refl
  ddg_answer-IsDdgReply max (err e) h = (classify "ddg" e, refl, classify-named e)
  ddg_answer-IsDdgReply max crash h = tt
  ddg_answer-IsDdgReply max out_of_fuel h = tt

  -- The provider "ddg", with a client or without one, answers a search with at least one result and at
  -- most MaxResults, or 10 where that is not positive; or with an error that names a provider; or it
  -- panics or runs out of fuel.
  pub ddg_search-IsDdgReply :
      (fuel : ℕ) (has_client : Bool) (req : SearchRequest) (c : Ctx W)
      → IsDdgReply (or_default req.max_results 10) (ddg_search env lib fuel has_client req c).0
  unfolding ddg_search to_search_options
  ddg_search-IsDdgReply fuel true req c = elim (Bool-cases (is_empty (trim_space req.query))) [
    | inl e ↦ rw e (IsNamed-search_fault _ _)
    | inr e ↦ rw e (
        ddg_answer-IsDdgReply _ _
          (λ rs. search_results-Within env lib fuel req.query (to_search_options req) c rs))
  ]
  ddg_search-IsDdgReply fuel false req c = IsNamed-search_fault _ _
