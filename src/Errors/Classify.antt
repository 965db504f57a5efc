-- ===== src/Errors/Classify.antt =====
-- What `classifyError` makes of an error, wrapped or not.
use go_ddgs_stealth.Common.{◌≡◌, refl, String, false, List, [], ◌∷◌, arith}
use go_ddgs_stealth.Common.Text.{is_empty}
use go_ddgs_stealth.Errors.{
  Err, to_err, wrapped, classify, is_blocked, as_search_error, as_blocked_error, is_no_results,
  is_parse_failure,
}

-- Any number of layers of wrapping.
unfoldable pub wrap_all : List String → Err → Err
wrap_all [] e = e
wrap_all (m ∷ ms) e = wrapped m (wrap_all ms e)

same_verdict :
    (ms : List String) (e : Err)
    → (as_search_error (wrap_all ms e) ≡ as_search_error e)
      × (as_blocked_error (wrap_all ms e) ≡ as_blocked_error e)
      × (is_blocked (wrap_all ms e) ≡ is_blocked e)
      × (is_no_results (wrap_all ms e) ≡ is_no_results e)
      × (is_parse_failure (wrap_all ms e) ≡ is_parse_failure e)
unfolding wrap_all as_search_error as_blocked_error is_blocked is_no_results is_parse_failure
same_verdict [] e = (refl, refl, refl, refl, refl)
same_verdict (m ∷ ms) e = same_verdict ms e

-- Wrapping an error in any number of messages changes neither the kind, the provider, the
-- temporary mark nor the details of its classification.
pub classify-wrap_all :
    (provider : String) (ms : List String) (e : Err)
    → let s = classify provider (wrap_all ms e) in
      let s' = classify provider e in
      (s.kind ≡ s'.kind)
      × (s.provider ≡ s'.provider)
      × (s.temporary ≡ s'.temporary)
      × (s.details ≡ s'.details)
unfolding classify
classify-wrap_all provider ms e =
    let (same_search, same_event, same_blocked, same_results, same_parse) = same_verdict ms e in
    ground arith

pub classify-provider :
    (provider : String) (e : Err)
    → is_empty provider ≡ false
    → is_empty (classify provider e).provider ≡ false
unfolding classify
classify-provider provider e ne = ground arith

-- Classifying a classified error again changes nothing but an empty provider's name.
pub classify_idem :
    (provider other : String) (e : Err)
    → is_empty provider ≡ false
    → classify other (to_err (classify provider e)) ≡ classify provider e
classify_idem provider other e ne =
    unfold classify as_search_error in rw (classify-provider provider e ne) refl
