-- ===== src/Client/Answers.antt =====
-- client.go: how many results `Search` and `SearchPages` give.
use go_ddgs_stealth.Common.{
  ℕ, zero, suc, ◌+◌, ◌*◌, ◌≤◌, ◌<◌, ◌≡◌, refl, String, Option, none, some, List, [], ◌∷◌, ◌++◌,
  arith, length, length-append,
}
use go_ddgs_stealth.Common.Int.{ℤ, pos, ◌+ℤ◌, or_default}
use go_ddgs_stealth.Common.Text.{trim_space}
use go_ddgs_stealth.Errors.{Err}
use go_ddgs_stealth.Engine.{SearchResult}
use go_ddgs_stealth.Client.{Env, Ctx, Result, ok, err, crash, out_of_fuel}
use go_ddgs_stealth.Client.Search.{
  Library, SearchOptions, first, from_html, fall_back, after_djs, search_results, pages_from,
  search_pages, with_region, search_djs, warm_up,
}

-- Between one result and so many.
abbrev pub Within : ℕ → List SearchResult → Type 0
Within max rs = (0 < length rs) × (length rs ≤ max)

module _ {W : Type 0} (env : Env W) (lib : Library) where
  length-first : (n : ℕ) (rs : List SearchResult) → length (first n rs) ≤ n
  length-first zero rs = omega arith
  length-first (suc n) [] = omega arith
  length-first (suc n) (r ∷ rs) = omega (arith, length-first n rs)

  length-first_positive :
      (n : ℕ) (r : SearchResult) (rs : List SearchResult) → 0 < n → 0 < length (first n (r ∷ rs))
  length-first_positive zero r rs h = omega arith
  length-first_positive (suc n) r rs h = omega arith

  first-Within :
      (max : ℕ) (r : SearchResult) (rs : List SearchResult)
      → 0 < max
      → Within max (first max (r ∷ rs))
  first-Within max r rs h = (length-first_positive max r rs h, length-first max (r ∷ rs))

  from_html-Within :
      (max : ℕ) (e : Option Err) (a : Result (List SearchResult)) (rs : List SearchResult)
      → 0 < max
      → from_html max e a ≡ ok rs
      → Within max rs
  from_html-Within max e (ok []) rs h q = ground (arith)
  from_html-Within max e (ok (r ∷ more)) rs h q = ground (arith, first-Within max r more h)
  from_html-Within max none (err x) rs h q = ground (arith)
  from_html-Within max (some e) (err x) rs h q = ground (arith)
  from_html-Within max e crash rs h q = ground (arith)
  from_html-Within max e out_of_fuel rs h q = ground (arith)

  after_djs-Within :
      (fuel max : ℕ) (query : String) (opts : SearchOptions) (a : Result (List SearchResult))
      (c : Ctx W) (rs : List SearchResult)
      → 0 < max
      → (after_djs env lib fuel max query opts a c).0 ≡ ok rs
      → Within max rs
  unfolding after_djs fall_back
  after_djs-Within fuel max query opts (ok []) c rs h q =
      grind (arith, λ (a : Result (List SearchResult)). from_html-Within max none a rs h)
  after_djs-Within fuel max query opts (ok (r ∷ more)) c rs h q =
      ground (arith, first-Within max r more h)
  after_djs-Within fuel max query opts (err e) c rs h q =
      grind (arith, λ (a : Result (List SearchResult)). from_html-Within max (some e) a rs h)
  after_djs-Within fuel max query opts crash c rs h q = ground (arith)
  after_djs-Within fuel max query opts out_of_fuel c rs h q = ground (arith)

  -- `Search` without an error gives at least one result, and at most MaxResults, or 10 where that is
  -- not positive.
  pub search_results-Within :
      (fuel : ℕ) (query : String) (opts : SearchOptions) (c : Ctx W) (rs : List SearchResult)
      → (search_results env lib fuel query opts c).0 ≡ ok rs
      → Within (or_default opts.max_results 10) rs
  unfolding search_results
  search_results-Within fuel query opts c rs q =
      let q' = trim_space query in
      let opts' = with_region opts in
      let (answer, c1) = search_djs env lib fuel q' opts' (warm_up env lib c).1 in
      ground (
        arith,
        after_djs-Within fuel (or_default opts.max_results 10) q' opts' answer c1 rs positive,
      )
    where
      positive : 0 < or_default opts.max_results 10
      positive = ground (arith)

  page_of :
      (fuel : ℕ) (query : String) (per_page : ℕ) (curr : SearchOptions) (c : Ctx W)
      (rs : List SearchResult)
      → 0 < per_page
      → curr.max_results ≡ pos per_page
      → (search_results env lib fuel query curr c).0 ≡ ok rs
      → length rs ≤ per_page
  page_of fuel query per_page curr c rs h same q =
      ground (arith, search_results-Within fuel query curr c rs q)

  pages_from-length :
      (fuel : ℕ) (query : String) (per_page i left : ℕ) (opts : SearchOptions)
      (all : List SearchResult) (c : Ctx W)
      → 0 < per_page
      → length (pages_from env lib fuel query per_page i left opts all c).0.0
        ≤ length all + left * per_page
  unfolding pages_from
  pages_from-length fuel query per_page i zero opts all c h = ground (arith)
  pages_from-length fuel query per_page i (suc left) opts all c h =
      let curr = record opts { max_results = pos per_page; offset = opts.offset +ℤ pos (i * 30) } in
      let (answer, c1) = search_results env lib fuel query curr c in
      let one_more : suc left * per_page ≡ per_page + left * per_page = omega arith in
      grind (
        arith,
        one_more,
        λ (rs : List SearchResult). page_of fuel query per_page curr c rs h refl,
        λ (rs : List SearchResult). length-append all rs,
        λ (rs : List SearchResult).
            pages_from-length fuel query per_page (suc i) left opts (all ++ rs) c1 h,
      )

  -- `SearchPages` gives at most as many results as the pages asked for hold, with 1 page
  -- or 30 results a page where a number is not positive, whether or not it ends with an error.
  pub search_pages-length :
      (fuel : ℕ) (query : String) (per_page pages : ℤ) (opts : SearchOptions) (c : Ctx W)
      → length (search_pages env lib fuel query per_page pages opts c).0.0
        ≤ or_default pages 1 * or_default per_page 30
  unfolding search_pages
  search_pages-length fuel query per_page pages opts c = omega (
    arith,
    pages_from-length fuel query (or_default per_page 30) 0 (or_default pages 1) opts [] c positive,
  )
    where
      positive : 0 < or_default per_page 30
      positive = ground (arith)
