-- ===== src/Spider/Returns.antt =====
-- spider.go, Run: the steps that end Run without an error.
use go_ddgs_stealth.Common.{
  ◌≡◌, refl, sym, ◌∙◌, String, Bool, true, false, ◌⊎◌, inl, inr, List, [], ◌∷◌, When, When-if, ltb,
  leb, Bool-cases,
}
use go_ddgs_stealth.Common.Text.{trim_space}
use go_ddgs_stealth.Spider.{CrawlResult, Settings, UrlLib}
use go_ddgs_stealth.Spider.Crawl.{
  Worker, Main, seeding, seed_send, awaiting_none, receiving, handling, link_send, returned, Shared,
  queue_room, end_seeding, consider, receive_result, end_page, return_from_run, main_step,
}
use go_ddgs_stealth.Spider.Refines.{consider-cases}
use go_ddgs_stealth.Spider.Counted.{IsCounted}

module _ (lib : UrlLib) (cfg : Settings) where
  -- A step that ends Run without an error finds the crawl not cancelled, or nothing was seeded.
  pub record NilStep (s s' : Shared) : Type 0 where
    pub earlier : s'.cancelled ≡ false → s.cancelled ≡ false
    pub nil : s'.main ≡ returned false → (s.cancelled ≡ false) ⊎ (s'.seeded ≡ 0)

  quiet :
      (s s' : Shared)
      → s'.cancelled ≡ s.cancelled
      → (s'.main ≡ returned false → (s.cancelled ≡ false) ⊎ (s'.seeded ≡ 0))
      → NilStep s s'
  quiet s s' e h = record { earlier = λ c. sym e ∙ c; nil = h }

  return-nil :
      (b : Bool) (s : Shared)
      → (b ≡ false → (s.cancelled ≡ false) ⊎ (s.seeded ≡ 0))
      → NilStep s (return_from_run b s)
  unfolding return_from_run
  return-nil true s h = record { earlier = λ c. cc; nil = λ e. cc }
  return-nil false s h = record { earlier = λ c. cc; nil = λ e. h refl }

  consider-nil :
      (u : String) (past taken : Main) (s : Shared)
      → (past ≡ returned false → ⊥)
      → (taken ≡ returned false → ⊥)
      → NilStep s (consider lib cfg u past taken s)
  consider-nil u past taken s h h' = elim (consider-cases lib cfg u past taken s) [
    | inl e ↦ rw e (quiet s (record s { main = past }) refl (λ x. absurd (h x)))
    | inr (allowed, new, e) ↦ rw e (
        quiet s (record s { seen = trim_space u ∷ s.seen; main = taken }) refl (λ x. absurd (h' x)))
  ]

  receive_result-nil :
      (b : Bool) (s : Shared) (out : List CrawlResult) → When (NilStep s) (receive_result b s out)
  unfolding receive_result
  receive_result-nil b s (r ∷ out) = quiet s _ refl (λ x. cc)
  receive_result-nil b s [] =
      When-if (NilStep s) b (return_from_run s.cancelled s)
        (λ e. return-nil s.cancelled s (λ c. inl c))

  end_page-nil : (s : Shared) → NilStep s (end_page s)
  unfolding end_page
  end_page-nil s = elim (Bool-cases (leb s.in_flight 0)) [
    | inl e ↦ rw e (return-nil s.cancelled s (λ c. inl c))
    | inr e ↦ rw e (quiet s (record s { main = receiving }) refl (λ x. cc))
  ]

  end_seeding-nil : (s : Shared) → NilStep s (end_seeding s)
  unfolding end_seeding
  end_seeding-nil s = elim (Bool-cases (leb s.seeded 0)) [
    | inl e ↦ rw e (quiet s (record s { closed = true; main = awaiting_none }) refl (λ x. cc))
    | inr e ↦ rw e (quiet s (record s { in_flight = s.seeded; main = receiving }) refl (λ x. cc))
  ]

  pub main_step-nil :
      (b : Bool) (m : Main) (s : Shared) (ws : List Worker)
      → IsCounted m s ws
      → When (NilStep s) (main_step lib cfg b m s)
  unfolding main_step
  main_step-nil b (seeding []) s ws h = end_seeding-nil s
  main_step-nil b (seeding (u ∷ us)) s ws h =
      consider-nil u (seeding us) (seed_send _ us) s (λ x. cc) (λ x. cc)
  main_step-nil b (seed_send t us) s ws h =
      When-if (NilStep s) (queue_room cfg s) _ (λ e. quiet s _ refl (λ x. cc))
  main_step-nil b awaiting_none s ws h =
      When-if (NilStep s) b (return_from_run false s) (λ e. return-nil false s (λ c. inr h.phase.1))
  main_step-nil b receiving s ws h = receive_result-nil b s s.out
  main_step-nil b (handling d []) s ws h = end_page-nil s
  main_step-nil b (handling d (u ∷ us)) s ws h = elim (Bool-cases (ltb cfg.max_depth d)) [
    | inl deep ↦ rw deep (quiet s (record s { main = handling d us }) refl (λ x. cc))
    | inr low ↦ rw low (consider-nil u (handling d us) (link_send _ d us) s (λ x. cc) (λ x. cc))
  ]
  main_step-nil b (link_send t d us) s ws h =
      When-if (NilStep s) (queue_room cfg s) _ (λ e. quiet s _ refl (λ x. cc))
  main_step-nil b (returned failed) s ws h = tt
