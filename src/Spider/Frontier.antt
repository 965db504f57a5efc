-- ===== src/Spider/Frontier.antt =====
-- spider.go, Run: what a crawl promises, without its goroutines and channels. A frontier tells how
-- often each URL, trimmed, waits to be fetched and was fetched, and whether the crawl is cancelled. URLs are only compared, so the order in
-- which they wait is forgotten.
use go_ddgs_stealth.Common.{
  ℕ, suc, ◌+◌, ◌-◌, ◌≤◌, ◌≡◌, String, Bool, true, false, ◌||◌, ◌⊎◌, inl, inr, str_eq, if◌then◌else◌,
  arith, eq_iff,
}

pub record Frontier : Type 0 where
  pub seen : String → Bool
  pub pending : String → ℕ
  pub visits : String → ℕ
  pub pages : ℕ
  pub budget : ℕ
  -- whether the crawl is cancelled
  pub cancelled : Bool

abbrev pub bit : Bool → ℕ
bit b = if b then 1 else 0

-- A new URL waits to be fetched.
abbrev pub accept : String → Frontier → Frontier
accept k f = record f {
  seen = λ j. str_eq k j || f.seen j;
  pending = λ j. f.pending j + bit (str_eq k j);
}

-- A URL that waits is given up.
abbrev pub drop : String → Frontier → Frontier
drop k f = record f { pending = λ j. f.pending j - bit (str_eq k j) }

-- A URL that waits is fetched, which costs a page of the budget.
abbrev pub visit : String → Frontier → Frontier
visit k f = record f {
  pending = λ j. f.pending j - bit (str_eq k j);
  visits = λ j. f.visits j + bit (str_eq k j);
  pages = suc f.pages;
  budget = f.budget - 1;
}

pub record Agrees (f g : Frontier) : Type 0 where
  pub seen : (j : String) → f.seen j ≡ g.seen j
  pub pending : (j : String) → f.pending j ≡ g.pending j
  pub visits : (j : String) → f.visits j ≡ g.visits j
  pub pages : f.pages ≡ g.pages
  pub budget : f.budget ≡ g.budget

-- What one step of a crawl may do; whether it is cancelled after the step.
pub data Move (cancelled : Bool) (f g : Frontier) : Type 0 where
  rests : Agrees g f → Move cancelled f g
  accepts : (k : String) → f.seen k ≡ false → Agrees g (accept k f) → Move cancelled f g
  -- A URL is given up by a crawl that is cancelled, and only by one.
  drops :
      (k : String) → cancelled ≡ true → 1 ≤ f.pending k → Agrees g (drop k f) → Move cancelled f g
  fetches :
      (k : String) → 1 ≤ f.pending k → 1 ≤ f.budget → Agrees g (visit k f) → Move cancelled f g

-- A move that gives nothing up is a move of a crawl that is cancelled, too.
pub weaken : (c : Bool) (f g : Frontier) → Move false f g → Move c f g
weaken c f g (rests a) = rests a
weaken c f g (accepts k new a) = accepts k new a
weaken c f g (drops k e w a) = cc
weaken c f g (fetches k w b a) = fetches k w b a

-- What many steps may do. A cancellation is not taken back.
pub data Moves : Frontier → Frontier → Type 0 where
  no_moves : (f : Frontier) → Moves f f
  then_moves :
      (f g h : Frontier)
      → Moves f g
      → Move h.cancelled g h
      → (g.cancelled ≡ true → h.cancelled ≡ true)
      → Moves f h

-- With the URLs that the crawl began with: each URL waits or was fetched once at most, and only if it
-- is remembered and was not before. The pages fetched and the rest of the budget are `n` together.
pub record IsSound (seen_before : String → Bool) (n : ℕ) (f : Frontier) : Type 0 where
  pub once : (j : String) → f.pending j + f.visits j + bit (seen_before j) ≤ bit (f.seen j)
  pub paid : f.pages + f.budget ≡ n

module _ (seen_before : String → Bool) (n : ℕ) where
  Move-IsSound :
      (c : Bool) (f g : Frontier) → Move c f g → IsSound seen_before n f → IsSound seen_before n g
  Move-IsSound c f g (rests a) h = record {
    once = λ j. ground (arith, a.seen j, a.pending j, a.visits j, h.once j);
    paid = omega (arith, a.pages, a.budget, h.paid);
  }
  Move-IsSound c f g (accepts k e a) h = record {
    once = λ j. ground (arith, a.seen j, a.pending j, a.visits j, h.once j, eq_iff k j);
    paid = omega (arith, a.pages, a.budget, h.paid);
  }
  Move-IsSound c f g (drops k b e a) h = record {
    once = λ j. ground (arith, a.seen j, a.pending j, a.visits j, h.once j);
    paid = omega (arith, a.pages, a.budget, h.paid);
  }
  Move-IsSound c f g (fetches k e b a) h = record {
    once = λ j. ground (arith, a.seen j, a.pending j, a.visits j, h.once j, eq_iff k j);
    paid = omega (arith, a.pages, a.budget, b, h.paid);
  }

  pub Moves-IsSound :
      (f g : Frontier) → Moves f g → IsSound seen_before n f → IsSound seen_before n g
  Moves-IsSound f g (no_moves _) h = h
  Moves-IsSound f g (then_moves _ g' _ ms m kept) h =
      Move-IsSound g.cancelled g' g m (Moves-IsSound f g' ms h)

-- Every URL remembered since the crawl began waits to be fetched or was fetched.
abbrev pub IsKept : (seen_before : String → Bool) → Frontier → Type 0
IsKept seen_before f =
    (j : String) → f.pending j + f.visits j + bit (seen_before j) ≡ bit (f.seen j)

-- A move keeps that, but for giving up a URL of a crawl that is cancelled.
pub Move-IsKept :
    (seen_before : String → Bool) (c : Bool) (f g : Frontier)
    → Move c f g
    → IsKept seen_before f
    → ((c ≡ false) ⊎ ((k : String) → f.pending k ≡ 0))
    → IsKept seen_before g
Move-IsKept b c f g (rests a) h e j = ground (arith, a.seen j, a.pending j, a.visits j, h j)
Move-IsKept b c f g (accepts k new a) h e j =
    ground (arith, a.seen j, a.pending j, a.visits j, h j, eq_iff k j)
Move-IsKept b c f g (drops k lost w a) h (inl e) j = cc
Move-IsKept b c f g (drops k lost w a) h (inr e) j = absurd (omega (arith, e k, w))
Move-IsKept b c f g (fetches k w m a) h e j =
    ground (arith, a.seen j, a.pending j, a.visits j, h j, eq_iff k j)
