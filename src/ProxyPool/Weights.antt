-- ===== src/ProxyPool/Weights.antt =====
-- The weights of the pool: the running total, and what the weighted walk picks.
use go_ddgs_stealth.Common.{
  ℕ, zero, suc, ◌%◌, ◌≡◌, refl, String, Bool, false, Option, none, some, All, ◌∙◌, List, [], ◌∷◌,
  ◌++◌, arith, str_eq, Bool-cases, inl, inr, ltb→lt, ap,
}
use go_ddgs_stealth.Common.Int.{ℤ, pos, ◌+ℤ◌, ◌-ℤ◌, ◌≤ℤ◌, ltb_ℤ, int_laws}
use go_ddgs_stealth.Breaker.{Time}
use go_ddgs_stealth.ProxyPool.{
  RotationStrategy, ProxyEntry, ProxyPool, picked, new_entry, add_all, new_proxy_pool, set_cooldown,
  reweigh, set_weight, sum_weights, walk, walk_all, weighted_pick, update, succeed, fail, next,
  mark_success, mark_failed,
}

abbrev pub weights : List ProxyEntry → ℤ
weights [] = pos 0
weights (e ∷ es) = e.weight +ℤ weights es

abbrev pub IsTotalled : ProxyPool → Type 0
IsTotalled p = p.total ≡ weights p.entries

weights-concat :
    (es : List ProxyEntry) (e : ProxyEntry) → weights (es ++ e ∷ []) ≡ weights es +ℤ e.weight
weights-concat [] e = omega int_laws
weights-concat (f ∷ es) e = rw (weights-concat es e) (omega int_laws)

add_all-IsTotalled :
    (parses : String → Bool) (urls : List String) (p q : ProxyPool)
    → IsTotalled p
    → add_all parses urls p ≡ some q
    → IsTotalled q
unfolding add_all
add_all-IsTotalled parses [] p q h e = ground arith
add_all-IsTotalled parses (raw ∷ rest) p q h e =
    let p' = record p { entries = p.entries ++ new_entry raw ∷ []; total = p.total +ℤ pos 1 } in
    let kept : IsTotalled p' = rw (weights-concat p.entries (new_entry raw), h) refl in
    add_all-IsTotalled parses rest p' q kept (ground arith)

reweigh-weights :
    (url : String) (w : ℤ) (es : List ProxyEntry)
    → weights (reweigh url w es).0 ≡ weights es +ℤ (reweigh url w es).1
unfolding reweigh
reweigh-weights url w [] = omega int_laws
reweigh-weights url w (e ∷ es) = elim (Bool-cases (str_eq e.url url)) [
  | inl same ↦ rw same (omega int_laws)
  | inr other ↦ rw other (rw (reweigh-weights url w es) (omega int_laws))
]

update-weights :
    (i : ℕ) (f : ProxyEntry → ProxyEntry) (es : List ProxyEntry)
    → ((e : ProxyEntry) → (f e).weight ≡ e.weight)
    → weights (update i f es) ≡ weights es
update-weights i f [] h = refl
update-weights zero f (e ∷ es) h = rw (h e)
update-weights (suc i) f (e ∷ es) h = rw (update-weights i f es h)

pub set_weight-IsTotalled :
    (p : ProxyPool) (url : String) (w : ℤ) → IsTotalled p → IsTotalled (set_weight p url w)
unfolding set_weight
set_weight-IsTotalled p url w h = rw (reweigh-weights url w p.entries) (rw h)

-- A pool made from addresses that parse has the sum of its entries' weights as its total.
pub new_proxy_pool-IsTotalled :
    (parses : String → Bool) (urls : List String) (strategy : RotationStrategy) (p : ProxyPool)
    → new_proxy_pool parses urls strategy ≡ some p
    → IsTotalled p
unfolding new_proxy_pool
new_proxy_pool-IsTotalled parses urls strategy p e = add_all-IsTotalled parses urls _ p refl e

-- What the owner of a pool may do with it.
pub data Call : Type 0 where
  sets_cooldown : (cooldown max_fails : ℤ) → Call
  sets_weight : (url : String) (weight : ℤ) → Call
  takes_next : (now : Time) (draw : ℕ) → Call
  marks_success : Option ℕ → Call
  marks_failed : Option ℕ → (now : Time) → Call

unfoldable pub call : ProxyPool → Call → ProxyPool
call p (sets_cooldown cooldown max_fails) = set_cooldown p cooldown max_fails
call p (sets_weight url w) = set_weight p url w
call p (takes_next now draw) = (next p now draw).1
call p (marks_success e) = mark_success p e
call p (marks_failed e now) = mark_failed p e now

unfoldable pub calls : ProxyPool → List Call → ProxyPool
calls p [] = p
calls p (c ∷ cs) = calls (call p c) cs

next_total :
    (p : ProxyPool) (now : Time) (draw : ℕ)
    → ((next p now draw).1.total ≡ p.total) × ((next p now draw).1.entries ≡ p.entries)
unfolding next
next_total p now draw = ground arith

call-IsTotalled : (p : ProxyPool) (c : Call) → IsTotalled p → IsTotalled (call p c)
unfolding call set_cooldown mark_success mark_failed
call-IsTotalled p (sets_cooldown cooldown max_fails) h = h
call-IsTotalled p (sets_weight url w) h = set_weight-IsTotalled p url w h
call-IsTotalled p (takes_next now draw) h = let (t, e) = next_total p now draw in rw (t, e) h
call-IsTotalled p (marks_success none) h = h
call-IsTotalled p (marks_success (some i)) h = rw (update-weights i succeed p.entries (λ e. refl)) h
call-IsTotalled p (marks_failed none now) h = h
call-IsTotalled p (marks_failed (some i) now) h =
    rw (update-weights i (fail now) p.entries (λ e. refl)) h

calls_from-IsTotalled : (p : ProxyPool) (cs : List Call) → IsTotalled p → IsTotalled (calls p cs)
unfolding calls
calls_from-IsTotalled p [] h = h
calls_from-IsTotalled p (c ∷ cs) h = calls_from-IsTotalled (call p c) cs (call-IsTotalled p c h)

-- After any calls on a pool that `NewProxyPool` made, the running total is the sum of the weights.
pub calls-IsTotalled :
    (parses : String → Bool) (urls : List String) (strategy : RotationStrategy) (p : ProxyPool)
    (cs : List Call)
    → new_proxy_pool parses urls strategy ≡ some p
    → IsTotalled (calls p cs)
calls-IsTotalled parses urls strategy p cs e =
    calls_from-IsTotalled p cs (new_proxy_pool-IsTotalled parses urls strategy p e)

-- The entry sits where the prefix sums of the weights pass a number.
pub record Bracketed (n : ℤ) (entries : List (ℕ × ProxyEntry)) (e : ℕ × ProxyEntry) : Type 0 where
  pub before : List (ℕ × ProxyEntry)
  pub after : List (ℕ × ProxyEntry)
  pub splits : entries ≡ before ++ e ∷ after
  pub reached : sum_weights before ≤ℤ n
  pub passed : n +ℤ pos 1 ≤ℤ sum_weights before +ℤ e.1.weight

walk-Bracketed :
    (n : ℤ) (f : ℕ × ProxyEntry) (rest : List (ℕ × ProxyEntry))
    → pos 0 ≤ℤ n
    → n +ℤ pos 1 ≤ℤ sum_weights (f ∷ rest)
    → Bracketed n (f ∷ rest) (walk n f rest)
unfolding walk
walk-Bracketed n f [] h t = record {
  before = [];
  after = [];
  splits = refl;
  reached = h;
  passed = omega (int_laws, t);
}
walk-Bracketed n (i, e) (g ∷ rest) h t = elim (Bool-cases (ltb_ℤ (n -ℤ e.weight) (pos 0))) [
  | inl stop ↦ rw stop (record {
    before = [];
    after = g ∷ rest;
    splits = refl;
    reached = h;
    passed = omega (int_laws, ltb→lt _ _ stop);
  })
  | inr go ↦
      rw go (extend (walk-Bracketed (n -ℤ e.weight) g rest (not_ltb go) (omega (int_laws, t))))
]
  where
    not_ltb : ltb_ℤ (n -ℤ e.weight) (pos 0) ≡ false → pos 0 ≤ℤ (n -ℤ e.weight)
    not_ltb s = ground arith

    extend :
        {k : ℕ × ProxyEntry}
        → Bracketed (n -ℤ e.weight) (g ∷ rest) k
        → Bracketed n ((i, e) ∷ g ∷ rest) k
    extend b = record {
      before = (i, e) ∷ b.before;
      after = b.after;
      splits = ap (λ l. (i, e) ∷ l) b.splits;
      reached = omega (int_laws, b.reached);
      passed = omega (int_laws, b.passed);
    }

-- A weighted choice among entries of positive total weight is no panic: it picks an entry at which the
-- prefix sums of the weights pass the draw taken below the total.
pub weighted_pick_brackets :
    (entries : List (ℕ × ProxyEntry)) (draw t : ℕ)
    → sum_weights entries ≡ pos (suc t)
    → (e : ℕ × ProxyEntry) × (weighted_pick entries draw ≡ picked e)
      × Bracketed (pos (draw % suc t)) entries e
unfolding weighted_pick
weighted_pick_brackets [] draw t h = cc
weighted_pick_brackets (f ∷ rest) draw t h = (
  walk (pos (draw % suc t)) f rest,
  rw (h, weighted_pick) (ground arith),
  walk-Bracketed (pos (draw % suc t)) f rest (omega arith) (rw h (omega int_laws)),
)

abbrev pub IsWeighed : ℕ × ProxyEntry → Type 0
IsWeighed e = pos 0 ≤ℤ e.1.weight

sum_weights-nonneg : (l : List (ℕ × ProxyEntry)) → All IsWeighed l → pos 0 ≤ℤ sum_weights l
sum_weights-nonneg [] h = omega int_laws
sum_weights-nonneg (e ∷ l) (h, hs) = omega (int_laws, h, sum_weights-nonneg l hs)

walk-stops :
    (n : ℤ) (e : ℕ × ProxyEntry) (l : List (ℕ × ProxyEntry))
    → n +ℤ pos 1 ≤ℤ e.1.weight
    → walk n e l ≡ e
unfolding walk
walk-stops n e [] h = refl
walk-stops n (i, e) (f ∷ l) h = elim (Bool-cases (ltb_ℤ (n -ℤ e.weight) (pos 0))) [
  | inl stop ↦ rw (stop, walk) refl
  | inr go ↦
      let kept : pos 0 ≤ℤ (n -ℤ e.weight) = ground (arith, go) in absurd (omega (int_laws, h, kept))
]

walk-goes :
    (n : ℤ) (e f : ℕ × ProxyEntry) (l : List (ℕ × ProxyEntry))
    → e.1.weight ≤ℤ n
    → walk n e (f ∷ l) ≡ walk (n -ℤ e.1.weight) f l
unfolding walk
walk-goes n (i, e) f l h = elim (Bool-cases (ltb_ℤ (n -ℤ e.weight) (pos 0))) [
  | inl stop ↦ absurd (omega (int_laws, h, ltb→lt _ _ stop))
  | inr go ↦ rw (go, walk) refl
]

walk_all-reaches :
    (n : ℤ) (before after : List (ℕ × ProxyEntry)) (e : ℕ × ProxyEntry)
    → All IsWeighed before
    → sum_weights before ≤ℤ n
    → n +ℤ pos 1 ≤ℤ sum_weights before +ℤ e.1.weight
    → walk_all n (before ++ e ∷ after) ≡ picked e
walk_all-reaches n [] after e h reached passed =
    ap picked (walk-stops n e after (omega (int_laws, passed)))
walk_all-reaches n (b ∷ []) after e (h, hs) reached passed =
    ap picked (walk-goes n b e after (omega (int_laws, reached)))
    ∙ walk_all-reaches (n -ℤ b.1.weight) [] after e tt (omega (int_laws, reached))
        (omega (int_laws, passed))
walk_all-reaches n (b ∷ c ∷ bs) after e (h, hs) reached passed =
    ap picked (
      walk-goes n b c (bs ++ e ∷ after) (omega (int_laws, reached, sum_weights-nonneg (c ∷ bs) hs)))
    ∙ walk_all-reaches (n -ℤ b.1.weight) (c ∷ bs) after e hs (omega (int_laws, reached))
        (omega (int_laws, passed))

-- Where the total weight is positive and no entry that stands before a given one weighs less than
-- zero, a weighted choice picks that entry for every draw that, taken below the total, is at least
-- the sum of the weights before the entry and less than that sum with the entry's own weight.
pub weighted_pick_at :
    (before after : List (ℕ × ProxyEntry)) (e : ℕ × ProxyEntry) (draw t : ℕ)
    → All IsWeighed before
    → sum_weights (before ++ e ∷ after) ≡ pos (suc t)
    → sum_weights before ≤ℤ pos (draw % suc t)
    → pos (draw % suc t) +ℤ pos 1 ≤ℤ sum_weights before +ℤ e.1.weight
    → weighted_pick (before ++ e ∷ after) draw ≡ picked e
unfolding weighted_pick
weighted_pick_at before after e draw t h total reached passed =
    let walked : weighted_pick (before ++ e ∷ after) draw
        ≡ walk_all (pos (draw % suc t)) (before ++ e ∷ after) =
      rw (total, weighted_pick) (ground arith) in
    walked ∙ walk_all-reaches (pos (draw % suc t)) before after e h reached passed
