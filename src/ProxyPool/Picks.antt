-- ===== src/ProxyPool/Picks.antt =====
-- What `Next` hands out.
use go_ddgs_stealth.Common.{
  ℕ, zero, suc, ◌+◌, ◌-◌, ◌%◌, ◌≤◌, ◌<◌, ◌≡◌, refl, sym, true, false, some, List, [], ◌∷◌, arith,
  get_elem?, length, ◌==◌, Bool-cases, inl, inr, All, All-get_elem?, ◌∙◌, ◌≢◌, ◌↔◌,
}
use go_ddgs_stealth.Common.Int.{ℤ, pos, negsuc, ltb_ℤ, ◌-ℤ◌}
use go_ddgs_stealth.Breaker.{Time}
use go_ddgs_stealth.ProxyPool.{
  RotationStrategy, ProxyEntry, ProxyPool, picked, nothing, panics, rotate_random, rotate_weighted,
  rotate_round_robin, usable, available_from, available, at_index, walk, walk_all, weighted_pick,
  by_strategy, next, sum_weights,
}

-- A position of the pool, with the entry that stands there and is not in cooldown.
abbrev pub IsUsable : ProxyPool → Time → ℕ × ProxyEntry → Type 0
IsUsable p now (i, e) = (get_elem? p.entries i ≡ some e) × (usable p now e ≡ true)

module _ (p : ProxyPool) (now : Time) where
  abbrev Offset : ℕ → List ProxyEntry → ℕ × ProxyEntry → Type 0
  Offset start es (i, e) =
      (start ≤ i) × (get_elem? es (i - start) ≡ some e) × (usable p now e ≡ true)

  Offset-shift :
      (start : ℕ) (d : ProxyEntry) (es : List ProxyEntry) (l : List (ℕ × ProxyEntry))
      → All (Offset (suc start) es) l
      → All (Offset start (d ∷ es)) l
  Offset-shift start d es [] h = tt
  Offset-shift start d es ((i, e) ∷ l) ((le, found, fine), h) =
      let step : i - start ≡ suc (i - suc start) = omega arith in
      ((omega arith, rw step found, fine), Offset-shift start d es l h)

  available_from-Offset :
      (start : ℕ) (es : List ProxyEntry) → All (Offset start es) (available_from p now start es)
  unfolding available_from
  available_from-Offset start [] = tt
  available_from-Offset start (e ∷ es) = elim (Bool-cases (usable p now e)) [
    | inl fine ↦ rw fine (
      (omega arith, rw (zero_offset start), fine),
      Offset-shift start e es _ (available_from-Offset (suc start) es),
    )
    | inr cold ↦ rw cold (Offset-shift start e es _ (available_from-Offset (suc start) es))
  ]
    where
      zero_offset : (n : ℕ) → n - n ≡ 0
      zero_offset n = omega arith

  from_zero : (l : List (ℕ × ProxyEntry)) → All (Offset 0 p.entries) l → All (IsUsable p now) l
  from_zero [] h = tt
  from_zero ((i, e) ∷ l) ((_, found, fine), h) =
      let same : i - 0 ≡ i = omega arith in ((rw same at found, fine), from_zero l h)

  available-IsUsable : All (IsUsable p now) (available p now)
  unfolding available
  available-IsUsable = from_zero _ (available_from-Offset 0 p.entries)

  -- If nothing is available, every entry is in cooldown.
  abbrev IsCold : ProxyEntry → Type 0
  IsCold e = usable p now e ≡ false

  available_from-IsCold :
      (start : ℕ) (es : List ProxyEntry) → available_from p now start es ≡ [] → All IsCold es
  unfolding available_from
  available_from-IsCold start [] h = tt
  available_from-IsCold start (e ∷ es) h = elim (Bool-cases (usable p now e)) [
    | inl fine ↦ absurd (cc (rw (fine, available_from) at h))
    | inr cold ↦ (cold, available_from-IsCold (suc start) es (rw (cold, available_from) at h))
  ]

walk-All {ℓ} :
    (P : ℕ × ProxyEntry → Type ℓ) (n : ℤ) (f : ℕ × ProxyEntry) (rest : List (ℕ × ProxyEntry))
    → All P (f ∷ rest)
    → P (walk n f rest)
unfolding walk
walk-All P n f [] h = h.0
walk-All P n (i, e) (g ∷ rest) h = elim (Bool-cases (ltb_ℤ (n -ℤ e.weight) (pos 0))) [
  | inl stop ↦ rw stop h.0
  | inr go ↦ rw go (walk-All P (n -ℤ e.weight) g rest h.1)
]

at_index-All :
    (P : ℕ × ProxyEntry → Type 0) (l : List (ℕ × ProxyEntry)) (i : ℕ) (e : ℕ × ProxyEntry)
    → All P l
    → at_index l i ≡ picked e
    → P e
at_index-All P l i e h q = All-get_elem? P l i e h (ground arith)

walk_all-All :
    (P : ℕ × ProxyEntry → Type 0) (n : ℤ) (l : List (ℕ × ProxyEntry)) (e : ℕ × ProxyEntry)
    → All P l
    → walk_all n l ≡ picked e
    → P e
walk_all-All P n [] e h q = cc
walk_all-All P n (f ∷ rest) e h q =
    let same : walk n f rest ≡ e = cc in rw (← same) (walk-All P n f rest h)

weighted_pick-All :
    (P : ℕ × ProxyEntry → Type 0) (l : List (ℕ × ProxyEntry)) (draw : ℕ) (e : ℕ × ProxyEntry)
    → All P l
    → weighted_pick l draw ≡ picked e
    → P e
unfolding weighted_pick
weighted_pick-All P l draw e h q = go (sum_weights l) refl
  where
    go : (t : ℤ) → sum_weights l ≡ t → P e
    go (negsuc n) s =
        let stuck : weighted_pick l draw ≡ panics = rw (s, weighted_pick) refl in
        let clash : panics ≡ picked e = sym stuck ∙ q in cc
    go (pos t) s = elim (Bool-cases (t == 0)) [
      | inl none_weighs ↦
          let even : weighted_pick l draw ≡ at_index l (draw % length l) =
            rw (s, weighted_pick) (rw none_weighs) in
          at_index-All P l (draw % length l) e h (sym even ∙ q)
      | inr some_weigh ↦
          let walked : weighted_pick l draw ≡ walk_all (pos (draw % t)) l =
            rw (s, weighted_pick) (rw some_weigh) in
          walk_all-All P (pos (draw % t)) l e h (sym walked ∙ q)
    ]

-- A proxy that `Next` returns stands in the pool and is not in cooldown, whatever the strategy.
pub next-IsUsable :
    (p : ProxyPool) (now : Time) (draw : ℕ) (e : ℕ × ProxyEntry)
    → (next p now draw).0 ≡ picked e
    → IsUsable p now e
unfolding next
next-IsUsable p now draw e q = elim (Bool-cases (length (available p now) == 0)) [
  | inl empty ↦ let clash : nothing ≡ picked e = rw empty at q in cc
  | inr full ↦ by_strategy-All p.strategy (rw full at q)
]
  where
    by_strategy-All :
        (s : RotationStrategy)
        → (by_strategy p (available p now) draw s).0 ≡ picked e
        → IsUsable p now e
    by_strategy-All rotate_random r =
        at_index-All (IsUsable p now) _ _ e (available-IsUsable p now) r
    by_strategy-All rotate_weighted r =
        weighted_pick-All (IsUsable p now) _ draw e (available-IsUsable p now) r
    by_strategy-All rotate_round_robin r =
        at_index-All (IsUsable p now) _ _ e (available-IsUsable p now) r

at_index-ne-nothing : (l : List (ℕ × ProxyEntry)) (i : ℕ) → at_index l i ≢ nothing
at_index-ne-nothing l i h = ground arith

weighted_pick-ne-nothing : (l : List (ℕ × ProxyEntry)) (draw : ℕ) → weighted_pick l draw ≢ nothing
unfolding weighted_pick
weighted_pick-ne-nothing [] draw h = ground arith
weighted_pick-ne-nothing (f ∷ rest) draw h = ground arith

available_from_of_IsCold :
    (p : ProxyPool) (now : Time) (start : ℕ) (es : List ProxyEntry)
    → All (λ e. usable p now e ≡ false) es
    → available_from p now start es ≡ []
unfolding available_from
available_from_of_IsCold p now start [] h = refl
available_from_of_IsCold p now start (e ∷ es) h =
    rw h.0 (available_from_of_IsCold p now (suc start) es h.1)

nil_of_length : (l : List (ℕ × ProxyEntry)) → (length l == 0) ≡ true → l ≡ []
nil_of_length [] h = refl
nil_of_length (e ∷ l) h = ground arith

-- `Next` returns nil exactly when every proxy of the pool is in cooldown.
pub next-nothing_iff :
    (p : ProxyPool) (now : Time) (draw : ℕ)
    → ((next p now draw).0 ≡ nothing) ↔ All (λ e. usable p now e ≡ false) p.entries
unfolding next available
next-nothing_iff p now draw = (forth, back)
  where
    by_strategy-ne : (s : RotationStrategy) → (by_strategy p (available p now) draw s).0 ≢ nothing
    by_strategy-ne rotate_random r =
        at_index-ne-nothing (available p now) (draw % length (available p now)) r
    by_strategy-ne rotate_weighted r = weighted_pick-ne-nothing (available p now) draw r
    by_strategy-ne rotate_round_robin r =
        at_index-ne-nothing (available p now) (p.rr_index % length (available p now)) r

    forth : (next p now draw).0 ≡ nothing → All (λ e. usable p now e ≡ false) p.entries
    forth q = elim (Bool-cases (length (available p now) == 0)) [
      | inl empty ↦ available_from-IsCold p now 0 p.entries (nil_of_length _ empty)
      | inr full ↦ absurd (by_strategy-ne p.strategy (rw full at q))
    ]

    back : All (λ e. usable p now e ≡ false) p.entries → (next p now draw).0 ≡ nothing
    back h = rw (available_from_of_IsCold p now 0 p.entries h) refl

-- So many calls of `Next` at one time.
unfoldable pub turns : ℕ → ProxyPool → Time → ℕ → ProxyPool
turns zero p now draw = p
turns (suc k) p now draw = turns k (next p now draw).1 now draw

available_from-rr_index :
    (p : ProxyPool) (now : Time) (n start : ℕ) (es : List ProxyEntry)
    → available_from (record p { rr_index = n }) now start es ≡ available_from p now start es
unfolding available_from usable
available_from-rr_index p now n start [] = refl
available_from-rr_index p now n start (e ∷ es) = rw (available_from-rr_index p now n (suc start) es)

available-rr_index :
    (p : ProxyPool) (now : Time) (n : ℕ)
    → available (record p { rr_index = n }) now ≡ available p now
unfolding available
available-rr_index p now n = available_from-rr_index p now n 0 p.entries

next-round_robin :
    (p : ProxyPool) (now : Time) (draw : ℕ)
    → p.strategy ≡ rotate_round_robin
    → 0 < length (available p now)
    → next p now draw ≡ (
      at_index (available p now) (p.rr_index % length (available p now)),
      record p { rr_index = p.rr_index + 1 },
    )
unfolding next
next-round_robin p now draw s h =
    let some_left : (length (available p now) == 0) ≡ false = ground arith in rw (some_left, s) refl

-- With rotation in order and some proxy out of cooldown, the k-th further call of `Next` at that
-- time returns the k-th next of the available proxies, cyclically; so n calls in a row go through
-- all n of them once.
pub next-turns :
    (k : ℕ) (p : ProxyPool) (now : Time) (draw : ℕ)
    → p.strategy ≡ rotate_round_robin
    → 0 < length (available p now)
    → (next (turns k p now draw) now draw).0
      ≡ at_index (available p now) ((p.rr_index + k) % length (available p now))
unfolding turns
next-turns zero p now draw s h =
    let here : p.rr_index + 0 ≡ p.rr_index = omega arith in
    rw (next-round_robin p now draw s h, here) refl
next-turns (suc k) p now draw s h =
    let same = available-rr_index p now (p.rr_index + 1) in
    let p' = record p { rr_index = p.rr_index + 1 } in
    let later : (p.rr_index + 1) + k ≡ p.rr_index + suc k = omega arith in
    let ih = next-turns k p' now draw s (rw same h) in
    rw (next-round_robin p now draw s h) (rw (same, later) at ih)
