-- ===== src/FetcherPool/Fairness.antt =====
-- Fetchers are handed out in turn.
use go_ddgs_stealth.Common.{
  ℕ, zero, suc, ◌+◌, ◌%◌, ◌<◌, ◌≡◌, refl, String, false, some, [], ◌∷◌, ◌++◌, arith, ◌==◌,
  if◌then◌else◌, length, get_elem?, str_eq, eq_refl, ap, ◌∙◌, get_elem?_total, Bool-cases, inl, inr,
}
use native.Mathlib.Nat.{mod-lt, mod-add-mod}
use go_ddgs_stealth.Common.Dict
use go_ddgs_stealth.Common.Dict.{Dict, lookup-insert}
use go_ddgs_stealth.FetcherPool.{FetcherSessionPool, pool_of, index_of, acquire, add}

turn_index : (i k n : ℕ) → ((i % n + 1) % n + k) % n ≡ (i + suc k) % n
turn_index i k n =
    mod-add-mod (i % n + 1) n k ∙ ap (λ t. t % n) (regroup (i % n) k) ∙ mod-add-mod i n (suc k)
  where
    regroup : (a b : ℕ) → (a + 1) + b ≡ a + suc b
    regroup a b = omega arith

module _ {F : Type 0} where
  -- So many calls of `Acquire` for one kind.
  unfoldable pub acquire_times : ℕ → FetcherSessionPool F → String → FetcherSessionPool F
  acquire_times zero p kind = p
  acquire_times (suc k) p kind = acquire_times k (acquire p kind).0 kind

  acquire_lem :
      (p : FetcherSessionPool F) (kind : String)
      → 0 < length (pool_of p kind)
      → acquire p kind ≡ (
        record p {
          next_idx =
              Dict.insert kind
                ((index_of p kind % length (pool_of p kind) + 1) % length (pool_of p kind))
                p.next_idx;
        },
        inr (get_elem? (pool_of p kind) (index_of p kind % length (pool_of p kind))),
      )
  unfolding acquire
  acquire_lem p kind h =
      let some_left : (length (pool_of p kind) == 0) ≡ false = ground arith in rw some_left refl

  pool_of-acquire :
      (p : FetcherSessionPool F) (kind other : String)
      → pool_of (acquire p kind).0 other ≡ pool_of p other
  unfolding acquire pool_of
  pool_of-acquire p kind other = ground arith

  acquire_index :
      (p : FetcherSessionPool F) (kind other : String)
      → 0 < length (pool_of p kind)
      → index_of (acquire p kind).0 other ≡ (
          if str_eq kind other
          then (index_of p kind % length (pool_of p kind) + 1) % length (pool_of p kind)
          else index_of p other)
  acquire_index p kind other h =
      rw (acquire_lem p kind h)
        (unfold index_of in rw (lookup-insert kind other _ p.next_idx) (ground arith))

  -- While fetchers of a kind are registered, the k-th further call of `Acquire` for it succeeds and
  -- returns the fetcher k places on from the first one, cyclically.
  pub acquire-turn :
      (k : ℕ) (p : FetcherSessionPool F) (kind : String)
      → 0 < length (pool_of p kind)
      → (f : F) × ((acquire (acquire_times k p kind) kind).1 ≡ inr (some f))
        × (get_elem? (pool_of p kind) ((index_of p kind + k) % length (pool_of p kind)) ≡ some f)
  unfolding acquire_times
  acquire-turn zero p kind h =
      let here : index_of p kind + 0 ≡ index_of p kind = omega arith in
      let (f, found) = get_elem?_total (pool_of p kind) _ (mod-lt (index_of p kind) h) in
      (f, rw (acquire_lem p kind h) (rw found refl), rw here found)
  acquire-turn (suc k) p kind h =
      let p' = (acquire p kind).0 in
      let same = pool_of-acquire p kind kind in
      let index = acquire_index p kind kind h in
      let ih = acquire-turn k p' kind (rw same h) in
      let n = length (pool_of p kind) in
      (
        ih.0,
        ih.1,
        rw (← turn_index (index_of p kind) k n) (rw (same, index, eq_refl kind) at (ih.2)),
      )

  -- A call for one kind changes neither the fetchers of any kind nor the turn of another kind.
  pub acquire_others :
      (p : FetcherSessionPool F) (kind other : String)
      → str_eq kind other ≡ false
      → (pool_of (acquire p kind).0 other ≡ pool_of p other)
        × (index_of (acquire p kind).0 other ≡ index_of p other)
  acquire_others p kind other ne = (
    pool_of-acquire p kind other,
    elim (Bool-cases (length (pool_of p kind) == 0)) [
      | inl empty ↦ unfold acquire in rw empty refl
      | inr full ↦ acquire_index p kind other (ground arith) ∙ rw ne refl
    ],
  )

  -- A fetcher that is added goes to the end of its kind's turn order, and to no other kind.
  pub add_lem :
      (p : FetcherSessionPool F) (kind other : String) (f : F)
      → pool_of (add p kind (some f)).0 other
        ≡ (if str_eq kind other then pool_of p kind ++ f ∷ [] else pool_of p other)
  unfolding add pool_of
  add_lem p kind other f = rw (lookup-insert kind other _ p.pools) (ground arith)
