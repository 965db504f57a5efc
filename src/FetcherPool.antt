-- ===== src/FetcherPool.antt =====
-- session_pool.go: fetchers pooled by kind, handed out in turn. A kind is a string, a fetcher a
-- value of an abstract type, and the nil interface is `none`. A missing key of a map reads as the
-- zero value: no fetchers, index 0.
pub mod Fairness
use go_ddgs_stealth.Common.{
  ℕ, suc, ◌+◌, ◌%◌, String, Option, none, some, List, [], ◌∷◌, ◌++◌, ◌==◌, if◌then◌else◌, length,
  get_elem?, ◌⊎◌, inl, inr,
}
use go_ddgs_stealth.Common.Dict
use go_ddgs_stealth.Common.Dict.{Dict}

pub record FetcherSessionPool (F : Type 0) : Type 0 where
  pub pools : Dict (List F)
  pub next_idx : Dict ℕ

pub data PoolError : Type 0 where
  fetcher_is_nil : PoolError
  no_fetchers : String → PoolError

abbrev pub or_zero : Option ℕ → ℕ
or_zero none = 0
or_zero (some n) = n

abbrev pub or_nil {ℓ} : {A : Type ℓ} → Option (List A) → List A
or_nil none = []
or_nil (some l) = l

module _ {F : Type 0} where
  unfoldable pub new_fetcher_session_pool : FetcherSessionPool F
  new_fetcher_session_pool = record { pools = []; next_idx = [] }

  -- p.pools[kind]
  unfoldable pub pool_of : FetcherSessionPool F → String → List F
  pool_of p kind = or_nil (Dict.lookup kind p.pools)

  -- p.nextIdx[kind]
  unfoldable pub index_of : FetcherSessionPool F → String → ℕ
  index_of p kind = or_zero (Dict.lookup kind p.next_idx)

  unfoldable pub add :
      FetcherSessionPool F → String → Option F → FetcherSessionPool F × Option PoolError
  unfolding pool_of
  add p kind none = (p, some fetcher_is_nil)
  add p kind (some f) =
      (record p { pools = Dict.insert kind (pool_of p kind ++ f ∷ []) p.pools }, none)

  -- The index is below the length, so the read succeeds (`acquire-turn`).
  unfoldable pub acquire :
      FetcherSessionPool F → String → FetcherSessionPool F × (PoolError ⊎ Option F)
  unfolding pool_of index_of
  acquire p kind =
      let pool = pool_of p kind in
      let i = index_of p kind % length pool in
      if length pool == 0 then (p, inl (no_fetchers kind)) else (
        record p { next_idx = Dict.insert kind ((i + 1) % length pool) p.next_idx },
        inr (get_elem? pool i),
      )

  unfoldable pub size : FetcherSessionPool F → String → ℕ
  unfolding pool_of
  size p kind = length (pool_of p kind)
