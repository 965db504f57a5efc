-- ===== src/Spider/Refines.antt =====
-- spider.go, Run: the steps of a crawl, with its goroutines and channels, as moves of its frontier.
use go_ddgs_stealth.Common.{
  ℕ, zero, suc, ◌+◌, ◌≡◌, refl, ap, String, Bool, true, false, ◌⊎◌, inl, inr, some, List, [], ◌∷◌,
  ◌++◌, str_eq, if◌then◌else◌, arith, total, total-set_elem, length, get_elem?, set_elem, When,
  When-if, eq_refl, Bool-cases,
}
use go_ddgs_stealth.Common.Text.{trim_space}
use go_ddgs_stealth.Errors.{Err}
use go_ddgs_stealth.Fetcher.{FetchResponse}
use go_ddgs_stealth.Spider.{Settings, UrlLib, has, mark_seen, url_allowed}
use go_ddgs_stealth.Spider.Crawl.{
  Task, Worker, idle, got, paused_with, passed, fetching, holding, stopped, Main, seeding,
  seed_send, awaiting_none, receiving, handling, link_send, returned, Shared, Crawl, worker_goes,
  worker_quits, worker_answered, consider, receive, consume, result_of, out_room,
}
use go_ddgs_stealth.Spider.Frontier.{Frontier, bit, Move, rests, drops, fetches}

-- One when the task is for the URL, else zero.
abbrev pub hit : String → Task → ℕ
hit k t = bit (str_eq (trim_space t.url) k)

abbrev pub waits : String → Worker → ℕ
waits k idle = 0
waits k (got t) = hit k t
waits k (paused_with t) = hit k t
waits k (passed t) = hit k t
waits k (fetching t) = 0
waits k (holding r) = 0
waits k stopped = 0

abbrev pub sends : String → Main → ℕ
sends k (seeding us) = 0
sends k (seed_send t us) = hit k t
sends k awaiting_none = 0
sends k receiving = 0
sends k (handling d us) = 0
sends k (link_send t d us) = hit k t
sends k (returned failed) = 0

abbrev pub view : Shared → List Worker → Frontier
view s ws = record {
  seen = λ k. has k s.seen;
  pending = λ k. total (hit k) s.queue + total (waits k) ws + sends k s.main;
  visits = λ k. total (hit k) s.fetched;
  pages = length s.fetched;
  budget = s.budget;
  cancelled = s.cancelled;
}

abbrev pub frontier_of : Crawl → Frontier
frontier_of c = view c.shared c.workers

pub mark_seen-cases :
    (u : String) (seen : List String)
    → (mark_seen u seen ≡ (false, seen))
      ⊎ ((has (trim_space u) seen ≡ false) × (mark_seen u seen ≡ (true, trim_space u ∷ seen)))
unfolding mark_seen
mark_seen-cases u seen = ground arith

-- A URL is passed over, or it is allowed and new and is remembered.
pub consider-cases :
    (lib : UrlLib) (cfg : Settings) (u : String) (past taken : Main) (s : Shared)
    → (consider lib cfg u past taken s ≡ record s { main = past })
      ⊎ ((url_allowed lib cfg u ≡ true)
          × (has (trim_space u) s.seen ≡ false)
          × (consider lib cfg u past taken s
              ≡ record s { seen = trim_space u ∷ s.seen; main = taken }))
unfolding consider
consider-cases lib cfg u past taken s = elim (Bool-cases (url_allowed lib cfg u)) [
  | inr e ↦ inl (rw e refl)
  | inl e ↦ elim (mark_seen-cases u s.seen) [
    | inl old ↦ inl (rw (e, old) refl)
    | inr (new, h) ↦ inr (e, new, rw (e, h) refl)
  ]
]

module _ (lib : UrlLib) (cfg : Settings) (ws : List Worker) where
  abbrev pub MovesTo : ℕ → Shared → Worker × Shared → Type 0
  MovesTo i s p = Move p.1.cancelled (view s ws) (view p.1 (set_elem i p.0 ws))

  -- A worker takes another state and the frontier stays.
  rest-Move :
      (i : ℕ) (w w' : Worker) (s s' : Shared)
      → get_elem? ws i ≡ some w
      → s'.seen ≡ s.seen
      → ((k : String)
          → total (hit k) s'.queue + waits k w' + sends k s'.main
            ≡ total (hit k) s.queue + waits k w + sends k s.main)
      → s'.fetched ≡ s.fetched
      → s'.budget ≡ s.budget
      → MovesTo i s (w', s')
  rest-Move i w w' s s' e h_seen h_pending h_fetched h_budget = rests record {
    seen = λ k. ap (has k) h_seen;
    pending = λ k. omega (arith, total-set_elem (waits k) i w' w ws e, h_pending k);
    visits = λ k. ap (total (hit k)) h_fetched;
    pages = ap length h_fetched;
    budget = h_budget;
  }

  receive-Move :
      (i : ℕ) (s : Shared) (q : List Task)
      → get_elem? ws i ≡ some idle
      → s.queue ≡ q
      → When (MovesTo i s) (receive s q)
  receive-Move i s [] e h =
      When-if (MovesTo i s) s.closed (stopped, s)
        (λ b. rest-Move i idle stopped s s e refl (λ k. refl) refl refl)
  receive-Move i s (t ∷ q) e h =
      rest-Move i idle (got t) s (record s { queue = q }) e refl (λ k. ground (arith, h)) refl refl

  -- A worker gives up the task it holds.
  drop-Move :
      (i : ℕ) (t : Task) (w : Worker) (s : Shared) (b : Bool)
      → get_elem? ws i ≡ some w
      → ((k : String) → waits k w ≡ hit k t)
      → b ≡ true
      → MovesTo i s (stopped, record s { cancelled = b })
  drop-Move i t w s b e h_waits h =
      let sum = λ (k : String). total-set_elem (waits k) i stopped w ws e in
      let key = trim_space t.url in
      drops key h (ground (arith, sum key, h_waits key, eq_refl key)) record {
        seen = λ k. refl;
        pending = λ k. omega (arith, sum k, h_waits k);
        visits = λ k. refl;
        pages = refl;
        budget = refl;
      }

  consume-Move :
      (i : ℕ) (t : Task) (s : Shared) (n : ℕ)
      → get_elem? ws i ≡ some (passed t)
      → s.budget ≡ n
      → MovesTo i s (consume t s n)
  consume-Move i t s zero e h = drop-Move i t (passed t) s true e (λ k. refl) refl
  consume-Move i t s (suc n) e h =
      let sum = λ (k : String). total-set_elem (waits k) i (fetching t) (passed t) ws e in
      let key = trim_space t.url in
      fetches key (ground (arith, sum key, eq_refl key)) (omega (arith, h)) record {
        seen = λ k. refl;
        pending = λ k. omega (arith, sum k);
        visits = λ k. omega arith;
        pages = refl;
        budget = omega (arith, h);
      }

  pub goes-Move :
      (i : ℕ) (w : Worker) (s : Shared)
      → get_elem? ws i ≡ some w
      → When (MovesTo i s) (worker_goes cfg w s)
  unfolding worker_goes
  goes-Move i idle s e = receive-Move i s s.queue e refl
  goes-Move i (got t) s e =
      rest-Move i (got t) (if s.paused then paused_with t else passed t) s s e refl
        (λ k. ground arith) refl refl
  goes-Move i (paused_with t) s e =
      rest-Move i (paused_with t) (got t) s s e refl (λ k. refl) refl refl
  goes-Move i (passed t) s e = consume-Move i t s s.budget e refl
  goes-Move i (fetching t) s e = tt
  goes-Move i (holding r) s e =
      When-if (MovesTo i s) (out_room cfg s) (idle, record s { out = s.out ++ r ∷ [] })
        (λ b.
          rest-Move i (holding r) idle s (record s { out = s.out ++ r ∷ [] }) e refl (λ k. refl)
            refl refl)
  goes-Move i stopped s e = tt

  pub quits-Move :
      (i : ℕ) (w : Worker) (s : Shared)
      → get_elem? ws i ≡ some w
      → When (MovesTo i s) (worker_quits w s)
  unfolding worker_quits
  quits-Move i idle s e =
      When-if (MovesTo i s) s.cancelled (stopped, s)
        (λ b. rest-Move i idle stopped s s e refl (λ k. refl) refl refl)
  quits-Move i (got t) s e = tt
  quits-Move i (paused_with t) s e =
      When-if (MovesTo i s) s.cancelled (stopped, s)
        (λ b. drop-Move i t (paused_with t) s s.cancelled e (λ k. refl) b)
  quits-Move i (passed t) s e = tt
  quits-Move i (fetching t) s e = tt
  quits-Move i (holding r) s e =
      When-if (MovesTo i s) s.cancelled (stopped, s)
        (λ b. rest-Move i (holding r) stopped s s e refl (λ k. refl) refl refl)
  quits-Move i stopped s e = tt

  pub answered-Move :
      (i : ℕ) (a : Err ⊎ FetchResponse) (w : Worker) (s : Shared)
      → get_elem? ws i ≡ some w
      → When (MovesTo i s) (worker_answered lib cfg a w s)
  unfolding worker_answered
  answered-Move i a idle s e = tt
  answered-Move i a (got t) s e = tt
  answered-Move i a (paused_with t) s e = tt
  answered-Move i a (passed t) s e = tt
  answered-Move i a (fetching t) s e =
      rest-Move i (fetching t) (holding (result_of lib cfg t a)) s s e refl (λ k. refl) refl refl
  answered-Move i a (holding r) s e = tt
  answered-Move i a stopped s e = tt
