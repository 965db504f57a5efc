-- ===== src/Spider/Counted.antt =====
-- spider.go, Run: what the count of the tasks in flight tells, and that the steps of a worker keep it.
use go_ddgs_stealth.Common.{
  ℕ, zero, suc, ◌≤◌, ◌≡◌, refl, ap, sym, ◌∙◌, Bool, true, false, inl, inr, some, List, [], ◌∷◌,
  arith, get_elem?, set_elem, length, total, total-set_elem, Bool-cases,
}
use go_ddgs_stealth.Spider.Crawl.{
  Worker, idle, got, paused_with, passed, fetching, holding, stopped, Main, seeding, seed_send,
  awaiting_none, receiving, handling, link_send, returned, Shared, all_stopped,
}
use go_ddgs_stealth.Spider.Accounts.{busy, gone, unfinished, due, Steady}

abbrev pub Phase : Main → Shared → List Worker → Type 0
Phase (seeding us) s ws = s.closed ≡ false
Phase (seed_send t us) s ws = s.closed ≡ false
Phase awaiting_none s ws = (unfinished s ws ≡ 0) × (s.seeded ≡ 0)
Phase receiving s ws = s.closed ≡ false
Phase (handling d us) s ws = s.closed ≡ false
Phase (link_send t d us) s ws = s.closed ≡ false
Phase (returned false) s ws = (s.cancelled ≡ true) × (unfinished s ws ≡ 0)
Phase (returned true) s ws = s.cancelled ≡ true

-- The count is at least what is unfinished, and exact until the crawl is cancelled; until then, no
-- worker has stopped while the queue is open.
pub record IsCounted (m : Main) (s : Shared) (ws : List Worker) : Type 0 where
  pub most : unfinished s ws ≤ due m s
  pub all : s.cancelled ≡ false → unfinished s ws ≡ due m s
  pub working : s.cancelled ≡ false → s.closed ≡ false → total gone ws ≡ 0
  pub phase : Phase m s ws
  pub some_worker : 1 ≤ length ws

length-set_elem : (i : ℕ) (w : Worker) (ws : List Worker) → length (set_elem i w ws) ≡ length ws
length-set_elem i w [] = refl
length-set_elem zero w (x ∷ ws) = refl
length-set_elem (suc i) w (x ∷ ws) = ap suc (length-set_elem i w ws)

module _ (i : ℕ) (w w' : Worker) (s s' : Shared) (ws : List Worker) (at_i : get_elem? ws i ≡ some w)
    (k : Steady w s w' s') where
  unfinished-le : unfinished s' (set_elem i w' ws) ≤ unfinished s ws
  unfinished-le = omega (arith, k.fewer, total-set_elem busy i w' w ws at_i)

  due-Steady : (m : Main) → due m s' ≡ due m s
  due-Steady (seeding us) = k.counts.0
  due-Steady (seed_send t us) = k.counts.0
  due-Steady awaiting_none = k.counts.0
  due-Steady receiving = k.counts.1
  due-Steady (handling d us) = k.counts.1
  due-Steady (link_send t d us) = k.counts.1
  due-Steady (returned failed) = k.counts.1

  pub still_cancelled : s.cancelled ≡ true → s'.cancelled ≡ true
  still_cancelled h = elim (Bool-cases s'.cancelled) [
    | inl e ↦ e
    | inr e ↦ absurd (ground (arith, k.cancels e))
  ]

  Steady-Phase : (m : Main) → Phase m s ws → Phase m s' (set_elem i w' ws)
  Steady-Phase (seeding us) h = k.closed ∙ h
  Steady-Phase (seed_send t us) h = k.closed ∙ h
  Steady-Phase awaiting_none h = (omega (arith, unfinished-le, h.0), k.counts.0 ∙ h.1)
  Steady-Phase receiving h = k.closed ∙ h
  Steady-Phase (handling d us) h = k.closed ∙ h
  Steady-Phase (link_send t d us) h = k.closed ∙ h
  Steady-Phase (returned false) h = (still_cancelled h.0, omega (arith, unfinished-le, h.1))
  Steady-Phase (returned true) h = still_cancelled h

  pub Steady-IsCounted : (m : Main) → IsCounted m s ws → IsCounted m s' (set_elem i w' ws)
  Steady-IsCounted m h = record {
    most = omega (arith, unfinished-le, h.most, due-Steady m);
    all = λ c.
        omega
          (arith, k.same c, h.all (k.cancels c), due-Steady m, total-set_elem busy i w' w ws at_i);
    working = λ c d.
        let opened : s.closed ≡ false = sym k.closed ∙ d in
        omega (
          arith,
          k.works c opened,
          h.working (k.cancels c) opened,
          total-set_elem gone i w' w ws at_i,
        );
    phase = Steady-Phase m h.phase;
    some_worker = omega (arith, length-set_elem i w' ws, h.some_worker);
  }

pub gone_all : (ws : List Worker) → all_stopped ws ≡ true → total gone ws ≡ length ws
gone_all [] e = refl
gone_all (stopped ∷ ws) e = ground (arith, gone_all ws e)
gone_all (idle ∷ ws) e = cc
gone_all (got t ∷ ws) e = cc
gone_all (paused_with t ∷ ws) e = cc
gone_all (passed t ∷ ws) e = cc
gone_all (fetching t ∷ ws) e = cc
gone_all (holding r ∷ ws) e = cc

-- A cancellation and a pause keep the count.
module _ (s : Shared) (ws : List Worker) (b p : Bool) (e : s.cancelled ≡ true → b ≡ true) where
  abbrev flagged : Shared
  flagged = record s { cancelled = b; paused = p }

  due-flagged : (m : Main) → due m flagged ≡ due m s
  due-flagged (seeding us) = refl
  due-flagged (seed_send t us) = refl
  due-flagged awaiting_none = refl
  due-flagged receiving = refl
  due-flagged (handling d us) = refl
  due-flagged (link_send t d us) = refl
  due-flagged (returned failed) = refl

  flagged-Phase : (m : Main) → Phase m s ws → Phase m flagged ws
  flagged-Phase (seeding us) h = h
  flagged-Phase (seed_send t us) h = h
  flagged-Phase awaiting_none h = h
  flagged-Phase receiving h = h
  flagged-Phase (handling d us) h = h
  flagged-Phase (link_send t d us) h = h
  flagged-Phase (returned false) h = (e h.0, h.1)
  flagged-Phase (returned true) h = e h

  pub flags-IsCounted : (m : Main) → IsCounted m s ws → IsCounted m flagged ws
  flags-IsCounted m h =
      let before : b ≡ false → s.cancelled ≡ false = λ x. elim (Bool-cases s.cancelled) [
        | inl y ↦ absurd (ground (arith, e y, x))
        | inr y ↦ y
      ] in
      record {
        most = omega (arith, h.most, due-flagged m);
        all = λ x. omega (arith, h.all (before x), due-flagged m);
        working = λ x o. h.working (before x) o;
        phase = flagged-Phase m h.phase;
        some_worker = h.some_worker;
      }
