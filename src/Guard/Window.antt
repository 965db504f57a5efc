-- ===== src/Guard/Window.antt =====
-- How many requests of one address a window lets through.
use Prim.Native.Nat.{min}
use go_ddgs_stealth.Common.{
  ℕ, suc, ◌+◌, ◌-◌, ◌<◌, ◌≡◌, refl, String, true, false, List, [], ◌∷◌, arith, if◌then◌else◌,
  str_eq, leb, All, Bool-cases, inl, inr, eq_iff, ap,
}
use go_ddgs_stealth.Common.Int.{ℤ, pos, ltb_ℤ}
use go_ddgs_stealth.Common.Dict
use go_ddgs_stealth.Common.Dict.{lookup-insert}
use go_ddgs_stealth.Breaker.{Time}
use go_ddgs_stealth.Guard.{StealthAccessGuard, minute, count_of, allow, roll}

-- Requests in the order of arrival, each with its address and its time.
unfoldable pub admitted : ℤ → StealthAccessGuard → String → List (String × Time) → ℕ
admitted limit g ip [] = 0
admitted limit g ip ((from, now) ∷ rest) =
    let (g', through) = allow limit g from now in
    let more = admitted limit g' ip rest in
    if through then (if str_eq from ip then suc more else more) else more

abbrev pub asked_by : String → List (String × Time) → ℕ
asked_by ip [] = 0
asked_by ip ((from, now) ∷ rest) =
    let more = asked_by ip rest in if str_eq from ip then suc more else more

-- The request comes before the window has lasted a minute.
abbrev pub IsWithin : Time → String × Time → Type 0
IsWithin start (from, now) = now - start < minute

allow_within :
    (l : ℕ) (g : StealthAccessGuard) (ip : String) (now : Time)
    → now - g.window_start < minute
    → allow (pos (suc l)) g ip now ≡ (
      record g { counts = Dict.insert ip (count_of g ip + 1) g.counts },
      leb (count_of g ip + 1) (suc l),
    )
unfolding allow roll
allow_within l g ip now h =
    let still : leb minute (now - g.window_start) ≡ false = ground arith in
    let limited : ltb_ℤ (pos 0) (pos (suc l)) ≡ true = ground arith in rw (still, limited) refl

count_of-allow :
    (l : ℕ) (g : StealthAccessGuard) (from ip : String) (now : Time)
    → now - g.window_start < minute
    → count_of (allow (pos (suc l)) g from now).0 ip
      ≡ (if str_eq from ip then count_of g from + 1 else count_of g ip)
unfolding count_of
count_of-allow l g from ip now h =
    rw (allow_within l g from now h)
      (ground (arith, lookup-insert from ip (count_of g from + 1) g.counts))

-- Within one window of a minute, with a positive limit, an address gets through exactly as often as
-- it asks or as the limit has left it, whichever is less, whatever the other addresses do.
pub admitted_lem :
    (l : ℕ) (g : StealthAccessGuard) (ip : String) (requests : List (String × Time))
    → All (IsWithin g.window_start) requests
    → admitted (pos (suc l)) g ip requests ≡ min (asked_by ip requests) (suc l - count_of g ip)
unfolding admitted
admitted_lem l g ip [] h = omega arith
admitted_lem l g ip ((from, now) ∷ rest) (w, h) =
    let g' = record g { counts = Dict.insert from (count_of g from + 1) g.counts } in
    let ih = admitted_lem l g' ip rest h in
    let counted : count_of g' ip ≡ (if str_eq from ip then count_of g from + 1 else count_of g ip) =
      rw (allow_within l g from now w) at (count_of-allow l g from ip now w) in
    rw (allow_within l g from now w) (elim (Bool-cases (str_eq from ip)) [
      | inl same ↦
          let e : from ≡ ip = (eq_iff from ip).0 same in
          rw (same, ih, counted, same) (ground (arith, ap (count_of g) e))
      | inr other ↦ rw (other, ih, counted, other) (ground arith)
    ])
