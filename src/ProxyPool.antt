-- ===== src/ProxyPool.antt =====
-- proxypool.go: the pool of proxies, its rotation strategies and the health of its entries.
-- A `*ProxyEntry` is its position in `entries`, which never shrinks or moves. `rand.Intn(n)` is a
-- draw below n and panics unless n is positive; the draw is an argument. One call reads the clock
-- once here, where the source reads it for each entry. `int64` counters are unbounded.
pub mod Health
pub mod Weights
pub mod Picks
use go_ddgs_stealth.Common.{
  ℕ, zero, suc, ◌+◌, ◌*◌, ◌%◌, String, Bool, true, false, not, ◌&&◌, ◌||◌, Option, none, some, List,
  [], ◌∷◌, ◌++◌, map, ltb, leb, ◌==◌, if◌then◌else◌, length, get_elem?, str_eq,
}
use go_ddgs_stealth.Common.Int.{ℤ, pos, negsuc, ◌+ℤ◌, ◌-ℤ◌, sub_ℕ, ltb_ℤ}
use go_ddgs_stealth.Breaker.{Time, second}

pub data RotationStrategy : Type 0 where
  rotate_round_robin rotate_random rotate_weighted : RotationStrategy

pub record ProxyEntry : Type 0 where
  pub url : String
  pub weight : ℤ
  pub consecutive_fails : ℕ
  pub last_fail : Time
  pub requests : ℕ
  pub failures : ℕ

pub record ProxyStats : Type 0 where
  pub url : String
  pub requests : ℕ
  pub failures : ℕ
  pub consecutive_fails : ℕ
  pub in_cooldown : Bool

pub record ProxyPool : Type 0 where
  pub entries : List ProxyEntry
  pub strategy : RotationStrategy
  pub cooldown : ℤ
  pub max_fails : ℤ
  pub rr_index : ℕ
  pub total : ℤ

abbrev pub new_entry : String → ProxyEntry
new_entry url = record {
  url = url;
  weight = pos 1;
  consecutive_fails = 0;
  last_fail = 0;
  requests = 0;
  failures = 0;
}

-- The loop of `NewProxyPool`: `parses` is whether `url.Parse` accepts an address.
unfoldable pub add_all : (String → Bool) → List String → ProxyPool → Option ProxyPool
add_all parses [] p = some p
add_all parses (raw ∷ rest) p =
    let more =
      add_all parses rest
        (record p { entries = p.entries ++ new_entry raw ∷ []; total = p.total +ℤ pos 1 }) in
    if parses raw then more else none

unfoldable pub new_proxy_pool : (String → Bool) → List String → RotationStrategy → Option ProxyPool
unfolding add_all
new_proxy_pool parses urls strategy = add_all parses urls (record {
  entries = [];
  strategy = strategy;
  cooldown = pos (60 * second);
  max_fails = pos 3;
  rr_index = 0;
  total = pos 0;
})

unfoldable pub set_cooldown : ProxyPool → ℤ → ℤ → ProxyPool
set_cooldown p cooldown max_consec_fails = record p {
  cooldown = cooldown;
  max_fails = max_consec_fails;
}

-- The loop of `SetWeight`: the first entry with that address takes the weight; the second part is
-- the change of the total.
unfoldable pub reweigh : String → ℤ → List ProxyEntry → List ProxyEntry × ℤ
reweigh url weight [] = ([], pos 0)
reweigh url weight (e ∷ es) =
    let (es', change) = reweigh url weight es in
    if str_eq e.url url
    then (record e { weight = weight } ∷ es, weight -ℤ e.weight)
    else (e ∷ es', change)

unfoldable pub set_weight : ProxyPool → String → ℤ → ProxyPool
unfolding reweigh
set_weight p url weight =
    let (entries', change) = reweigh url weight p.entries in
    record p { entries = entries'; total = p.total +ℤ change }

unfoldable pub usable : ProxyPool → Time → ProxyEntry → Bool
usable p now e =
    ltb_ℤ (pos e.consecutive_fails) p.max_fails || ltb_ℤ p.cooldown (sub_ℕ now e.last_fail)

-- The entries from a position on that are not in cooldown, with their positions.
unfoldable pub available_from : ProxyPool → Time → ℕ → List ProxyEntry → List (ℕ × ProxyEntry)
unfolding usable
available_from p now i [] = []
available_from p now i (e ∷ es) =
    let rest = available_from p now (suc i) es in if usable p now e then (i, e) ∷ rest else rest

unfoldable pub available : ProxyPool → Time → List (ℕ × ProxyEntry)
unfolding available_from
available p now = available_from p now 0 p.entries

-- What `Next` gives: a proxy, nil, or a panic of `rand.Intn`.
pub data Pick : Type 0 where
  picked : ℕ × ProxyEntry → Pick
  nothing panics : Pick

abbrev pub at_index : List (ℕ × ProxyEntry) → ℕ → Pick
at_index avail i = elim (get_elem? avail i) [ some e ↦ picked e | none ↦ panics ]

abbrev pub sum_weights : List (ℕ × ProxyEntry) → ℤ
sum_weights [] = pos 0
sum_weights ((i, e) ∷ es) = e.weight +ℤ sum_weights es

-- The second loop of `weightedPick`. The slice is not empty, so it has a last entry.
unfoldable pub walk : ℤ → ℕ × ProxyEntry → List (ℕ × ProxyEntry) → ℕ × ProxyEntry
walk n e [] = e
walk n (i, e) (f ∷ rest) =
    let n' = n -ℤ e.weight in if ltb_ℤ n' (pos 0) then (i, e) else walk n' f rest

abbrev pub walk_all : ℤ → List (ℕ × ProxyEntry) → Pick
walk_all n [] = panics
walk_all n (e ∷ es) = picked (walk n e es)

unfoldable pub weighted_pick : List (ℕ × ProxyEntry) → ℕ → Pick
weighted_pick entries draw = elim (sum_weights entries) [
  | negsuc n ↦ panics
  | pos total ↦
      if total == 0
      then at_index entries (draw % length entries)
      else walk_all (pos (draw % total)) entries
]

abbrev pub by_strategy : ProxyPool → List (ℕ × ProxyEntry) → ℕ → RotationStrategy → Pick × ProxyPool
by_strategy p avail draw rotate_random = (at_index avail (draw % length avail), p)
by_strategy p avail draw rotate_weighted = (weighted_pick avail draw, p)
by_strategy p avail draw rotate_round_robin =
    (at_index avail (p.rr_index % length avail), record p { rr_index = p.rr_index + 1 })

unfoldable pub next : ProxyPool → Time → ℕ → Pick × ProxyPool
unfolding available weighted_pick walk
next p now draw =
    let avail = available p now in
    if length avail == 0 then (nothing, p) else by_strategy p avail draw p.strategy

-- Replaces the entry at a position.
abbrev pub update : ℕ → (ProxyEntry → ProxyEntry) → List ProxyEntry → List ProxyEntry
update i f [] = []
update zero f (e ∷ es) = f e ∷ es
update (suc i) f (e ∷ es) = e ∷ update i f es

abbrev pub succeed : ProxyEntry → ProxyEntry
succeed e = record e { consecutive_fails = 0; requests = e.requests + 1 }

abbrev pub fail : Time → ProxyEntry → ProxyEntry
fail now e = record e {
  consecutive_fails = e.consecutive_fails + 1;
  last_fail = now;
  requests = e.requests + 1;
  failures = e.failures + 1;
}

unfoldable pub mark_success : ProxyPool → Option ℕ → ProxyPool
mark_success p none = p
mark_success p (some i) = record p { entries = update i succeed p.entries }

unfoldable pub mark_failed : ProxyPool → Option ℕ → Time → ProxyPool
mark_failed p none now = p
mark_failed p (some i) now = record p { entries = update i (fail now) p.entries }

unfoldable pub entry_stats : ProxyPool → Time → ProxyEntry → ProxyStats
entry_stats p now e = record {
  url = e.url;
  requests = e.requests;
  failures = e.failures;
  consecutive_fails = e.consecutive_fails;
  in_cooldown =
      not (ltb_ℤ (pos e.consecutive_fails) p.max_fails)
      && not (ltb_ℤ p.cooldown (sub_ℕ now e.last_fail));
}

unfoldable pub stats : ProxyPool → Time → List ProxyStats
unfolding entry_stats
stats p now = map (entry_stats p now) p.entries

unfoldable pub len : ProxyPool → ℕ
len p = length p.entries
