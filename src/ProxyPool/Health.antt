-- ===== src/ProxyPool/Health.antt =====
-- The health of one proxy: failures, cooldown, and recovery.
use go_ddgs_stealth.Common.{
  ℕ, zero, suc, ◌+◌, ◌≤◌, ◌≡◌, refl, true, not, some, List, [], ◌∷◌, arith, get_elem?, ltb,
}
use go_ddgs_stealth.Common.Int.{pos}
use go_ddgs_stealth.Breaker.{Time}
use go_ddgs_stealth.ProxyPool.{
  ProxyEntry, ProxyPool, usable, update, succeed, fail, mark_success, mark_failed, entry_stats,
}

-- In the statistics an entry is in cooldown exactly when `Next` would not consider it.
pub entry_stats-usable :
    (p : ProxyPool) (now : Time) (e : ProxyEntry)
    → (entry_stats p now e).in_cooldown ≡ not (usable p now e)
unfolding entry_stats usable
entry_stats-usable p now e = ground arith

get_elem?-update_self :
    (i : ℕ) (f : ProxyEntry → ProxyEntry) (es : List ProxyEntry) {e : ProxyEntry}
    → get_elem? es i ≡ some e
    → get_elem? (update i f es) i ≡ some (f e)
get_elem?-update_self i f [] h = cc
get_elem?-update_self zero f (d ∷ es) h = ground arith
get_elem?-update_self (suc i) f (d ∷ es) h = get_elem?-update_self i f es h

-- The same failure reported so many times.
unfoldable pub fail_times : ℕ → ProxyPool → ℕ → Time → ProxyPool
fail_times zero p i now = p
fail_times (suc k) p i now = fail_times k (mark_failed p (some i) now) i now

unfoldable pub failed_entry : ℕ → Time → ProxyEntry → ProxyEntry
failed_entry zero now e = e
failed_entry (suc k) now e = failed_entry k now (fail now e)

failed_entry-fails :
    (k : ℕ) (now : Time) (e : ProxyEntry)
    → (failed_entry k now e).consecutive_fails ≡ e.consecutive_fails + k
unfolding failed_entry
failed_entry-fails zero now e = omega arith
failed_entry-fails (suc k) now e = omega (arith, failed_entry-fails k now (fail now e))

failed_entry-last :
    (k : ℕ) (now : Time) (e : ProxyEntry) → (failed_entry (suc k) now e).last_fail ≡ now
unfolding failed_entry
failed_entry-last zero now e = refl
failed_entry-last (suc k) now e = failed_entry-last k now (fail now e)

fail_times-entry :
    (k : ℕ) (p : ProxyPool) (i : ℕ) (now : Time) (e : ProxyEntry)
    → get_elem? p.entries i ≡ some e
    → (get_elem? (fail_times k p i now).entries i ≡ some (failed_entry k now e))
      × ((fail_times k p i now).max_fails ≡ p.max_fails)
      × ((fail_times k p i now).cooldown ≡ p.cooldown)
unfolding fail_times failed_entry mark_failed
fail_times-entry zero p i now e h = (h, refl, refl)
fail_times-entry (suc k) p i now e h =
    fail_times-entry k (mark_failed p (some i) now) i now (fail now e)
      (get_elem?-update_self i (fail now) p.entries h)

-- A proxy that failed as often in a row as the policy allows, the policy's limit k + 1 being
-- positive and its cooldown c not negative, is left out from the failure until c has passed, and is
-- considered again from then on.
pub fail_times-usable :
    (k c : ℕ) (p : ProxyPool) (i : ℕ) (now later : Time) (e : ProxyEntry)
    → p.max_fails ≡ pos (suc k)
    → p.cooldown ≡ pos c
    → now ≤ later
    → get_elem? p.entries i ≡ some e
    → let p' = fail_times (suc k) p i now in
      (e' : ProxyEntry) × (get_elem? p'.entries i ≡ some e')
      × (usable p' later e' ≡ ltb (now + c) later)
unfolding usable
fail_times-usable k c p i now later e hm hc o h =
    let (found, same_max, same_cool) = fail_times-entry (suc k) p i now e h in
    (
      failed_entry (suc k) now e,
      found,
      ground (arith, failed_entry-fails (suc k) now e, failed_entry-last k now e),
    )

-- One success makes a proxy usable at once, whatever its failures, where the limit is positive.
pub mark_success-usable :
    (k : ℕ) (p : ProxyPool) (i : ℕ) (now : Time) (e : ProxyEntry)
    → p.max_fails ≡ pos (suc k)
    → get_elem? p.entries i ≡ some e
    → let p' = mark_success p (some i) in
      (e' : ProxyEntry) × (get_elem? p'.entries i ≡ some e') × (usable p' now e' ≡ true)
unfolding usable mark_success
mark_success-usable k p i now e hm h =
    (succeed e, get_elem?-update_self i succeed p.entries h, rw hm (ground arith))
