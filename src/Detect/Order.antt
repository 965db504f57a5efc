-- ===== src/Detect/Order.antt =====
-- Headers go before the body, and the body's patterns in the order of the table.
use go_ddgs_stealth.Common.{
  ℕ, ◌≡◌, refl, ap, ◌⊎◌, inl, inr, String, true, false, List, [], ◌∷◌, ◌++◌, arith, All, Bool-cases,
}
use go_ddgs_stealth.Common.Text.{fold}
use go_ddgs_stealth.Errors.{Header}
use go_ddgs_stealth.Detect.{
  BlockInfo, BodyPattern, body_patterns, no_block, is_detected, match_from, first_match,
  detect_by_headers, detect_by_body, detect_block_signal,
}

abbrev pub Matches : List ℕ → BodyPattern → Type 0
Matches s bp = match_from bp.re false s ≡ true

abbrev pub Misses : List ℕ → BodyPattern → Type 0
Misses s bp = match_from bp.re false s ≡ false

-- The first pattern of a table that matches a text, and what is reported for it.
pub record IsFirst (table : List BodyPattern) (s : List ℕ) (info : BlockInfo) : Type 0 where
  pub before : List BodyPattern
  pub found : BodyPattern
  pub after : List BodyPattern
  pub splits : table ≡ before ++ found ∷ after
  pub matches : Matches s found
  pub misses : All (Misses s) before
  pub reported : info ≡ record { signal = found.signal; detector_key = found.key }

module _ (bp : BodyPattern) (bps : List BodyPattern) (s : List ℕ) where
  first_match-hit :
      Matches s bp → first_match (bp ∷ bps) s ≡ record { signal = bp.signal; detector_key = bp.key }
  unfolding first_match
  first_match-hit hit = rw hit refl

  first_match-miss : Misses s bp → first_match (bp ∷ bps) s ≡ first_match bps s
  unfolding first_match
  first_match-miss miss = rw miss refl

first_match_nil : (s : List ℕ) → first_match [] s ≡ no_block
unfolding first_match
first_match_nil s = refl

first_match-IsFirst :
    (table : List BodyPattern) (s : List ℕ)
    → ((first_match table s ≡ no_block) × All (Misses s) table)
      ⊎ IsFirst table s (first_match table s)
first_match-IsFirst [] s = inl (first_match_nil s, tt)
first_match-IsFirst (bp ∷ bps) s = elim (Bool-cases (match_from bp.re false s)) [
  | inl hit ↦ inr (
      rw (first_match-hit bp bps s hit) (record {
        before = [];
        found = bp;
        after = bps;
        splits = refl;
        matches = hit;
        misses = tt;
        reported = refl;
      }))
  | inr miss ↦ rw (first_match-miss bp bps s miss) (extend miss (first_match-IsFirst bps s))
]
  where
    extend :
        Misses s bp
        → ((first_match bps s ≡ no_block) × All (Misses s) bps) ⊎ IsFirst bps s (first_match bps s)
        → ((first_match bps s ≡ no_block) × All (Misses s) (bp ∷ bps))
          ⊎ IsFirst (bp ∷ bps) s (first_match bps s)
    extend miss (inl (same, all)) = inl (same, (miss, all))
    extend miss (inr first) = inr (record {
      before = bp ∷ first.before;
      found = first.found;
      after = first.after;
      splits = ap (λ l. bp ∷ l) first.splits;
      matches = first.matches;
      misses = (miss, first.misses);
      reported = first.reported;
    })

-- The detector reports what the headers show; where they show nothing, it reports the signal and
-- key of the first pattern of the table that matches the body; and where none matches, nothing.
pub detect_block_signal_lem :
    (status : ℕ) (h : Header) (body : String)
    → ((is_detected (detect_by_headers status h) ≡ true)
        × (detect_block_signal status h body ≡ detect_by_headers status h))
      ⊎ ((is_detected (detect_by_headers status h) ≡ false)
          × (((detect_block_signal status h body ≡ no_block)
                × All (Misses (fold body)) body_patterns)
              ⊎ IsFirst body_patterns (fold body) (detect_block_signal status h body)))
detect_block_signal_lem status h body =
    elim (Bool-cases (is_detected (detect_by_headers status h))) [
      | inl shown ↦ inl (shown, unfold detect_block_signal in rw shown refl)
      | inr hidden ↦ inr (
        hidden,
        unfold detect_block_signal detect_by_body in
            rw hidden (first_match-IsFirst body_patterns (fold body)),
      )
    ]

-- A response with status 429 is a detected block, whatever its headers and body.
pub detect_429 : (h : Header) (body : String) → is_detected (detect_block_signal 429 h body) ≡ true
unfolding detect_block_signal detect_by_headers
detect_429 h body = ground arith
