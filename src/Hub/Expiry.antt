-- ===== src/Hub/Expiry.antt =====
-- A session is found exactly while it is fresh, and other sessions do not disturb it.
use go_ddgs_stealth.Common.{
  ◌+◌, ◌≡◌, refl, String, true, false, Option, none, some, arith, ltb, if◌then◌else◌, str_eq,
  eq_refl, ◌∙◌, Option-cases, inl, inr,
}
use go_ddgs_stealth.Common.Dict
use go_ddgs_stealth.Common.Dict.{
  Dict, Distinct, Absent, lookup-insert, lookup-retain, filter_option,
}
use go_ddgs_stealth.Common.Text.{is_empty}
use go_ddgs_stealth.Breaker.{Time}
use go_ddgs_stealth.Hub.{SessionEntry, SessionHub, put, get, is_fresh, evict_expired}

module _ {F : Type 0} where
  -- What a name stands for at a time: the fetcher whose session was touched last at most `ttl` ago.
  abbrev pub held : SessionHub F → Time → Option (SessionEntry F) → Option F
  held h now none = none
  held h now (some e) = if is_fresh h now e then some e.fetcher else none

  lookup-evict_expired :
      (h : SessionHub F) (name : String) (now : Time)
      → Distinct h.sessions
      → Dict.lookup name (evict_expired h now).sessions
        ≡ filter_option (is_fresh h now) (Dict.lookup name h.sessions)
  unfolding evict_expired
  lookup-evict_expired h name now d = lookup-retain name (is_fresh h now) h.sessions d

  -- In a hub whose names are distinct, a look-up gives the fetcher put under the name if its
  -- session was touched at most the time to live ago, and nothing otherwise.
  pub get-held :
      (h : SessionHub F) (name : String) (now later : Time)
      → Distinct h.sessions
      → (get h name now later).1 ≡ held h now (Dict.lookup name h.sessions)
  unfolding get
  get-held h name now later d = ground (arith, lookup-retain name (is_fresh h now) h.sessions d)

  get-Distinct :
      (h : SessionHub F) (name : String) (now later : Time)
      → Distinct h.sessions
      → Distinct (get h name now later).0.sessions
  unfolding get
  get-Distinct h name now later d =
      elim (Option-cases (Dict.lookup name (Dict.retain (is_fresh h now) h.sessions))) [
        | inl e ↦ rw (e, get) (Dict.retain-Distinct (is_fresh h now) h.sessions d)
        | inr (s, e) ↦
            rw (e, get)
              (Dict.insert-Distinct name _ _ (Dict.retain-Distinct (is_fresh h now) h.sessions d))
      ]

  -- A look-up that succeeds makes the session live on from that moment; every other name that is
  -- still fresh keeps its session, and the expired ones are gone.
  pub get_touches :
      (h : SessionHub F) (name other : String) (now later : Time) (e : SessionEntry F)
      → Distinct h.sessions
      → Dict.lookup name h.sessions ≡ some e
      → is_fresh h now e ≡ true
      → Dict.lookup other (get h name now later).0.sessions ≡ (
          if str_eq name other
          then some (record e { last_touch = later })
          else filter_option (is_fresh h now) (Dict.lookup other h.sessions))
  unfolding get
  get_touches h name other now later e d found fresh =
      let kept : Dict.lookup name (Dict.retain (is_fresh h now) h.sessions) ≡ some e =
        rw (lookup-retain name (is_fresh h now) h.sessions d, found, fresh) refl in
      rw (kept, get)
        (rw (lookup-insert name other _ (Dict.retain (is_fresh h now) h.sessions))
          (rw (lookup-retain other (is_fresh h now) h.sessions d) refl))

  -- A session put under a name that is not empty is what the name stands for until the time to
  -- live has passed since then, and not after.
  pub get-put :
      (h : SessionHub F) (name : String) (f : F) (now asked later : Time)
      → Distinct h.sessions
      → is_empty name ≡ false
      → (get (put h name (some f) now).0 name asked later).1
        ≡ (if ltb (now + h.ttl) asked then none else some f)
  unfolding put
  get-put h name f now asked later d ne =
      let entry : SessionEntry F = record { fetcher = f; last_touch = now } in
      let stored = Dict.insert name entry h.sessions in
      let h' = record h { sessions = stored } in
      let answer = get-held h' name asked later (Dict.insert-Distinct name entry h.sessions d) in
      let found : Dict.lookup name stored ≡ some entry =
        rw (lookup-insert name name entry h.sessions, eq_refl name) refl in
      rw ne (answer ∙ rw found (unfold is_fresh in ground arith))
