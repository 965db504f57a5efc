-- ===== src/Hub.antt =====
-- session_hub.go: named fetcher sessions that expire. A fetcher is a value of an abstract type, and
-- the nil interface is `none`. Each call of `time.Now()` is an argument.
pub mod Expiry
use go_ddgs_stealth.Common.{
  ℕ, ◌-◌, ◌*◌, String, Bool, not, Option, none, some, [], ltb, if◌then◌else◌, length,
}
use go_ddgs_stealth.Common.Int.{ℤ, or_default}
use go_ddgs_stealth.Common.Dict
use go_ddgs_stealth.Common.Dict.{Dict}
use go_ddgs_stealth.Common.Text.{is_empty}
use go_ddgs_stealth.Breaker.{Time, second}

pub record SessionEntry (F : Type 0) : Type 0 where
  pub fetcher : F
  pub last_touch : Time

pub record SessionHub (F : Type 0) : Type 0 where
  pub ttl : ℕ
  pub sessions : Dict (SessionEntry F)

pub data HubError : Type 0 where
  fetcher_is_nil name_is_required : HubError

module _ {F : Type 0} where
  unfoldable pub new_session_hub : ℤ → SessionHub F
  new_session_hub ttl = record { ttl = or_default ttl (30 * 60 * second); sessions = [] }

  -- A nil error is `none`.
  unfoldable pub put : SessionHub F → String → Option F → Time → SessionHub F × Option HubError
  put h name none now = (h, some fetcher_is_nil)
  put h name (some f) now =
      let entry : SessionEntry F = record { fetcher = f; last_touch = now } in
      if is_empty name
      then (h, some name_is_required)
      else (record h { sessions = Dict.insert name entry h.sessions }, none)

  unfoldable pub is_fresh : SessionHub F → Time → SessionEntry F → Bool
  is_fresh h now e = not (ltb h.ttl (now - e.last_touch))

  unfoldable pub evict_expired : SessionHub F → Time → SessionHub F
  unfolding is_fresh
  evict_expired h now = record h { sessions = Dict.retain (is_fresh h now) h.sessions }

  -- `now` is read by the eviction, `later` for the touch.
  unfoldable pub get : SessionHub F → String → Time → Time → SessionHub F × Option F
  unfolding evict_expired
  get h name now later =
      let h' = evict_expired h now in
      elim (Dict.lookup name h'.sessions) [
        | none ↦ (h', none)
        | some e ↦ (
          record h' { sessions = Dict.insert name (record e { last_touch = later }) h'.sessions },
          some e.fetcher,
        )
      ]

  unfoldable pub delete : SessionHub F → String → SessionHub F
  delete h name = record h { sessions = Dict.remove name h.sessions }

  unfoldable pub len : SessionHub F → Time → SessionHub F × ℕ
  unfolding evict_expired
  len h now = let h' = evict_expired h now in (h', length h'.sessions)
