-- ===== src/Fetcher.antt =====
-- fetcher.go: what a fetcher is asked and what it answers.
pub mod Http
pub mod Clean
pub mod Volume
use go_ddgs_stealth.Common.{ℕ, String}
use go_ddgs_stealth.Common.Dict.{Dict}
use go_ddgs_stealth.Errors.{Header}

pub record FetchRequest : Type 0 where
  pub method : String
  pub url : String
  pub headers : Dict String
  pub body : String

pub record FetchResponse : Type 0 where
  pub status_code : ℕ
  pub headers : Header
  pub body : String
  pub final_url : String
  pub duration : ℕ
  pub fetcher : String
