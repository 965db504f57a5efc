-- ===== src/Errors.antt =====
-- errors_api.go and the sentinel errors of client.go. An `error` is a value of `Err`; a nil error is
-- `none` where a function returns one, and `nil` where a `SearchError` has no cause. `wrapped` is
-- `fmt.Errorf` with a `%w`, `opaque` any error that unwraps to nothing.
pub mod Classify
use go_ddgs_stealth.Common.{
  ℕ, zero, suc, ◌+◌, ◌/◌, ◌%◌, String, Bool, true, false, ◌||◌, Option, none, some, List, [], ◌∷◌,
  ltb, if◌then◌else◌,
}
use go_ddgs_stealth.Common.Dict
use go_ddgs_stealth.Common.Dict.{Dict}
use go_ddgs_stealth.Common.Text.{is_empty}

pub data ErrorKind : Type 0 where
  blocked rate_limited provider_unavailable parse invalid_input no_results internal : ErrorKind

-- A header maps a canonical name to the first of its values.
abbrev pub Header : Type 0
Header = Dict String

-- h.Get(name): "" where the name is absent
unfoldable pub header_get : String → Header → String
header_get name h = elim (Dict.lookup name h) [ none ↦ "" | some v ↦ v ]

pub record BlockedEvent : Type 0 where
  pub status_code : ℕ
  pub headers : Header
  pub body_snippet : String
  pub detector : String
  pub attempt : ℕ

pub data Err : Type 0 where
  err_no_vqd err_no_results err_unexpected_body err_blocked err_circuit_open : Err
  blocked_error : BlockedEvent → Err
  search_error :
      (kind : ErrorKind) (provider : String) (temporary : Bool) (cause : Err)
      (details : List (String × String))
      → Err
  wrapped : String → Err → Err
  opaque : String → Err
  nil : Err

pub record SearchError : Type 0 where
  pub kind : ErrorKind
  pub provider : String
  pub temporary : Bool
  pub cause : Err
  pub details : Dict String

abbrev pub to_err : SearchError → Err
to_err e = search_error e.kind e.provider e.temporary e.cause e.details

-- errors.Is(err, ErrBlocked); a `BlockedError` unwraps to ErrBlocked
unfoldable pub is_blocked : Err → Bool
is_blocked err_blocked = true
is_blocked (blocked_error e) = true
is_blocked (search_error k p t cause d) = is_blocked cause
is_blocked (wrapped m e) = is_blocked e
is_blocked _ = false

-- errors.Is(err, ErrNoResults)
unfoldable pub is_no_results : Err → Bool
is_no_results err_no_results = true
is_no_results (search_error k p t cause d) = is_no_results cause
is_no_results (wrapped m e) = is_no_results e
is_no_results _ = false

-- errors.Is(err, ErrNoVQD) || errors.Is(err, ErrUnexpectedBody)
unfoldable pub is_parse_failure : Err → Bool
is_parse_failure err_no_vqd = true
is_parse_failure err_unexpected_body = true
is_parse_failure (search_error k p t cause d) = is_parse_failure cause
is_parse_failure (wrapped m e) = is_parse_failure e
is_parse_failure _ = false

-- errors.As(err, &se)
unfoldable pub as_search_error : Err → Option SearchError
as_search_error (search_error k p t cause d) =
    some (record { kind = k; provider = p; temporary = t; cause = cause; details = d })
as_search_error (wrapped m e) = as_search_error e
as_search_error _ = none

-- errors.As(err, &be)
unfoldable pub as_blocked_error : Err → Option BlockedEvent
as_blocked_error (blocked_error e) = some e
as_blocked_error (search_error k p t cause d) = as_blocked_error cause
as_blocked_error (wrapped m e) = as_blocked_error e
as_blocked_error _ = none

abbrev detector_details : Option BlockedEvent → Dict String
detector_details none = []
detector_details (some e) = ("detector", e.detector) ∷ []

abbrev fill_provider : String → SearchError → SearchError
fill_provider provider se = if is_empty se.provider then record se { provider = provider } else se

abbrev of_kind : ErrorKind → String → Bool → Err → Dict String → SearchError
of_kind kind provider temporary cause details = record {
  kind = kind;
  provider = provider;
  temporary = temporary;
  cause = cause;
  details = details;
}

unfoldable pub classify : String → Err → SearchError
classify provider err = elim (as_search_error err) [
  | some se ↦ fill_provider provider se
  | none ↦
      if is_blocked err
      then of_kind blocked provider true err (detector_details (as_blocked_error err))
      else if is_no_results err
      then of_kind no_results provider false err []
      else if is_parse_failure err
      then of_kind parse provider true err []
      else of_kind provider_unavailable provider true err []
]

-- classifyError
unfoldable pub classify_error : String → Option Err → Option SearchError
unfolding classify
classify_error provider none = none
classify_error provider (some err) = some (classify provider err)
