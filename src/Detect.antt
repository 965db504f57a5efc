-- ===== src/Detect.antt =====
-- detect.go: the signals of bot detection, in a response's headers and in its body.
-- A regular expression of the table is a list of atoms, matched without regard to case anywhere in
-- the body.
pub mod Order
use Prim.Native.String.{[], ◌∷◌}
use go_ddgs_stealth.Common.{
  ℕ, zero, suc, ◌+◌, ◌*◌, ◌-◌, ◌^◌, String, Bool, true, false, not, ◌&&◌, ◌||◌, Option, none, some,
  List, ltb, leb, ◌==◌, if◌then◌else◌,
}
use mathlib.Core.List
use go_ddgs_stealth.Common.Text.{
  is_empty, fold, codes, begins_with, contains, contains_fold, contains_codes, trim_space,
}
use go_ddgs_stealth.Errors.{Header, header_get}

pub data BlockSignal : Type 0 where
  signal_none cloudflare recaptcha akamai perimeter_x data_dome generic : BlockSignal

-- BlockSignal.String
unfoldable pub signal_name : BlockSignal → String
signal_name cloudflare = "cloudflare"
signal_name recaptcha = "recaptcha"
signal_name akamai = "akamai"
signal_name perimeter_x = "perimeterx"
signal_name data_dome = "datadome"
signal_name generic = "generic"
signal_name signal_none = "none"

pub record BlockInfo : Type 0 where
  pub signal : BlockSignal
  pub detector_key : String

-- BlockInfo{}
abbrev pub no_block : BlockInfo
no_block = record { signal = signal_none; detector_key = "" }

unfoldable pub is_none : BlockSignal → Bool
is_none signal_none = true
is_none _ = false

unfoldable pub is_detected : BlockInfo → Bool
unfolding is_none
is_detected b = not (is_none b.signal)

-- A code point in lower case, `\s+`, `.?`, and `\b`.
pub data Atom : Type 0 where
  char : ℕ → Atom
  spaces any_opt boundary : Atom

abbrev is_ascii_space : ℕ → Bool
is_ascii_space c = c == 32 || c == 9 || c == 10 || c == 12 || c == 13

abbrev is_word : ℕ → Bool
is_word c =
    leb b'a' c && leb c b'z' || leb b'A' c && leb c b'Z' || leb b'0' c && leb c b'9' || c == b'_'

-- Whether a word character comes next.
abbrev word_next : List ℕ → Bool
word_next List.[] = false
word_next (List.◌∷◌ c s) = is_word c

abbrev differ : Bool → Bool → Bool
differ true b = not b
differ false b = b

-- Matches a pattern at the start of a text; `before` is whether a word character precedes it, and
-- `more` whether the pattern's head is a run of white space that has begun.
unfoldable pub match_here : List Atom → Bool → Bool → List ℕ → Bool
match_here List.[] before more s = true
match_here (List.◌∷◌ (char c) p) before more List.[] = false
match_here (List.◌∷◌ (char c) p) before more (List.◌∷◌ d s) =
    c == d && match_here p (is_word d) false s
match_here (List.◌∷◌ boundary p) before more s =
    differ before (word_next s) && match_here p before false s
match_here (List.◌∷◌ any_opt p) before more List.[] = match_here p before false List.[]
match_here (List.◌∷◌ any_opt p) before more (List.◌∷◌ d s) =
    not (d == 10) && match_here p (is_word d) false s || match_here p before false (List.◌∷◌ d s)
match_here (List.◌∷◌ spaces p) before more List.[] = more && match_here p before false List.[]
match_here (List.◌∷◌ spaces p) before more (List.◌∷◌ d s) =
    is_ascii_space d && match_here (List.◌∷◌ spaces p) false true s
    || more && match_here p before false (List.◌∷◌ d s)

-- re.MatchString: a match that starts anywhere.
unfoldable pub match_from : List Atom → Bool → List ℕ → Bool
unfolding match_here
match_from p before List.[] = match_here p before false List.[]
match_from p before (List.◌∷◌ c s) =
    match_here p before false (List.◌∷◌ c s) || match_from p (is_word c) s

abbrev literal_codes : List ℕ → List Atom
literal_codes List.[] = List.[]
literal_codes (List.◌∷◌ c s) = List.◌∷◌ (char c) (literal_codes s)

abbrev lit : String → List Atom
lit s = literal_codes (codes s)

pub record BodyPattern : Type 0 where
  pub re : List Atom
  pub signal : BlockSignal
  pub key : String

infixl 60 ◌⊕◌
abbrev ◌⊕◌ : List Atom → List Atom → List Atom
a ⊕ b = List.◌++◌ a b

abbrev one : Atom → List Atom
one a = List.◌∷◌ a List.[]

abbrev entry : List Atom → BlockSignal → String → BodyPattern
entry re signal key = record { re = re; signal = signal; key = key }

infixr 55 ◌▹◌
abbrev ◌▹◌ : BodyPattern → List BodyPattern → List BodyPattern
◌▹◌ = List.◌∷◌

abbrev pub body_patterns : List BodyPattern
body_patterns =
    entry (lit "just a moment") cloudflare "cf_iuam"
    ▹ entry (lit "checking your browser") cloudflare "cf_browser_check"
    ▹ entry (lit "enable javascript and cookies") cloudflare "cf_js_required"
    ▹ entry (lit "cloudflare" ⊕ one spaces ⊕ lit "ray" ⊕ one spaces ⊕ lit "id") cloudflare
        "cf_ray_id_body"
    ▹ entry (lit "__cf_bm") cloudflare "cf_bm_cookie"
    ▹ entry (lit "www.google.com/recaptcha") recaptcha "recaptcha"
    ▹ entry (lit "hcaptcha.com") recaptcha "hcaptcha"
    ▹ entry (lit "g-recaptcha") recaptcha "g_recaptcha"
    ▹ entry (lit "ak_bmsc") akamai "akamai_bmsc"
    ▹ entry (lit "_abck") akamai "akamai_abck"
    ▹ entry (lit "perimeterx") perimeter_x "perimeterx"
    ▹ entry (lit "px_captcha") perimeter_x "px_captcha"
    ▹ entry (lit "_pxde") perimeter_x "px_de"
    ▹ entry (lit "human.security") perimeter_x "human_security"
    ▹ entry (lit "datadome.co") data_dome "datadome"
    ▹ entry (lit "__dd_s") data_dome "datadome_session"
    ▹ entry (lit "access denied") generic "access_denied"
    ▹ entry (lit "automated traffic") generic "automated_traffic"
    ▹ entry (lit "verify you are human") generic "verify_human"
    ▹ entry (lit "rate" ⊕ one any_opt ⊕ lit "limit") generic "rate_limit"
    ▹ entry (lit "too many requests") generic "too_many_requests"
    ▹ entry (one boundary ⊕ lit "captcha" ⊕ one boundary) generic "captcha"
    ▹ entry (lit "unusual traffic") generic "unusual_traffic"
    ▹ entry (lit "suspicious activity") generic "suspicious_activity"
    ▹ entry (lit "please complete the security check") generic "security_check"
    ▹ List.[]

abbrev block : BlockSignal → String → BlockInfo
block signal key = record { signal = signal; detector_key = key }

unfoldable pub detect_by_headers : ℕ → Header → BlockInfo
detect_by_headers status h =
    if not (is_empty (header_get "Cf-Mitigated" h))
    then block cloudflare "cf_mitigated"
    else if not (is_empty (header_get "Cf-Ray" h)) && (status == 403 || status == 503)
    then block cloudflare "cf_ray"
    else if contains (header_get "Server" h) "AkamaiGHost"
    then block akamai "akamai_server"
    else if not (is_empty (header_get "X-Check-Cacheable" h)) && status == 403
    then block akamai "akamai_403"
    else if contains_fold (header_get "X-Datadome" h) "blocked"
    then block data_dome "datadome_header"
    else if not (is_empty (header_get "X-Px-Client-Uuid" h))
    then block perimeter_x "px_header"
    else if status == 429
    then block generic "http_429"
    else no_block

-- The loop of `detectByBody`: the first pattern of the table that matches.
unfoldable pub first_match : List BodyPattern → List ℕ → BlockInfo
first_match List.[] s = no_block
first_match (List.◌∷◌ bp bps) s =
    let rest = first_match bps s in
    if match_from bp.re false s then block bp.signal bp.key else rest

unfoldable pub detect_by_body : String → BlockInfo
unfolding first_match match_from
detect_by_body body = first_match body_patterns (fold body)

unfoldable pub detect_block_signal : ℕ → Header → String → BlockInfo
unfolding is_detected
detect_block_signal status h body =
    let info = detect_by_headers status h in
    let by_body = detect_by_body body in if is_detected info then info else by_body

-- The integer that `fmt.Sscanf(v, "%d", …)` reads from the start of a text, if it is positive.
unfoldable pub leading_digits : ℕ → List ℕ → ℕ
leading_digits n List.[] = n
leading_digits n (List.◌∷◌ c s) =
    let rest = leading_digits (n * 10 + (c - b'0')) s in
    if leb b'0' c && leb c b'9' then rest else n

abbrev unsign : List ℕ → List ℕ
unsign List.[] = List.[]
unsign (List.◌∷◌ c s) = if c == b'+' then s else List.◌∷◌ c s

-- RetryAfterSeconds of the value of the header. `date` is the rounded number of seconds until an
-- HTTP date, 0 where the text is none or the date has passed.
unfoldable pub retry_after_seconds : (date : String → ℕ) → String → ℕ
unfolding leading_digits
retry_after_seconds date value =
    let v = trim_space value in
    let secs = leading_digits 0 (unsign (codes v)) in
    if is_empty v then 0 else if ltb 0 secs && ltb secs (2 ^ 63) then secs else date v
