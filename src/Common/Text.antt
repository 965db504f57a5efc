-- ===== src/Common/Text.antt =====
-- The parts of Go's package `strings` that the program calls, over code points.
use Prim.Native.Nat.{ℕ, zero, suc, ◌+◌, ◌-◌, ◌*◌, ◌/◌, ◌%◌, ◌^◌}
use Prim.Native.String
use Prim.Native.Char.{Char, code}
use Prim.Native.String.{String, [], ◌∷◌}
use mathlib.Core.Bool.{Bool, true, false, ◌&&◌, ◌||◌}
use mathlib.Core.List.{List}
use mathlib.Core.Option
use mathlib.Core.Option.{Option, none, some}
use go_ddgs_stealth.Common.Int.{ℤ, pos, negsuc}
use go_ddgs_stealth.Common.Tests.{leb, ◌==◌, if◌then◌else◌}

-- unicode.IsSpace: the white space of Latin-1 and of the property White_Space.
abbrev is_space_code : ℕ → Bool
is_space_code c =
    leb 9 c && leb c 13
    || c == 32
    || c == 0x85
    || c == 0xa0
    || c == 0x1680
    || leb 0x2000 c && leb c 0x200a
    || c == 0x2028
    || c == 0x2029
    || c == 0x202f
    || c == 0x205f
    || c == 0x3000

unfoldable pub is_space : Char → Bool
is_space c = is_space_code (code c)

abbrev pub is_empty : String → Bool
is_empty [] = true
is_empty (c ∷ s) = false

unfoldable pub trim_left : String → String
unfolding is_space
trim_left [] = []
trim_left (c ∷ s) = let rest = trim_left s in if is_space c then rest else c ∷ s

unfoldable pub trim_right : String → String
unfolding is_space
trim_right [] = []
trim_right (c ∷ s) = let rest = trim_right s in if is_space c && is_empty rest then [] else c ∷ rest

-- strings.TrimSpace
unfoldable pub trim_space : String → String
unfolding trim_left trim_right
trim_space s = trim_right (trim_left s)

abbrev lower_code : ℕ → ℕ
lower_code c = if leb b'A' c && leb c b'Z' then c + 32 else c

-- The ASCII letters of a text that is compared without regard to case. The program folds case only
-- to compare with ASCII words; a letter beyond ASCII is left as it is.
abbrev pub fold : String → List ℕ
fold [] = List.[]
fold (c ∷ s) = List.◌∷◌ (lower_code (code c)) (fold s)

abbrev pub codes : String → List ℕ
codes [] = List.[]
codes (c ∷ s) = List.◌∷◌ (code c) (codes s)

abbrev pub begins_with : List ℕ → List ℕ → Bool
begins_with s List.[] = true
begins_with List.[] (List.◌∷◌ d t) = false
begins_with (List.◌∷◌ c s) (List.◌∷◌ d t) = c == d && begins_with s t

-- strings.Contains, over code points
abbrev pub contains_codes : List ℕ → List ℕ → Bool
contains_codes List.[] t = begins_with List.[] t
contains_codes (List.◌∷◌ c s) t = begins_with (List.◌∷◌ c s) t || contains_codes s t

-- strings.Contains
pub contains : String → String → Bool
contains s t = contains_codes (codes s) (codes t)

-- strings.Contains(strings.ToLower(s), t) for a lower-case ASCII word t, and the regular expression
-- (?i)t for a plain one
pub contains_fold : String → String → Bool
contains_fold s t = contains_codes (fold s) (fold t)

-- s[n:], by code points
abbrev pub drop : ℕ → String → String
drop zero s = s
drop (suc n) [] = []
drop (suc n) (c ∷ s) = drop n s

-- The text before the first of a character, as `strings.Split(s, sep)[0]` gives it.
pub before : ℕ → String → String
before sep [] = []
before sep (c ∷ s) = let rest = before sep s in if code c == sep then [] else c ∷ rest

abbrev is_digit : ℕ → Bool
is_digit c = leb b'0' c && leb c b'9'

-- The digits of strconv.Atoi: `none` is an error, of syntax or (past the bound) of range.
unfoldable pub digits : ℕ → ℕ → String → Option ℕ
digits bound n [] = some n
digits bound n (c ∷ s) =
    let n' = n * 10 + (code c - b'0') in
    let rest = digits bound n' s in if is_digit (code c) && leb n' bound then rest else none

abbrev some_digits : ℕ → String → Option ℕ
some_digits bound [] = none
some_digits bound (c ∷ s) = digits bound 0 (c ∷ s)

abbrev negate : ℕ → ℤ
negate zero = pos 0
negate (suc n) = negsuc n

-- strconv.Atoi on a 64-bit platform, `none` for an error.
unfoldable pub atoi : String → Option ℤ
unfolding digits
atoi [] = none
atoi (c ∷ s) =
    if code c == b'-'
    then Option.map negate (some_digits (2 ^ 63) s)
    else Option.map pos (some_digits (2 ^ 63 - 1) (if code c == b'+' then s else c ∷ s))

-- strings.ReplaceAll(s, "\n", " ")
pub unbroken : String → String
unbroken [] = []
unbroken (c ∷ s) = let rest = unbroken s in if code c == 10 then String.◌++◌ " " rest else c ∷ rest

-- s[:n], by code points
unfoldable pub take : ℕ → String → String
take zero s = []
take (suc n) [] = []
take (suc n) (c ∷ s) = c ∷ take n s

-- len(s), by code points
pub size : String → ℕ
size [] = 0
size (c ∷ s) = suc (size s)

-- The digit at a place of "0123456789".
digit_text : ℕ → String
digit_text n = take 1 (drop n "0123456789")

-- `%d` of a status code, which has three digits.
pub status_text : ℕ → String
status_text n =
    String.◌++◌ (digit_text (n / 100 % 10))
      (String.◌++◌ (digit_text (n / 10 % 10)) (digit_text (n % 10)))

-- strings.ToLower on the letters of ASCII; a letter beyond ASCII is left as it is.
unfoldable pub lower : String → String
unfolding take
lower [] = []
lower (c ∷ s) =
    let rest = lower s in
    if leb b'A' (code c) && leb (code c) b'Z'
    then String.◌++◌ (take 1 (drop (code c - b'A') "abcdefghijklmnopqrstuvwxyz")) rest
    else c ∷ rest

abbrev before_first : Char → List String → List String
before_first c List.[] = List.[]
before_first c (List.◌∷◌ w ws) = List.◌∷◌ (c ∷ w) ws

-- strings.Split(s, sep) for a separator of one character
unfoldable pub split_on : ℕ → String → List String
split_on sep [] = List.◌∷◌ [] List.[]
split_on sep (c ∷ s) =
    let rest = split_on sep s in if code c == sep then List.◌∷◌ [] rest else before_first c rest

-- strings.ToUpper, likewise
unfoldable pub upper : String → String
unfolding take
upper [] = []
upper (c ∷ s) =
    let rest = upper s in
    if leb b'a' (code c) && leb (code c) b'z'
    then String.◌++◌ (take 1 (drop (code c - b'a') "ABCDEFGHIJKLMNOPQRSTUVWXYZ")) rest
    else c ∷ rest
