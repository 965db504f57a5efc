-- ===== src/Common/Lists.antt =====
-- Lists measured and indexed by native numbers, under the library's names.
use Prim.Native.Nat.{ℕ, zero, suc, ◌+◌, ◌≤◌, ◌<◌}
use mathlib.Core.Path.{◌≡◌, refl}
use mathlib.Core.Bool.{Bool, true, false}
use mathlib.Core.List.{List, [], ◌∷◌, ◌++◌}
use mathlib.Core.Option.{Option, none, some}
use native.Mathlib.Omega.{arith}
use go_ddgs_stealth.Common.Tests.{if◌then◌else◌}

module _ {ℓ} {A : Type ℓ} where
  abbrev pub length : List A → ℕ
  length [] = 0
  length (x ∷ xs) = suc (length xs)

  abbrev pub get_elem? : List A → ℕ → Option A
  get_elem? [] i = none
  get_elem? (x ∷ xs) zero = some x
  get_elem? (x ∷ xs) (suc i) = get_elem? xs i

  abbrev pub take : ℕ → List A → List A
  take zero xs = []
  take (suc n) [] = []
  take (suc n) (x ∷ xs) = x ∷ take n xs

  -- The elements that a Boolean test accepts, in order.
  abbrev pub keep : (A → Bool) → List A → List A
  keep p [] = []
  keep p (x ∷ xs) = let rest = keep p xs in if p x then x ∷ rest else rest

  -- xs[i] = x
  abbrev pub set_elem : ℕ → A → List A → List A
  set_elem i x [] = []
  set_elem zero x (y ∷ xs) = x ∷ xs
  set_elem (suc i) x (y ∷ xs) = y ∷ set_elem i x xs

  -- The sum of a measure of the elements.
  abbrev pub total : (A → ℕ) → List A → ℕ
  total f [] = 0
  total f (x ∷ xs) = f x + total f xs

  pub total-set_elem :
      (f : A → ℕ) (i : ℕ) (x y : A) (xs : List A)
      → get_elem? xs i ≡ some y
      → total f (set_elem i x xs) + f y ≡ total f xs + f x
  total-set_elem f i x y [] e = cc
  total-set_elem f zero x y (z ∷ xs) e = ground arith
  total-set_elem f (suc i) x y (z ∷ xs) e = omega (arith, total-set_elem f i x y xs e)

  pub total-append : (f : A → ℕ) (xs ys : List A) → total f (xs ++ ys) ≡ total f xs + total f ys
  total-append f [] ys = omega arith
  total-append f (x ∷ xs) ys = omega (arith, total-append f xs ys)

  pub length-append : (xs ys : List A) → length (xs ++ ys) ≡ length xs + length ys
  length-append [] ys = omega arith
  length-append (x ∷ xs) ys = omega (arith, length-append xs ys)

  pub length-take-le : (n : ℕ) (xs : List A) → length (take n xs) ≤ n
  length-take-le zero xs = omega arith
  length-take-le (suc n) [] = omega arith
  length-take-le (suc n) (x ∷ xs) = omega (arith, length-take-le n xs)

  pub length-keep-le : (p : A → Bool) (xs : List A) → length (keep p xs) ≤ length xs
  length-keep-le p [] = omega arith
  length-keep-le p (x ∷ xs) = ground (arith, length-keep-le p xs)

  pub get_elem?_total : (xs : List A) (i : ℕ) → i < length xs → (x : A) × (get_elem? xs i ≡ some x)
  get_elem?_total [] i h = elim h [ ]
  get_elem?_total (x ∷ xs) zero h = (x, refl)
  get_elem?_total (x ∷ xs) (suc i) h = get_elem?_total xs i (omega arith)

abbrev pub All {ℓ κ} : {A : Type ℓ} → (A → Type κ) → List A → Type κ
All P [] = Unit
All P (x ∷ xs) = P x × All P xs

pub All-append {ℓ κ} :
    {A : Type ℓ} (P : A → Type κ) (xs ys : List A) → All P xs → All P ys → All P (xs ++ ys)
All-append P [] ys hx hy = hy
All-append P (x ∷ xs) ys hx hy = (hx.0, All-append P xs ys hx.1 hy)

-- Every index below the length of a list where `P` holds throughout gives an element with `P`.
pub All-get_elem? {ℓ κ} :
    {A : Type ℓ} (P : A → Type κ) (xs : List A) (i : ℕ) (x : A)
    → All P xs
    → get_elem? xs i ≡ some x
    → P x
All-get_elem? P [] i x h e = cc
All-get_elem? P (y ∷ xs) zero x h e = ground arith
All-get_elem? P (y ∷ xs) (suc i) x h e = All-get_elem? P xs i x h.1 e

pub All-set_elem {ℓ κ} :
    {A : Type ℓ} (P : A → Type κ) (i : ℕ) (x : A) (xs : List A)
    → P x
    → All P xs
    → All P (set_elem i x xs)
All-set_elem P i x [] p h = h
All-set_elem P zero x (y ∷ xs) p h = (p, h.1)
All-set_elem P (suc i) x (y ∷ xs) p h = (h.0, All-set_elem P i x xs p h.1)

-- `P` holds of the element, if there is one.
abbrev pub When {ℓ κ} : {A : Type ℓ} → (A → Type κ) → Option A → Type κ
When P none = Unit
When P (some x) = P x

pub When-some {ℓ κ} :
    {A : Type ℓ} (P : A → Type κ) (o : Option A) (x : A) → When P o → o ≡ some x → P x
When-some P none x h e = cc
When-some P (some y) x h e = ground arith

pub When-if {ℓ κ} :
    {A : Type ℓ} (P : A → Type κ) (b : Bool) (x : A)
    → (b ≡ true → P x)
    → When P (if b then some x else none)
When-if P true x h = h refl
When-if P false x h = tt

pub When-then {ℓ κ μ ν} :
    {A : Type ℓ} {B : Type ν} (P : A → Type κ) (Q : B → Type μ) (f : A → Option B) (o : Option A)
    → ((x : A) → P x → When Q (f x))
    → When P o
    → When Q (elim o [ none ↦ none | some x ↦ f x ])
When-then P Q f none h p = tt
When-then P Q f (some x) h p = h x p

pub When-map {ℓ κ μ} :
    {A : Type ℓ} (P : A → Type κ) (Q : A → Type μ) (o : Option A)
    → ((x : A) → P x → Q x)
    → When P o
    → When Q o
When-map P Q none h p = tt
When-map P Q (some x) h p = h x p

pub When-and {ℓ κ μ} :
    {A : Type ℓ} (P : A → Type κ) (Q : A → Type μ) (o : Option A)
    → When P o
    → When Q o
    → When (λ x. P x × Q x) o
When-and P Q none p q = tt
When-and P Q (some x) p q = (p, q)
