-- ===== src/Common/Dict.antt =====
-- Go's `map[string]V`, as an association list that holds a key at most once when it is built by
-- `insert`. The program never depends on the order of a `range` over one of the maps modelled.
use Prim.Native.String.{String}
use mathlib.Core.Path.{◌≡◌, refl}
use mathlib.Core.Bool.{Bool, false}
use mathlib.Core.Option.{Option, none, some}
use mathlib.Core.List.{List, [], ◌∷◌}
use native.Mathlib.Omega.{arith}
use text.Mathlib.Text.{◌==◌}
use text.Mathlib.TextEquality.{eq_iff}
use go_ddgs_stealth.Common.Tests.{if◌then◌else◌}

abbrev pub Dict {ℓ} : Type ℓ → Type ℓ
Dict V = List (String × V)

module _ {ℓ} {V : Type ℓ} where
  -- delete(dict, key)
  unfoldable pub remove : String → Dict V → Dict V
  remove key [] = []
  remove key ((k, v) ∷ dict) =
      let rest = remove key dict in if k == key then rest else (k, v) ∷ rest

  -- A `range` loop that deletes the entries whose value fails a test.
  unfoldable pub retain : (V → Bool) → Dict V → Dict V
  retain p [] = []
  retain p ((k, v) ∷ dict) = let rest = retain p dict in if p v then (k, v) ∷ rest else rest

  -- dict[key], with its comma-ok form
  unfoldable pub lookup : String → Dict V → Option V
  lookup key [] = none
  lookup key ((k, v) ∷ dict) = let later = lookup key dict in if k == key then some v else later

  -- dict[key] = new
  unfoldable pub insert : String → V → Dict V → Dict V
  insert key new [] = (key, new) ∷ []
  insert key new ((k, old) ∷ dict) =
      let later = insert key new dict in if k == key then (k, new) ∷ dict else (k, old) ∷ later

  pub lookup-insert :
      (key other : String) (new : V) (dict : Dict V)
      → lookup other (insert key new dict) ≡ (if key == other then some new else lookup other dict)
  unfolding insert lookup
  lookup-insert key other new [] = refl
  lookup-insert key other new ((k, old) ∷ dict) =
      ground
        (arith, lookup-insert key other new dict, eq_iff k other, eq_iff k key, eq_iff key other)

  pub lookup-remove :
      (k j : String) (m : Dict V) → lookup j (remove k m) ≡ (if k == j then none else lookup j m)
  unfolding lookup remove
  lookup-remove k j [] = ground arith
  lookup-remove k j ((i, v) ∷ m) =
      ground (arith, lookup-remove k j m, eq_iff i k, eq_iff i j, eq_iff k j)

-- No key occurs twice, as in a Go map.
module _ {ℓ} {V : Type ℓ} where
  abbrev pub Absent : String → Dict V → Type 0
  Absent k [] = Unit
  Absent k ((j, v) ∷ m) = ((j == k) ≡ false) × Absent k m

  abbrev pub Distinct : Dict V → Type 0
  Distinct [] = Unit
  Distinct ((j, v) ∷ m) = Absent j m × Distinct m

  pub Absent-insert :
      (i k : String) (v : V) (m : Dict V) → (k == i) ≡ false → Absent i m → Absent i (insert k v m)
  unfolding insert
  Absent-insert i k v [] e h = (e, tt)
  Absent-insert i k v ((j, w) ∷ m) e h = ground (arith, Absent-insert i k v m e h.1)

  pub insert-Distinct : (k : String) (v : V) (m : Dict V) → Distinct m → Distinct (insert k v m)
  unfolding insert
  insert-Distinct k v [] h = (tt, tt)
  insert-Distinct k v ((j, w) ∷ m) h =
      ground (arith, eq_iff j k, eq_iff k j, insert-Distinct k v m h.1, Absent-insert j k v m)

  pub Absent-retain : (i : String) (p : V → Bool) (m : Dict V) → Absent i m → Absent i (retain p m)
  unfolding retain
  Absent-retain i p [] h = tt
  Absent-retain i p ((j, w) ∷ m) h = ground (arith, Absent-retain i p m h.1)

  pub retain-Distinct : (p : V → Bool) (m : Dict V) → Distinct m → Distinct (retain p m)
  unfolding retain
  retain-Distinct p [] h = tt
  retain-Distinct p ((j, w) ∷ m) h =
      ground (arith, Absent-retain j p m h.0, retain-Distinct p m h.1)

  pub lookup_of_Absent : (k : String) (m : Dict V) → Absent k m → lookup k m ≡ none
  unfolding lookup
  lookup_of_Absent k [] h = refl
  lookup_of_Absent k ((j, w) ∷ m) h = ground (arith, lookup_of_Absent k m h.1)

  abbrev pub filter_option : (V → Bool) → Option V → Option V
  filter_option p none = none
  filter_option p (some v) = if p v then some v else none

  -- A map that was filtered by a test answers as before where the value passes the test.
  pub lookup-retain :
      (k : String) (p : V → Bool) (m : Dict V)
      → Distinct m
      → lookup k (retain p m) ≡ filter_option p (lookup k m)
  unfolding lookup retain
  lookup-retain k p [] h = refl
  lookup-retain k p ((j, w) ∷ m) h =
      ground (arith, eq_iff j k, lookup-retain k p m h.1, lookup_of_Absent k m)
