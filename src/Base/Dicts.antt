-- ===== src/Base/Dicts.antt =====
-- Go's `map[string]V` as an association list. The list order stands for Go's arbitrary iteration
-- order; clients reason by `lookup`, which no operation here lets depend on it.
use Prim.Native.String.{String}
use mathlib.Core.Path.{◌≡◌, refl}
use mathlib.Core.Bool.{Bool}
use mathlib.Core.Option
use mathlib.Core.Option.{Option, none, some}
use mathlib.Core.List.{List, [], ◌∷◌}
use native.Mathlib.Omega.{arith}
use text.Mathlib.TextEquality.{eq_iff}
use deploypilot.Base.Tests.{◌==◌, string_tested, if◌then◌else◌, str_eq_refl}

abbrev pub Dict {ℓ} : Type ℓ → Type ℓ
Dict V = List (String × V)

-- An entry that passes a test of its key and value.
abbrev pub option_keep {ℓ} : {V : Type ℓ} → (V → Bool) → Option V → Option V
option_keep p none = none
option_keep p (some v) = if p v then some v else none

module _ {ℓ} {V : Type ℓ} where
  -- `v, ok := m[key]`
  unfoldable pub lookup : String → Dict V → Option V
  lookup key [] = none
  lookup key ((k, v) ∷ rest) = if k == key then some v else lookup key rest

  -- `m[key] = v`
  unfoldable pub insert : String → V → Dict V → Dict V
  insert key v [] = (key, v) ∷ []
  insert key v ((k, old) ∷ rest) =
      if k == key then (key, v) ∷ rest else (k, old) ∷ insert key v rest

  -- `delete(m, k)`
  unfoldable pub erase : String → Dict V → Dict V
  erase k [] = []
  erase k ((j, w) ∷ m) = if j == k then erase k m else (j, w) ∷ erase k m

  -- `for k, v := range m { if !p(v) { delete(m, k) } }`
  unfoldable pub retain : (V → Bool) → Dict V → Dict V
  unfolding erase
  retain p [] = []
  retain p ((j, w) ∷ m) = let rest = retain p m in if p w then (j, w) ∷ rest else erase j rest

  -- The values, in iteration order.
  unfoldable pub values : Dict V → List V
  values [] = []
  values ((j, w) ∷ m) = w ∷ values m

  -- `for _, v := range m { v = f(v) }`
  unfoldable pub map_values {κ} : {W : Type κ} → (V → W) → Dict V → Dict W
  map_values f [] = []
  map_values f ((j, w) ∷ m) = (j, f w) ∷ map_values f m

  pub lookup-insert :
      (key other : String) (v : V) (rest : Dict V)
      → lookup other (insert key v rest) ≡ (if key == other then some v else lookup other rest)
  unfolding lookup insert
  lookup-insert key other v [] = refl
  lookup-insert key other v ((k, old) ∷ rest) =
      ground (arith, eq_iff k key, eq_iff k other, lookup-insert key other v rest, eq_iff key other)

  pub lookup-insert_self : (k : String) (v : V) (m : Dict V) → lookup k (insert k v m) ≡ some v
  lookup-insert_self k v m = simp (lookup-insert, str_eq_refl)

  pub lookup-erase :
      (k j : String) (m : Dict V) → lookup j (erase k m) ≡ (if k == j then none else lookup j m)
  unfolding lookup erase
  lookup-erase k j [] = ground arith
  lookup-erase k j ((i, w) ∷ m) =
      ground (arith, eq_iff k j, eq_iff i k, eq_iff i j, lookup-erase k j m)

  pub lookup-erase_self : (k : String) (m : Dict V) → lookup k (erase k m) ≡ none
  lookup-erase_self k m = simp (lookup-erase, str_eq_refl)

  pub lookup-retain :
      (p : V → Bool) (j : String) (m : Dict V) → lookup j (retain p m) ≡ option_keep p (lookup j m)
  unfolding lookup retain
  lookup-retain p j [] = refl
  lookup-retain p j ((i, w) ∷ m) =
      ground (arith, eq_iff i j, lookup-erase i j (retain p m), lookup-retain p j m)

module _ {ℓ κ} {V : Type ℓ} {W : Type κ} where
  pub lookup-map_values :
      (f : V → W) (j : String) (m : Dict V) → lookup j (map_values f m) ≡ Option.map f (lookup j m)
  unfolding lookup map_values
  lookup-map_values f j [] = refl
  lookup-map_values f j ((i, w) ∷ m) = ground (arith, lookup-map_values f j m)
