-- ===== src/GoMap.antt =====
-- Go's `map[string]V` as an association list. The order of the entries stands for the order in
-- which `range` visits them, which Go leaves open: what must not depend on it is proved for every
-- permutation of the entries.

pub mod Order
pub mod Keys
use my_operator.Base.{
  ℕ, Bool, true, false, Option, none, some, List, [], ◌∷◌, map, ◌≡◌, ◌≢◌, refl, arith,
  if◌then◌else◌, Text, All, Bool-cases, inl, inr, ◌⊎◌,
}
use my_operator.Text.{equal, equal_iff}

abbrev pub GoMap {ℓ} : Type ℓ → Type ℓ
GoMap V = List (Text × V)

module _ {ℓ} {V : Type ℓ} where
  -- `v, ok := m[k]`
  unfoldable pub lookup : Text → GoMap V → Option V
  lookup k [] = none
  lookup k ((j, v) ∷ m) = if equal j k then some v else lookup k m

  -- `m[k] = v`
  unfoldable pub put : Text → V → GoMap V → GoMap V
  put k v [] = (k, v) ∷ []
  put k v ((j, w) ∷ m) = if equal j k then (k, v) ∷ m else (j, w) ∷ put k v m

  abbrev or_else : V → Option V → V
  or_else zero_value none = zero_value
  or_else zero_value (some v) = v

  -- `m[k]`, with the zero value of `V` for a missing key
  unfoldable pub index : V → GoMap V → Text → V
  unfolding lookup
  index zero_value m k = or_else zero_value (lookup k m)

  -- The keys in the order in which `range` visits them.
  unfoldable pub keys : GoMap V → List Text
  keys [] = []
  keys ((k, v) ∷ m) = k ∷ keys m

  pub lookup-put :
      (k j : Text) (v : V) (m : GoMap V)
      → lookup j (put k v m) ≡ (if equal k j then some v else lookup j m)
  unfolding lookup put
  lookup-put k j v [] = refl
  lookup-put k j v ((i, w) ∷ m) =
      ground (arith, equal_iff k j, equal_iff i k, equal_iff i j, lookup-put k j v m)

  -- Two maps that no lookup tells apart.
  abbrev pub SameMap : GoMap V → GoMap V → Type ℓ
  SameMap m m' = (k : Text) → lookup k m ≡ lookup k m'

  -- No key twice, as in every Go map.
  abbrev pub HasKey : Text → GoMap V → Type 0
  HasKey k [] = ⊥
  HasKey k ((j, v) ∷ m) = (j ≡ k) ⊎ HasKey k m

  abbrev pub IsMap : GoMap V → Type 0
  IsMap [] = Unit
  IsMap ((k, v) ∷ m) = ¬ HasKey k m × IsMap m

pub equal_refl : (a : Text) → equal a a ≡ true
equal_refl a = (equal_iff a a).1 refl
