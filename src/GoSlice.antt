-- ===== src/GoSlice.antt =====
-- Slices of Go on the arrays that they share. `spare` is what `append` adds to the capacity of a new
-- array over what it needs, which the language leaves to the runtime.
use my_operator.Base.{
  ℕ, zero, suc, ◌+◌, ltb, Option, none, some, List, [], ◌∷◌, ◌++◌, if◌then◌else◌, length, take,
}

pub record Slice : Type 0 where
  pub array : ℕ
  pub len : ℕ
  pub cap : ℕ

unfoldable pub nil_slice : Slice
nil_slice = record { array = 0; len = 0; cap = 0 }

-- The arrays at their addresses; a slot that nobody has written holds the zero value.
abbrev pub Arrays {ℓ} : Type ℓ → Type ℓ
Arrays A = List (List (Option A))

module _ {ℓ} {A : Type ℓ} where
  unfoldable pub set : ℕ → A → List A → List A
  set i x [] = []
  set zero x (y ∷ ys) = x ∷ ys
  set (suc i) x (y ∷ ys) = y ∷ set i x ys

  unfoldable pub replicate : ℕ → A → List A
  replicate zero x = []
  replicate (suc n) x = x ∷ replicate n x

module _ {ℓ} {A : Type ℓ} where
  unfoldable pub array_at : ℕ → Arrays A → List (Option A)
  array_at i [] = []
  array_at zero (a ∷ rest) = a
  array_at (suc i) (a ∷ rest) = array_at i rest

  -- `append(s, x)`: in place where there is room, else on a new array.
  unfoldable pub append : (ℕ → ℕ) → Slice → A → Arrays A → Slice × Arrays A
  unfolding array_at set replicate
  append spare s x arrays =
      if ltb s.len s.cap
      then (
        record s { len = suc s.len },
        set s.array (set s.len (some x) (array_at s.array arrays)) arrays,
      )
      else (
        record { array = length arrays; len = suc s.len; cap = suc s.len + spare s.len },
        arrays
            ++ (take s.len (array_at s.array arrays) ++ (some x ∷ replicate (spare s.len) none))
              ∷ [],
      )

  unfoldable pub contents : Slice → Arrays A → List (Option A)
  unfolding array_at
  contents s arrays = take s.len (array_at s.array arrays)
