-- ===== src/GoMap/Keys.antt =====
-- Which keys a map has.
use mathlib.Core.Path.{subst}
use my_operator.Base.{none, [], ◌∷◌, ◌≡◌, ◌≢◌, refl, sym, Text, inl, inr, ◌⊎◌, Bool-cases}
use my_operator.GoMap.{GoMap, lookup, put, HasKey, IsMap}
use my_operator.Text.{equal, equal_iff, ne_of_equal}

module _ {ℓ} {V : Type ℓ} where
  pub lookup-no_key : (k : Text) (m : GoMap V) → ¬ HasKey k m → lookup k m ≡ none
  unfolding lookup
  lookup-no_key k [] n = refl
  lookup-no_key k ((j, v) ∷ m) n = elim (Bool-cases (equal j k)) [
    | inl e ↦ absurd (n (inl ((equal_iff j k).0 e)))
    | inr e ↦ rw e (lookup-no_key k m (λ h. n (inr h)))
  ]

  pub HasKey-put : (j k : Text) (v : V) (m : GoMap V) → j ≢ k → HasKey k (put j v m) → HasKey k m
  unfolding put
  HasKey-put j k v [] ne (inl e) = ne e
  HasKey-put j k v [] ne (inr h) = h
  HasKey-put j k v ((i, w) ∷ m) ne h = elim (Bool-cases (equal i j)) [
    | inl e ↦ tail_of (inr-of j k m ne (rw e at h))
    | inr e ↦ keep i k j v m (HasKey-put j k v m ne) (rw e at h)
  ]
    where
      inr-of : (j k : Text) (m : GoMap V) → j ≢ k → (j ≡ k) ⊎ HasKey k m → HasKey k m
      inr-of j k m ne (inl e) = absurd (ne e)
      inr-of j k m ne (inr h) = h

      tail_of : HasKey k m → HasKey k ((i, w) ∷ m)
      tail_of h = inr h

      keep :
          (i k j : Text) (v : V) (m : GoMap V)
          → (HasKey k (put j v m) → HasKey k m)
          → (i ≡ k) ⊎ HasKey k (put j v m)
          → (i ≡ k) ⊎ HasKey k m
      keep i k j v m f (inl e) = inl e
      keep i k j v m f (inr h) = inr (f h)

  pub IsMap-put : (k : Text) (v : V) (m : GoMap V) → IsMap m → IsMap (put k v m)
  unfolding put
  IsMap-put k v [] h = ((λ n. n), tt)
  IsMap-put k v ((i, w) ∷ m) (n, h) = elim (Bool-cases (equal i k)) [
    | inl e ↦ rw e ((λ has. n (subst (λ j. HasKey j m) (sym ((equal_iff i k).0 e)) has)), h)
    | inr e ↦
        rw e
          ((λ has. n (HasKey-put k i v m (λ g. ne_of_equal i k e (sym g)) has)), IsMap-put k v m h)
  ]
