-- ===== src/GoMap/Order.antt =====
-- The order of the entries of a map shows in no lookup.
use mathlib.Core.Logic.{∥∥₁_elim, ∥∥₁_map}
use mathlib.Core.List.{Perm, Permᴰ}
use mathlib.Core.HLevel.{Π_prop, ×_prop, ⊥_prop}
use mathlib.Core.Path.{subst, subst₂}
use my_operator.Base.{Option, [], ◌∷◌, ◌≡◌, refl, sym, ap, ◌∙◌, arith, Text, inl, inr}
use my_operator.Text.{equal_iff}
use my_operator.GoMap.{GoMap, lookup, keys, HasKey, IsMap}

module _ {ℓ} {V : Type ℓ} where
  HasKey-perm : (k : Text) {m m' : GoMap V} → Permᴰ m m' → HasKey k m' → HasKey k m
  HasKey-perm k Permᴰ.nil h = h
  HasKey-perm k (Permᴰ.cons {a = (i, v)} {b = (j, w)} e p) (inl h) = ground arith
  HasKey-perm k (Permᴰ.cons {a = (i, v)} {b = (j, w)} e p) (inr h) = inr (HasKey-perm k p h)
  HasKey-perm k (Permᴰ.swap {a = (i, v)} {b = (j, w)} {a' = (i', v')} {b' = (j', w')} e f) h =
      ground arith
  HasKey-perm k (Permᴰ.trans p q) h = HasKey-perm k p (HasKey-perm k q h)

  IsMap-perm : {m m' : GoMap V} → Permᴰ m m' → IsMap m → IsMap m'
  IsMap-perm Permᴰ.nil h = h
  IsMap-perm (Permᴰ.cons {a = (i, v)} {b = (j, w)} {l₁ = m} {l₂ = m'} e p) (n, h) = (
    λ k. n (HasKey-perm i p (subst (λ x. HasKey x m') (sym (ap (λ (x : Text × V). x.0) e)) k)),
    IsMap-perm p h,
  )
  IsMap-perm (Permᴰ.swap {a = (i, v)} {b = (j, w)} {a' = (i', v')} {b' = (j', w')} {l = m} e f)
        (n, h) =
      subst₂ (λ x y. IsMap (x ∷ y ∷ m)) f e
        (elim [ inl k ↦ n (inl (sym k)) | inr k ↦ h.0 k ], (λ k. n (inr k), h.1))
  IsMap-perm (Permᴰ.trans p q) h = IsMap-perm q (IsMap-perm p h)

  lookup-permᴰ : (k : Text) {m m' : GoMap V} → Permᴰ m m' → IsMap m → lookup k m ≡ lookup k m'
  unfolding lookup
  lookup-permᴰ k Permᴰ.nil h = refl
  lookup-permᴰ k (Permᴰ.cons {a = (i, v)} {b = (j, w)} e p) h = ground (arith, lookup-permᴰ k p h.1)
  lookup-permᴰ k (Permᴰ.swap {a = (i, v)} {b = (j, w)} {a' = (i', v')} {b' = (j', w')} e f) h =
      ground (arith, equal_iff i k, equal_iff j k)
  lookup-permᴰ k (Permᴰ.trans p q) h = lookup-permᴰ k p h ∙ lookup-permᴰ k q (IsMap-perm p h)

  IsMap-prop : (m : GoMap V) → IsProp (IsMap m)
  IsMap-prop [] = hlevel
  IsMap-prop ((k, v) ∷ m) = ×_prop (Π_prop (λ _. ⊥_prop)) (IsMap-prop m)

  pub IsMap-Perm : {m m' : GoMap V} → Perm m m' → IsMap m → IsMap m'
  IsMap-Perm {m' = m'} p h = ∥∥₁_elim p (IsMap-prop m') (λ q. IsMap-perm q h)

  module _ (V_set : IsSet V) where
    Option_set : IsSet (Option V)
    Option_set = hlevel V_set

    -- A lookup does not depend on the order of the entries.
    pub lookup-perm : (k : Text) {m m' : GoMap V} → Perm m m' → IsMap m → lookup k m ≡ lookup k m'
    lookup-perm k p h = ∥∥₁_elim p (Option_set _ _) (λ q. lookup-permᴰ k q h)

  keys-permᴰ : {m m' : GoMap V} → Permᴰ m m' → Permᴰ (keys m) (keys m')
  unfolding keys
  keys-permᴰ Permᴰ.nil = Permᴰ.nil
  keys-permᴰ (Permᴰ.cons {a = (i, v)} {b = (j, w)} e p) =
      Permᴰ.cons (ap (λ (x : Text × V). x.0) e) (keys-permᴰ p)
  keys-permᴰ (Permᴰ.swap {a = (i, v)} {b = (j, w)} {a' = (i', v')} {b' = (j', w')} e f) =
      Permᴰ.swap (ap (λ (x : Text × V). x.0) e) (ap (λ (x : Text × V). x.0) f)
  keys-permᴰ (Permᴰ.trans p q) = Permᴰ.trans (keys-permᴰ p) (keys-permᴰ q)

  pub keys-perm : {m m' : GoMap V} → Perm m m' → Perm (keys m) (keys m')
  keys-perm p = ∥∥₁_map p keys-permᴰ
