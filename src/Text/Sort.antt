-- ===== src/Text/Sort.antt =====
-- `sort.Strings`: texts in the order of their code points, which is that of their bytes.
use mathlib.Core.Logic.{∥∥₁_elim}
use mathlib.Core.List.{Perm, Permᴰ}
use mathlib.Core.List.Permᴰ
use my_operator.Base.{
  Bool, true, false, List, [], ◌∷◌, ◌≡◌, refl, ◌∙◌, arith, ltb, if◌then◌else◌, Text, All, inl, inr,
  Bool-cases,
}

unfoldable pub text_le : Text → Text → Bool
text_le [] b = true
text_le (x ∷ a) [] = false
text_le (x ∷ a) (y ∷ b) = if ltb x y then true else if ltb y x then false else text_le a b

unfoldable pub insert : Text → List Text → List Text
unfolding text_le
insert k [] = k ∷ []
insert k (j ∷ ks) = if text_le k j then k ∷ j ∷ ks else j ∷ insert k ks

unfoldable pub sort_strings : List Text → List Text
unfolding insert
sort_strings [] = []
sort_strings (k ∷ ks) = insert k (sort_strings ks)

module _ {κ} (P : Text → Type κ) where
  All-insert : (k : Text) (ks : List Text) → P k → All P ks → All P (insert k ks)
  unfolding insert
  All-insert k [] h hs = (h, tt)
  All-insert k (j ∷ ks) h (hj, hs) = elim (Bool-cases (text_le k j)) [
    | inl first ↦ rw first (h, (hj, hs))
    | inr later ↦ rw later (hj, All-insert k ks h hs)
  ]

  pub All-sort_strings : (ks : List Text) → All P ks → All P (sort_strings ks)
  unfolding sort_strings
  All-sort_strings [] h = tt
  All-sort_strings (k ∷ ks) (h, hs) = All-insert k (sort_strings ks) h (All-sort_strings ks hs)

pub text_le-total : (a b : Text) → text_le a b ≡ false → text_le b a ≡ true
unfolding text_le
text_le-total [] b h = cc
text_le-total (x ∷ a) [] h = refl
text_le-total (x ∷ a) (y ∷ b) h = ground (arith, text_le-total a b)

pub text_le_antisymm : (a b : Text) → text_le a b ≡ true → text_le b a ≡ true → a ≡ b
unfolding text_le
text_le_antisymm [] [] h k = refl
text_le_antisymm [] (y ∷ b) h k = cc
text_le_antisymm (x ∷ a) [] h k = cc
text_le_antisymm (x ∷ a) (y ∷ b) h k = ground (arith, text_le_antisymm a b)

pub text_le_trans : (a b c : Text) → text_le a b ≡ true → text_le b c ≡ true → text_le a c ≡ true
unfolding text_le
text_le_trans [] b c h k = refl
text_le_trans (x ∷ a) [] c h k = cc
text_le_trans (x ∷ a) (y ∷ b) [] h k = cc
text_le_trans (x ∷ a) (y ∷ b) (z ∷ c) h k = ground (arith, text_le_trans a b c)

insert_comm : (a b : Text) (ks : List Text) → insert a (insert b ks) ≡ insert b (insert a ks)
unfolding insert
insert_comm a b [] = ground (arith, text_le-total a b, text_le-total b a, text_le_antisymm a b)
insert_comm a b (k ∷ ks) = ground (
  arith,
  insert_comm a b ks,
  text_le-total a b,
  text_le-total b a,
  text_le_antisymm a b,
  text_le_trans a b k,
  text_le_trans b a k,
  text_le-total a k,
  text_le-total b k,
  text_le_trans a k b,
  text_le_trans b k a,
)

sort-permᴰ : {ks js : List Text} → Permᴰ ks js → sort_strings ks ≡ sort_strings js
unfolding sort_strings
sort-permᴰ Permᴰ.nil = refl
sort-permᴰ (Permᴰ.cons e p) = rw (e, sort-permᴰ p)
sort-permᴰ (Permᴰ.swap {l} e f) = rw (e, f) (insert_comm _ _ (sort_strings l))
sort-permᴰ (Permᴰ.trans p q) = sort-permᴰ p ∙ sort-permᴰ q

-- The result does not depend on the order of the argument.
pub sort-perm : {ks js : List Text} → Perm ks js → sort_strings ks ≡ sort_strings js
sort-perm p = ∥∥₁_elim p (Texts_set _ _) sort-permᴰ
  where
    Texts_set : IsSet (List Text)
    Texts_set = hlevel

insert-permᴰ : (k : Text) (ks : List Text) → Permᴰ (insert k ks) (k ∷ ks)
unfolding insert
insert-permᴰ k [] = Permᴰ.refl (k ∷ [])
insert-permᴰ k (j ∷ ks) = elim (Bool-cases (text_le k j)) [
  | inl first ↦ rw first (Permᴰ.refl (k ∷ j ∷ ks))
  | inr later ↦ rw later (Permᴰ.trans (Permᴰ.cons refl (insert-permᴰ k ks)) (Permᴰ.swap refl refl))
]

-- The result is a rearrangement of the argument.
pub sort_strings-permᴰ : (ks : List Text) → Permᴰ (sort_strings ks) ks
unfolding sort_strings
sort_strings-permᴰ [] = Permᴰ.nil
sort_strings-permᴰ (k ∷ ks) =
    Permᴰ.trans (insert-permᴰ k (sort_strings ks)) (Permᴰ.cons refl (sort_strings-permᴰ ks))

pub sort-sort : (ks : List Text) → sort_strings (sort_strings ks) ≡ sort_strings ks
sort-sort ks = sort-permᴰ (sort_strings-permᴰ ks)
