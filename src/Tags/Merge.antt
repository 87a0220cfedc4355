-- ===== src/Tags/Merge.antt =====
-- pkg/slo/tags/tags_v4.go: what `MergeTagsV4` returns, whatever order the maps are visited in.
use mathlib.Core.List.{Perm}
use my_operator.Base.{
  true, Option, none, some, [], ◌∷◌, ◌≡◌, refl, sym, ◌∙◌, if◌then◌else◌, Text, inl, inr, Bool-cases,
}
use my_operator.GoMap.{GoMap, lookup, put, lookup-put, HasKey, IsMap, SameMap}
use my_operator.GoMap.Order.{lookup-perm, IsMap-Perm}
use my_operator.Tags.{put_nonempty, put_all, merge_tags_v4}
use my_operator.Text.{equal, equal_iff}

-- `a`, or else `b`.
abbrev pub or_else : Option Text → Option Text → Option Text
or_else (some v) b = some v
or_else none b = b

-- A tag that is set to a text other than the empty one.
abbrev pub nonempty : Option Text → Option Text
nonempty none = none
nonempty (some v) = if equal v [] then none else some v

lookup-no_key : (k : Text) (m : GoMap Text) → ¬ HasKey k m → lookup k m ≡ none
unfolding lookup
lookup-no_key k [] h = refl
lookup-no_key k ((j, v) ∷ m) h = elim (Bool-cases (equal j k)) [
  | inl e ↦ absurd (h (inl ((equal_iff j k).0 e)))
  | inr e ↦ rw e (lookup-no_key k m (λ x. h (inr x)))
]

lookup-other : (j k : Text) (m : GoMap Text) → ¬ HasKey j m → equal j k ≡ true → lookup k m ≡ none
lookup-other j k m n e = lookup-no_key k m (λ x. n (rw ((equal_iff j k).0 e) x))

lookup-put_all :
    (k : Text) (m acc : GoMap Text)
    → IsMap m
    → lookup k (put_all acc m) ≡ or_else (lookup k m) (lookup k acc)
unfolding put_all lookup
lookup-put_all k [] acc h = refl
lookup-put_all k ((j, v) ∷ m) acc (n, h) =
    lookup-put_all k m (put j v acc) h ∙ elim (Bool-cases (equal j k)) [
      | inl e ↦ rw (lookup-put j k v acc, e, lookup-other j k m n e)
      | inr e ↦ rw (lookup-put j k v acc, e)
    ]

lookup-put_nonempty :
    (k : Text) (m acc : GoMap Text)
    → IsMap m
    → lookup k (put_nonempty acc m) ≡ or_else (nonempty (lookup k m)) (lookup k acc)
unfolding put_nonempty lookup
lookup-put_nonempty k [] acc h = refl
lookup-put_nonempty k ((j, v) ∷ m) acc (n, h) =
    lookup-put_nonempty k m (if equal v [] then acc else put j v acc) h
    ∙ elim (Bool-cases (equal j k)) [
      | inl e ↦ elim (Bool-cases (equal v [])) [
        | inl empty ↦ rw (e, empty, lookup-other j k m n e)
        | inr full ↦ rw (e, full, lookup-put j k v acc, e, lookup-other j k m n e)
      ]
      | inr e ↦ elim (Bool-cases (equal v [])) [
        | inl empty ↦ rw (e, empty)
        | inr full ↦ rw (e, full, lookup-put j k v acc, e)
      ]
    ]

-- A tag of the result is the user's where the user set it, even to the empty text, and else the
-- automatic one where that is not empty; there are no other tags.
pub lookup-merge_tags_v4 :
    (user auto : GoMap Text) (k : Text)
    → IsMap user
    → IsMap auto
    → lookup k (merge_tags_v4 user auto) ≡ or_else (lookup k user) (nonempty (lookup k auto))
unfolding merge_tags_v4
lookup-merge_tags_v4 user auto k hu ha =
    lookup-put_all k user (put_nonempty [] auto) hu
    ∙ rw (lookup-put_nonempty k auto [] ha) (drop_none _ _)
  where
    drop_none : (a b : Option Text) → or_else a (or_else b (lookup k [])) ≡ or_else a b
    drop_none (some v) b = refl
    drop_none none (some v) = refl
    drop_none none none = unfold lookup in refl

-- The tags do not depend on the order in which the two maps are visited.
merge_tags_v4-perm :
    (user user' auto auto' : GoMap Text)
    → Perm user user'
    → Perm auto auto'
    → IsMap user
    → IsMap auto
    → SameMap (merge_tags_v4 user auto) (merge_tags_v4 user' auto')
merge_tags_v4-perm user user' auto auto' p q hu ha k =
    lookup-merge_tags_v4 user auto k hu ha
    ∙ rw (lookup-perm Text_set k p hu, lookup-perm Text_set k q ha)
        (sym (lookup-merge_tags_v4 user' auto' k (IsMap-Perm p hu) (IsMap-Perm q ha)))
  where
    Text_set : IsSet Text
    Text_set = hlevel
