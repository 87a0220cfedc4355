-- ===== src/PromKey/Stored.antt =====
-- pkg/slo/common/promkey/promkey.go: the map that `parseLabels` fills.
use my_operator.Base.{
  true, false, ◌||◌, none, some, List, [], ◌∷◌, ◌++◌, append-nil, append_assoc, ◌≡◌, refl, sym, ◌∙◌,
  arith, if◌then◌else◌, Text, All, inl, inr, Bool-cases,
}
use my_operator.GoMap.{lookup, put, index, keys, lookup-put, SameMap}
use my_operator.Text.{equal, equal_iff}
use my_operator.Text.Sort.{sort_strings}
use my_operator.PromKey.{Labels}
use my_operator.PromKey.Loop.{stored}
use my_operator.GoMap.{HasKey, IsMap}
use my_operator.Text.Distinct.{contains, contains-sort_strings, distinct, distinct-sort_strings}

lookup-stored :
    (j : Text) (labels : Labels) (ks : List Text) (acc : Labels)
    → lookup j (stored labels acc ks)
      ≡ (if contains j ks then some (index [] labels j) else lookup j acc)
unfolding stored contains
lookup-stored j labels [] acc = refl
lookup-stored j labels (k ∷ ks) acc = ground (
  arith,
  lookup-stored j labels ks (put k (index [] labels k) acc),
  lookup-put k j (index [] labels k) acc,
  equal_iff k j,
)

lookup-keys :
    (j : Text) (labels : Labels)
    → (if contains j (keys labels) then some (index [] labels j) else none) ≡ lookup j labels
unfolding contains keys index
lookup-keys j [] = refl
lookup-keys j ((k, v) ∷ labels) = ground (arith, lookup-keys j labels)

pub stored-SameMap :
    (labels : Labels) → SameMap (stored labels [] (sort_strings (keys labels))) labels
stored-SameMap labels j =
    lookup-stored j labels (sort_strings (keys labels)) []
    ∙ rw contains-sort_strings (unfold lookup in lookup-keys j labels)

-- A key that is not there is put at the end.
keys-put_new :
    (k : Text) (v : Text) (m : Labels)
    → contains k (keys m) ≡ false
    → keys (put k v m) ≡ keys m ++ k ∷ []
unfolding keys put contains
keys-put_new k v [] h = refl
keys-put_new k v ((j, w) ∷ m) h = ground (arith, keys-put_new k v m)

contains-append :
    (k : Text) (ks js : List Text) → contains k (ks ++ js) ≡ (contains k ks || contains k js)
unfolding contains
contains-append k [] js = refl
contains-append k (i ∷ ks) js = ground (arith, contains-append k ks js)

-- No key of `ks` is among `js`.
abbrev Apart : List Text → List Text → Type 0
Apart js = All (λ k. contains k js ≡ false)

Apart-concat :
    (k : Text) (js ks : List Text) → Apart js ks → contains k ks ≡ false → Apart (js ++ k ∷ []) ks
unfolding contains
Apart-concat k js [] h n = tt
Apart-concat k js (i ∷ ks) h n = (
  ground (arith, contains-append i js (k ∷ []), equal_iff i k, equal_iff k i),
  Apart-concat k js ks h.1 (ground arith),
)

keys-stored :
    (m : Labels) (ks : List Text) (acc : Labels)
    → distinct ks ≡ true
    → Apart (keys acc) ks
    → keys (stored m acc ks) ≡ keys acc ++ ks
unfolding stored distinct
keys-stored m [] acc d h = sym (append-nil (keys acc))
keys-stored m (k ∷ ks) acc d h =
    let new = keys-put_new k (index [] m k) acc h.0 in
    keys-stored m ks (put k (index [] m k) acc) (ground arith)
      (rw new (Apart-concat k (keys acc) ks h.1 (ground arith)))
    ∙ rw (new, append_assoc)

HasKey-contains : (k : Text) (m : Labels) → contains k (keys m) ≡ true → HasKey k m
unfolding contains keys
HasKey-contains k [] h = cc
HasKey-contains k ((j, v) ∷ m) h = elim (Bool-cases (equal j k)) [
  | inl e ↦ inl ((equal_iff j k).0 e)
  | inr e ↦ inr (HasKey-contains k m (rw e at h))
]

IsMap-distinct : (m : Labels) → IsMap m → distinct (keys m) ≡ true
unfolding distinct keys
IsMap-distinct [] h = refl
IsMap-distinct ((k, v) ∷ m) (n, h) = elim (Bool-cases (contains k (keys m))) [
  | inl e ↦ absurd (n (HasKey-contains k m e))
  | inr e ↦ rw (e, IsMap-distinct m h)
]

Apart-nil : (ks : List Text) → Apart [] ks
unfolding contains
Apart-nil [] = tt
Apart-nil (k ∷ ks) = (refl, Apart-nil ks)

pub keys-stored_sorted :
    (m : Labels) → IsMap m → keys (stored m [] (sort_strings (keys m))) ≡ sort_strings (keys m)
keys-stored_sorted m h =
    let ks = sort_strings (keys m) in
    keys-stored m ks [] (distinct-sort_strings (keys m) ∙ IsMap-distinct m h)
      (unfold keys in Apart-nil ks)
    ∙ unfold keys in refl
