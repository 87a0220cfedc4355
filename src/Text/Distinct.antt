-- ===== src/Text/Distinct.antt =====
-- Lists of texts with no repetition.
use my_operator.Base.{Bool, true, false, not, ◌&&◌, ◌||◌, List, [], ◌∷◌, ◌≡◌, refl, arith, Text}
use my_operator.Text.{equal, equal_iff}
use my_operator.Text.Sort.{insert, sort_strings}

-- Membership of a key, as a test.
unfoldable pub contains : Text → List Text → Bool
contains j [] = false
contains j (k ∷ ks) = equal k j || contains j ks

pub contains-insert :
    (j k : Text) (ks : List Text) → contains j (insert k ks) ≡ (equal k j || contains j ks)
unfolding contains insert
contains-insert j k [] = refl
contains-insert j k (i ∷ ks) = ground (arith, contains-insert j k ks)

pub contains-sort_strings :
    (j : Text) (ks : List Text) → contains j (sort_strings ks) ≡ contains j ks
unfolding contains sort_strings
contains-sort_strings j [] = refl
contains-sort_strings j (k ∷ ks) =
    rw (contains-insert j k (sort_strings ks), contains-sort_strings j ks)

unfoldable pub distinct : List Text → Bool
unfolding contains
distinct [] = true
distinct (k ∷ ks) = not (contains k ks) && distinct ks

distinct-insert :
    (k : Text) (ks : List Text) → distinct (insert k ks) ≡ (not (contains k ks) && distinct ks)
unfolding distinct insert
distinct-insert k [] = refl
distinct-insert k (j ∷ ks) =
    ground (arith, distinct-insert k ks, contains-insert j k ks, equal_iff k j, equal_iff j k)

pub distinct-sort_strings : (ks : List Text) → distinct (sort_strings ks) ≡ distinct ks
unfolding distinct sort_strings
distinct-sort_strings [] = refl
distinct-sort_strings (k ∷ ks) = ground (
  arith,
  distinct-insert k (sort_strings ks),
  distinct-sort_strings ks,
  contains-sort_strings k ks,
)
