-- ===== src/PromKey/Order.antt =====
-- pkg/slo/common/promkey/promkey.go: `Format` sorts the labels, so the order in which the map is
-- visited does not show.
use mathlib.Core.List.{Perm, cons-ne-nil}
use mathlib.Core.List.Perm
use my_operator.Base.{Bool, true, List, [], ◌∷◌, ◌≡◌, refl, sym, Text}
use my_operator.GoMap.{index, IsMap, SameMap}
use my_operator.GoMap.Order.{lookup-perm, keys-perm}
use my_operator.Text.Sort.{sort-perm}
use my_operator.PromKey.{Labels, write_labels, format}

pub write_labels-SameMap :
    (m m' : Labels) (behind : Bool) (ks : List Text)
    → SameMap m m'
    → write_labels m behind ks ≡ write_labels m' behind ks
unfolding write_labels index
write_labels-SameMap m m' behind [] h = refl
write_labels-SameMap m m' behind (k ∷ ks) h = rw (h k, write_labels-SameMap m m' true ks h)

Text_set : IsSet Text
Text_set = hlevel

-- `Format` returns the same text in whatever order the entries of the label map are visited.
pub format-perm :
    (name : Text) (m m' : Labels) → Perm m m' → IsMap m → format name m ≡ format name m'
unfolding format
format-perm name [] m' p h = rw (sym (Perm.nil-eq p))
format-perm name (l ∷ ls) [] p h = absurd (cons-ne-nil l ls (Perm.eq-nil p))
format-perm name (l ∷ ls) (l' ∷ ls') p h = rw (
  write_labels-SameMap (l ∷ ls) (l' ∷ ls') _ _ (λ k. lookup-perm Text_set k p h),
  sort-perm (keys-perm p),
)
