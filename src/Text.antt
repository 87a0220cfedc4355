-- ===== src/Text.antt =====
-- What the program uses of Go's package `strings`, over code points.

pub mod Lines
pub mod Sort
pub mod Trimmed
pub mod Fields
pub mod Scan
pub mod Distinct
pub mod Trim
pub mod Decimal
use my_operator.Base.{
  ℕ, suc, ◌+◌, ◌-◌, map, Bool, true, false, ◌&&◌, ◌||◌, Option, none, some, List, [], ◌∷◌, ◌++◌,
  ◌≡◌, ◌≢◌, ◌↔◌, arith, leb, ◌==◌, if◌then◌else◌, Text, length, take, drop,
}

unfoldable pub equal : Text → Text → Bool
equal (c ∷ s) (d ∷ t) = c == d && equal s t
equal [] [] = true
equal _ _ = false

pub equal_iff : (a b : Text) → (equal a b ≡ true) ↔ (a ≡ b)
unfolding equal
equal_iff (c ∷ s) (d ∷ t) = ground (arith, equal_iff s t)
equal_iff _ _ = ground arith

pub equal-ne : (a b : Text) → a ≢ b → equal a b ≡ false
equal-ne a b h = ground (arith, equal_iff a b)

pub ne_of_equal : (a b : Text) → equal a b ≡ false → a ≢ b
ne_of_equal a b e h = ground (arith, equal_iff a b)

-- `unicode.IsSpace`: the code points with the property White_Space.
unfoldable pub is_space : ℕ → Bool
is_space c =
    (leb 0x09 c && leb c 0x0d)
    || c == 0x20
    || c == 0x85
    || c == 0xa0
    || c == 0x1680
    || (leb 0x2000 c && leb c 0x200a)
    || c == 0x2028
    || c == 0x2029
    || c == 0x202f
    || c == 0x205f
    || c == 0x3000

unfoldable pub trim_left : Text → Text
trim_left [] = []
trim_left (c ∷ s) = let rest = trim_left s in if is_space c then rest else c ∷ s

-- Drops the spaces behind the last other code point.
unfoldable pub keep_or_drop : ℕ → Text → Text
keep_or_drop c [] = if is_space c then [] else c ∷ []
keep_or_drop c (d ∷ t) = c ∷ d ∷ t

unfoldable pub trim_right : Text → Text
unfolding keep_or_drop
trim_right [] = []
trim_right (c ∷ s) = keep_or_drop c (trim_right s)

-- `strings.TrimSpace`
unfoldable pub trim_space : Text → Text
unfolding trim_left trim_right is_space
trim_space s = trim_right (trim_left s)

-- `strings.IndexByte`
unfoldable pub index_byte : Text → ℕ → Option ℕ
index_byte [] b = none
index_byte (c ∷ s) b =
    if c == b then some 0 else elim (index_byte s b) [ none ↦ none | some i ↦ some (suc i) ]

-- `strings.HasPrefix`
unfoldable pub has_prefix : Text → Text → Bool
has_prefix s [] = true
has_prefix [] (p ∷ ps) = false
has_prefix (c ∷ s) (p ∷ ps) = c == p && has_prefix s ps

-- `strings.HasSuffix`
unfoldable pub has_suffix : Text → Text → Bool
unfolding equal
has_suffix s p = leb (length p) (length s) && equal (drop (length s - length p) s) p

-- `s[lo:hi]`, which panics unless `lo <= hi` and `hi <= len(s)`
unfoldable pub slice : Text → ℕ → ℕ → Option Text
slice s lo hi = if leb lo hi && leb hi (length s) then some (take (hi - lo) (drop lo s)) else none

-- `strings.Fields`: the parts between runs of spaces; `cur` is the part that is being read.
flush : Text → List Text → List Text
flush [] parts = parts
flush (c ∷ cs) parts = (c ∷ cs) ∷ parts

fields_onto : Text → Text → List Text
unfolding flush
fields_onto cur [] = flush cur []
fields_onto cur (c ∷ s) = elim (is_space c) [
  | true ↦ flush cur (fields_onto [] s)
  | false ↦ fields_onto (cur ++ c ∷ []) s
]

unfoldable pub fields : Text → List Text
unfolding fields_onto is_space
fields s = fields_onto [] s

-- `unicode.ToLower`, as far as its result is ASCII: two other code points have an ASCII lower case.
-- The rest of the code points stay, which no comparison with an ASCII text can tell.
unfoldable pub to_lower_rune : ℕ → ℕ
to_lower_rune c =
    if leb b'A' c && leb c b'Z'
    then c + 32
    else if c == 0x130
    then b'i'
    else if c == 0x212a
    then b'k'
    else c

-- `strings.ToLower`
unfoldable pub to_lower : Text → Text
unfolding to_lower_rune
to_lower s = map to_lower_rune s

-- `strings.Contains`
unfoldable pub contains : Text → Text → Bool
unfolding has_prefix
contains [] p = has_prefix [] p
contains (c ∷ s) p = has_prefix (c ∷ s) p || contains s p
