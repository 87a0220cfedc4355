-- ===== src/PromKey/Token.antt =====
-- pkg/slo/common/promkey/promkey.go: `Parse` on a name and braces.
use my_operator.Base.{
  ℕ, ◌+◌, ◌-◌, true, false, some, [], ◌∷◌, ◌++◌, append_assoc, ◌≡◌, ◌≢◌, refl, sym, arith, Text,
  All, length, length-append, ok, ◌>>=◌,
}
use my_operator.Text.{equal, is_space, trim_space, has_suffix, slice}
use my_operator.Text.Trim.{
  NoSpace, trim_space-concat, trim_space-NoSpace, index_byte-none, index_byte-append,
  has_suffix-append, slice-append,
}
use my_operator.PromKey.{parse_labels, parse}
use my_operator.PromKey.Loop.{IsMetricName}

-- A token with labels: `body` is what stands in the braces.
abbrev pub braces : Text → Text → Text
braces name body = name ++ (b'{' ∷ (body ++ b'}' ∷ []))

braces-concat : (name body : Text) → braces name body ≡ (name ++ b'{' ∷ body) ++ b'}' ∷ []
braces-concat name body = sym (append_assoc name (b'{' ∷ body) (b'}' ∷ []))

trim_space-braces :
    (name body : Text) → IsMetricName name → trim_space (braces name body) ≡ braces name body
trim_space-braces [] body h =
    trim_space-concat b'{' body b'}' (unfold is_space in refl) (unfold is_space in refl)
trim_space-braces (c ∷ name) body h =
    rw (braces-concat name body)
      (trim_space-concat c (name ++ b'{' ∷ body) b'}' h.0.0 (unfold is_space in refl))

equal-cons : (c : ℕ) (s : Text) → equal (c ∷ s) [] ≡ false
unfolding equal
equal-cons c s = refl

equal-braces : (name body : Text) → equal (braces name body) [] ≡ false
unfolding equal
equal-braces [] body = refl
equal-braces (c ∷ name) body = refl

IsMetricName-NoSpace : (name : Text) → IsMetricName name → NoSpace name
IsMetricName-NoSpace [] h = tt
IsMetricName-NoSpace (c ∷ name) h = (h.0.0, IsMetricName-NoSpace name h.1)

pub IsMetricName-ne : (name : Text) → IsMetricName name → All (λ c. c ≢ b'{') name
IsMetricName-ne [] h = tt
IsMetricName-ne (c ∷ name) h = (h.0.1, IsMetricName-ne name h.1)

has_suffix-braces : (name body : Text) → has_suffix (braces name body) (b'}' ∷ []) ≡ true
has_suffix-braces name body = rw braces-concat (has_suffix-append (name ++ b'{' ∷ body) (b'}' ∷ []))

slice-name : (name body : Text) → slice (braces name body) 0 (length name) ≡ some name
slice-name name body = slice-append [] name _ 0 (length name) refl (omega arith)

slice-body :
    (name body : Text)
    → slice (braces name body) (length name + 1) (length (braces name body) - 1) ≡ some body
slice-body name body = rw (sym (append_assoc name (b'{' ∷ []) (body ++ b'}' ∷ []))) (
    slice-append (name ++ b'{' ∷ []) body (b'}' ∷ []) _ _ (omega (arith, length-append {0}))
      (omega (arith, length-append {0})))

pub parse-braces :
    (name body : Text)
    → IsMetricName name
    → parse (braces name body) ≡ (parse_labels body >>= λ labels. ok (name, labels))
unfolding parse
parse-braces name body h = rw (
  trim_space-braces name body h,
  equal-braces name body,
  index_byte-append name _ b'{' (IsMetricName-ne name h),
  has_suffix-braces name body,
  slice-name name body,
  slice-body name body,
)

-- A token with no '{' is a name.
pub parse-name : (name : Text) → IsMetricName name → name ≢ [] → parse name ≡ ok (name, [])
unfolding parse
parse-name [] h ne = absurd (ne refl)
parse-name (c ∷ name) h ne = rw (
  trim_space-NoSpace (c ∷ name) (IsMetricName-NoSpace (c ∷ name) h),
  index_byte-none (c ∷ name) b'{' (IsMetricName-ne (c ∷ name) h),
  equal-cons c name,
)
