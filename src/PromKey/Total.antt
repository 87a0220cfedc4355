-- ===== src/PromKey/Total.antt =====
-- pkg/slo/common/promkey/promkey.go: which errors `Parse` can return.
use native.Mathlib.Decide.{ℕ_discrete}
use my_operator.Base.{
  ℕ, zero, suc, ◌+◌, ◌-◌, ◌≤◌, ◌<◌, true, Option, none, some, [], ◌∷◌, ◌≡◌, ◌≢◌, refl, sym, ◌∙◌,
  arith, ◌==◌, Text, length, take, drop, ok, inl, inr, Bool-cases, Option-cases,
}
use my_operator.Text.{equal, equal_iff, trim_space, index_byte, has_suffix, slice}
use my_operator.PromKey.{parse_labels, parse_at, parse}
use my_operator.PromKey.Scan.{Fails, Succeeds, Fails-bind, parse_labels-Fails}

drop-index_byte :
    (s : Text) (b : ℕ) {i : ℕ} → index_byte s b ≡ some i → (t : Text) × (drop i s ≡ b ∷ t)
unfolding index_byte
drop-index_byte [] b h = cc
drop-index_byte (c ∷ s) b {i} h = elim (Option-cases (index_byte s b)) [
  | inl e ↦ (s, ground (arith, e))
  | inr (j, e) ↦ elim (Bool-cases (c == b)) [
    | inl found ↦ (s, ground arith)
    | inr other ↦ let (t, rest) = drop-index_byte s b e in (t, ground (arith, rest))
  ]
]

drop-has_suffix :
    (s p : Text)
    → has_suffix s p ≡ true
    → (length p ≤ length s) × (drop (length s - length p) s ≡ p)
unfolding has_suffix
drop-has_suffix s p h = ground (arith, equal_iff (drop (length s - length p) s) p)

drop-length-lt : (i : ℕ) (s : Text) {c : ℕ} {t : Text} → drop i s ≡ c ∷ t → i < length s
drop-length-lt zero [] h = cc
drop-length-lt zero (d ∷ s) h = omega arith
drop-length-lt (suc i) [] h = cc
drop-length-lt (suc i) (d ∷ s) h = omega (arith, drop-length-lt i s h)

-- The '{' stands in front of the closing '}'.
brace_order :
    (token : Text) {br : ℕ}
    → index_byte token b'{' ≡ some br
    → has_suffix token (b'}' ∷ []) ≡ true
    → br + 1 ≤ length token - 1
brace_order token {br} h k =
    let (t, open_brace) = drop-index_byte token b'{' h in
    let (long, close_brace) = drop-has_suffix token (b'}' ∷ []) k in
    let lt = drop-length-lt br token open_brace in
    elim (ℕ_discrete br (length token - 1)) [
      | yes e ↦ absurd (braces-ne (sym (rw e at open_brace) ∙ close_brace))
      | no ne ↦ omega arith
    ]
  where
    braces-ne : {t : Text} → (b'{' ∷ t) ≢ b'}' ∷ []
    braces-ne e = ground arith

slice_in_range :
    (s : Text) (lo hi : ℕ) → lo ≤ hi → hi ≤ length s → (t : Text) × (slice s lo hi ≡ some t)
unfolding slice
slice_in_range s lo hi h k = (take (hi - lo) (drop lo s), ground arith)

parse_at-some :
    (token : Text) (br : ℕ)
    → br + 1 ≤ length token - 1
    → has_suffix token (b'}' ∷ []) ≡ true
    → Fails Succeeds (parse_at token (some br))
unfolding parse_at
parse_at-some token br lt e =
    let (name, n) = slice_in_range token 0 br (omega arith) (omega arith) in
    let (inside, m) = slice_in_range token (br + 1) (length token - 1) lt (omega arith) in
    rw (e, n, m)
      (Fails-bind Succeeds (parse_labels inside) (λ labels. ok (name, labels))
        (parse_labels-Fails inside) (λ _ _. tt))

parse_at-Fails :
    (token : Text) (at : Option ℕ) → index_byte token b'{' ≡ at → Fails Succeeds (parse_at token at)
unfolding parse_at
parse_at-Fails token none h = tt
parse_at-Fails token (some br) h = elim (Bool-cases (has_suffix token (b'}' ∷ []))) [
  | inl e ↦ parse_at-some token br (brace_order token h e) e
  | inr e ↦ rw e tt
]

-- For every token, `Parse` returns a name and labels, or one of its syntax errors: no slice
-- expression is out of range, the loop ends, and the error of `UnescapeLabelValue` never shows.
pub parse-Fails : (token : Text) → Fails Succeeds (parse token)
unfolding parse parse_at
parse-Fails token = elim (Bool-cases (equal (trim_space token) [])) [
  | inl e ↦ rw e tt
  | inr e ↦ rw e (parse_at-Fails (trim_space token) _ refl)
]
