-- ===== src/PromText/Skips.antt =====
-- pkg/slo/fetch/promtext/parse.go: lines that the parser passes over.
use mathlib.Core.List.{cons-ne-nil}
use my_operator.Base.{
  ℕ, true, false, [], ◌∷◌, ◌++◌, ◌≡◌, ◌≢◌, refl, ap, Text, ok, err, none, some, inl, inr,
  Bool-cases, List-cases,
}
use my_operator.Float64.{Float64}
use my_operator.GoMap.{GoMap}
use my_operator.PromKey.{missing_brace, parse, canonicalize}
use my_operator.PromText.{parse_line}
use my_operator.Text.{equal, has_prefix, has_suffix, index_byte, is_space, fields}
use my_operator.Text.Fields.{fields-first_at}
use my_operator.Text.Trim.{NoSpace, append-ne-nil, trim_space-NoSpace}

equal-ne-nil : (s : Text) → s ≢ [] → equal s [] ≡ false
unfolding equal
equal-ne-nil [] h = absurd (h refl)
equal-ne-nil (c ∷ s) h = refl

-- A token that opens a brace and does not end in '}' is an error.
pub canonicalize_open :
    (token : Text) (br : ℕ)
    → NoSpace token
    → token ≢ []
    → index_byte token b'{' ≡ some br
    → has_suffix token (b'}' ∷ []) ≡ false
    → canonicalize token ≡ err (missing_brace token)
unfolding canonicalize parse
canonicalize_open token br h ne at open_end =
    rw (trim_space-NoSpace token h, equal-ne-nil token ne, at, open_end)

index_byte-nil : (b : ℕ) → index_byte [] b ≡ none
unfolding index_byte
index_byte-nil b = refl

module _ (f : Float64) where
  open f use {F, parse_float}

  -- A sample is lost where a label value holds white space: the part of the line in front of the
  -- first white space then opens a brace that it does not close, and the line is passed over, with no
  -- error and no change of the map. Stated for every line that starts with a token with no white
  -- space in it, behind which white space comes, and that has a '{' in it and does not end in '}'.
  pub parse_line_open :
      (token : Text) (space : ℕ) (rest : Text) (br : ℕ) (out : GoMap F)
      → NoSpace token
      → is_space space ≡ true
      → index_byte token b'{' ≡ some br
      → has_suffix token (b'}' ∷ []) ≡ false
      → parse_line f (token ++ space ∷ rest) out ≡ ok out
  unfolding parse_line
  parse_line_open token space rest br out h hs at open_end =
      elim (Bool-cases (has_prefix (token ++ space ∷ rest) (b'#' ∷ []))) [
        | inl comment ↦ rw (line_ne, comment)
        | inr plain ↦
            rw (line_ne, plain, fields-first_at token space rest h token_ne hs)
              (elim (List-cases (fields rest)) [
                | inl e ↦ rw e
                | inr (v, more, e) ↦ rw (e, canonicalize_open token br h token_ne at open_end)
              ])
      ]
    where
      token_ne : token ≢ []
      token_ne e = cc (at, ap (λ (t : Text). index_byte t b'{') e, index_byte-nil b'{')

      line_ne : equal (token ++ space ∷ rest) [] ≡ false
      line_ne = equal-ne-nil _ (append-ne-nil token (space ∷ rest) (cons-ne-nil _ _))
