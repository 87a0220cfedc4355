-- ===== src/PromText/Exposition.antt =====
-- pkg/slo/fetch/promtext/parse.go on a text that lists samples, and on lines that it skips.
use mathlib.Core.List.{cons-ne-nil}
use my_operator.Base.{
  false, List, [], ◌∷◌, ◌++◌, append_assoc, All-append, ◌≡◌, ◌≢◌, refl, arith, Text, All, ok, some,
  map,
}
use my_operator.Float64.{Float64}
use my_operator.GoMap.{GoMap, put, keys, IsMap}
use my_operator.PromKey.{Labels, format}
use my_operator.PromKey.Canonical.{canonicalize-format}
use my_operator.PromKey.Loop.{IsLabelName, IsMetricName}
use my_operator.PromText.{parse_line, parse_lines, parse_text_to_map}
use my_operator.Text.{equal, trim_space, has_prefix, is_space}
use my_operator.Text.Fields.{fields-first, fields-last}
use my_operator.Text.Lines.{drop_cr, is_too_long}
use my_operator.Text.Scan.{IsLine, unlines, scan_lines-unlines, drop_cr-append}
use my_operator.Text.Trim.{NoSpace, append-ne-nil, trim_space-append}

format-ne-nil : (name : Text) (labels : Labels) → name ≢ [] → format name labels ≢ []
unfolding format
format-ne-nil [] labels h = absurd (h refl)
format-ne-nil (c ∷ name) [] h = h
format-ne-nil (c ∷ name) (l ∷ ls) h = cons-ne-nil _ _

NoSpace-no_newline : (s : Text) → NoSpace s → All (λ c. c ≢ b'\n') s
unfolding is_space
NoSpace-no_newline [] h = tt
NoSpace-no_newline (c ∷ s) h = (ground arith, NoSpace-no_newline s h.1)

-- What one line of an exposition says.
pub record Sample (f : Float64) : Type 0 where
  pub name : Text
  pub labels : Labels
  pub value_text : Text
  pub value : f.F

module _ (f : Float64) where
  open f use {F, parse_float}

  abbrev pub key_of : Sample f → Text
  key_of s = format s.name s.labels

  abbrev pub line_of : Sample f → Text
  line_of s = key_of s ++ b' ' ∷ s.value_text

  -- A sample that one line can carry: a key with no white space, on a line that fits the buffer.
  pub record IsSample (s : Sample f) : Type 0 where
    pub name_ok : IsMetricName s.name
    pub name_ne_nil : s.name ≢ []
    pub labels_ok : All IsLabelName (keys s.labels)
    pub labels_distinct : IsMap s.labels
    pub key_no_space : NoSpace (key_of s)
    pub no_comment : has_prefix (line_of s) (b'#' ∷ []) ≡ false
    pub value_no_space : NoSpace s.value_text
    pub value_ne_nil : s.value_text ≢ []
    pub number : parse_float s.value_text ≡ some s.value
    pub fits : is_too_long (line_of s) ≡ false

  -- The samples put into a map, in their order.
  abbrev pub put_samples : GoMap F → List (Sample f) → GoMap F
  put_samples out [] = out
  put_samples out (s ∷ ss) = put_samples (put (key_of s) s.value out) ss

  equal-ne-nil : (s : Text) → s ≢ [] → equal s [] ≡ false
  unfolding equal
  equal-ne-nil [] h = absurd (h refl)
  equal-ne-nil (c ∷ s) h = refl

  -- The line of a sample puts its value at its key.
  parse_line-IsSample :
      (s : Sample f) (out : GoMap F)
      → IsSample s
      → parse_line f (trim_space (drop_cr (line_of s))) out ≡ ok (put (key_of s) s.value out)
  unfolding parse_line
  parse_line-IsSample s out h = rw (
    drop_cr-line,
    trim_space-append (key_of s) (b' ' ∷ []) s.value_text h.key_no_space
        (format-ne-nil s.name s.labels h.name_ne_nil) h.value_no_space h.value_ne_nil,
    equal-ne-nil (line_of s) (append-ne-nil (key_of s) (b' ' ∷ s.value_text) (cons-ne-nil _ _)),
    h.no_comment,
    fields-first (key_of s) s.value_text h.key_no_space
        (format-ne-nil s.name s.labels h.name_ne_nil),
    fields-last s.value_text h.value_no_space h.value_ne_nil,
    canonicalize-format s.name s.labels h.name_ok h.name_ne_nil h.labels_ok h.labels_distinct,
    h.number,
  )
    where
      drop_cr-line : drop_cr (line_of s) ≡ line_of s
      drop_cr-line =
          rw (append_assoc (key_of s) (b' ' ∷ []) s.value_text) at
            (drop_cr-append (key_of s ++ b' ' ∷ []) s.value_text h.value_no_space h.value_ne_nil)

  line_of-IsLine : (s : Sample f) → IsSample s → IsLine (line_of s)
  line_of-IsLine s h = (
    All-append _ (key_of s) (b' ' ∷ s.value_text) (NoSpace-no_newline (key_of s) h.key_no_space)
        (ground arith, NoSpace-no_newline s.value_text h.value_no_space),
    append-ne-nil (key_of s) (b' ' ∷ s.value_text) (cons-ne-nil _ _),
  )

  lines_of-IsLine : (ss : List (Sample f)) → All IsSample ss → All IsLine (map line_of ss)
  lines_of-IsLine [] h = tt
  lines_of-IsLine (s ∷ ss) (h, hs) = (line_of-IsLine s h, lines_of-IsLine ss hs)

  parse_lines-map :
      (ss : List (Sample f)) (out : GoMap F)
      → All IsSample ss
      → parse_lines f (map line_of ss) out ≡ ok (put_samples out ss)
  unfolding parse_lines
  parse_lines-map [] out h = refl
  parse_lines-map (s ∷ ss) out (h, hs) =
      rw (h.fits, parse_line-IsSample s out h) (parse_lines-map ss _ hs)

  -- A text that lists samples, one line each, is parsed to the map that holds the value of each
  -- sample at the key that `Format` makes of its name and labels, the last value where a key
  -- comes twice. It holds for samples whose key has no white space and whose line is no comment
  -- and fits the scanner's buffer.
  pub parse-unlines :
      (ss : List (Sample f))
      → All IsSample ss
      → parse_text_to_map f (unlines (map line_of ss)) ≡ ok (put_samples [] ss)
  unfolding parse_text_to_map
  parse-unlines ss h =
      rw (scan_lines-unlines (map line_of ss) (lines_of-IsLine ss h)) (parse_lines-map ss [] h)
