-- ===== src/Tests/PromKeyRuns.antt =====
-- Runs of pkg/slo/common/promkey/promkey.go.
use mathlib.Core.List.Perm
use my_operator.Base.{[], ◌∷◌, ◌≡◌, refl, arith, codes, ok, err, Text, All}
use my_operator.GoMap.{keys, index, put, IsMap, SameMap}
use my_operator.Text.{equal, trim_space, index_byte, has_suffix, slice, is_space}
use my_operator.Text.Sort.{sort_strings}
use my_operator.PromKey.{
  Labels, missing_brace, missing_equals, missing_quote, empty_token, unterminated, escape_at_end,
  escape_label_value, unescape_label_value, skip_separators, scan_key, skip_spaces, scan_value,
  parse_labels, parse, format,
}
use mathlib.Core.List.{cons-ne-nil}
use my_operator.PromKey.Apart.{format-apart}
use my_operator.PromKey.Loop.{IsLabelName, IsMetricName}
use my_operator.PromKey.RoundTrip.{parse-format}
use my_operator.PromKey.Order.{format-perm}
use my_operator.PromKey.Scan.{Fails, Succeeds}
use my_operator.PromKey.Total.{parse-Fails}

abbrev two_labels : Labels
two_labels = (codes "b", codes "x\"y\\") ∷ (codes "a", codes "1 2\n") ∷ []

abbrev two_labels' : Labels
two_labels' = (codes "a", codes "1 2\n") ∷ (codes "b", codes "x\"y\\") ∷ []

format_two : format (codes "m") two_labels ≡ codes "m{a=\"1 2\\n\",b=\"x\\\"y\\\\\"}"
unfolding format sort_strings keys escape_label_value index equal
format_two = refl

parse_two :
    parse (codes " m{ a=\"1\" ,, b = \"2\"} ")
    ≡ ok (codes "m", (codes "a", codes "1") ∷ (codes "b", codes "2") ∷ [])
unfolding parse trim_space equal index_byte has_suffix slice parse_labels skip_separators scan_key
    skip_spaces scan_value unescape_label_value put
parse_two = refl

parse_errors :
    (parse (codes " ") ≡ err empty_token)
    × (parse (codes "m{a=\"1\"") ≡ err (missing_brace (codes "m{a=\"1\"")))
    × (parse (codes "m{a}") ≡ err (missing_equals (codes "a")))
    × (parse (codes "m{a=1}") ≡ err (missing_quote (codes "a") (codes "a=1")))
    × (parse (codes "m{a=\"1}") ≡ err (unterminated (codes "a") (codes "a=\"1")))
    × (parse (codes "m{a=\"\\}") ≡ err (escape_at_end (codes "a") (codes "a=\"\\")))
unfolding parse trim_space equal index_byte has_suffix slice parse_labels skip_separators scan_key
    skip_spaces scan_value unescape_label_value put
parse_errors = (refl, refl, refl, refl, refl, refl)

two_labels-IsMap : IsMap two_labels
two_labels-IsMap = ground arith

abbrev m_total : Text
m_total = codes "m_total"

m_total-IsMetricName : IsMetricName m_total
unfolding is_space
m_total-IsMetricName = ground arith

two_labels-IsLabelName : All IsLabelName (keys two_labels)
unfolding is_space keys
two_labels-IsLabelName = ground arith

parse-format_example :
    (read : Labels) × (parse (format (codes "m_total") two_labels) ≡ ok (codes "m_total", read))
    × SameMap read two_labels
parse-format_example =
    parse-format m_total two_labels m_total-IsMetricName (cc) two_labels-IsLabelName

format-perm_example : format (codes "m") two_labels ≡ format (codes "m") two_labels'
format-perm_example =
    format-perm (codes "m") two_labels two_labels' (Perm.swap _ _ _) two_labels-IsMap

two_labels'-IsLabelName : All IsLabelName (keys two_labels')
unfolding is_space keys
two_labels'-IsLabelName = ground arith

one_key : format m_total two_labels ≡ format m_total two_labels'
one_key = format-perm m_total two_labels two_labels' (Perm.swap _ _ _) two_labels-IsMap

format-apart_example : (m_total ≡ m_total) × SameMap two_labels two_labels'
format-apart_example =
    format-apart m_total m_total two_labels two_labels' m_total-IsMetricName (cons-ne-nil _ _)
      two_labels-IsLabelName m_total-IsMetricName (cons-ne-nil _ _) two_labels'-IsLabelName one_key

parse-Fails_example : Fails Succeeds (parse (codes "m{a=\"\\}"))
parse-Fails_example = parse-Fails (codes "m{a=\"\\}")
