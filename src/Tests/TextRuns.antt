-- ===== src/Tests/TextRuns.antt =====
-- Runs of pkg/slo/fetch/promtext/parse.go and of the aggregation in test/e2e/harness/attach.go.
use mathlib.Core.List.{cons-ne-nil}
use my_operator.Base.{
  true, ℕ, false, none, some, [], ◌∷◌, ◌≡◌, refl, map, arith, codes, ok, Text, ◌++◌, ◌+◌,
}
use my_operator.GoMap.{GoMap, lookup, keys}
use my_operator.Harness.Aggregate.{aggregate}
use my_operator.Harness.Aggregate.Order.{aggregate_order}
use my_operator.Harness.Aggregate.Sums.{lookup-aggregate, series_sum}
use my_operator.PromKey.{format}
use my_operator.PromText.{parse_text_to_map, parse_line}
use my_operator.PromText.Exposition.{Sample, IsSample, parse-unlines, line_of, put_samples}
use my_operator.PromText.Skips.{parse_line_open}
use my_operator.Tests.Whole.{whole}
use my_operator.Text.{equal, has_prefix, has_suffix, index_byte, is_space}
use my_operator.Text.Lines.{is_too_long, byte_length}
use my_operator.Text.Scan.{unlines}
use my_operator.Text.Trim.{NoSpace}

abbrev up_sample : Sample whole
up_sample = record { name = codes "up"; labels = []; value_text = codes "7"; value = 7 }

up_sample-IsSample : IsSample whole up_sample
unfolding format keys is_space is_too_long byte_length has_prefix
up_sample-IsSample = record {
  name_ok = ground arith;
  name_ne_nil = cons-ne-nil _ _;
  labels_ok = tt;
  labels_distinct = tt;
  key_no_space = ground arith;
  no_comment = refl;
  value_no_space = ground arith;
  value_ne_nil = cons-ne-nil _ _;
  number = refl;
  fits = refl;
}

parse-unlines_example :
    parse_text_to_map whole (unlines (map (line_of whole) (up_sample ∷ [])))
    ≡ ok (put_samples whole [] (up_sample ∷ []))
parse-unlines_example = parse-unlines whole (up_sample ∷ []) (up_sample-IsSample, tt)

abbrev open_token : Text
open_token = codes "up{job=\"a"

open_token-NoSpace : NoSpace open_token
unfolding is_space
open_token-NoSpace = ground arith

open_token_brace : index_byte open_token b'{' ≡ some 2
unfolding index_byte
open_token_brace = refl

open_token_end : has_suffix open_token (b'}' ∷ []) ≡ false
unfolding has_suffix equal
open_token_end = refl

tab_is_space : is_space b'\t' ≡ true
unfolding is_space
tab_is_space = refl

parse_line_open_example : parse_line whole (open_token ++ b'\t' ∷ codes "b\"} 1") [] ≡ ok []
parse_line_open_example =
    parse_line_open whole open_token b'\t' (codes "b\"} 1") 2 [] open_token-NoSpace tab_is_space
      open_token_brace open_token_end

aggregate_order_example :
    (lookup (codes "up") (aggregate whole [] ((codes "up", 1) ∷ (codes "up{a=\"b\"}", 2) ∷ []))
      ≡ some (1 + 2))
    × (lookup (codes "up") (aggregate whole [] ((codes "up{a=\"b\"}", 2) ∷ (codes "up", 1) ∷ []))
        ≡ some 1)
aggregate_order_example =
    aggregate_order whole b'u' (codes "p") (codes "a=\"b\"}") 1 2 (ground arith)

abbrev two_series : GoMap ℕ
two_series = (codes "up{a=\"b\"}", 2) ∷ (codes "up{a=\"c\"}", 5) ∷ []

two_series_no_name : lookup (codes "up") two_series ≡ none
unfolding lookup equal
two_series_no_name = refl

lookup-aggregate_example :
    lookup (codes "up") (aggregate whole [] two_series)
    ≡ series_sum whole (codes "up") none two_series
lookup-aggregate_example = lookup-aggregate whole (codes "up") two_series two_series_no_name

series_sum_two : series_sum whole (codes "up") none two_series ≡ some 7
unfolding index_byte equal
series_sum_two = refl
