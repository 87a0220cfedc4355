-- ===== src/Tests/PresetRuns.antt =====
-- Runs of the presets of test/e2e/harness/presets.go on the series that the operator's metrics hold.
use mathlib.Core.List.{cons-ne-nil}
use my_operator.Base.{ℕ, List, [], ◌∷◌, ◌≡◌, refl, codes, All, arith, ok}
use my_operator.Engine.Eval.{eval_sli}
use my_operator.GoMap.{GoMap, lookup, index, keys}
use my_operator.Harness.Aggregate.{parse_prometheus_text}
use my_operator.Harness.Fetcher.Scraped.{scrape}
use my_operator.Harness.Presets.Skipped.{
  labelled_presets_skipped, labelled_presets, HasController, HasHost,
}
use my_operator.PromKey.{format, write_labels, escape_label_value, escape_onto, escape_byte}
use my_operator.PromText.Exposition.{Sample, IsSample}
use my_operator.Summary.{skip}
use my_operator.Tests.Whole.{whole}
use my_operator.Text.{equal, ne_of_equal, has_prefix, is_space}
use my_operator.Text.Lines.{is_too_long, byte_length}
use my_operator.Text.Sort.{sort_strings, insert}

abbrev success : Sample whole
success = record {
  name = codes "controller_runtime_reconcile_total";
  labels = (codes "controller", codes "job") ∷ (codes "result", codes "success") ∷ [];
  value_text = codes "7";
  value = 7;
}

abbrev throttled : Sample whole
throttled = record {
  name = codes "rest_client_requests_total";
  labels = (codes "code", codes "429") ∷ (codes "host", codes "api") ∷ [];
  value_text = codes "2";
  value = 2;
}

success-IsSample : IsSample whole success
unfolding format write_labels escape_label_value escape_onto escape_byte index lookup equal
    sort_strings insert keys is_space is_too_long byte_length has_prefix
success-IsSample = record {
  name_ok = ground arith;
  name_ne_nil = cons-ne-nil _ _;
  labels_ok = ground arith;
  labels_distinct = ground arith;
  key_no_space = ground arith;
  no_comment = refl;
  value_no_space = ground arith;
  value_ne_nil = cons-ne-nil _ _;
  number = refl;
  fits = refl;
}

throttled-IsSample : IsSample whole throttled
unfolding format write_labels escape_label_value escape_onto escape_byte index lookup equal
    sort_strings insert keys is_space is_too_long byte_length has_prefix
throttled-IsSample = record {
  name_ok = ground arith;
  name_ne_nil = cons-ne-nil _ _;
  labels_ok = ground arith;
  labels_distinct = ground arith;
  key_no_space = ground arith;
  no_comment = refl;
  value_no_space = ground arith;
  value_ne_nil = cons-ne-nil _ _;
  number = refl;
  fits = refl;
}

abbrev exposed : List (Sample whole)
exposed = success ∷ throttled ∷ []

exposed-HasController : All (HasController whole) exposed
unfolding lookup equal
exposed-HasController =
    ((λ e n. cc), ((λ e. absurd (ne_of_equal throttled.name success.name refl e)), tt))

exposed-HasHost : All (HasHost whole) exposed
unfolding lookup equal
exposed-HasHost =
    ((λ e. absurd (ne_of_equal success.name throttled.name refl e)), ((λ e n. cc), tt))

labelled_presets_skipped_example :
    (start : GoMap ℕ) × (parse_prometheus_text whole (scrape whole exposed) ≡ ok start)
    × All (λ s. (eval_sli whole s start []).status ≡ skip) (labelled_presets whole)
labelled_presets_skipped_example =
    labelled_presets_skipped whole exposed [] (success-IsSample, (throttled-IsSample, tt))
      exposed-HasController exposed-HasHost
