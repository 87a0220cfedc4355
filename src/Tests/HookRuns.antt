-- ===== src/Tests/HookRuns.antt =====
-- Runs of the hooks and the fetcher of test/e2e/harness.
use mathlib.Core.List.{cons-ne-nil}
use my_operator.Base.{
  ℕ, ◌+◌, true, none, some, Option, List, [], ◌∷◌, ◌++◌, ◌≡◌, refl, arith, if◌then◌else◌, codes, ok,
  Result, Text,
}
use my_operator.Curl.{History, Answers}
use my_operator.Curl.{run_once, wait_done, logs, delete_pod_no_wait}
use my_operator.Curl.Pod.{run_pod, client_of}
use my_operator.Engine.{Env}
use my_operator.GoMap.{GoMap, lookup, put, index, keys}
use my_operator.Harness.Fetcher.{pod_of, fetch_v4}
use my_operator.Harness.Fetcher.Scraped.{scrape, fetch_v4_scraped}
use my_operator.Harness.Hooks.{Provided, run_test}
use my_operator.Harness.Hooks.Blind.{WritesResults, blind_results, started_session, run_test_blind}
use my_operator.Harness.Session.{SessionV4}
use my_operator.PromKey.{format, write_labels, escape_label_value, escape_onto, escape_byte}
use my_operator.PromText.{ParseError}
use my_operator.PromText.Exposition
use my_operator.PromText.Exposition.{IsSample, put_samples}
use my_operator.Spec.{SliSpec, compute_delta}
use my_operator.Summary.{is_zero}
use my_operator.Tests.Whole.{whole}
use my_operator.Text.{
  equal, has_prefix, index_byte, is_space, trim_space, trim_left, trim_right, keep_or_drop,
}
use my_operator.Text.Sort.{sort_strings, insert}
use my_operator.Text.Lines.{is_too_long, byte_length}

-- A counter that the tests raise, and the files by their run IDs.
pub record Site : Type 0 where
  pub count : ℕ
  pub files : GoMap Text

abbrev counting : Env whole
counting = record {
  World = Site;
  fetch = λ at w. (ok (record { at = at; values = (codes "up", w.count) ∷ [] }), w);
  write = λ path sum w. (none, record w { files = put path sum.config.run_id w.files });
  now = λ w. (7, w);
}

abbrev join : Text → Text → Text
join dir name = dir ++ (codes "/" ++ name)

abbrev up_delta : SliSpec whole
up_delta = record {
  id = codes "d";
  title = [];
  unit = [];
  kind = [];
  description = [];
  inputs = record { key = codes "up"; alias = [] } ∷ [];
  compute_mode = compute_delta;
  judge = none;
}

abbrev provided : Provided whole
provided = record {
  hdeps = record {
    artifacts_dir = codes "a";
    suite = codes "s";
    test_case = [];
    run_id = codes "r";
    enabled = true;
  };
  fdeps = record {
    namespace = codes "n";
    token = [];
    metrics_service_name = codes "m";
    service_account_name = [];
  };
  specs = some (up_delta ∷ []);
  leaf_node_text = codes "scales";
}

abbrev raise : Site → Site
raise w = record w { count = w.count + 5 }

abbrev site : Site
site = record { count = 2; files = (codes "old", codes "kept") ∷ [] }

abbrev metrics_of : Site → GoMap ℕ
metrics_of w = (codes "up", w.count) ∷ []

run_test_blind_example :
    WritesResults whole counting join metrics_of
      (started_session whole counting join metrics_of provided site)
      (blind_results whole
        (metrics_of (raise site))
        (started_session whole counting join metrics_of provided site).specs)
      (run_test whole counting join provided raise site)
unfolding is_zero
run_test_blind_example =
    run_test_blind whole counting join metrics_of provided raise site refl
      ((λ t w. refl), (λ t w. refl)) (λ w. refl)

abbrev session : SessionV4 whole
session = record {
  config = record {
    namespace = codes "n";
    metrics_service_name = codes "svc";
    test_case = codes "t";
    suite = codes "s";
    run_id = codes "r";
    service_account_name = codes "sa";
    token = [];
    artifacts_dir = codes "a";
    tags = [];
    specs = none;
  };
  run_id = codes "r";
  tags = [];
  warnings = [];
  specs = up_delta ∷ [];
  started = 0;
}

abbrev up_sample : Exposition.Sample whole
up_sample = record {
  name = codes "up";
  labels = (codes "job", codes "a") ∷ [];
  value_text = codes "7";
  value = 7;
}

labelled : index_byte (codes "up{job=\"a\"}") b'{' ≡ some 2
unfolding index_byte
labelled = refl

up_sample-IsSample : IsSample whole up_sample
unfolding format write_labels escape_label_value escape_onto escape_byte index lookup equal
    sort_strings insert keys is_space is_too_long byte_length has_prefix
up_sample-IsSample = record {
  name_ok = ground arith;
  name_ne_nil = cons-ne-nil _ _;
  labels_ok = ground arith;
  labels_distinct = ground arith;
  key_no_space = ground arith;
  no_comment = refl;
  value_no_space = ground arith;
  value_ne_nil = cons-ne-nil _ _;
  number = refl;
  fits = refl;
}

abbrev logged : List (Exposition.Sample whole)
logged = up_sample ∷ []

-- A pod that succeeds at once, and whose logs hold the sample.
abbrev by_verb : List Text → Result Text Text
by_verb (k ∷ (verb ∷ more)) =
    if equal verb (codes "logs")
    then ok (scrape whole logged)
    else if equal verb (codes "get")
    then ok (codes "Succeeded")
    else ok []
by_verb _ = ok []

abbrev answering : Answers
answering h ctx command = by_verb command.args

abbrev plain : Text → Text
plain s = s

abbrev print_nothing : ParseError → Text
print_nothing e = []

abbrev ran : Option (Result Text Text × History)
ran = run_pod answering plain (codes "1") (pod_of session) [] []

abbrev behind : History
behind = elim ran [ none ↦ [] | some r ↦ r.1 ]

scraped : ran ≡ some (ok (scrape whole logged), behind)
unfolding run_pod run_once wait_done logs delete_pod_no_wait client_of pod_of equal trim_space
    trim_left trim_right keep_or_drop is_space
scraped = refl

fetch_v4_scraped_example :
    (values : GoMap ℕ) × (fetch_v4 whole print_nothing answering plain (codes "1") [] session 5 []
      ≡ some (ok (record { at = 5; values = values }), behind))
    × (lookup (codes "up{job=\"a\"}") values
        ≡ lookup (codes "up{job=\"a\"}") (put_samples whole [] logged))
fetch_v4_scraped_example =
    fetch_v4_scraped whole print_nothing answering plain (codes "1") [] session 5 [] behind logged
      (codes "up{job=\"a\"}") (up_sample-IsSample, tt) scraped (2, labelled)
