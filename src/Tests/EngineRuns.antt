-- ===== src/Tests/EngineRuns.antt =====
-- Runs of pkg/slo/engine and of the presets of test/e2e/harness/presets.go.
use my_operator.Base.{ℕ, some, List, ◌⊎◌, [], ◌∷◌, ◌≡◌, codes, ok, err}
use my_operator.Engine.{Sample, ExecuteRequest, execute}
use my_operator.Engine.Eval.{eval_sli, judge}
use my_operator.Engine.Eval.Inputs.{
  eval_sli-SkipsValue, eval_sli-reported, SkipsValue, reported, unless_missing, outcome_of,
  missing_keys,
}
use my_operator.Engine.Eval.Judge.{judge-verdict, verdict, first_firing, last_firing}
use my_operator.Engine.Runs.{execute-cases, Unset, Warned, Full}
use my_operator.GoMap.{GoMap}
use my_operator.Spec.{SliSpec, Rule, compute_delta, level_fail, level_warn, op_gt}
use my_operator.Summary.{RunConfig}
use my_operator.Tests.Whole.{whole, Script, scripted}

abbrev two_rules : List (Rule whole)
two_rules =
    record { metric = []; op = op_gt; target = 2; level = level_warn }
    ∷ record { metric = []; op = op_gt; target = 4; level = level_fail }
    ∷ []

judge-verdict_example :
    judge whole 3 two_rules
    ≡ verdict whole
        (first_firing whole 3 level_fail two_rules)
        (last_firing whole 3 level_warn two_rules)
judge-verdict_example = judge-verdict whole 3 two_rules

abbrev depth : SliSpec whole
depth = record {
  id = codes "d";
  title = [];
  unit = [];
  kind = [];
  description = [];
  inputs = record { key = codes "up"; alias = [] } ∷ [];
  compute_mode = compute_delta;
  judge = some (record { rules = two_rules });
}

abbrev first : GoMap ℕ
first = (codes "up", 1) ∷ []

abbrev second : GoMap ℕ
second = (codes "up", 4) ∷ []

eval_sli-SkipsValue_example : SkipsValue whole first second (eval_sli whole depth first second)
eval_sli-SkipsValue_example = eval_sli-SkipsValue whole first second depth

eval_sli-reported_example :
    eval_sli whole depth first second
    ≡ reported whole first second depth (
        unless_missing whole first second
          (missing_keys whole first second depth.inputs)
          (outcome_of whole first second depth))
eval_sli-reported_example = eval_sli-reported whole first second depth

abbrev config : RunConfig
config = record {
  run_id = codes "r";
  started_at = 5;
  finished_at = 9;
  mode = record { location = []; trigger = [] };
  tags = [];
  format = [];
  evidence_paths = [];
}

abbrev one_request : ExecuteRequest whole
one_request = record { config = config; specs = depth ∷ []; out_path = codes "out.json" }

abbrev sample_one : Sample whole
sample_one = record { at = 5; values = first }

abbrev sample_two : Sample whole
sample_two = record { at = 9; values = second }

abbrev after : Script
after = record { fetches = []; write_error = some (codes "disk"); written = []; clock = 12 }

abbrev between : Script
between = record after { fetches = ok sample_two ∷ [] }

abbrev before : Script
before = record after { fetches = ok sample_one ∷ ok sample_two ∷ [] }

abbrev broken : Script
broken = record after { fetches = err (codes "refused") ∷ [] }

execute-cases_example :
    Unset whole scripted one_request broken (execute whole scripted one_request broken)
    ⊎ (Warned whole scripted one_request broken (execute whole scripted one_request broken)
        ⊎ Full whole scripted one_request broken (execute whole scripted one_request broken))
execute-cases_example = execute-cases whole scripted one_request broken

abbrev depth_start : GoMap ℕ
depth_start = (codes "workqueue_depth", 3) ∷ []

abbrev depth_end : GoMap ℕ
depth_end = (codes "workqueue_depth", 8) ∷ []
