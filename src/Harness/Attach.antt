-- ===== src/Harness/Attach.antt =====
-- test/e2e/harness/attach.go: the v3 session around a test, and its fetcher.
use my_operator.Base.{
  Bool, not, Option, none, some, List, [], ◌∷◌, ◌++◌, if◌then◌else◌, Text, codes, Result, ok, err,
}
use my_operator.Engine.{Env, Sample, execute}
use my_operator.Float64.{Float64}
use my_operator.GoMap.{GoMap}
use my_operator.Harness.Aggregate.{parse_prometheus_text}
use my_operator.Harness.Sanitize.{sanitize_filename}
use my_operator.PromText.{ParseError}
use my_operator.Spec.{SliSpec}
use my_operator.Summary.{Time, RunMode, Summary}
use my_operator.Text.{equal, trim_space}

pub record HarnessDeps : Type 0 where
  pub artifacts_dir : Text
  pub suite : Text
  pub test_case : Text
  pub run_id : Text
  pub enabled : Bool

pub record FetchDeps : Type 0 where
  pub namespace : Text
  pub token : Text
  pub metrics_service_name : Text
  pub service_account_name : Text

-- The injected functions, on a world; an error is its text.
pub record CurlPodFns : Type 1 where
  pub World : Type 0
  pub run_curl_metrics_once : Text → Text → Text → Text → World → Result Text Text × World
  pub wait_curl_metrics_done : Text → Text → World → World
  pub curl_metrics_logs : Text → Text → World → Result Text Text × World
  pub delete_pod_no_wait : Text → Text → World → Option Text × World

-- `session`; its engine is the environment of `end_session`, with `writes` false for the writer that
-- writes nothing.
pub record Session (f : Float64) : Type 0 where
  pub writes : Bool
  pub out_path : Text
  pub mode : RunMode
  pub tags : GoMap Text
  pub run_id : Text
  pub specs : List (SliSpec f)
  pub started : Time

module _ (f : Float64) where
  -- `join` stands for `filepath.Join`.
  unfoldable pub new_session :
      (Text → Text → Text) → HarnessDeps → FetchDeps → List (SliSpec f) → Session f
  unfolding sanitize_filename trim_space
  new_session join hdeps fdeps specs = record {
    writes = not (equal (trim_space hdeps.artifacts_dir) []);
    out_path =
        if equal (trim_space hdeps.artifacts_dir) []
        then []
        else join hdeps.artifacts_dir (
            codes "sli-summary.v3."
            ++ sanitize_filename hdeps.run_id
            ++ codes "."
            ++ sanitize_filename hdeps.test_case
            ++ codes ".json");
    mode = record { location = codes "inside"; trigger = codes "none" };
    tags =
        (codes "suite", hdeps.suite)
        ∷ (codes "test_case", hdeps.test_case)
        ∷ (codes "namespace", fdeps.namespace)
        ∷ (codes "run_id", hdeps.run_id)
        ∷ [];
    run_id = hdeps.run_id;
    specs = specs;
    started = 0;
  }

  unfoldable pub start : Time → Session f → Session f
  start now s = record s { started = now }

  module _ (env : Env f) where
    open env use {World, now}

    -- The writer of the session: that of the environment, or the one that writes nothing.
    unfoldable pub engine_of : Session f → Env f
    engine_of s = record {
      World = World;
      fetch = env.fetch;
      write = if s.writes then env.write else (λ path sum w. (none, w));
      now = now;
    }

    error_of : Result Text (Summary f) → Option Text
    error_of (ok sum) = none
    error_of (err e) = some e

    -- The error, or none.
    unfoldable pub end_session : Session f → World → Option Text × World
    unfolding error_of execute engine_of
    end_session s w =
        let (finished, w1) = now w in
        let (r, w2) =
          execute f (engine_of s)
            (record {
              config = record {
                run_id = s.run_id;
                started_at = s.started;
                finished_at = finished;
                mode = s.mode;
                tags = s.tags;
                format = [];
                evidence_paths = [];
              };
              specs = s.specs;
              out_path = s.out_path;
            })
            w1 in
        (error_of r, w2)

  -- `print` stands for the text of a parse error.
  module _ (print : ParseError → Text) (fns : CurlPodFns) (deps : FetchDeps) where
    open fns use {World}

    sample : Time → Result ParseError (GoMap f.F) → Result Text (Sample f)
    sample at (err e) = err (print e)
    sample at (ok values) = ok (record { at = at; values = values })

    after_logs : Time → Result Text Text → Result Text (Sample f)
    unfolding sample parse_prometheus_text
    after_logs at (err e) = err e
    after_logs at (ok raw) = sample at (parse_prometheus_text f raw)

    after_run : Time → Result Text Text → World → Result Text (Sample f) × World
    unfolding after_logs
    after_run at (err e) w = (err e, w)
    after_run at (ok pod_name) w =
        let w1 = fns.wait_curl_metrics_done deps.namespace pod_name w in
        let (raw, w2) = fns.curl_metrics_logs deps.namespace pod_name w1 in
        let (dropped, w3) = fns.delete_pod_no_wait deps.namespace pod_name w2 in
        (after_logs at raw, w3)

    -- `curlMetricsFetcher.Fetch`
    unfoldable pub fetch : Time → World → Result Text (Sample f) × World
    unfolding after_run
    fetch at w =
        let (answer, w1) =
          fns.run_curl_metrics_once deps.namespace deps.token deps.metrics_service_name
            deps.service_account_name w in
        after_run at answer w1
