-- ===== src/Harness/Presets.antt =====
-- test/e2e/harness/presets.go: the preset SLI definitions.
pub mod Skipped
pub mod DepthEnd
use my_operator.Base.{none, List, [], ◌∷◌, codes, Text}
use my_operator.Float64.{Float64}
use my_operator.PromKey.{Labels}
use my_operator.Spec.{SliSpec, prom_metric, compute_single, compute_delta}

module _ (f : Float64) where
  -- A definition with one input and no judge.
  abbrev preset : Text → Text → Text → Text → Text → Text → Labels → Text → SliSpec f
  preset id title unit kind description name labels mode = record {
    id = id;
    title = title;
    unit = unit;
    kind = kind;
    description = description;
    inputs = prom_metric name labels ∷ [];
    compute_mode = mode;
    judge = none;
  }

  unfoldable pub reconcile_total_delta : SliSpec f
  unfolding prom_metric
  reconcile_total_delta =
      preset (codes "reconcile_total_delta") (codes "reconcile total delta") (codes "count")
        (codes "delta_counter")
        (codes "Delta of controller_runtime_reconcile_total during the test window (all results).")
        (codes "controller_runtime_reconcile_total") [] compute_delta

  unfoldable pub reconcile_success_delta : SliSpec f
  unfolding prom_metric
  reconcile_success_delta =
      preset (codes "reconcile_success_delta") (codes "reconcile success delta") (codes "count")
        (codes "delta_counter")
        (codes "Delta of controller_runtime_reconcile_total{result=\"success\"}.")
        (codes "controller_runtime_reconcile_total") ((codes "result", codes "success") ∷ [])
        compute_delta

  unfoldable pub reconcile_error_delta : SliSpec f
  unfolding prom_metric
  reconcile_error_delta =
      preset (codes "reconcile_error_delta") (codes "reconcile error delta") (codes "count")
        (codes "delta_counter")
        (codes "Delta of controller_runtime_reconcile_total{result=\"error\"}.")
        (codes "controller_runtime_reconcile_total") ((codes "result", codes "error") ∷ [])
        compute_delta

  unfoldable pub workqueue_adds_total_delta : SliSpec f
  unfolding prom_metric
  workqueue_adds_total_delta =
      preset (codes "workqueue_adds_total_delta") (codes "workqueue adds total delta")
        (codes "count") (codes "delta_counter")
        (codes "Delta of workqueue_adds_total during the test window (all queues).")
        (codes "workqueue_adds_total") [] compute_delta

  unfoldable pub workqueue_retries_total_delta : SliSpec f
  unfolding prom_metric
  workqueue_retries_total_delta =
      preset (codes "workqueue_retries_total_delta") (codes "workqueue retries total delta")
        (codes "count") (codes "delta_counter")
        (codes "Delta of workqueue_retries_total during the test window (all queues).")
        (codes "workqueue_retries_total") [] compute_delta

  unfoldable pub workqueue_depth_end : SliSpec f
  unfolding prom_metric
  workqueue_depth_end =
      preset (codes "workqueue_depth_end") (codes "workqueue depth at end") (codes "items")
        (codes "gauge") (codes "workqueue_depth gauge snapshot at the end time (all queues).")
        (codes "workqueue_depth") [] compute_single

  unfoldable pub rest_client_requests_total_delta : SliSpec f
  unfolding prom_metric
  rest_client_requests_total_delta =
      preset (codes "rest_client_requests_total_delta") (codes "rest client requests total delta")
        (codes "count") (codes "delta_counter")
        (codes "Delta of rest_client_requests_total during the test window (all codes/methods).")
        (codes "rest_client_requests_total") [] compute_delta

  unfoldable pub rest_client_429_delta : SliSpec f
  unfolding prom_metric
  rest_client_429_delta =
      preset (codes "rest_client_429_delta") (codes "rest client 429 delta") (codes "count")
        (codes "delta_counter")
        (codes
          "Delta of rest_client_requests_total{code=\"429\"}. Indicates API server throttling.")
        (codes "rest_client_requests_total") ((codes "code", codes "429") ∷ []) compute_delta

  unfoldable pub rest_client_5xx_delta : SliSpec f
  unfolding prom_metric
  rest_client_5xx_delta =
      preset (codes "rest_client_5xx_delta") (codes "rest client 5xx delta") (codes "count")
        (codes "delta_counter")
        (codes
          "Delta of rest_client_requests_total{code=\"5xx\"}. Some client-go versions aggregate 5xx as \"5xx\".")
        (codes "rest_client_requests_total") ((codes "code", codes "5xx") ∷ []) compute_delta

  unfoldable pub baseline_v3_specs : List (SliSpec f)
  unfolding reconcile_total_delta reconcile_success_delta reconcile_error_delta
      workqueue_adds_total_delta workqueue_retries_total_delta workqueue_depth_end
      rest_client_requests_total_delta rest_client_429_delta rest_client_5xx_delta
  baseline_v3_specs =
      reconcile_total_delta ∷ reconcile_success_delta ∷ reconcile_error_delta
      ∷ workqueue_adds_total_delta ∷ workqueue_retries_total_delta ∷ workqueue_depth_end
      ∷ rest_client_requests_total_delta ∷ rest_client_429_delta ∷ rest_client_5xx_delta ∷ []

  unfoldable pub default_v3_specs : List (SliSpec f)
  unfolding baseline_v3_specs
  default_v3_specs = baseline_v3_specs
