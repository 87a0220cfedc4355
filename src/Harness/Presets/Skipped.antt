-- ===== src/Harness/Presets/Skipped.antt =====
-- test/e2e/harness/presets.go: the presets that ask for a metric by one of its labels.
use my_operator.Base.{none, List, [], ◌∷◌, ◌≡◌, ◌≢◌, refl, ◌∙◌, arith, Text, codes, All, ok, length}
use my_operator.Engine.Eval.{eval_sli, gather, count_input, finish}
use my_operator.Float64.{Float64}
use my_operator.GoMap.{GoMap, lookup, put, keys, lookup-put}
use my_operator.Harness.Aggregate.{parse_prometheus_text, aggregate}
use my_operator.Harness.Aggregate.Labelled.{IsLabelled, lookup-aggregate_labelled}
use my_operator.Harness.Fetcher.Scraped.{scrape, put_samples-IsMap}
use my_operator.Harness.Presets.{
  reconcile_success_delta, reconcile_error_delta, rest_client_429_delta, rest_client_5xx_delta,
}
use my_operator.PromKey.{Labels, format}
use my_operator.PromKey.Apart.{format-apart}
use my_operator.PromKey.Loop.{IsLabelName, IsMetricName}
use my_operator.PromText.Exposition.{Sample, IsSample, key_of, put_samples, parse-unlines}
use my_operator.Spec.{SliSpec, prom_metric}
use my_operator.Summary.{skip}
use mathlib.Core.List.{cons-ne-nil}
use my_operator.Text.{equal, equal-ne, is_space}
use my_operator.Text.Trim.{index_byte-append}
use my_operator.PromKey.Token.{IsMetricName-ne}

module _ (f : Float64) where
  open f use {F}

  -- What a preset asks for: a metric, by labels.
  abbrev Asks : SliSpec f → Text → Labels → Type 0
  Asks s name labels = s.inputs ≡ prom_metric name labels ∷ []

  lookup-put_samples-none :
      (k : Text) (ss : List (Sample f)) (m : GoMap F)
      → All (λ s. key_of f s ≢ k) ss
      → lookup k m ≡ none
      → lookup k (put_samples f m ss) ≡ none
  lookup-put_samples-none k [] m h n = n
  lookup-put_samples-none k (s ∷ ss) m (h, hs) n =
      lookup-put_samples-none k ss (put (key_of f s) s.value m) hs
        (rw (lookup-put (key_of f s) k s.value m, equal-ne (key_of f s) k h) n)

  eval_sli_missing :
      (s : SliSpec f) (name : Text) (labels : Labels) (start end : GoMap F)
      → Asks s name labels
      → lookup (format name labels) start ≡ none
      → (eval_sli f s start end).status ≡ skip
  unfolding eval_sli gather count_input finish prom_metric
  eval_sli_missing s name labels start end a n = rw (a, n) refl

  -- A series of the metric has the label.
  abbrev HasLabel : Text → Text → Sample f → Type 0
  HasLabel name label s = s.name ≡ name → lookup label s.labels ≢ none

  keys_apart :
      (name label : Text) (labels : Labels) (ss : List (Sample f))
      → IsMetricName name
      → name ≢ []
      → All IsLabelName (keys labels)
      → lookup label labels ≡ none
      → All (IsSample f) ss
      → All (HasLabel name label) ss
      → All (λ s. key_of f s ≢ format name labels) ss
  keys_apart name label labels [] n ne ls lacks good more = tt
  keys_apart name label labels (s ∷ ss) n ne ls lacks (g, gs) (m, ms) = (
    λ e.
        let (same, entries) =
          format-apart s.name name s.labels labels g.name_ok g.name_ne_nil g.labels_ok n ne ls e in
        m same (entries label ∙ lacks),
    keys_apart name label labels ss n ne ls lacks gs ms,
  )

  IsLabelled-format : (name k v : Text) → IsMetricName name → IsLabelled (format name ((k, v) ∷ []))
  unfolding format
  IsLabelled-format name k v h =
      (length name, index_byte-append name _ b'{' (IsMetricName-ne name h))

  -- The key that no series has is not in the aggregation either.
  lookup-aggregate_apart :
      (name label k v : Text) (ss : List (Sample f))
      → IsMetricName name
      → name ≢ []
      → All IsLabelName (k ∷ [])
      → lookup label ((k, v) ∷ []) ≡ none
      → All (IsSample f) ss
      → All (HasLabel name label) ss
      → lookup (format name ((k, v) ∷ [])) (aggregate f [] (put_samples f [] ss)) ≡ none
  unfolding lookup keys
  lookup-aggregate_apart name label k v ss n ne ls lacks good more =
      lookup-aggregate_labelled f _ (put_samples f [] ss) (IsLabelled-format name k v n)
        (put_samples-IsMap f ss [] tt)
      ∙ lookup-put_samples-none _ ss []
          (keys_apart name label ((k, v) ∷ []) ss n ne ls lacks good more) refl

  skipped_by_label :
      (s : SliSpec f) (name label k v : Text) (ss : List (Sample f)) (end : GoMap F)
      → Asks s name ((k, v) ∷ [])
      → IsMetricName name
      → name ≢ []
      → IsLabelName k
      → lookup label ((k, v) ∷ []) ≡ none
      → All (IsSample f) ss
      → All (HasLabel name label) ss
      → (eval_sli f s (aggregate f [] (put_samples f [] ss)) end).status ≡ skip
  skipped_by_label s name label k v ss end a n ne l lacks good more =
      eval_sli_missing s name ((k, v) ∷ []) _ end a
        (lookup-aggregate_apart name label k v ss n ne (l, tt) lacks good more)

  abbrev pub labelled_presets : List (SliSpec f)
  labelled_presets =
      reconcile_success_delta f
      ∷ reconcile_error_delta f
      ∷ rest_client_429_delta f
      ∷ rest_client_5xx_delta f
      ∷ []

  total-IsMetricName : IsMetricName (codes "controller_runtime_reconcile_total")
  unfolding is_space
  total-IsMetricName = ground arith

  requests-IsMetricName : IsMetricName (codes "rest_client_requests_total")
  unfolding is_space
  requests-IsMetricName = ground arith

  result-IsLabelName : IsLabelName (codes "result")
  unfolding is_space
  result-IsLabelName = ground arith

  code-IsLabelName : IsLabelName (codes "code")
  unfolding is_space
  code-IsLabelName = ground arith

  abbrev pub HasController : Sample f → Type 0
  HasController = HasLabel (codes "controller_runtime_reconcile_total") (codes "controller")

  abbrev pub HasHost : Sample f → Type 0
  HasHost = HasLabel (codes "rest_client_requests_total") (codes "host")

  skipped_by_result :
      (s : SliSpec f) (v : Text) (ss : List (Sample f)) (end : GoMap F)
      → Asks s (codes "controller_runtime_reconcile_total") ((codes "result", v) ∷ [])
      → All (IsSample f) ss
      → All HasController ss
      → (eval_sli f s (aggregate f [] (put_samples f [] ss)) end).status ≡ skip
  unfolding lookup equal
  skipped_by_result s v ss end a good more =
      skipped_by_label s _ (codes "controller") (codes "result") v ss end a total-IsMetricName
        (cons-ne-nil _ _) result-IsLabelName refl good more

  skipped_by_code :
      (s : SliSpec f) (v : Text) (ss : List (Sample f)) (end : GoMap F)
      → Asks s (codes "rest_client_requests_total") ((codes "code", v) ∷ [])
      → All (IsSample f) ss
      → All HasHost ss
      → (eval_sli f s (aggregate f [] (put_samples f [] ss)) end).status ≡ skip
  unfolding lookup equal
  skipped_by_code s v ss end a good more =
      skipped_by_label s _ (codes "host") (codes "code") v ss end a requests-IsMetricName
        (cons-ne-nil _ _) code-IsLabelName refl good more

  -- Where the logs list samples, one line each, whose keys hold no white space and whose lines fit the
  -- scanner's buffer, and every series of the reconcile counter has the
  -- label controller, and every series of the request counter the label host, the logs are parsed to
  -- a start snapshot with which each preset that asks for a metric by a label is skipped, whatever
  -- its series count and whatever the end snapshot is.
  pub labelled_presets_skipped :
      (ss : List (Sample f)) (end : GoMap F)
      → All (IsSample f) ss
      → All HasController ss
      → All HasHost ss
      → (start : GoMap F) × (parse_prometheus_text f (scrape f ss) ≡ ok start)
        × All (λ s. (eval_sli f s start end).status ≡ skip) labelled_presets
  unfolding parse_prometheus_text reconcile_success_delta reconcile_error_delta
      rest_client_429_delta rest_client_5xx_delta
  labelled_presets_skipped ss end good total requests = (
    aggregate f [] (put_samples f [] ss),
    rw (parse-unlines f ss good) refl,
    (
      skipped_by_result (reconcile_success_delta f) (codes "success") ss end refl good total,
      (
        skipped_by_result (reconcile_error_delta f) (codes "error") ss end refl good total,
        (
          skipped_by_code (rest_client_429_delta f) (codes "429") ss end refl good requests,
          (skipped_by_code (rest_client_5xx_delta f) (codes "5xx") ss end refl good requests, tt),
        ),
      ),
    ),
  )
