-- ===== src/Harness/Presets/DepthEnd.antt =====
-- test/e2e/harness/presets.go: which snapshot the preset workqueue_depth_end reads.
use my_operator.Base.{some, codes, ◌≡◌}
use my_operator.Engine.Eval.{eval_sli, gather, count_input, finish, compute, judged}
use my_operator.Float64.{Float64}
use my_operator.GoMap.{GoMap, lookup}
use my_operator.Harness.Presets.{workqueue_depth_end}
use my_operator.PromKey.{format}
use my_operator.Spec.{prom_metric}
use my_operator.Text.{equal}

module _ (f : Float64) where
  open f use {F, zero_float, add}

  -- Where both snapshots hold workqueue_depth, the value of the preset workqueue_depth_end is zero
  -- plus that of the start snapshot, whatever the end snapshot holds, though its description
  -- speaks of the end.
  workqueue_depth_end_reads_start :
      (start end : GoMap F) (a b : F)
      → lookup (codes "workqueue_depth") start ≡ some a
      → lookup (codes "workqueue_depth") end ≡ some b
      → (eval_sli f (workqueue_depth_end f) start end).value ≡ some (add zero_float a)
  unfolding eval_sli gather count_input finish compute judged workqueue_depth_end prom_metric format
      equal
  workqueue_depth_end_reads_start start end a b h k = rw (h, k)
