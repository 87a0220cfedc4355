-- ===== src/Kubeutil/Wait/Loop.antt =====
-- pkg/kubeutil/wait.go: the waiting loops on a command runner, with the command that each repeats.
pub mod Returned
use my_operator.Base.{
  ℕ, suc, true, false, Option, none, some, List, [], ◌∷◌, ◌++◌, ◌≡◌, refl, Text, codes, Result, ok,
  err, ℤ, pos, negsuc, Bool, Bool-cases, inl, inr, ap,
}
use my_operator.Kubeutil.{Command, Runner, Event, tick, done}
use my_operator.Kubeutil.Wait.{
  try_once, poll, wait_until, pod_is_ready, has_endpoints, pod_timed_out, endpoints_timed_out,
  wait_pod_container_ready_by_label, wait_service_has_endpoints,
}
use my_operator.Text.Decimal.{decimal}

-- The verb %d.
unfoldable pub decimal_of : ℤ → Text
unfolding decimal
decimal_of (pos n) = decimal n
decimal_of (negsuc n) = codes "-" ++ decimal (suc n)

unfoldable pub pod_command : Text → Text → ℤ → ℤ → Command
unfolding decimal_of
pod_command ns label_selector pod_index container_index = record {
  args =
      codes "kubectl"
      ∷ codes "get"
      ∷ codes "pods"
      ∷ codes "-n"
      ∷ ns
      ∷ codes "-l"
      ∷ label_selector
      ∷ codes "-o"
      ∷ (codes "jsonpath={.items["
          ++ (decimal_of pod_index
              ++ (codes "].status.containerStatuses["
                  ++ (decimal_of container_index ++ codes "].ready}"))))
      ∷ [];
  stdin = [];
}

unfoldable pub endpoints_command : Text → Text → Command
endpoints_command ns svc = record {
  args =
      codes "kubectl"
      ∷ codes "get"
      ∷ codes "endpoints"
      ∷ svc
      ∷ codes "-n"
      ∷ ns
      ∷ codes "-o"
      ∷ codes "jsonpath={.subsets[0].addresses[0].ip}"
      ∷ [];
  stdin = [];
}

module _ (runner : Runner) where
  open runner use {World, run}

  -- What a loop receives: a tick, or the end of the context; and its outcome, none while it waits.
  abbrev pub Wakes : Type 0
  Wakes = List (Event (Unit {0}))

  abbrev pub Waited : Type 0
  Waited = Option (Result Text (Unit {0})) × World

  module _ (command : Command) (is_ready : Text → Bool) (timed_out : Text → Text) where
    -- Behind an attempt that is made or has been made.
    wait_from : Wakes → Result Text Bool → World → Waited
    unfolding try_once
    wait_from wakes (ok true) w = (some (ok tt), w)
    wait_from [] _ w = (none, w)
    wait_from (done e ∷ wakes) _ w = (some (err (timed_out e)), w)
    wait_from (tick t ∷ wakes) _ w =
        let (answer, w1) = run command w in wait_from wakes (try_once is_ready answer) w1

    unfoldable pub wait_on : Wakes → World → Waited
    unfolding wait_from try_once
    wait_on wakes w =
        let (answer, w1) = run command w in wait_from wakes (try_once is_ready answer) w1

  unfoldable pub wait_pod : (Text → Text) → Text → Text → ℤ → ℤ → Wakes → World → Waited
  unfolding wait_on pod_command pod_is_ready pod_timed_out
  wait_pod quote ns label_selector pod_index container_index =
      wait_on (pod_command ns label_selector pod_index container_index) pod_is_ready
        (pod_timed_out quote ns label_selector)

  unfoldable pub wait_controller_manager : (Text → Text) → Text → Wakes → World → Waited
  unfolding wait_pod
  wait_controller_manager quote ns =
      wait_pod quote ns (codes "control-plane=controller-manager") (pos 0) (pos 0)

  unfoldable pub wait_endpoints : Text → Text → Wakes → World → Waited
  unfolding wait_on endpoints_command has_endpoints endpoints_timed_out
  wait_endpoints ns svc =
      wait_on (endpoints_command ns svc) has_endpoints (endpoints_timed_out ns svc)
