-- ===== src/Kubeutil/Wait.antt =====
-- pkg/kubeutil/wait.go: the loops that wait for a pod and for the endpoints of a service. A loop is
-- run on the events that it receives; the answer is `none` while it goes on.
pub mod Ends
pub mod Loop
use my_operator.Base.{
  ℕ, suc, zero, Bool, true, false, not, Option, none, some, List, [], ◌∷◌, ◌++◌, if◌then◌else◌,
  Text, codes, Result, ok, err, ◌*◌, ℤ, pos, negsuc,
}
use my_operator.Kubeutil.{Event, tick, done}
use my_operator.Text.{equal, trim_space}

-- In nanoseconds.
pub record WaitOptions : Type 0 where
  pub timeout : ℤ
  pub interval : ℤ

unfoldable pub is_positive : ℤ → Bool
is_positive (pos (suc n)) = true
is_positive _ = false

abbrev pub second : ℕ
second = 1000000000

unfoldable pub with_defaults : WaitOptions → WaitOptions
unfolding is_positive
with_defaults o = record {
  timeout = if is_positive o.timeout then o.timeout else pos (300 * second);
  interval = if is_positive o.interval then o.interval else pos (5 * second);
}

-- What `tryOnce` makes of the output of kubectl.
try_once : (Text → Bool) → Result Text Text → Result Text Bool
try_once is_ready (err e) = err e
try_once is_ready (ok out) = ok (is_ready out)

-- The loop, with the text of the timeout error.
pub poll :
    (Text → Bool)
    → (Text → Text)
    → List (Event (Result Text Text))
    → Option (Result Text (Unit {0}))
unfolding try_once
poll is_ready timed_out [] = none
poll is_ready timed_out (done e ∷ events) = some (err (timed_out e))
poll is_ready timed_out (tick answer ∷ events) =
    let rest = poll is_ready timed_out events in
    elim (try_once is_ready answer) [ ok true ↦ some (ok tt) | ok false ↦ rest | err e ↦ rest ]

-- The first attempt, in front of the loop.
unfoldable pub wait_until :
    (Text → Bool)
    → (Text → Text)
    → Result Text Text
    → List (Event (Result Text Text))
    → Option (Result Text (Unit {0}))
unfolding poll try_once
wait_until is_ready timed_out first events = elim (try_once is_ready first) [
  | ok true ↦ some (ok tt)
  | _ ↦ poll is_ready timed_out events
]

unfoldable pub pod_is_ready : Text → Bool
unfolding trim_space
pod_is_ready out = equal (trim_space out) (codes "true")

unfoldable pub has_endpoints : Text → Bool
unfolding trim_space
has_endpoints out = not (equal (trim_space out) [])

-- `quote` stands for the verb %q.
unfoldable pub pod_timed_out : (Text → Text) → Text → Text → Text → Text
pod_timed_out quote ns label_selector e =
    codes "timeout waiting pod ready (ns="
    ++ ns
    ++ codes " selector="
    ++ quote label_selector
    ++ codes "): "
    ++ e

unfoldable pub endpoints_timed_out : Text → Text → Text → Text
endpoints_timed_out ns svc e =
    codes "timeout waiting endpoints (ns=" ++ ns ++ codes " svc=" ++ svc ++ codes "): " ++ e

unfoldable pub wait_pod_container_ready_by_label :
    (Text → Text)
    → Text
    → Text
    → Result Text Text
    → List (Event (Result Text Text))
    → Option (Result Text (Unit {0}))
unfolding wait_until pod_is_ready pod_timed_out
wait_pod_container_ready_by_label quote ns label_selector first events =
    wait_until pod_is_ready (pod_timed_out quote ns label_selector) first events

unfoldable pub wait_service_has_endpoints :
    Text
    → Text
    → Result Text Text
    → List (Event (Result Text Text))
    → Option (Result Text (Unit {0}))
unfolding wait_until has_endpoints endpoints_timed_out
wait_service_has_endpoints ns svc first events =
    wait_until has_endpoints (endpoints_timed_out ns svc) first events
