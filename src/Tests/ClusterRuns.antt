-- ===== src/Tests/ClusterRuns.antt =====
-- Runs of internal/controller, pkg/kubeutil and test/e2e/curlmetrics.
use my_operator.Base.{
  ℕ, zero, suc, none, some, ◌⊎◌, List, [], ◌∷◌, ◌≡◌, ◌↔◌, refl, codes, ok, err, Result, Text,
}
use my_operator.Controller.{
  not_found, NamespacedName, JobOperator, StatefulSet, State, find_job, find_set, same_key, set_key,
  stateful_set_of, create_set, reconcile,
}
use my_operator.Controller.Converge.{
  no_faults, desired, or_desired, reconcile_ensures, reconcile_existing,
}
use my_operator.Controller.Converge.Reachable.{
  Steps, job_applied, set_applied, reconciled, here, next, without_job, without_set, Sound, Made,
  Unique, reachable-Sound, reachable_converges,
}
use my_operator.Curl.{caller, History, Answers, tick, done, run_once}
use my_operator.Curl.Pod.{CurlPodV4, client_of, run_pod}
use my_operator.Curl.Pod.Cleanup.{deletion, created, run_pod_deletes}
use my_operator.Kubeutil
use my_operator.Kubeutil.{Event}
use my_operator.Kubeutil.Token.Loop.{token_on}
use my_operator.Kubeutil.Token.Loop.Returned.{Returns, token_on-Returns}
use my_operator.Kubeutil.Wait.{wait_until, pod_is_ready}
use my_operator.Kubeutil.Wait.Ends.{Verdict, wait_until-Verdict}
use my_operator.Text.{equal}

abbrev job : JobOperator
job = record {
  name = codes "j";
  namespace = codes "n";
  spec = record { replicas = some 2; image = codes "i:1"; port = 80 };
}

abbrev key : NamespacedName
key = record { namespace = codes "n"; name = codes "j" }

abbrev no_sets : State
no_sets = record {
  cluster = record { job_operators = job ∷ []; stateful_sets = [] };
  metrics = record { reconcile_duration = []; reconcile_total = []; reconcile_errors = [] };
}

job_found : find_job key no_sets.cluster.job_operators ≡ some job
unfolding find_job same_key equal
job_found = refl

made : (reconcile key 7 no_faults no_sets).0 ≡ none
unfolding reconcile find_job same_key equal
made = refl

reconcile_ensures_example :
    (find_set (set_key (desired job)) (reconcile key 7 no_faults no_sets).1.cluster.stateful_sets
      ≡ some (
          or_desired
            (find_set (set_key (desired job)) no_sets.cluster.stateful_sets)
            (desired job)))
    ⊎ ((no_faults.get ≡ some not_found) × ((reconcile key 7 no_faults no_sets).1 ≡ no_sets))
reconcile_ensures_example = reconcile_ensures key 7 no_faults no_sets job job_found made

abbrev old_set : StatefulSet
old_set = record (desired job) { image = codes "i:0"; replicas = some 1 }

abbrev with_set : State
with_set = record no_sets {
  cluster = record { job_operators = job ∷ []; stateful_sets = old_set ∷ [] };
}

set_found : find_set (set_key (desired job)) with_set.cluster.stateful_sets ≡ some old_set
unfolding find_set same_key equal stateful_set_of
set_found = refl

reconcile_existing_example : (reconcile key 7 no_faults with_set).1.cluster ≡ with_set.cluster
reconcile_existing_example =
    reconcile_existing key 7 no_faults with_set job old_set job_found set_found

abbrev timed_out : Text → Text
timed_out e = e

abbrev events : List (Event (Result Text Text))
events = Kubeutil.tick (err (codes "refused")) ∷ Kubeutil.tick (ok (codes "true\n")) ∷ []

wait_until-Verdict_example :
    (wait_until pod_is_ready timed_out (ok (codes "false")) events ≡ some (ok tt))
    ↔ Verdict pod_is_ready timed_out (ok tt) (Kubeutil.tick (ok (codes "false")) ∷ events)
wait_until-Verdict_example =
    wait_until-Verdict pod_is_ready timed_out (ok (codes "false")) events (ok tt)

abbrev whole_response : Text → Result Text Text
whole_response body = ok body

abbrev plain : Text → Text
plain s = s

abbrev grant : ℕ → Result Text Text
grant zero = err (codes "refused")
grant (suc n) = ok (codes "secret")

-- A cluster that refuses the first request, and answers the others with a token.
abbrev granting : Kubeutil.Runner
granting = record { World = ℕ; run = λ command n. (grant n, suc n) }

token_on-Returns_example : Returns granting whole_response plain (codes "n") (codes "sa") 1 0 (
    token_on granting whole_response plain
      (codes "n")
      (codes "sa")
      none
      (Kubeutil.tick tt ∷ Kubeutil.done (codes "deadline") ∷ [])
      0)
token_on-Returns_example =
    token_on-Returns granting whole_response plain (codes "n") (codes "sa")
      (Kubeutil.tick tt ∷ Kubeutil.done (codes "deadline") ∷ []) 0 tt

abbrev accepting : Answers
accepting h ctx command = ok (codes "Pending")

abbrev pod : CurlPodV4
pod = record {
  client = none;
  namespace = codes "n";
  metrics_service_name = codes "svc";
  service_account_name = codes "sa";
  token = codes "t";
  image = [];
  service_url = none;
}

pod_made : (created accepting plain (codes "1") pod []).0 ≡ ok (codes "curl-metrics-1")
unfolding run_once equal client_of
pod_made = refl

run_pod_deletes_example :
    (out : Result Text Text) × (rest : History) × (run_pod accepting plain
        (codes "1")
        pod
        (tick ∷ done (codes "deadline") ∷ [])
        []
      ≡ some (out, (caller, deletion (codes "n") (codes "curl-metrics-1")) ∷ rest))
run_pod_deletes_example =
    run_pod_deletes accepting plain (codes "1") pod (tick ∷ done (codes "deadline") ∷ []) []
      (codes "curl-metrics-1") tt pod_made

abbrev empty : State
empty = record {
  cluster = record { job_operators = []; stateful_sets = [] };
  metrics = record { reconcile_duration = []; reconcile_total = []; reconcile_errors = [] };
}

-- The users apply this set alone.
abbrev UserSet : StatefulSet → Type 0
UserSet s = s ≡ old_set

-- A JobOperator is applied, then a set by a user, and the first reconcile fails.
abbrev after_failure : State
after_failure =
    (reconcile key 3 (record no_faults { create = some (codes "busy") })
      (record empty {
        cluster = record { job_operators = job ∷ []; stateful_sets = old_set ∷ [] };
      })).1

failed_once : Steps UserSet empty after_failure
unfolding without_job without_set
failed_once =
    next (job_applied job) (next (set_applied old_set refl) (next (reconciled key 3 _) here))

empty-Sound : Sound UserSet empty
empty-Sound = (tt, tt)

reachable-Sound_example : Sound UserSet after_failure
reachable-Sound_example = reachable-Sound UserSet failed_once empty-Sound

job_still_there : find_job key after_failure.cluster.job_operators ≡ some job
unfolding reconcile find_job same_key equal create_set
job_still_there = refl

reachable_converges_example :
    ((reconcile key 5 no_faults after_failure).0 ≡ none)
    × (find_set
          (set_key (desired job))
          (reconcile key 5 no_faults after_failure).1.cluster.stateful_sets
        ≡ some (
            or_desired
              (find_set (set_key (desired job)) after_failure.cluster.stateful_sets)
              (desired job)))
    × Unique (reconcile key 5 no_faults after_failure).1.cluster.stateful_sets
    × Made UserSet (
        or_desired
          (find_set (set_key (desired job)) after_failure.cluster.stateful_sets)
          (desired job))
reachable_converges_example =
    reachable_converges UserSet key 5 job failed_once empty-Sound job_still_there
