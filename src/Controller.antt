-- ===== src/Controller.antt =====
-- internal/controller: one reconcile of a JobOperator, on the cluster it changes and the metrics it
-- counts (metrics.go), and api/v1/joboperator_types.go.
pub mod Converge
pub mod Counts
use my_operator.Base.{
  ℕ, suc, ◌+◌, ◌-◌, Bool, true, false, ◌&&◌, ◌||◌, Option, none, some, List, [], ◌∷◌, ◌++◌,
  if◌then◌else◌, Text, codes, Result, ok, err,
}
use my_operator.GoMap.{GoMap, lookup, put, index}
use my_operator.Text.{equal}

-- An `int32` that came through the API server's checks is not negative.
pub record JobOperatorSpec : Type 0 where
  pub replicas : Option ℕ
  pub image : Text
  pub port : ℕ

pub record JobOperator : Type 0 where
  pub name : Text
  pub namespace : Text
  pub spec : JobOperatorSpec

-- A request, and the key of an object.
pub record NamespacedName : Type 0 where
  pub namespace : Text
  pub name : Text

-- The fields of the StatefulSet that the reconciler fills in, and the owner that
-- `SetControllerReference` adds.
pub record StatefulSet : Type 0 where
  pub name : Text
  pub namespace : Text
  pub service_name : Text
  pub replicas : Option ℕ
  pub match_labels : GoMap Text
  pub template_labels : GoMap Text
  pub container_name : Text
  pub image : Text
  pub container_port : ℕ
  pub owner : Option Text

unfoldable pub same_key : NamespacedName → NamespacedName → Bool
same_key a b = equal a.namespace b.namespace && equal a.name b.name

-- The objects of the cluster that the reconciler reads and makes.
pub record Cluster : Type 0 where
  pub job_operators : List JobOperator
  pub stateful_sets : List StatefulSet

-- The three vectors of metrics.go; a series is its list of label values. A histogram keeps what it
-- observed, in nanoseconds.
pub record Metrics : Type 0 where
  pub reconcile_duration : List (List Text × ℕ)
  pub reconcile_total : List (List Text)
  pub reconcile_errors : List (List Text)

pub record State : Type 0 where
  pub cluster : Cluster
  pub metrics : Metrics

unfoldable pub find_job : NamespacedName → List JobOperator → Option JobOperator
unfolding same_key
find_job key [] = none
find_job key (j ∷ js) =
    if same_key (record { namespace = j.namespace; name = j.name }) key
    then some j
    else find_job key js

unfoldable pub find_set : NamespacedName → List StatefulSet → Option StatefulSet
unfolding same_key
find_set key [] = none
find_set key (s ∷ ss) =
    if same_key (record { namespace = s.namespace; name = s.name }) key
    then some s
    else find_set key ss

-- How a call of the API server fails, apart from what the objects say.
pub data ApiError : Type 0 where
  not_found already_exists : ApiError
  other : Text → ApiError

-- What may go wrong in one reconcile: an error of the call, or none. The cache behind `Get` may lag,
-- and answer that an object is not there which is.
pub record Faults : Type 0 where
  pub get : Option ApiError
  pub set_owner : Option Text
  pub create : Option Text

unfoldable pub stateful_set_of : JobOperator → StatefulSet
stateful_set_of job = record {
  name = job.name ++ codes "-sts";
  namespace = job.namespace;
  service_name = job.name;
  replicas = job.spec.replicas;
  match_labels = (codes "app", job.name) ∷ [];
  template_labels = (codes "app", job.name) ∷ [];
  container_name = codes "worker";
  image = job.spec.image;
  container_port = job.spec.port;
  owner = none;
}

abbrev pub set_key : StatefulSet → NamespacedName
set_key sts = record { namespace = sts.namespace; name = sts.name }

-- `r.Get` and `r.Create` of the cached client.
get_answer : Option JobOperator → Result ApiError JobOperator
get_answer none = err not_found
get_answer (some job) = ok job

unfoldable pub get_job : Option ApiError → NamespacedName → Cluster → Result ApiError JobOperator
unfolding get_answer find_job
get_job (some e) key c = err e
get_job none key c = get_answer (find_job key c.job_operators)

create_answer : Option StatefulSet → StatefulSet → Cluster → Option ApiError × Cluster
create_answer (some old) sts c = (some already_exists, c)
create_answer none sts c = (none, record c { stateful_sets = sts ∷ c.stateful_sets })

unfoldable pub create_set : Option Text → StatefulSet → Cluster → Option ApiError × Cluster
unfolding create_answer find_set
create_set (some e) sts c = (some (other e), c)
create_set none sts c = create_answer (find_set (set_key sts) c.stateful_sets) sts c

abbrev pub inc_errors : NamespacedName → Text → Metrics → Metrics
inc_errors req kind m = record m {
  reconcile_errors = (req.name ∷ req.namespace ∷ kind ∷ []) ∷ m.reconcile_errors;
}

abbrev pub inc_total : NamespacedName → Text → Metrics → Metrics
inc_total req result m = record m {
  reconcile_total = (req.name ∷ req.namespace ∷ result ∷ []) ∷ m.reconcile_total;
}

abbrev pub observe : NamespacedName → Text → ℕ → Metrics → Metrics
observe req result since m = record m {
  reconcile_duration = ((req.name ∷ req.namespace ∷ result ∷ []), since) ∷ m.reconcile_duration;
}

-- The returned error, or none: the `ctrl.Result` is empty on every path. `since` is what
-- `time.Since(startTime)` yields behind the last call.
succeeded : NamespacedName → ℕ → State → Option ApiError × State
succeeded req since st = (
  none,
  record st {
    metrics = observe req (codes "success") since (inc_total req (codes "success") st.metrics);
  },
)

after_create : NamespacedName → ℕ → Option ApiError → State → Option ApiError × State
unfolding succeeded
after_create req since none st = succeeded req since st
after_create req since (some already_exists) st = succeeded req since st
after_create req since (some e) st = (
  some e,
  record st {
    metrics =
        observe req (codes "error") since
          (inc_total req (codes "error") (inc_errors req (codes "create_sts_failed") st.metrics));
  },
)

after_set_owner :
    NamespacedName → ℕ → Option Text → StatefulSet → Option Text → State → Option ApiError × State
unfolding after_create create_set
after_set_owner req since create_fault sts (some e) st =
    (some (other e), record st { metrics = inc_errors req (codes "owner_ref_failed") st.metrics })
after_set_owner req since create_fault sts none st =
    let (answer, cluster) = create_set create_fault sts st.cluster in
    after_create req since answer (record st { cluster = cluster })

after_get :
    NamespacedName → ℕ → Faults → Result ApiError JobOperator → State → Option ApiError × State
unfolding after_set_owner stateful_set_of
after_get req since faults (err not_found) st = (none, st)
after_get req since faults (err e) st = (
  some e,
  record st {
    metrics = inc_total req (codes "error") (inc_errors req (codes "fetch_failed") st.metrics);
  },
)
after_get req since faults (ok job) st =
    after_set_owner req since faults.create (record (stateful_set_of job) { owner = some job.name })
      faults.set_owner st

unfoldable pub reconcile : NamespacedName → ℕ → Faults → State → Option ApiError × State
unfolding after_get get_job
reconcile req since faults st = after_get req since faults (get_job faults.get req st.cluster) st
