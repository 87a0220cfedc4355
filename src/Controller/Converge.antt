-- ===== src/Controller/Converge.antt =====
-- internal/controller/joboperator_controller.go: what a reconcile leaves in the cluster.
pub mod Reachable
use my_operator.Base.{
  ℕ, true, Option, none, some, ◌≡◌, refl, sym, ap, arith, Text, inl, inr, ◌⊎◌, err, Option-cases,
}
use mathlib.Core.Option.{none-ne-some}
use my_operator.Controller.{
  NamespacedName, JobOperator, StatefulSet, Cluster, State, Faults, ApiError, not_found,
  already_exists, other, same_key, find_job, find_set, get_job, get_answer, create_set,
  create_answer, stateful_set_of, set_key, after_create, after_set_owner, after_get, succeeded,
  reconcile,
}
use my_operator.Text.{equal_iff}

abbrev pub no_faults : Faults
no_faults = record { get = none; set_owner = none; create = none }

-- The StatefulSet that `Reconcile` builds for a JobOperator.
abbrev pub desired : JobOperator → StatefulSet
desired job = record (stateful_set_of job) { owner = some job.name }

abbrev pub or_desired : Option StatefulSet → StatefulSet → StatefulSet
or_desired none sts = sts
or_desired (some old) sts = old

same_key_refl : (a : NamespacedName) → same_key a a ≡ true
unfolding same_key
same_key_refl a = ground (arith, equal_iff a.namespace a.namespace, equal_iff a.name a.name)

create_answer-find :
    (found : Option StatefulSet) (sts : StatefulSet) (c : Cluster)
    → find_set (set_key sts) c.stateful_sets ≡ found
    → find_set (set_key sts) (create_answer found sts c).1.stateful_sets
      ≡ some (or_desired found sts)
unfolding create_answer find_set
create_answer-find none sts c h = rw (same_key_refl (set_key sts))
create_answer-find (some old) sts c h = h

after_create-cluster :
    (req : NamespacedName) (since : ℕ) (answer : Option ApiError) (st : State)
    → (after_create req since answer st).1.cluster ≡ st.cluster
unfolding after_create succeeded
after_create-cluster req since none st = refl
after_create-cluster req since (some not_found) st = refl
after_create-cluster req since (some already_exists) st = refl
after_create-cluster req since (some (other e)) st = refl

-- A failed `Get` changes nothing in the cluster.
after_get-cluster :
    (req : NamespacedName) (since : ℕ) (faults : Faults) (x : ApiError) (st : State)
    → (after_get req since faults (err x) st).1.cluster ≡ st.cluster
unfolding after_get
after_get-cluster req since faults not_found st = refl
after_get-cluster req since faults already_exists st = refl
after_get-cluster req since faults (other e) st = refl

-- A failed `Get` without an error of the reconcile.
after_get-not_found :
    (req : NamespacedName) (since : ℕ) (faults : Faults) (x : ApiError) (st : State)
    → (after_get req since faults (err x) st).0 ≡ none
    → (x ≡ not_found) × ((after_get req since faults (err x) st).1 ≡ st)
unfolding after_get
after_get-not_found req since faults not_found st h = (refl, refl)
after_get-not_found req since faults already_exists st h =
    absurd (none-ne-some already_exists (sym h))
after_get-not_found req since faults (other e) st h = absurd (none-ne-some (other e) (sym h))

-- Where the JobOperator exists and `Reconcile` yields no error, its StatefulSet exists: the one that
-- was there, or else the one built from the JobOperator; unless the cache answered that the
-- JobOperator is not there, and then nothing has changed, the metrics neither.
pub reconcile_ensures :
    (req : NamespacedName) (since : ℕ) (faults : Faults) (st : State) (job : JobOperator)
    → find_job req st.cluster.job_operators ≡ some job
    → (reconcile req since faults st).0 ≡ none
    → (find_set (set_key (desired job)) (reconcile req since faults st).1.cluster.stateful_sets
        ≡ some
            (or_desired (find_set (set_key (desired job)) st.cluster.stateful_sets) (desired job)))
      ⊎ ((faults.get ≡ some not_found) × ((reconcile req since faults st).1 ≡ st))
unfolding reconcile after_get get_job get_answer after_set_owner create_set after_create succeeded
reconcile_ensures req since faults st job h g = elim (Option-cases faults.get) [
  | inr (x, e) ↦
      let (same, left) = after_get-not_found req since faults x st (rw e at g) in
      rw e (inr (ap some same, left))
  | inl e ↦ elim (Option-cases faults.set_owner) [
    | inr (x, e2) ↦ absurd (none-ne-some (other x) (sym (rw (e, h, e2) at g)))
    | inl e2 ↦ elim (Option-cases faults.create) [
      | inr (x, e3) ↦ absurd (none-ne-some (other x) (sym (rw (e, h, e2, e3) at g)))
      | inl e3 ↦
          rw (e, h, e2, e3, after_create-cluster req since _ _)
            (inl (
              create_answer-find (find_set (set_key (desired job)) st.cluster.stateful_sets)
                (desired job) st.cluster refl))
    ]
  ]
]

-- `Reconcile` changes nothing in the cluster where the StatefulSet of the JobOperator exists,
-- whatever the two specs say and whatever goes wrong: it never updates one.
pub reconcile_existing :
    (req : NamespacedName) (since : ℕ) (faults : Faults) (st : State) (job : JobOperator)
    (old : StatefulSet)
    → find_job req st.cluster.job_operators ≡ some job
    → find_set (set_key (desired job)) st.cluster.stateful_sets ≡ some old
    → (reconcile req since faults st).1.cluster ≡ st.cluster
unfolding reconcile after_get get_job get_answer after_set_owner create_set create_answer
reconcile_existing req since faults st job old h k = elim (Option-cases faults.get) [
  | inr (x, e) ↦ rw e (after_get-cluster req since faults x st)
  | inl e ↦ elim (Option-cases faults.set_owner) [
    | inr (x, e2) ↦ rw (e, h, e2)
    | inl e2 ↦ elim (Option-cases faults.create) [
      | inr (x, e3) ↦ rw (e, h, e2, e3, after_create-cluster req since _ _)
      | inl e3 ↦ rw (e, h, e2, e3, k, after_create-cluster req since _ _)
    ]
  ]
]
