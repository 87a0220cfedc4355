-- ===== src/Controller/Converge/Reachable.antt =====
-- internal/controller/joboperator_controller.go: the states that reconciles, with whatever goes wrong
-- in them, and the users of the cluster lead to, in any order.
use my_operator.Base.{
  ℕ, Option, none, some, List, [], ◌∷◌, ◌≡◌, refl, sym, ap, if◌then◌else◌, Text, inl, inr, ◌⊎◌,
  Bool-cases, Option-cases, All,
}
use mathlib.Core.Option.{none-ne-some, some-injective}
use mathlib.Core.Path.{subst}
use my_operator.Controller.{
  NamespacedName, JobOperator, StatefulSet, Cluster, State, Faults, same_key, find_job, find_set,
  not_found, get_job, get_answer, create_set, create_answer, set_key, after_create, after_set_owner,
  after_get, succeeded, reconcile,
}
use my_operator.Controller.Converge.{
  no_faults, desired, or_desired, after_create-cluster, after_get-cluster, reconcile_ensures,
}

unfoldable pub without_job : NamespacedName → List JobOperator → List JobOperator
unfolding same_key
without_job key [] = []
without_job key (j ∷ js) =
    let rest = without_job key js in
    if same_key (record { namespace = j.namespace; name = j.name }) key then rest else j ∷ rest

unfoldable pub without_set : NamespacedName → List StatefulSet → List StatefulSet
unfolding same_key
without_set key [] = []
without_set key (s ∷ ss) =
    let rest = without_set key ss in if same_key (set_key s) key then rest else s ∷ rest

abbrev pub job_key : JobOperator → NamespacedName
job_key j = record { namespace = j.namespace; name = j.name }

abbrev with_cluster : Cluster → State → State
with_cluster c st = record st { cluster = c }

-- A reconcile of any request, or what a user does: apply a JobOperator or a StatefulSet, in place of
-- one of its name, or delete one. `ByUser` says which StatefulSets the users apply.
pub data Step (ByUser : StatefulSet → Type 0) : State → State → Type 0 where
  reconciled :
      {st : State} (req : NamespacedName) (since : ℕ) (faults : Faults)
      → Step ByUser st (reconcile req since faults st).1
  job_applied :
      {st : State} (job : JobOperator)
      → Step ByUser st (
          with_cluster
            (record st.cluster {
              job_operators = job ∷ without_job (job_key job) st.cluster.job_operators;
            })
            st)
  job_deleted :
      {st : State} (key : NamespacedName)
      → Step ByUser st (
          with_cluster
            (record st.cluster { job_operators = without_job key st.cluster.job_operators })
            st)
  set_applied :
      {st : State} (sts : StatefulSet)
      → ByUser sts
      → Step ByUser st (
          with_cluster
            (record st.cluster {
              stateful_sets = sts ∷ without_set (set_key sts) st.cluster.stateful_sets;
            })
            st)
  set_deleted :
      {st : State} (key : NamespacedName)
      → Step ByUser st (
          with_cluster
            (record st.cluster { stateful_sets = without_set key st.cluster.stateful_sets })
            st)

pub data Steps (ByUser : StatefulSet → Type 0) : State → State → Type 0 where
  here : {st : State} → Steps ByUser st st
  next : {a b c : State} → Step ByUser a b → Steps ByUser b c → Steps ByUser a c

-- No two sets have one key.
abbrev pub Unique : List StatefulSet → Type 0
Unique [] = Unit
Unique (s ∷ ss) = (find_set (set_key s) ss ≡ none) × Unique ss

-- The set is what the reconciler makes of some JobOperator, or one that a user applied.
abbrev pub Made : (StatefulSet → Type 0) → StatefulSet → Type 0
Made ByUser s = ((job : JobOperator) × (s ≡ desired job)) ⊎ ByUser s

abbrev pub Sound : (StatefulSet → Type 0) → State → Type 0
Sound ByUser st = Unique st.cluster.stateful_sets × All (Made ByUser) st.cluster.stateful_sets

-- A reconcile leaves the sets alone, or adds that of the JobOperator that was asked for, which was
-- not there.
abbrev Adds : NamespacedName → State → List StatefulSet → Type 0
Adds req st sets =
    (sets ≡ st.cluster.stateful_sets)
    ⊎ ((job : JobOperator) × (find_set (set_key (desired job)) st.cluster.stateful_sets ≡ none)
        × (sets ≡ desired job ∷ st.cluster.stateful_sets))

create_set-sets :
    (fault : Option Text) (sts : StatefulSet) (c : Cluster)
    → ((create_set fault sts c).1.stateful_sets ≡ c.stateful_sets)
      ⊎ ((find_set (set_key sts) c.stateful_sets ≡ none)
          × ((create_set fault sts c).1.stateful_sets ≡ sts ∷ c.stateful_sets))
unfolding create_set create_answer
create_set-sets (some e) sts c = inl refl
create_set-sets none sts c = elim (Option-cases (find_set (set_key sts) c.stateful_sets)) [
  | inl e ↦ rw e (inr (refl, refl))
  | inr (old, e) ↦ rw e (inl refl)
]

reconcile-Adds :
    (req : NamespacedName) (since : ℕ) (faults : Faults) (st : State)
    → Adds req st (reconcile req since faults st).1.cluster.stateful_sets
unfolding reconcile after_get get_job get_answer after_set_owner
reconcile-Adds req since faults st = elim (Option-cases faults.get) [
  | inr (x, e) ↦ rw e (inl (ap (λ c. c.stateful_sets) (after_get-cluster req since faults x st)))
  | inl e ↦ elim (Option-cases (find_job req st.cluster.job_operators)) [
    | inl n ↦ rw (e, n) (inl refl)
    | inr (job, n) ↦ elim (Option-cases faults.set_owner) [
      | inr (x, e2) ↦ rw (e, n, e2) (inl refl)
      | inl e2 ↦ elim (create_set-sets faults.create (desired job) st.cluster) [
        | inl same ↦ rw (e, n, e2, after_create-cluster req since _ _) (inl same)
        | inr (free, more) ↦
            rw (e, n, e2, after_create-cluster req since _ _) (inr (job, free, more))
      ]
    ]
  ]
]

find_set-without_set :
    (k key : NamespacedName) (ss : List StatefulSet)
    → find_set k ss ≡ none
    → find_set k (without_set key ss) ≡ none
unfolding find_set without_set
find_set-without_set k key [] h = refl
find_set-without_set k key (s ∷ ss) h = elim (Bool-cases (same_key (set_key s) k)) [
  | inl e ↦ absurd (none-ne-some s (sym (rw e at h)))
  | inr e ↦ elim (Bool-cases (same_key (set_key s) key)) [
    | inl d ↦ rw d (find_set-without_set k key ss (rw e at h))
    | inr d ↦ rw (d, e) (find_set-without_set k key ss (rw e at h))
  ]
]

Sound-without_set :
    (ByUser : StatefulSet → Type 0) (key : NamespacedName) (ss : List StatefulSet)
    → Unique ss
    → All (Made ByUser) ss
    → Unique (without_set key ss) × All (Made ByUser) (without_set key ss)
unfolding without_set
Sound-without_set U key [] u a = (tt, tt)
Sound-without_set U key (s ∷ ss) (n, u) (j, a) = elim (Bool-cases (same_key (set_key s) key)) [
  | inl e ↦ rw e (Sound-without_set U key ss u a)
  | inr e ↦
      let (u1, a1) = Sound-without_set U key ss u a in
      rw e ((find_set-without_set (set_key s) key ss n, u1), (j, a1))
]

find_set-removed :
    (key : NamespacedName) (ss : List StatefulSet) → find_set key (without_set key ss) ≡ none
unfolding find_set without_set
find_set-removed key [] = refl
find_set-removed key (s ∷ ss) = elim (Bool-cases (same_key (set_key s) key)) [
  | inl e ↦ rw e (find_set-removed key ss)
  | inr e ↦ rw (e, e) (find_set-removed key ss)
]

Step-Sound :
    (ByUser : StatefulSet → Type 0) {a b : State}
    → Step ByUser a b
    → Sound ByUser a
    → Sound ByUser b
Step-Sound U (reconciled {st} req since faults) (u, m) = elim (reconcile-Adds req since faults st) [
  | inl same ↦ subst (λ s. Unique s × All (Made U) s) (sym same) (u, m)
  | inr (job, free, more) ↦
      subst (λ s. Unique s × All (Made U) s) (sym more) ((free, u), (inl (job, refl), m))
]
Step-Sound U (job_applied job) h = h
Step-Sound U (job_deleted key) h = h
Step-Sound U (set_applied {st} sts by_user) (u, m) =
    let (u1, m1) = Sound-without_set U (set_key sts) st.cluster.stateful_sets u m in
    ((find_set-removed (set_key sts) st.cluster.stateful_sets, u1), (inr by_user, m1))
Step-Sound U (set_deleted {st} key) (u, m) = Sound-without_set U key st.cluster.stateful_sets u m

-- Reconciles, whatever goes wrong in them, and users who apply and delete JobOperators and
-- StatefulSets, in any order: from a state where no two StatefulSets have one key, and each is what
-- the reconciler makes of some JobOperator or one that a user applied, as where there are none,
-- every state that can be reached is one.
pub reachable-Sound :
    (ByUser : StatefulSet → Type 0) {a b : State}
    → Steps ByUser a b
    → Sound ByUser a
    → Sound ByUser b
reachable-Sound U here h = h
reachable-Sound U (next s r) h = reachable-Sound U r (Step-Sound U s h)

find_set-Made :
    (U : StatefulSet → Type 0) (key : NamespacedName) (ss : List StatefulSet) {s : StatefulSet}
    → All (Made U) ss
    → find_set key ss ≡ some s
    → Made U s
unfolding find_set
find_set-Made U key [] {s = s} a h = absurd (none-ne-some s h)
find_set-Made U key (t ∷ ss) (j, a) h = elim (Bool-cases (same_key (set_key t) key)) [
  | inl e ↦ subst (Made U) (some-injective _ _ (rw e at h)) j
  | inr e ↦ find_set-Made U key ss a (rw e at h)
]

reconcile-no_faults :
    (req : NamespacedName) (since : ℕ) (st : State) (job : JobOperator)
    → find_job req st.cluster.job_operators ≡ some job
    → (reconcile req since no_faults st).0 ≡ none
unfolding reconcile after_get get_job get_answer after_set_owner create_set create_answer
    after_create succeeded
reconcile-no_faults req since st job h =
    elim (Option-cases (find_set (set_key (desired job)) st.cluster.stateful_sets)) [
      | inl e ↦ rw (h, e) refl
      | inr (old, e) ↦ rw (h, e) refl
    ]

-- From every state that reconciles and users lead to, in any order and from a sound state, one
-- reconcile in which no call fails, of a JobOperator that exists, yields no error, and behind it the
-- StatefulSet of its name exists, once, and is what the reconciler makes of some JobOperator, or one
-- that a user applied. It is the one that was there, or else what is made of this JobOperator.
pub reachable_converges :
    (ByUser : StatefulSet → Type 0) {a b : State} (req : NamespacedName) (since : ℕ)
    (job : JobOperator)
    → Steps ByUser a b
    → Sound ByUser a
    → find_job req b.cluster.job_operators ≡ some job
    → ((reconcile req since no_faults b).0 ≡ none)
      × (find_set (set_key (desired job)) (reconcile req since no_faults b).1.cluster.stateful_sets
          ≡ some
              (or_desired (find_set (set_key (desired job)) b.cluster.stateful_sets) (desired job)))
      × Unique (reconcile req since no_faults b).1.cluster.stateful_sets
      × Made ByUser
          (or_desired (find_set (set_key (desired job)) b.cluster.stateful_sets) (desired job))
reachable_converges U {b = b} req since job r sound h =
    let clean = reconcile-no_faults req since b job h in
    let found = found_again (reconcile_ensures req since no_faults b job h clean) in
    let (u, all) =
      Step-Sound U (reconciled {st = b} req since no_faults) (reachable-Sound U r sound) in
    (clean, found, u, find_set-Made U (set_key (desired job)) _ all found)
  where
    found_again : {A B : Type 0} → A ⊎ ((none ≡ some not_found) × B) → A
    found_again (inl a) = a
    found_again (inr (e, x)) = absurd (none-ne-some not_found e)
