-- ===== src/Controller/Counts.antt =====
-- internal/controller: what a reconcile counts.
use my_operator.Base.{ℕ, suc, Option, none, some, ◌≡◌, refl, Text, length, inl, inr, Option-cases}
use my_operator.Controller.Converge.{desired}
use my_operator.Controller.{
  NamespacedName, JobOperator, State, Faults, ApiError, not_found, already_exists, other, find_job,
  get_job, get_answer, create_set, after_create, after_set_owner, after_get, succeeded, reconcile,
}

-- One more for an error.
abbrev counted : Option ApiError → ℕ → ℕ
counted none n = n
counted (some e) n = suc n

after_create_errors :
    (req : NamespacedName) (since : ℕ) (answer : Option ApiError) (st : State)
    → length (after_create req since answer st).1.metrics.reconcile_errors
      ≡ counted (after_create req since answer st).0 (length st.metrics.reconcile_errors)
unfolding after_create succeeded
after_create_errors req since none st = refl
after_create_errors req since (some not_found) st = refl
after_create_errors req since (some already_exists) st = refl
after_create_errors req since (some (other e)) st = refl

-- Every reconcile counts one error if it yields an error, and none otherwise.
reconcile_errors_counted :
    (req : NamespacedName) (since : ℕ) (faults : Faults) (st : State)
    → length (reconcile req since faults st).1.metrics.reconcile_errors
      ≡ counted (reconcile req since faults st).0 (length st.metrics.reconcile_errors)
unfolding reconcile after_get get_job get_answer after_set_owner
reconcile_errors_counted req since faults st = elim (Option-cases faults.get) [
  | inr (not_found, e) ↦ rw e
  | inr (already_exists, e) ↦ rw e
  | inr (other x, e) ↦ rw e
  | inl e ↦ elim (Option-cases (find_job req st.cluster.job_operators)) [
    | inl h ↦ rw (e, h)
    | inr (job, h) ↦ elim (Option-cases faults.set_owner) [
      | inr (x, e2) ↦ rw (e, h, e2)
      | inl e2 ↦
          rw (e, h, e2)
            (after_create_errors req since (create_set faults.create (desired job) st.cluster).0
              (record st { cluster = (create_set faults.create (desired job) st.cluster).1 }))
    ]
  ]
]

after_create_total :
    (req : NamespacedName) (since : ℕ) (answer : Option ApiError) (st : State)
    → (length (after_create req since answer st).1.metrics.reconcile_total
        ≡ suc (length st.metrics.reconcile_total))
      × (length (after_create req since answer st).1.metrics.reconcile_duration
          ≡ suc (length st.metrics.reconcile_duration))
unfolding after_create succeeded
after_create_total req since none st = (refl, refl)
after_create_total req since (some not_found) st = (refl, refl)
after_create_total req since (some already_exists) st = (refl, refl)
after_create_total req since (some (other e)) st = (refl, refl)

-- A reconcile that finds its JobOperator and sets the owner of the StatefulSet counts one attempt
-- and observes one duration, whatever the answer to `Create`.
reconcile_attempts_counted :
    (req : NamespacedName) (since : ℕ) (faults : Faults) (st : State) (job : JobOperator)
    → faults.get ≡ none
    → find_job req st.cluster.job_operators ≡ some job
    → faults.set_owner ≡ none
    → (length (reconcile req since faults st).1.metrics.reconcile_total
        ≡ suc (length st.metrics.reconcile_total))
      × (length (reconcile req since faults st).1.metrics.reconcile_duration
          ≡ suc (length st.metrics.reconcile_duration))
unfolding reconcile after_get get_job get_answer after_set_owner
reconcile_attempts_counted req since faults st job e h e2 =
    rw (e, h, e2)
      (after_create_total req since (create_set faults.create (desired job) st.cluster).0
        (record st { cluster = (create_set faults.create (desired job) st.cluster).1 }))

-- A reconcile that finds its JobOperator and whose `SetControllerReference` fails yields that
-- error and counts no attempt, though the counter's help text speaks of the total number of
-- attempts.
reconcile_owner_uncounted :
    (req : NamespacedName) (since : ℕ) (faults : Faults) (st : State) (job : JobOperator) (e : Text)
    → faults.get ≡ none
    → find_job req st.cluster.job_operators ≡ some job
    → faults.set_owner ≡ some e
    → ((reconcile req since faults st).0 ≡ some (other e))
      × ((reconcile req since faults st).1.metrics.reconcile_total ≡ st.metrics.reconcile_total)
unfolding reconcile after_get get_job get_answer after_set_owner
reconcile_owner_uncounted req since faults st job e g h e2 = rw (g, h, e2) (refl, refl)
