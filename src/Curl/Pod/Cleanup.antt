-- ===== src/Curl/Pod/Cleanup.antt =====
-- test/e2e/curlmetrics/curlpod_v4.go: the curl pod is deleted on every path.
use my_operator.Base.{
  Bool, true, false, some, List, [], ◌∷◌, ◌≡◌, refl, Text, codes, Result, ok, err,
}
use my_operator.Kubeutil.{Command}
use my_operator.Curl.{
  Context, caller, waiting, reading, History, Answers, Signal, tick, done, run_once, wait_done,
  wait_from, is_terminal, logs, delete_pod_no_wait, delete_command,
}
use my_operator.Curl.Pod.{CurlPodV4, client_of, run_pod, after_run, after_wait}

-- The context of the wait ends at some time.
abbrev pub HasDone : List Signal → Type 0
HasDone [] = ⊥
HasDone (done e ∷ signals) = Unit
HasDone (tick ∷ signals) = HasDone signals

-- The deletion of a pod that does not wait, and that a missing pod does not fail.
abbrev pub deletion : Text → Text → Command
deletion ns pod_name = record {
  args =
      codes "kubectl"
      ∷ codes "delete"
      ∷ codes "pod"
      ∷ pod_name
      ∷ codes "-n"
      ∷ ns
      ∷ codes "--ignore-not-found=true"
      ∷ codes "--wait=false"
      ∷ [];
  stdin = [];
}

module _ (answers : Answers) where
  wait_from_ends :
      (ctx : Context) (ns pod_name : Text) (signals : List Signal) (answer : Result Text Bool)
      (h : History)
      → HasDone signals
      → (r : Result Text (Unit {0})) × (h' : History) × (wait_from answers ctx ns pod_name signals
            answer h
          ≡ some (r, h'))
  unfolding wait_from
  wait_from_ends ctx ns pod_name signals (err e) h d = (err e, h, refl)
  wait_from_ends ctx ns pod_name signals (ok true) h d = (ok tt, h, refl)
  wait_from_ends ctx ns pod_name [] (ok false) h d = elim d [ ]
  wait_from_ends ctx ns pod_name (done e ∷ signals) (ok false) h d = (err e, h, refl)
  wait_from_ends ctx ns pod_name (tick ∷ signals) (ok false) h d =
      wait_from_ends ctx ns pod_name signals (is_terminal answers ctx ns pod_name h).0
        (is_terminal answers ctx ns pod_name h).1 d

  after_wait_deletes :
      (p : CurlPodV4) (pod_name : Text) (r : Result Text (Unit {0})) (h : History)
      → (out : Result Text Text) × (rest : History) × (after_wait answers p pod_name (some (r, h))
          ≡ some (out, (caller, deletion p.namespace pod_name) ∷ rest))
  unfolding after_wait delete_pod_no_wait logs delete_command
  after_wait_deletes p pod_name (err e) h = (err e, h, refl)
  after_wait_deletes p pod_name (ok u) h = (
    (logs answers reading p.namespace pod_name h).0,
    (logs answers reading p.namespace pod_name h).1,
    refl,
  )

  -- The call of `RunOnce` in `Run`.
  abbrev pub created : (Text → Text) → Text → CurlPodV4 → History → Result Text Text × History
  created quote stamp p h =
      run_once answers quote (client_of p) stamp p.namespace p.token p.metrics_service_name
        p.service_account_name h

  -- Where `RunOnce` makes the pod and the context of the wait ends at some time, `Run` returns, with
  -- the logs or with an error, whatever the runner answers to each command. The last command that
  -- it hands to the runner is `kubectl delete pod` for that pod, which neither waits nor fails on a
  -- missing pod, with the caller's context and not that of the wait.
  pub run_pod_deletes :
      (quote : Text → Text) (stamp : Text) (p : CurlPodV4) (signals : List Signal) (h : History)
      (pod_name : Text)
      → HasDone signals
      → (created quote stamp p h).0 ≡ ok pod_name
      → (out : Result Text Text) × (rest : History) × (run_pod answers quote stamp p signals h
          ≡ some (out, (caller, deletion p.namespace pod_name) ∷ rest))
  unfolding run_pod after_run wait_done
  run_pod_deletes quote stamp p signals h pod_name d made =
      let check = is_terminal answers waiting p.namespace pod_name (created quote stamp p h).1 in
      let (r, h', e) = wait_from_ends waiting p.namespace pod_name signals check.0 check.1 d in
      let (out, rest, g) = after_wait_deletes p pod_name r h' in (out, rest, rw (made, e) g)
