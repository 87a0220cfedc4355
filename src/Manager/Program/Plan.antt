-- ===== src/Manager/Program/Plan.antt =====
-- cmd/main.go: the calls that the flags plan, made one after another until one fails.
use my_operator.Base.{
  ℕ, Option, none, some, List, [], ◌∷◌, ◌++◌, ◌≡◌, refl, sym, ap, fun_ext, ◌∙◌, if◌then◌else◌, Text,
  codes, Result, ok, err, inl, inr, ◌⊎◌, Bool-cases, Option-cases,
}
use mathlib.Core.Path.{subst}
use my_operator.Manager.{
  Flags, CertWatcher, Locals, webhook_watcher, metrics_watcher, common_opts, add_webhook_opt,
  add_metrics_opt,
}
use my_operator.Manager.Tls.{locals, with_webhook, with_metrics}
use my_operator.Manager.Program.{
  Call, add_to_scheme, client_go, batch_v1, new_watcher, get_config, new_manager, setup_controller,
  add, add_healthz_check, add_readyz_check, start, Exit, exit, History, Answers, Cmd, and_then,
  pure, options_of, attempt, ended, add_watcher, watch_webhook, watch_metrics, run_with,
  run_manager,
}
use my_operator.Text.{equal}

unfoldable pub adds : Option CertWatcher → List Call
adds none = []
adds (some w) = add w ∷ []

-- The history behind some calls.
unfoldable pub behind : List Call → History → History
behind [] h = h
behind (c ∷ cs) h = behind cs (c ∷ h)

-- The calls of an undisturbed run, in order.
unfoldable pub manager_calls : Flags → Locals → List Call
unfolding adds
manager_calls o l =
    get_config
    ∷ new_manager (record {
      locals = l;
      bind_address = o.metrics_addr;
      secure_serving = o.secure_metrics;
      filter = o.secure_metrics;
      health_probe_bind_address = o.probe_addr;
      leader_election = o.enable_leader_election;
      leader_election_id = codes "b2909ea0.my.domain";
    })
    ∷ setup_controller
    ∷ (adds l.metrics_cert_watcher
        ++ (adds l.webhook_cert_watcher
            ++ (add_healthz_check (codes "healthz")
                ∷ add_readyz_check (codes "readyz")
                ∷ start
                ∷ [])))

unfoldable pub webhook_calls : (Text → Text → Text) → Flags → List Call
webhook_calls join o =
    if equal o.webhook_cert_path [] then [] else new_watcher (webhook_watcher join o) ∷ []

unfoldable pub metrics_calls : (Text → Text → Text) → Flags → List Call
metrics_calls join o =
    if equal o.metrics_cert_path [] then [] else new_watcher (metrics_watcher join o) ∷ []

unfoldable pub plan : (Text → Text → Text) → (ℕ → ℕ) → Flags → List Call
unfolding webhook_calls metrics_calls manager_calls locals
plan join spare o =
    webhook_calls join o ++ (metrics_calls join o ++ manager_calls o (locals join spare o))

-- The calls of `init`.
abbrev pub registered : History
registered = add_to_scheme batch_v1 ∷ add_to_scheme client_go ∷ []

module _ (answers : Answers) where
  abbrev pub Succeed : List Call → History → Type 0
  Succeed [] h = Unit
  Succeed (c ∷ cs) h = (answers h c ≡ none) × Succeed cs (c ∷ h)

  -- Either every call of the list is made and succeeds, and the run goes on, or the first that
  -- fails is the last that is made, and the process exits with the code 1.
  abbrev pub Follows : List Call → History → Result Exit (Unit {0}) × History → Type 0
  Follows cs h (r, h1) =
      ((r ≡ ok tt) × (h1 ≡ behind cs h) × Succeed cs h)
      ⊎ ((before : List Call) × (c : Call) × (after : List Call) × (e : Text) × (cs
            ≡ before ++ c ∷ after)
          × Succeed before h
          × (answers (behind before h) c ≡ some e)
          × (r ≡ err (exit 1))
          × (h1 ≡ c ∷ behind before h))

  unfoldable pub run_plan : List Call → Cmd (Unit {0})
  unfolding and_then attempt
  run_plan [] h = (ok tt, h)
  run_plan (c ∷ cs) h = and_then (attempt answers c h) (λ _. run_plan cs)

  Follows-later :
      (c : Call) (cs : List Call) (h : History) (out : Result Exit (Unit {0}) × History)
      → answers h c ≡ none
      → Follows cs (c ∷ h) out
      → Follows (c ∷ cs) h out
  unfolding behind
  Follows-later c cs h (r, h1) e (inl (a, b, s)) = inl (a, b, (e, s))
  Follows-later c cs h (r, h1) e (inr (before, d, after, x, p, s, q, a, b)) =
      inr (c ∷ before, d, after, x, ap (◌∷◌ c) p, (e, s), q, a, b)

  run_plan-made :
      (c : Call) (cs : List Call) (h : History)
      → answers h c ≡ none
      → run_plan (c ∷ cs) h ≡ run_plan cs (c ∷ h)
  unfolding run_plan and_then attempt ended
  run_plan-made c cs h e = rw e refl

  run_plan-failed :
      (c : Call) (cs : List Call) (h : History) (x : Text)
      → answers h c ≡ some x
      → run_plan (c ∷ cs) h ≡ (err (exit 1), c ∷ h)
  unfolding run_plan and_then attempt ended
  run_plan-failed c cs h x e = rw e refl

  pub run_plan-Follows : (cs : List Call) (h : History) → Follows cs h (run_plan cs h)
  unfolding run_plan behind
  run_plan-Follows [] h = inl (refl, refl, tt)
  run_plan-Follows (c ∷ cs) h = elim (Option-cases (answers h c)) [
    | inl e ↦
        subst (Follows (c ∷ cs) h) (sym (run_plan-made c cs h e))
          (Follows-later c cs h (run_plan cs (c ∷ h)) e (run_plan-Follows cs (c ∷ h)))
    | inr (x, e) ↦
        subst (Follows (c ∷ cs) h) (sym (run_plan-failed c cs h x e))
          (inr ([], c, cs, x, refl, tt, e, refl, refl))
  ]

  and_then-pure :
      {A B C : Type 0} (m : Result Exit A × History) (b : B) (k : B → Cmd C)
      → and_then (and_then m (λ _. pure b)) k ≡ and_then m (λ _. k b)
  unfolding and_then
  and_then-pure (ok a, h) b k = refl
  and_then-pure (err e, h) b k = refl

  run_manager-plan :
      (o : Flags) (l : Locals) → run_manager answers o l ≡ run_plan (manager_calls o l)
  unfolding run_manager options_of run_plan manager_calls adds add_watcher and_then
  run_manager-plan o l = elim (Option-cases l.metrics_cert_watcher) [
    | inl m ↦ elim (Option-cases l.webhook_cert_watcher) [
      | inl w ↦ rw (m, w) refl
      | inr (v, w) ↦ rw (m, w) refl
    ]
    | inr (u, m) ↦ elim (Option-cases l.webhook_cert_watcher) [
      | inl w ↦ rw (m, w) refl
      | inr (v, w) ↦ rw (m, w) refl
    ]
  ]

  module _ (join : Text → Text → Text) (spare : ℕ → ℕ) (o : Flags) where
    watch_metrics-plan :
        (l : Locals) (h : History)
        → and_then (watch_metrics answers join spare o l h) (run_manager answers o)
          ≡ run_plan (metrics_calls join o ++ manager_calls o (with_metrics join spare o l)) h
    unfolding run_plan metrics_calls with_metrics watch_metrics and_then
    watch_metrics-plan l h = elim (Bool-cases (equal o.metrics_cert_path [])) [
      | inl m ↦ rw m (ap (λ k. k h) (run_manager-plan o l))
      | inr m ↦ rw m (
          and_then-pure (attempt answers (new_watcher (metrics_watcher join o)) h)
            (add_metrics_opt join o spare l) (run_manager answers o)
          ∙ ap (λ k. and_then (attempt answers (new_watcher (metrics_watcher join o)) h) (λ _. k))
              (run_manager-plan o (add_metrics_opt join o spare l)))
    ]

    watch_webhook-plan :
        (l : Locals) (h : History)
        → and_then
            (watch_webhook answers join spare o l h)
            (λ l1 h1. and_then (watch_metrics answers join spare o l1 h1) (run_manager answers o))
          ≡ run_plan
              (webhook_calls join o
                ++ (metrics_calls join o
                    ++ manager_calls o (with_metrics join spare o (with_webhook join spare o l))))
              h
    unfolding run_plan webhook_calls with_webhook watch_webhook and_then
    watch_webhook-plan l h = elim (Bool-cases (equal o.webhook_cert_path [])) [
      | inl w ↦ rw w (watch_metrics-plan l h)
      | inr w ↦ rw w (
          and_then-pure (attempt answers (new_watcher (webhook_watcher join o)) h)
            (add_webhook_opt join o spare l)
            (λ l1 h1. and_then (watch_metrics answers join spare o l1 h1) (run_manager answers o))
          ∙ ap (λ k. and_then (attempt answers (new_watcher (webhook_watcher join o)) h) (λ _. k))
              (fun_ext (watch_metrics-plan (add_webhook_opt join o spare l))))
    ]

    pub run_with-plan :
        (h : History) → run_with answers join spare o h ≡ run_plan (plan join spare o) h
    unfolding run_with plan locals and_then
    run_with-plan h = watch_webhook-plan (common_opts spare o) h
