-- ===== src/Kubeutil/Install.antt =====
-- pkg/kubeutil/certmanager.go, prometheus_operator.go and rbac.go, and pkg/devutil/text.go, whose
-- function the first of them repeats. `ctx_err` is the error of a context that has ended.
pub mod Crds
use my_operator.Base.{
  Bool, true, false, ◌||◌, Option, none, some, List, [], ◌∷◌, ◌++◌, map, if◌then◌else◌, Text, codes,
  Result, ok, err,
}
use my_operator.Kubeutil.{Command, Runner}
use my_operator.Text.{equal, trim_space, contains}
use my_operator.Text.Lines.{split_lines}

unfoldable pub certmanager_url : Text
certmanager_url =
    codes "https://github.com/cert-manager/cert-manager/releases/download/"
    ++ codes "v1.16.3"
    ++ codes "/cert-manager.yaml"

unfoldable pub prometheus_operator_url : Text
prometheus_operator_url =
    codes "https://github.com/prometheus-operator/prometheus-operator/releases/download/"
    ++ codes "v0.77.1"
    ++ codes "/bundle.yaml"

abbrev kubectl : List Text → Command
kubectl args = record { args = codes "kubectl" ∷ args; stdin = [] }

-- The trimmed lines that are not empty.
nonempty_lines : List Text → List Text
unfolding trim_space
nonempty_lines [] = []
nonempty_lines (line ∷ lines) =
    if equal (trim_space line) []
    then nonempty_lines lines
    else trim_space line ∷ nonempty_lines lines

unfoldable pub get_nonempty_lines : Text → List Text
unfolding nonempty_lines split_lines
get_nonempty_lines output = nonempty_lines (split_lines output)

unfoldable pub any {ℓ} : {A : Type ℓ} → (A → Bool) → List A → Bool
any p [] = false
any p (x ∷ xs) = p x || any p xs

abbrev pub cert_manager_crds : List Text
cert_manager_crds =
    codes "certificates.cert-manager.io"
    ∷ codes "issuers.cert-manager.io"
    ∷ codes "clusterissuers.cert-manager.io"
    ∷ codes "certificaterequests.cert-manager.io"
    ∷ codes "orders.acme.cert-manager.io"
    ∷ codes "challenges.acme.cert-manager.io"
    ∷ []

abbrev pub prometheus_crds : List Text
prometheus_crds =
    codes "prometheuses.monitoring.coreos.com"
    ∷ codes "prometheusrules.monitoring.coreos.com"
    ∷ codes "prometheusagents.monitoring.coreos.com"
    ∷ []

-- The loop over the CRDs, with that over the lines inside.
unfoldable pub any_crd : List Text → Text → Bool
unfolding any get_nonempty_lines contains
any_crd crds output = any (λ crd. any (λ line. contains line crd) (get_nonempty_lines output)) crds

-- The loop over the lines, with that over the CRDs inside.
any_crd_of_lines : List Text → List Text → Bool
unfolding any contains trim_space
any_crd_of_lines crds [] = false
any_crd_of_lines crds (line ∷ lines) =
    if equal (trim_space line) []
    then any_crd_of_lines crds lines
    else any (λ crd. contains (trim_space line) crd) crds || any_crd_of_lines crds lines

unfoldable pub any_line : List Text → Text → Bool
unfolding any_crd_of_lines split_lines
any_line crds out = any_crd_of_lines crds (split_lines out)

module _ (runner : Runner) where
  open runner use {World, run}

  -- The error of a run, or none.
  failed : Result Text Text → Option Text
  failed (err e) = some e
  failed (ok out) = none

  run_error : Command → World → Option Text × World
  unfolding failed
  run_error command w = let (answer, w1) = run command w in (failed answer, w1)

  after_apply : Result Text Text → World → Option Text × World
  unfolding run_error
  after_apply (err e) w = (some e, w)
  after_apply (ok out) w =
      run_error
        (kubectl (
          codes "wait"
          ∷ codes "deployment.apps/cert-manager-webhook"
          ∷ codes "--for"
          ∷ codes "condition=Available"
          ∷ codes "--namespace"
          ∷ codes "cert-manager"
          ∷ codes "--timeout"
          ∷ codes "5m"
          ∷ []))
        w

  unfoldable pub install_cert_manager : Option Text → World → Option Text × World
  unfolding after_apply certmanager_url
  install_cert_manager (some e) w = (some e, w)
  install_cert_manager none w =
      let (answer, w1) = run (kubectl (codes "apply" ∷ codes "-f" ∷ certmanager_url ∷ [])) w in
      after_apply answer w1

  unfoldable pub uninstall_cert_manager : Option Text → World → Option Text × World
  unfolding run_error certmanager_url
  uninstall_cert_manager (some e) w = (some e, w)
  uninstall_cert_manager none w =
      run_error (kubectl (codes "delete" ∷ codes "-f" ∷ certmanager_url ∷ [])) w

  found : (Text → Bool) → Result Text Text → Bool
  found in_output (err e) = false
  found in_output (ok output) = in_output output

  unfoldable pub is_cert_manager_crds_installed : Option Text → World → Bool × World
  unfolding found any_crd
  is_cert_manager_crds_installed (some e) w = (false, w)
  is_cert_manager_crds_installed none w =
      let (answer, w1) = run (kubectl (codes "get" ∷ codes "crds" ∷ [])) w in
      (found (any_crd cert_manager_crds) answer, w1)

  unfoldable pub install_prometheus_operator : Bool → Option Text → World → Option Text × World
  unfolding run_error prometheus_operator_url
  install_prometheus_operator false ctx_err w = (none, w)
  install_prometheus_operator true (some e) w = (some e, w)
  install_prometheus_operator true none w =
      run_error (kubectl (codes "apply" ∷ codes "-f" ∷ prometheus_operator_url ∷ [])) w

  unfoldable pub uninstall_prometheus_operator : Option Text → World → Option Text × World
  unfolding run_error prometheus_operator_url
  uninstall_prometheus_operator (some e) w = (some e, w)
  uninstall_prometheus_operator none w =
      run_error
        (kubectl (
          codes "delete"
          ∷ codes "-f"
          ∷ prometheus_operator_url
          ∷ codes "--ignore-not-found=true"
          ∷ []))
        w

  unfoldable pub is_prometheus_operator_crds_installed : Option Text → World → Bool × World
  unfolding found any_line
  is_prometheus_operator_crds_installed (some e) w = (false, w)
  is_prometheus_operator_crds_installed none w =
      let (answer, w1) =
        run
          (kubectl (
            codes "get"
            ∷ codes "crds"
            ∷ codes "-o"
            ∷ codes "custom-columns=NAME:.metadata.name"
            ∷ []))
          w in
      (found (any_line prometheus_crds) answer, w1)

  apply_error : Option Text → Option Text
  apply_error none = none
  apply_error (some e) = some (codes "kubectl apply clusterrolebinding failed: " ++ e)

  abbrev pub role_binding : Text → Text → Text → Text → Text
  role_binding name cluster_role ns sa =
      codes
        "apiVersion: rbac.authorization.k8s.io/v1\nkind: ClusterRoleBinding\nmetadata:\n  name: "
      ++ name
      ++ codes "\nroleRef:\n  apiGroup: rbac.authorization.k8s.io\n  kind: ClusterRole\n  name: "
      ++ cluster_role
      ++ codes "\nsubjects:\n- kind: ServiceAccount\n  name: "
      ++ sa
      ++ codes "\n  namespace: "
      ++ ns
      ++ codes "\n"

  unfoldable pub apply_cluster_role_binding :
      Text → Text → Text → Text → World → Option Text × World
  unfolding apply_error run_error
  apply_cluster_role_binding name cluster_role ns sa w =
      let (e, w1) =
        run_error
          (record {
            args = codes "kubectl" ∷ codes "apply" ∷ codes "-f" ∷ codes "-" ∷ [];
            stdin = role_binding name cluster_role ns sa;
          })
          w in
      (apply_error e, w1)
