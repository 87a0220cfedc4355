-- ===== src/Curl.antt =====
-- test/e2e/curlmetrics: the short-lived pod that scrapes the metrics, on a runner whose answer may
-- depend on every command before.
pub mod Pod
use my_operator.Base.{
  Bool, true, false, ◌||◌, Option, none, some, List, [], ◌∷◌, ◌++◌, if◌then◌else◌, Text, codes,
  Result, ok, err,
}
use my_operator.Kubeutil.{Command}
use my_operator.Text.{equal, trim_space}

-- What a command is given: the caller's context, or one with a timeout that is made from it, for the
-- wait or for the logs.
pub data Context : Type 0 where
  caller waiting reading : Context

-- The commands that were handed to the runner, the latest first, each with its context, and the
-- runner's answer to the next one. The runner of runner.go starts none whose context has ended, and
-- answers with an error.
abbrev pub History : Type 0
History = List (Context × Command)

abbrev pub Answers : Type 0
Answers = History → Context → Command → Result Text Text

-- `Client`, with the logger left out; `service_url` is the format ServiceURLFormat, applied.
pub record Client : Type 0 where
  pub image : Text
  pub label_selector : Text
  pub pod_name_prefix : Text
  pub service_url : Text → Text → Text

-- What the `select` of `WaitDone` receives.
pub data Signal : Type 0 where
  tick : Signal
  done : Text → Signal

unfoldable pub new : Client
new = record {
  image = codes "curlimages/curl:latest";
  label_selector = codes "app=curl-metrics";
  pod_name_prefix = codes "curl-metrics";
  service_url = λ svc ns. codes "https://" ++ svc ++ codes "." ++ ns ++ codes ".svc:8443/metrics";
}

abbrev kubectl : List Text → Command
kubectl args = record { args = codes "kubectl" ∷ args; stdin = [] }

unfoldable pub delete_command : Text → Text → Command
delete_command ns pod_name = kubectl (
    codes "delete"
    ∷ codes "pod"
    ∷ pod_name
    ∷ codes "-n"
    ∷ ns
    ∷ codes "--ignore-not-found=true"
    ∷ codes "--wait=false"
    ∷ [])

unfoldable pub cleanup_command : Client → Text → Command
cleanup_command c ns = kubectl (
    codes "delete"
    ∷ codes "pod"
    ∷ codes "-n"
    ∷ ns
    ∷ codes "-l"
    ∷ c.label_selector
    ∷ codes "--ignore-not-found=true"
    ∷ codes "--wait=false"
    ∷ [])

abbrev curl_cmd : Text → Text → Text
curl_cmd token url =
    codes "set -euo pipefail;\ncurl -ksS --fail-with-body -H \"Authorization: Bearer "
    ++ token
    ++ codes "\" \""
    ++ url
    ++ codes "\";"

-- The pod's JSON; `quote` stands for the verb %q.
abbrev overrides : (Text → Text) → Text → Text → Text → Text → Text → Text
overrides quote pod_name ns sa image cmd =
    codes "{\n  \"apiVersion\":\"v1\",\n  \"kind\":\"Pod\",\n  \"metadata\":{\n    \"name\":\""
    ++ pod_name
    ++ codes "\",\n    \"namespace\":\""
    ++ ns
    ++ codes
        "\",\n    \"labels\":{\"app\":\"curl-metrics\"}\n  },\n  \"spec\":{\n    \"serviceAccountName\":\""
    ++ sa
    ++ codes
        "\",\n    \"restartPolicy\":\"Never\",\n    \"containers\":[{\n      \"name\":\"curl\",\n      \"image\":\""
    ++ image
    ++ codes "\",\n      \"command\":[\"/bin/sh\",\"-c\","
    ++ quote cmd
    ++ codes
        "],\n      \"securityContext\":{\n        \"allowPrivilegeEscalation\": false,\n        \"capabilities\": { \"drop\": [\"ALL\"] },\n        \"runAsNonRoot\": true,\n        \"runAsUser\": 1000,\n        \"seccompProfile\": { \"type\": \"RuntimeDefault\" }\n      }\n    }]\n  }\n}"

unfoldable pub run_command : (Text → Text) → Client → Text → Text → Text → Text → Text → Command
run_command quote c pod_name ns token svc sa = kubectl (
    codes "run"
    ∷ pod_name
    ∷ codes "--restart=Never"
    ∷ codes "--namespace"
    ∷ ns
    ∷ codes "--image"
    ∷ c.image
    ∷ codes "--labels"
    ∷ c.label_selector
    ∷ codes "--overrides"
    ∷ overrides quote pod_name ns sa c.image (curl_cmd token (c.service_url svc ns))
    ∷ [])

module _ (answers : Answers) where
  abbrev pub run : Context → Command → History → Result Text Text × History
  run ctx command h = (answers h ctx command, (ctx, command) ∷ h)

  with_name : Text → Result Text Text → Result Text Text
  with_name pod_name (err e) = err e
  with_name pod_name (ok out) = ok pod_name

  -- `stamp` is `time.Now().UnixNano()`, in decimal. The cleanup's error is dropped.
  unfoldable pub run_once :
      (Text → Text)
      → Client
      → Text
      → Text
      → Text
      → Text
      → Text
      → History
      → Result Text Text × History
  unfolding with_name run_command cleanup_command
  run_once quote c stamp ns token svc sa h =
      let (dropped, h1) = run caller (cleanup_command c ns) h in
      let pod_name = c.pod_name_prefix ++ codes "-" ++ stamp in
      let (answer, h2) = run caller (run_command quote c pod_name ns token svc sa) h1 in
      (with_name pod_name answer, h2)

  phase_of : Result Text Text → Result Text Bool
  unfolding trim_space
  phase_of (err e) = err e
  phase_of (ok out) =
      ok (equal (trim_space out) (codes "Succeeded") || equal (trim_space out) (codes "Failed"))

  is_terminal : Context → Text → Text → History → Result Text Bool × History
  unfolding phase_of
  is_terminal ctx ns pod_name h =
      let (answer, h1) =
        run ctx
          (kubectl (
            codes "get"
            ∷ codes "pod"
            ∷ pod_name
            ∷ codes "-n"
            ∷ ns
            ∷ codes "-o"
            ∷ codes "jsonpath={.status.phase}"
            ∷ []))
          h in
      (phase_of answer, h1)

  -- The loop of `WaitDone` behind a check; `none` while it goes on. Unlike the loops of kubeutil, it
  -- ends on a check that fails.
  wait_from :
      Context
      → Text
      → Text
      → List Signal
      → Result Text Bool
      → History
      → Option (Result Text (Unit {0}) × History)
  unfolding is_terminal
  wait_from ctx ns pod_name signals (err e) h = some (err e, h)
  wait_from ctx ns pod_name signals (ok true) h = some (ok tt, h)
  wait_from ctx ns pod_name [] (ok false) h = none
  wait_from ctx ns pod_name (done e ∷ signals) (ok false) h = some (err e, h)
  wait_from ctx ns pod_name (tick ∷ signals) (ok false) h =
      let (answer, h1) = is_terminal ctx ns pod_name h in
      wait_from ctx ns pod_name signals answer h1

  unfoldable pub wait_done :
      Context → Text → Text → List Signal → History → Option (Result Text (Unit {0}) × History)
  unfolding wait_from is_terminal
  wait_done ctx ns pod_name signals h =
      let (answer, h1) = is_terminal ctx ns pod_name h in
      wait_from ctx ns pod_name signals answer h1

  unfoldable pub logs : Context → Text → Text → History → Result Text Text × History
  logs ctx ns pod_name h = run ctx (kubectl (codes "logs" ∷ pod_name ∷ codes "-n" ∷ ns ∷ [])) h

  -- The history behind the call, whose error the callers here drop.
  unfoldable pub delete_pod_no_wait : Context → Text → Text → History → History
  unfolding delete_command
  delete_pod_no_wait ctx ns pod_name h = (run ctx (delete_command ns pod_name) h).1
