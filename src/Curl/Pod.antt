-- ===== src/Curl/Pod.antt =====
-- test/e2e/curlmetrics/curlpod_v4.go: the life of one pod, from its start to its logs.
pub mod Cleanup
use my_operator.Base.{Option, none, some, List, [], if◌then◌else◌, Text, codes, Result, ok, err}
use my_operator.Curl.{
  caller, waiting, reading, History, Answers, Client, Signal, new, run_once, wait_done, logs,
  delete_pod_no_wait,
}
use my_operator.Text.{equal}

-- `CurlPodV4`, with the client that it makes where it has none.
pub record CurlPodV4 : Type 0 where
  pub client : Option Client
  pub namespace : Text
  pub metrics_service_name : Text
  pub service_account_name : Text
  pub token : Text
  pub image : Text
  pub service_url : Option (Text → Text → Text)

or_new : Option Client → Client
unfolding new
or_new none = new
or_new (some c) = c

or_url : Option (Text → Text → Text) → Client → Client
or_url none c = c
or_url (some url) c = record c { service_url = url }

unfoldable pub client_of : CurlPodV4 → Client
unfolding or_new or_url
client_of p =
    or_url p.service_url
      (if equal p.image [] then or_new p.client else record (or_new p.client) { image = p.image })

module _ (answers : Answers) where
  after_wait :
      CurlPodV4
      → Text
      → Option (Result Text (Unit {0}) × History)
      → Option (Result Text Text × History)
  unfolding logs delete_pod_no_wait
  after_wait p pod_name none = none
  after_wait p pod_name (some (err e, h)) =
      some (err e, delete_pod_no_wait answers caller p.namespace pod_name h)
  after_wait p pod_name (some (ok u, h)) =
      let (out, h1) = logs answers reading p.namespace pod_name h in
      some (out, delete_pod_no_wait answers caller p.namespace pod_name h1)

  after_run :
      CurlPodV4 → List Signal → Result Text Text → History → Option (Result Text Text × History)
  unfolding after_wait wait_done
  after_run p signals (err e) h = some (err e, h)
  after_run p signals (ok pod_name) h =
      after_wait p pod_name (wait_done answers waiting p.namespace pod_name signals h)

  -- `Run` on the signals that `WaitDone` receives; `none` while it waits.
  unfoldable pub run_pod :
      (Text → Text) → Text → CurlPodV4 → List Signal → History → Option (Result Text Text × History)
  unfolding after_run run_once
  run_pod quote stamp p signals h =
      let (answer, h1) =
        run_once answers quote (client_of p) stamp p.namespace p.token p.metrics_service_name
          p.service_account_name h in
      after_run p signals answer h1
