-- ===== src/Harness/Fetcher.antt =====
-- test/e2e/harness/session_v4.go: the fetcher of a v4 session, which scrapes by a pod.
pub mod Scraped
use my_operator.Base.{Option, none, some, List, ◌++◌, Text, codes, Result, ok, err}
use my_operator.Curl.{History, Answers, Signal}
use my_operator.Curl.Pod.{CurlPodV4, run_pod}
use my_operator.Engine.{Sample}
use my_operator.Float64.{Float64}
use my_operator.GoMap.{GoMap}
use my_operator.Harness.Aggregate.{parse_prometheus_text}
use my_operator.Harness.Session.{SessionV4}
use my_operator.PromText.{ParseError}
use my_operator.Summary.{Time}

-- `newCurlPodFetcherV4`
unfoldable pub pod_of : {f : Float64} → SessionV4 f → CurlPodV4
pod_of s = record {
  client = none;
  namespace = s.config.namespace;
  metrics_service_name = s.config.metrics_service_name;
  service_account_name = s.config.service_account_name;
  token = s.config.token;
  image = codes "curlimages/curl:latest";
  service_url =
      some
        (λ svc ns. codes "https://" ++ (svc ++ (codes "." ++ (ns ++ codes ".svc:8443/metrics"))));
}

module _ (f : Float64) (print : ParseError → Text) where
  parsed_sample : Time → Result ParseError (GoMap f.F) → Result Text (Sample f)
  parsed_sample at (err e) = err (print e)
  parsed_sample at (ok values) = ok (record { at = at; values = values })

  -- On the answer of the pod; none while it waits.
  fetched : Time → Option (Result Text Text × History) → Option (Result Text (Sample f) × History)
  unfolding parsed_sample parse_prometheus_text
  fetched at none = none
  fetched at (some (err e, h)) = some (err e, h)
  fetched at (some (ok raw, h)) = some (parsed_sample at (parse_prometheus_text f raw), h)

  -- `print` stands for the text of a parse error, `quote` for the verb %q, and `stamp` is the time
  -- in the pod's name; the signals are those that the wait for the pod receives.
  unfoldable pub fetch_v4 :
      Answers
      → (Text → Text)
      → Text
      → List Signal
      → SessionV4 f
      → Time
      → History
      → Option (Result Text (Sample f) × History)
  unfolding fetched run_pod pod_of
  fetch_v4 answers quote stamp signals s at h =
      fetched at (run_pod answers quote stamp (pod_of s) signals h)
