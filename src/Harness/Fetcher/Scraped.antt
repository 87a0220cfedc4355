-- ===== src/Harness/Fetcher/Scraped.antt =====
-- test/e2e/harness/session_v4.go: the sample that the logs of the pod lead to.
use my_operator.Base.{some, List, [], ◌∷◌, ◌≡◌, refl, Text, All, map, ok}
use my_operator.Curl.{History, Answers, Signal}
use my_operator.Curl.Pod.{run_pod}
use my_operator.Float64.{Float64}
use my_operator.GoMap.{GoMap, lookup, IsMap}
use my_operator.GoMap.Keys.{IsMap-put}
use my_operator.Harness.Aggregate.{aggregate, parse_prometheus_text}
use my_operator.Harness.Aggregate.Labelled.{IsLabelled, lookup-aggregate_labelled}
use my_operator.Harness.Fetcher.{pod_of, fetched, parsed_sample, fetch_v4}
use my_operator.Harness.Session.{SessionV4}
use my_operator.PromText.{ParseError}
use my_operator.PromText.Exposition.{Sample, IsSample, key_of, line_of, put_samples, parse-unlines}
use my_operator.Summary.{Time}
use my_operator.Text.Scan.{unlines}

module _ (f : Float64) where
  -- The logs that list the samples.
  abbrev pub scrape : List (Sample f) → Text
  scrape ss = unlines (map (line_of f) ss)

  pub put_samples-IsMap :
      (ss : List (Sample f)) (m : GoMap f.F) → IsMap m → IsMap (put_samples f m ss)
  put_samples-IsMap [] m h = h
  put_samples-IsMap (s ∷ ss) m h = put_samples-IsMap ss _ (IsMap-put (key_of f s) s.value m h)

  module _ (print : ParseError → Text) (answers : Answers) (quote : Text → Text) (stamp : Text)
      (signals : List Signal) (session : SessionV4 f) (at : Time) (h h1 : History) where
    fetch_v4_ok :
        (ss : List (Sample f))
        → All (IsSample f) ss
        → run_pod answers quote stamp (pod_of session) signals h ≡ some (ok (scrape ss), h1)
        → fetch_v4 f print answers quote stamp signals session at h
          ≡ some (ok (record { at = at; values = aggregate f [] (put_samples f [] ss) }), h1)
    unfolding fetch_v4 fetched parsed_sample parse_prometheus_text
    fetch_v4_ok ss good e = rw (e, parse-unlines f ss good) refl

    -- Where the pod's logs list samples, one line each, whose keys hold no white space, whose values
    -- are numbers, and whose lines are no comments and fit the scanner's buffer, the fetch of a v4
    -- session yields a sample taken at the time that was asked for, in the history that the pod's run
    -- leaves, and at the key of every series with labels it holds the last value that the logs give
    -- that series.
    pub fetch_v4_scraped :
        (ss : List (Sample f)) (k : Text)
        → All (IsSample f) ss
        → run_pod answers quote stamp (pod_of session) signals h ≡ some (ok (scrape ss), h1)
        → IsLabelled k
        → (values : GoMap f.F) × (fetch_v4 f print answers quote stamp signals session at h
            ≡ some (ok (record { at = at; values = values }), h1))
          × (lookup k values ≡ lookup k (put_samples f [] ss))
    fetch_v4_scraped ss k good e l = (
      aggregate f [] (put_samples f [] ss),
      fetch_v4_ok ss good e,
      lookup-aggregate_labelled f k (put_samples f [] ss) l (put_samples-IsMap ss [] tt),
    )
