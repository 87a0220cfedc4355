-- ===== src/Harness/Hooks/Shared.antt =====
-- test/e2e/harness/attach_v4.go: the tests of a container share one session, and so one file name.
use my_operator.Base.{
  ℕ, zero, suc, true, false, Option, none, some, List, [], ◌∷◌, ◌≡◌, ◌≢◌, refl, sym, ap, ◌∙◌, inl,
  inr, ◌⊎◌, Bool, if◌then◌else◌, Bool-cases, Text, Result, ok, err, All,
}
use my_operator.Engine.{Env, execute_v4, v4_request}
use my_operator.Engine.Keeps.{execute-keeps}
use my_operator.Float64.{Float64}
use my_operator.Harness.Hooks.{
  before_each_v4, ended_v4, after_each_v4, with_session, run_test_v4, run_next, run_tests_v4,
}
use my_operator.Harness.Session.{
  Stat, exists, not_exist, failed, SessionV4, start, request, should_write_artifacts,
  summary_filename, next_summary_path, probe, end_session, after_path,
}
use my_operator.Text.{equal}
use my_operator.Summary.{Time, Summary}

module _ (f : Float64) (env : Env f) (stat : Text → env.World → Stat)
    (content : Text → env.World → Option Text) (q c : Text) where
  open env use {World, fetch, write, now}

  -- The path `q` is a file that holds `c`; its `Stat` may fail, but does not say that it is not there.
  abbrev pub Holds : World → Type 0
  Holds w = (stat q w ≢ not_exist) × (content q w ≡ some c)

  abbrev pub StillHolds : Option World → Type 0
  StillHolds none = Unit
  StillHolds (some w) = Holds w

  -- The clock, the fetches and the writes to other paths leave the file alone.
  abbrev pub OthersKeep : Type 0
  OthersKeep =
      ((t : Time) (w : World) → Holds w → Holds (fetch t w).1)
      × ((w : World) → Holds w → Holds (now w).1)
      × ((path : Text)
          → path ≢ q
          → (sum : Summary f) (w : World) → Holds w
          → Holds (write path sum w).1)

module _ (f : Float64) (env : Env f) (join : Text → Text → Text) (stat : Text → env.World → Stat)
    (fuel : ℕ) where
  open env use {World, fetch, write, now}

  -- An answer of `NextSummaryPath` is no file.
  OkFree : World → Option (Result Text Text) → Type 0
  OkFree w (some (ok path)) = (path ≡ []) ⊎ (stat path w ≡ not_exist)
  OkFree w _ = Unit

  probe_step :
      (w : World) (path : Text) (next : Option (Result Text Text)) (a : Stat)
      → stat path w ≡ a
      → OkFree w next
      → OkFree w (elim a [ exists ↦ next | not_exist ↦ some (ok path) | failed e ↦ some (err e) ])
  unfolding OkFree
  probe_step w path next exists e h = h
  probe_step w path next not_exist e h = inr e
  probe_step w path next (failed x) e h = tt

  probe-OkFree :
      (w : World) (base : Text) (n i : ℕ) (path : Text)
      → OkFree w (probe f (λ p. stat p w) base n i path)
  unfolding probe OkFree
  probe-OkFree w base zero i path = tt
  probe-OkFree w base (suc n) i path =
      probe_step w path _ (stat path w) refl (probe-OkFree w base n (suc i) _)

  next_summary_path-OkFree :
      (w : World) (s : SessionV4 f) (filename : Text)
      → OkFree w (next_summary_path f join (λ p. stat p w) fuel s filename)
  unfolding next_summary_path OkFree
  next_summary_path-OkFree w s filename = elim (Bool-cases (equal s.config.artifacts_dir [])) [
    | inl e ↦ rw e (inl refl)
    | inr e ↦ rw e (probe-OkFree w _ fuel 1 _)
  ]

  chosen-OkFree :
      (b : Bool) (w : World) (o : Option (Result Text Text))
      → OkFree w o
      → OkFree w (if b then o else some (ok []))
  unfolding OkFree
  chosen-OkFree true w o h = h
  chosen-OkFree false w o h = inl refl

  -- The world behind the tests; none where one of them is out of fuel.
  abbrev pub world_of : Option (SessionV4 f × World) → Option World
  world_of none = none
  world_of (some (s, w)) = some w

  module _ (content : Text → World → Option Text) (q c : Text) where
    path-ne :
        (path : Text) (w : World)
        → q ≢ []
        → stat q w ≢ not_exist
        → (path ≡ []) ⊎ (stat path w ≡ not_exist)
        → path ≢ q
    path-ne path w ne is (inl empty) h = ne (sym h ∙ empty)
    path-ne path w ne is (inr free) h = is (ap (λ p. stat p w) (sym h) ∙ free)

    after_path-keeps :
        (s : SessionV4 f) (t : Time) (o : Option (Result Text Text)) (w : World)
        → OthersKeep f env stat content q c
        → q ≢ []
        → OkFree w o
        → Holds f env stat content q c w
        → StillHolds f env stat content q c
            (ended_v4 f env join stat fuel (after_path f env join stat s t o w))
    unfolding after_path ended_v4 execute_v4 OkFree v4_request request
    after_path-keeps s t none w keep ne free h = tt
    after_path-keeps s t (some (err e)) w keep ne free h = h
    after_path-keeps s t (some (ok path)) w (a, b, k) ne free h =
        execute-keeps f env (Holds f env stat content q c)
          (v4_request f env (request f env join stat s t path)) w
          (a, b, k path (path-ne path w ne h.0 free)) h

    after_each_v4-keeps :
        (s : SessionV4 f) (w : World)
        → OthersKeep f env stat content q c
        → q ≢ []
        → Holds f env stat content q c w
        → StillHolds f env stat content q c (after_each_v4 f env join stat fuel s w)
    unfolding after_each_v4 end_session
    after_each_v4-keeps s w (a, b, k) ne h =
        after_path-keeps s (now w).0 _ (now w).1 (a, b, k) ne
          (chosen-OkFree (should_write_artifacts f s) (now w).1 _
            (next_summary_path-OkFree (now w).1 s (summary_filename f s)))
          (b w h)

    with_session-keeps :
        (s : SessionV4 f) (o : Option World)
        → StillHolds f env stat content q c o
        → StillHolds f env stat content q c (world_of (with_session f env join stat fuel s o))
    unfolding with_session
    with_session-keeps s none h = tt
    with_session-keeps s (some w) h = h

    run_test_v4-keeps :
        (body : World → World) (s : SessionV4 f) (w : World)
        → OthersKeep f env stat content q c
        → q ≢ []
        → ((v : World) → Holds f env stat content q c v → Holds f env stat content q c (body v))
        → Holds f env stat content q c w
        → StillHolds f env stat content q c (world_of (run_test_v4 f env join stat fuel body s w))
    unfolding run_test_v4 before_each_v4
    run_test_v4-keeps body s w (a, b, k) ne inert h =
        let started = start f (now w).0 s in
        with_session-keeps started _
          (after_each_v4-keeps started (body (now w).1) (a, b, k) ne (inert _ (b w h)))

    run_next-keeps :
        (rest : SessionV4 f → World → Option (SessionV4 f × World))
        (o : Option (SessionV4 f × World))
        → ((s : SessionV4 f) (w : World)
            → Holds f env stat content q c w
            → StillHolds f env stat content q c (world_of (rest s w)))
        → StillHolds f env stat content q c (world_of o)
        → StillHolds f env stat content q c (world_of (run_next f env join stat fuel rest o))
    unfolding run_next
    run_next-keeps rest none later h = tt
    run_next-keeps rest (some (s, w)) later h = later s w h

    -- Where the clock, the fetches, the writes to other paths and the tests themselves leave the file
    -- `q` alone, a whole container of tests around one session does: no test's summary overwrites a
    -- file that is there, such as the summary of a test before, though all of them share one run ID
    -- and so one file name.
    pub run_tests_v4-StillHolds :
        (bodies : List (World → World)) (s : SessionV4 f) (w : World)
        → OthersKeep f env stat content q c
        → q ≢ []
        → All
            (λ body.
              (v : World) → Holds f env stat content q c v → Holds f env stat content q c (body v))
            bodies
        → Holds f env stat content q c w
        → StillHolds f env stat content q c
            (world_of (run_tests_v4 f env join stat fuel bodies s w))
    unfolding run_tests_v4
    run_tests_v4-StillHolds [] s w keep ne all h = h
    run_tests_v4-StillHolds (body ∷ bodies) s w keep ne (inert, all) h =
        run_next-keeps (λ s1 w1. run_tests_v4 f env join stat fuel bodies s1 w1)
          (run_test_v4 f env join stat fuel body s w)
          (λ s1 w1 h1. run_tests_v4-StillHolds bodies s1 w1 keep ne all h1)
          (run_test_v4-keeps body s w keep ne inert h)
