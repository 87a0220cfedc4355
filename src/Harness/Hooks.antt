-- ===== src/Harness/Hooks.antt =====
-- test/e2e/harness/attach.go and attach_v4.go: the hooks of Ginkgo around each test, on the variables
-- that they share. A test is what it does to the world.
pub mod Blind
pub mod Shared
pub mod Ends
pub mod OnDisk
use my_operator.Base.{
  ℕ, Bool, true, false, Option, none, some, List, [], ◌∷◌, if◌then◌else◌, Text, codes, Result, ok,
  err,
}
use my_operator.Engine.{Env, Outcome}
use my_operator.Float64.{Float64}
use my_operator.GoMap.{GoMap}
use my_operator.Harness.Attach.{HarnessDeps, FetchDeps, Session}
use my_operator.Harness.Attach
use my_operator.Harness.Session.{SessionV4Config, SessionV4, Stat, new_session_v4}
use my_operator.Harness.Session
use my_operator.Spec.{SliSpec}
use my_operator.Summary.{Time}
use my_operator.Text.{equal, trim_space}

-- The variables `sess` and `enabled` of `Attach`.
pub record Hooks (f : Float64) : Type 0 where
  pub sess : Option (Session f)
  pub enabled : Bool

-- What the providers yield in front of a test, and the text of the test's node; `none` is a nil
-- provider of specs.
pub record Provided (f : Float64) : Type 0 where
  pub hdeps : HarnessDeps
  pub fdeps : FetchDeps
  pub specs : Option (List (SliSpec f))
  pub leaf_node_text : Text

-- `AttachV4Config`
pub record AttachV4Config : Type 0 where
  pub namespace : Text
  pub metrics_service_name : Text
  pub test_case : Text
  pub suite : Text
  pub run_id : Text
  pub service_account_name : Text
  pub token : Text
  pub artifacts_dir : Text
  pub tags : GoMap Text

unfoldable pub with_test_case : Text → HarnessDeps → HarnessDeps
unfolding trim_space
with_test_case leaf hdeps =
    if equal (trim_space hdeps.test_case) [] then record hdeps { test_case = leaf } else hdeps

module _ (f : Float64) where
  specs_or_nil : Option (List (SliSpec f)) → List (SliSpec f)
  specs_or_nil none = []
  specs_or_nil (some specs) = specs

  -- The session that `BeforeEach` makes, before it starts.
  unfoldable pub made_session : (Text → Text → Text) → Provided f → Session f
  unfolding with_test_case specs_or_nil Attach.new_session
  made_session join p =
      Attach.new_session f join (with_test_case p.leaf_node_text p.hdeps) p.fdeps
        (specs_or_nil p.specs)

  -- `AttachV4` up to its hooks; `now` is the time that `NewSessionV4` may read.
  unfoldable pub attach_v4 : Text → Time → AttachV4Config → Result Text (SessionV4 f)
  unfolding new_session_v4
  attach_v4 leaf now cfg =
      if equal cfg.namespace []
      then err (codes "v4: Namespace is required")
      else if equal cfg.metrics_service_name []
      then err (codes "v4: MetricsServiceName is required")
      else ok (
          new_session_v4 f now (record {
            namespace = cfg.namespace;
            metrics_service_name = cfg.metrics_service_name;
            test_case = if equal cfg.test_case [] then leaf else cfg.test_case;
            suite = cfg.suite;
            run_id = cfg.run_id;
            service_account_name = cfg.service_account_name;
            token = cfg.token;
            artifacts_dir = cfg.artifacts_dir;
            tags = cfg.tags;
            specs = none;
          }))

  module _ (env : Env f) (join : Text → Text → Text) where
    open env use {World, now}

    unfoldable pub before_each : Provided f → World → Hooks f × World
    unfolding made_session Attach.start
    before_each p w =
        let (t, w1) = now w in
        if p.hdeps.enabled
        then (record { sess = some (Attach.start f t (made_session join p)); enabled = true }, w1)
        else (record { sess = none; enabled = false }, w)

    -- The error of `End` is printed.
    end_of : Option (Session f) → World → World
    unfolding Attach.end_session
    end_of none w = w
    end_of (some s) w = (Attach.end_session f env s w).1

    unfoldable pub after_each : Hooks f → World → World
    unfolding end_of
    after_each hooks w = if hooks.enabled then end_of hooks.sess w else w

    -- A test between its hooks.
    unfoldable pub run_test : Provided f → (World → World) → World → World
    unfolding before_each after_each
    run_test p body w = let (hooks, w1) = before_each p w in after_each hooks (body w1)

    module _ (stat : Text → World → Stat) (fuel : ℕ) where
      unfoldable pub before_each_v4 : SessionV4 f → World → SessionV4 f × World
      unfolding Session.start
      before_each_v4 s w = let (t, w1) = now w in (Session.start f t s, w1)

      -- The error of `End` is printed; `none` is out of fuel.
      unfoldable pub ended_v4 : Option (Outcome f env) → Option World
      ended_v4 none = none
      ended_v4 (some (r, w)) = some w

      unfoldable pub after_each_v4 : SessionV4 f → World → Option World
      unfolding ended_v4 Session.end_session
      after_each_v4 s w = ended_v4 (Session.end_session f env join stat fuel s w)

      unfoldable pub with_session : SessionV4 f → Option World → Option (SessionV4 f × World)
      with_session s none = none
      with_session s (some w) = some (s, w)

      unfoldable pub run_test_v4 :
          (World → World) → SessionV4 f → World → Option (SessionV4 f × World)
      unfolding before_each_v4 after_each_v4 with_session
      run_test_v4 body s w =
          let (s1, w1) = before_each_v4 s w in with_session s1 (after_each_v4 s1 (body w1))

      unfoldable pub run_next :
          (SessionV4 f → World → Option (SessionV4 f × World))
          → Option (SessionV4 f × World)
          → Option (SessionV4 f × World)
      run_next rest none = none
      run_next rest (some (s, w)) = rest s w

      -- The tests of a container, one after another, around the one session.
      unfoldable pub run_tests_v4 :
          List (World → World) → SessionV4 f → World → Option (SessionV4 f × World)
      unfolding run_test_v4 run_next
      run_tests_v4 [] s w = some (s, w)
      run_tests_v4 (body ∷ bodies) s w =
          run_next (λ s1 w1. run_tests_v4 bodies s1 w1) (run_test_v4 body s w)
