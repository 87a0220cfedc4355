-- ===== src/Harness/Session.antt =====
-- test/e2e/harness/session_v4.go and attach_v4.go: a v4 session, from its inputs to the summary.
pub mod Paths
pub mod RunId
pub mod Ending
pub mod OnDisk
pub mod Fuel
use Prim.Native.Nat.{◌/◌}
use my_operator.Base.{
  ℕ, zero, suc, ◌-◌, ◌*◌, ltb, Bool, true, false, not, Option, none, some, List, [], ◌∷◌, ◌++◌,
  if◌then◌else◌, Text, codes, Result, ok, err,
}
use my_operator.Engine.{Env, ExecuteRequestV4, Outcome, inside_snapshot, execute_v4}
use my_operator.Float64.{Float64}
use my_operator.GoMap.{GoMap}
use my_operator.Harness.Presets.{default_v3_specs}
use my_operator.Harness.Sanitize.{sanitize_filename}
use my_operator.Spec.{SliSpec}
use my_operator.Summary.{Time, RunMode, RunConfig}
use my_operator.Tags.{auto_tags_v4, merge_tags_v4}
use my_operator.Text.{equal, trim_space}
use my_operator.Text.Decimal.{decimal}

-- What `os.Stat` finds at a path.
pub data Stat : Type 0 where
  exists not_exist : Stat
  failed : Text → Stat

-- The seconds from Go's zero time to 1970.
abbrev pub epoch : ℕ
epoch = 62135596800

-- `now().Unix()` in decimal, which is negative before 1970.
unfoldable pub unix_text : Time → Text
unfolding decimal
unix_text t =
    if ltb (t / 1000000000) epoch
    then codes "-" ++ decimal (epoch - t / 1000000000)
    else decimal (t / 1000000000 - epoch)

unfoldable pub local_run_id : Time → Text
unfolding unix_text
local_run_id now = codes "local-" ++ unix_text now

-- The inputs; `none` is the nil slice of specs.
pub record SessionV4Config (f : Float64) : Type 0 where
  pub namespace : Text
  pub metrics_service_name : Text
  pub test_case : Text
  pub suite : Text
  pub run_id : Text
  pub service_account_name : Text
  pub token : Text
  pub artifacts_dir : Text
  pub tags : GoMap Text
  pub specs : Option (List (SliSpec f))

-- The state; the port, the image, the timeouts and the writer are constants of `NewSessionV4`.
pub record SessionV4 (f : Float64) : Type 0 where
  pub config : SessionV4Config f
  pub run_id : Text
  pub tags : GoMap Text
  pub warnings : List Text
  pub specs : List (SliSpec f)
  pub started : Time

module _ (f : Float64) where
  unfoldable pub default_specs_v4 : Option (List (SliSpec f)) → List (SliSpec f)
  unfolding default_v3_specs
  default_specs_v4 (some specs) = specs
  default_specs_v4 none = default_v3_specs f

  -- The run ID of a session made at the time `now`.
  unfoldable pub run_id_of : Time → Text → Text
  unfolding local_run_id trim_space
  run_id_of now run_id = if equal (trim_space run_id) [] then local_run_id now else run_id

  unfoldable pub new_session_v4 : Time → SessionV4Config f → SessionV4 f
  unfolding run_id_of merge_tags_v4 auto_tags_v4 default_specs_v4
  new_session_v4 now cfg = record {
    config = cfg;
    run_id = run_id_of now cfg.run_id;
    tags = merge_tags_v4 cfg.tags (
        auto_tags_v4 (record {
          suite = cfg.suite;
          test_case = cfg.test_case;
          namespace = cfg.namespace;
          run_id = run_id_of now cfg.run_id;
        }));
    warnings = [];
    specs = default_specs_v4 cfg.specs;
    started = 0;
  }

  unfoldable pub should_write_artifacts : SessionV4 f → Bool
  should_write_artifacts s = not (equal s.config.artifacts_dir [])

  unfoldable pub add_warning : Text → SessionV4 f → SessionV4 f
  add_warning message s =
      if equal message [] then s else record s { warnings = s.warnings ++ message ∷ [] }

  unfoldable pub start : Time → SessionV4 f → SessionV4 f
  start now s = record s { started = now }

  -- The loop of `NextSummaryPath`, on what `os.Stat` finds; `none` is out of fuel.
  unfoldable pub probe : (Text → Stat) → Text → ℕ → ℕ → Text → Option (Result Text Text)
  unfolding decimal
  probe stat base zero i path = none
  probe stat base (suc fuel) i path =
      let next = probe stat base fuel (suc i) (base ++ (codes "-" ++ decimal i)) in
      elim (stat path) [ exists ↦ next | not_exist ↦ some (ok path) | failed e ↦ some (err e) ]

  -- `join` stands for `filepath.Join`.
  unfoldable pub next_summary_path :
      (Text → Text → Text) → (Text → Stat) → ℕ → SessionV4 f → Text → Option (Result Text Text)
  unfolding probe
  next_summary_path join stat fuel s filename =
      if equal s.config.artifacts_dir []
      then some (ok [])
      else probe stat (join s.config.artifacts_dir filename) fuel 1
          (join s.config.artifacts_dir filename)

  unfoldable pub summary_filename : SessionV4 f → Text
  unfolding sanitize_filename
  summary_filename s =
      codes "sli-summary.v3."
      ++ sanitize_filename s.run_id
      ++ codes "."
      ++ sanitize_filename s.config.test_case
      ++ codes ".json"

  module _ (env : Env f) (join : Text → Text → Text) (stat : Text → env.World → Stat) where
    open env use {World, now}

    unfoldable pub request : SessionV4 f → Time → Text → ExecuteRequestV4 f
    request s finished out_path = record {
      method = inside_snapshot;
      config = record {
        run_id = s.run_id;
        started_at = s.started;
        finished_at = finished;
        mode = record { location = []; trigger = [] };
        tags = s.tags;
        format = codes "v4";
        evidence_paths = [];
      };
      specs = s.specs;
      out_path = out_path;
    }

    unfoldable pub after_path :
        SessionV4 f → Time → Option (Result Text Text) → World → Option (Outcome f env)
    unfolding request execute_v4
    after_path s finished none w = none
    after_path s finished (some (err e)) w = some (err e, w)
    after_path s finished (some (ok path)) w = some (execute_v4 f env (request s finished path) w)

    -- `End`, whose fetcher is that of the environment; `none` is out of fuel.
    unfoldable pub end_session : ℕ → SessionV4 f → World → Option (Outcome f env)
    unfolding after_path next_summary_path summary_filename should_write_artifacts
    end_session fuel s w =
        let (finished, w1) = now w in
        after_path s finished
          (if should_write_artifacts s
            then next_summary_path join (λ path. stat path w1) fuel s (summary_filename s)
            else some (ok []))
          w1
