-- ===== src/Engine.antt =====
-- pkg/slo/engine: one run of the SLO engine. The fetcher, the writer and the clock are interfaces
-- of the source (`MetricsFetcher`, `Writer`, `time.Now`), so they are parameters here, which act on
-- a world; an error is the text that `%v` prints.
pub mod Eval
pub mod Runs
pub mod Keeps
pub mod OnDisk
use my_operator.Base.{
  Bool, true, false, ◌||◌, Option, none, some, List, [], ◌∷◌, ◌++◌, map, if◌then◌else◌, Text, codes,
  Result, ok, err,
}
use my_operator.Engine.Eval.{eval_sli}
use my_operator.Float64.{Float64}
use my_operator.GoMap.{GoMap}
use my_operator.Spec.{SliSpec}
use my_operator.Summary.{Time, is_zero, RunMode, RunConfig, SliResult, Summary}
use my_operator.Text.{equal}

-- `fetch.Sample`
pub record Sample (f : Float64) : Type 0 where
  pub at : Time
  pub values : GoMap f.F

-- What an engine is made of (`New`), and the clock. The logger is never called.
pub record Env (f : Float64) : Type 1 where
  pub World : Type 0
  pub fetch : Time → World → Result Text (Sample f) × World
  pub write : Text → Summary f → World → Option Text × World
  pub now : World → Time × World

pub record ExecuteRequest (f : Float64) : Type 0 where
  pub config : RunConfig
  pub specs : List (SliSpec f)
  pub out_path : Text

pub record ExecuteRequestV4 (f : Float64) : Type 0 where
  pub method : Text
  pub config : RunConfig
  pub specs : List (SliSpec f)
  pub out_path : Text

-- types_v4.go; a method is any text.
abbrev pub inside_snapshot : Text
inside_snapshot = codes "InsideSnapshot"

abbrev pub inside_annotation : Text
inside_annotation = codes "InsideAnnotation"

abbrev pub outside_snapshot : Text
outside_snapshot = codes "OutsideSnapshot"

unfoldable pub map_method_to_run_mode_v4 : Text → RunMode
map_method_to_run_mode_v4 method =
    if equal method inside_annotation
    then record { location = codes "inside"; trigger = codes "annotation" }
    else if equal method outside_snapshot
    then record { location = codes "outside"; trigger = codes "none" }
    else record { location = codes "inside"; trigger = codes "none" }

module _ (f : Float64) (env : Env f) where
  open env use {World, fetch, write, now}

  -- The error is the text of `fmt.Errorf`, or that of the writer.
  abbrev pub Outcome : Type 0
  Outcome = Result Text (Summary f) × World

  abbrev pub empty_summary : RunConfig → List Text → Time → Summary f
  empty_summary cfg warnings generated_at = record {
    schema_version = codes "slo.v3";
    generated_at = generated_at;
    config = cfg;
    results = [];
    warnings = warnings;
  }

  -- A failed fetch: the summary with a warning is written, and the writer's error is dropped.
  fetch_failed : ExecuteRequest f → Text → World → Outcome
  fetch_failed req warning w =
      let (t, w1) = now w in
      let s = empty_summary req.config (warning ∷ []) t in
      let (dropped, w2) = write req.out_path s w1 in (ok s, w2)

  written : Summary f → Option Text → World → Outcome
  written sum none w = (ok sum, w)
  written sum (some e) w = (err e, w)

  evaluate : List (SliSpec f) → Sample f → Sample f → List (SliResult f)
  evaluate [] start end = []
  evaluate (s ∷ specs) start end = eval_sli f s start.values end.values ∷ evaluate specs start end

  -- Behind both fetches.
  evaluate_and_write : ExecuteRequest f → Sample f → Sample f → World → Outcome
  unfolding written evaluate
  evaluate_and_write req start end w =
      let (t, w1) = now w in
      let sum = record (empty_summary req.config [] t) { results = evaluate req.specs start end } in
      let (failed, w2) = write req.out_path sum w1 in written sum failed w2

  after_end : ExecuteRequest f → Sample f → Result Text (Sample f) → World → Outcome
  unfolding fetch_failed evaluate_and_write
  after_end req start (err e) w = fetch_failed req (codes "fetch(end) failed: " ++ e) w
  after_end req start (ok end) w = evaluate_and_write req start end w

  after_start : ExecuteRequest f → Result Text (Sample f) → World → Outcome
  unfolding after_end
  after_start req (err e) w = fetch_failed req (codes "fetch(start) failed: " ++ e) w
  after_start req (ok start) w =
      let (end, w1) = fetch req.config.finished_at w in after_end req start end w1

  abbrev pub not_set : Text
  not_set = codes "StartedAt/FinishedAt must be set"

  unfoldable pub execute : ExecuteRequest f → World → Outcome
  unfolding after_start
  execute req w =
      if is_zero req.config.started_at || is_zero req.config.finished_at
      then (err not_set, w)
      else (let (start, w1) = fetch req.config.started_at w in after_start req start w1)

  -- `ExecuteV4`: the defaults of v4 in front of `Execute`.
  unfoldable pub v4_request : ExecuteRequestV4 f → ExecuteRequest f
  v4_request req = record {
    config = record req.config {
      format = if equal req.config.format [] then codes "v4" else req.config.format;
      mode = map_method_to_run_mode_v4 req.method;
    };
    specs = req.specs;
    out_path = req.out_path;
  }

  unfoldable pub execute_v4 : ExecuteRequestV4 f → World → Outcome
  unfolding v4_request
  execute_v4 req w = execute (v4_request req) w
