-- ===== src/Harness/Hooks/Blind.antt =====
-- test/e2e/harness/attach.go: what the SLIs of a test see of the test. Both snapshots are fetched by
-- `Execute`, which `AfterEach` calls.
use mathlib.Core.Path.{subst}
use my_operator.Base.{
  true, false, inl, inr, Bool-cases, Option, none, some, List, [], map, ◌≡◌, not_or, refl, sym, ap,
  if◌then◌else◌, Text, ok, arith,
}
use my_operator.Engine.{Env, ExecuteRequest}
use my_operator.Engine.Eval.{eval_sli, judged}
use my_operator.Engine.Eval.Inputs.{sum_of, missing_keys, delta_of, eval_sli_delta}
use my_operator.Engine.Runs.{full_summary, execute_full}
use my_operator.Float64.{Float64}
use my_operator.GoMap.{GoMap}
use my_operator.Harness.Attach.{Session, engine_of, start, end_session}
use my_operator.Harness.Hooks.{Provided, made_session, before_each, end_of, after_each, run_test}
use my_operator.Spec.{SliSpec, JudgeSpec, compute_delta}
use my_operator.Summary.{Time, is_zero, Summary, SliResult}

module _ (f : Float64) where
  open f use {F, zero_float, sub, lt}

  judged-value :
      (res : SliResult f) (v : F) (j : Option (JudgeSpec f)) → (judged f res v j).value ≡ some v
  unfolding judged
  judged-value res v j = ground arith

  -- On two equal snapshots that hold all inputs of a delta definition, its value is a number minus
  -- itself.
  eval_sli_same :
      (m : GoMap F) (s : SliSpec f)
      → missing_keys f m m s.inputs ≡ []
      → s.compute_mode ≡ compute_delta
      → (eval_sli f s m m).value
        ≡ some (sub (sum_of f m m m zero_float s.inputs) (sum_of f m m m zero_float s.inputs))
  eval_sli_same m s h e = elim (Bool-cases (lt (delta_of f m m s) zero_float)) [
    | inl neg ↦ rw (eval_sli_delta f m m s h e, neg) refl
    | inr nonneg ↦
        rw (eval_sli_delta f m m s h e, nonneg) (judged-value _ (delta_of f m m s) s.judge)
  ]

  -- The SLIs, on one set of metrics as both snapshots.
  abbrev pub blind_results : GoMap F → List (SliSpec f) → List (SliResult f)
  blind_results m specs = map (λ s. eval_sli f s m m) specs

  module _ (env : Env f) (join : Text → Text → Text) (scrape : env.World → GoMap F) where
    open env use {World, fetch, now}

    pair : {A : Type 0} (x : A × World) (a : A) → x.0 ≡ a → x ≡ (a, x.1)
    pair (a, w) b e = rw e refl

    -- A fetch reads the metrics, and changes none.
    abbrev pub FetchReads : Type 0
    FetchReads =
        ((t : Time) (w : World) → (fetch t w).0 ≡ ok (record { at = t; values = scrape w }))
        × ((t : Time) (w : World) → scrape (fetch t w).1 ≡ scrape w)

    -- The run that `End` asks of the engine for the session `s`, finished at `t`.
    abbrev pub request_of : Session f → Time → ExecuteRequest f
    request_of s t = record {
      config = record {
        run_id = s.run_id;
        started_at = s.started;
        finished_at = t;
        mode = s.mode;
        tags = s.tags;
        format = [];
        evidence_paths = [];
      };
      specs = s.specs;
      out_path = s.out_path;
    }

    -- The writer of the session's engine: that of the environment where there is a directory for
    -- artifacts, else the one that writes nothing.
    abbrev pub writer_of : Session f → Text → Summary f → World → Option Text × World
    writer_of s = if s.writes then env.write else (λ path sum w. (none, w))

    -- The world `v` is what the session's writer makes of a summary with these results.
    abbrev pub WritesResults : Session f → List (SliResult f) → World → Type 0
    WritesResults s results v =
        (sum : Summary f) × (w : World) × (sum.results ≡ results)
        × (v ≡ (writer_of s s.out_path sum w).1)

    end_blind :
        (s : Session f) (w : World)
        → FetchReads
        → is_zero s.started ≡ false
        → is_zero (now w).0 ≡ false
        → WritesResults s (blind_results (scrape (now w).1) s.specs) (end_session f env s w).1
    unfolding end_session engine_of
    end_blind s w (reads, keeps) a b =
        let t = (now w).0 in
        let first = fetch s.started (now w).1 in
        let second = fetch t first.1 in
        let wrote =
          execute_full f (engine_of f env s) (request_of s t) (now w).1
            (record { at = s.started; values = scrape (now w).1 })
            (record { at = t; values = scrape first.1 }) first.1 second.1 (not_or _ _ a b)
            (pair first _ (reads s.started (now w).1)) (pair second _ (reads t first.1)) in
        (
          full_summary f (engine_of f env s) (request_of s t)
              (record { at = s.started; values = scrape (now w).1 })
              (record { at = t; values = scrape first.1 }) (now second.1).0,
          (now second.1).1,
          ap (λ m. map (λ x. eval_sli f x (scrape (now w).1) m) s.specs)
              (keeps s.started (now w).1),
          wrote.0,
        )

    abbrev pub started_session : Provided f → World → Session f
    started_session p w = start f (now w).0 (made_session f join p)

    -- The clock never shows Go's zero time.
    abbrev pub ClockIsSet : Type 0
    ClockIsSet = (w : World) → is_zero (now w).0 ≡ false

    run_test_enabled :
        (p : Provided f) (body : World → World) (w : World)
        → p.hdeps.enabled ≡ true
        → run_test f env join p body w
          ≡ (end_session f env (started_session p w) (body (now w).1)).1
    unfolding run_test before_each after_each end_of
    run_test_enabled p body w on = rw on refl

    started_set :
        (p : Provided f) (w : World) → ClockIsSet → is_zero (started_session p w).started ≡ false
    unfolding start
    started_set p w set = set w

    -- Where a fetch only reads the metrics, the hooks of an enabled test, whatever the test does,
    -- write the summary in which each SLI is evaluated on twice the metrics that the test leaves,
    -- and nothing of the metrics in front of the test: a delta never measures the test.
    pub run_test_blind :
        (p : Provided f) (body : World → World) (w : World)
        → p.hdeps.enabled ≡ true
        → FetchReads
        → ClockIsSet
        → WritesResults
            (started_session p w)
            (blind_results (scrape (now (body (now w).1)).1) (started_session p w).specs)
            (run_test f env join p body w)
    run_test_blind p body w on reads set =
        subst
          (WritesResults (started_session p w)
            (blind_results (scrape (now (body (now w).1)).1) (started_session p w).specs))
          (sym (run_test_enabled p body w on))
          (end_blind (started_session p w) (body (now w).1) reads (started_set p w set)
            (set (body (now w).1)))
