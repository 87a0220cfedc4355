-- ===== src/Engine/Runs.antt =====
-- pkg/slo/engine/engine.go and engine_v4.go: what a run returns and what it writes.
use my_operator.Base.{
  Bool, true, false, not, ◌||◌, Option, none, some, List, [], ◌∷◌, ◌++◌, map, ◌≡◌, refl, ap, arith,
  Text, codes, inl, inr, ◌⊎◌, Bool-cases, Option-cases, Result, ok, err,
}
use my_operator.Engine.{Sample, Env, ExecuteRequest, written, evaluate, execute}
use my_operator.Engine.Eval.{eval_sli}
use my_operator.Float64.{Float64}
use my_operator.Spec.{SliSpec}
use my_operator.Summary.{Time, is_zero, Summary}

module _ (f : Float64) (env : Env f) where
  open env use {World, fetch, write, now}

  abbrev pub is_set : ExecuteRequest f → Bool
  is_set req = not (is_zero req.config.started_at || is_zero req.config.finished_at)

  -- The summary of a run whose snapshots are both there.
  abbrev pub full_summary : ExecuteRequest f → Sample f → Sample f → Time → Summary f
  full_summary req start end t = record {
    schema_version = codes "slo.v3";
    generated_at = t;
    config = req.config;
    results = map (λ s. eval_sli f s start.values end.values) req.specs;
    warnings = [];
  }

  -- The summary of a run that lacks a snapshot.
  abbrev pub warned_summary : ExecuteRequest f → Text → Time → Summary f
  warned_summary req message t = record {
    schema_version = codes "slo.v3";
    generated_at = t;
    config = req.config;
    results = [];
    warnings = message ∷ [];
  }

  evaluate-map :
      (specs : List (SliSpec f)) (start end : Sample f)
      → evaluate f env specs start end ≡ map (λ s. eval_sli f s start.values end.values) specs
  unfolding evaluate
  evaluate-map [] start end = refl
  evaluate-map (s ∷ specs) start end = rw (evaluate-map specs start end)

  abbrev pub Outcome : Type 0
  Outcome = Result Text (Summary f) × World

  -- What a run yields that has the summary `s`, on the error of the writer, or none.
  abbrev pub outcome_of : Summary f → Option Text → Result Text (Summary f)
  outcome_of s none = ok s
  outcome_of s (some e) = err e

  -- The outcome is what `s`, written to the request's path in the world `w`, leads to; `e` is the
  -- error of the run if the writer fails.
  abbrev pub Writes : ExecuteRequest f → Summary f → World → Outcome → Type 0
  Writes req s w o =
      (o.1 ≡ (write req.out_path s w).1) × (o.0 ≡ outcome_of s (write req.out_path s w).0)

  written-Writes :
      (req : ExecuteRequest f) (s : Summary f) (w : World)
      → Writes req s w (written f env s (write req.out_path s w).0 (write req.out_path s w).1)
  unfolding written
  written-Writes req s w = elim (Option-cases (write req.out_path s w).0) [
    | inl e ↦ rw e (refl, refl)
    | inr (x, e) ↦ rw e (refl, refl)
  ]

  module _ (req : ExecuteRequest f) (w : World) where
    -- One of the two fetches fails, in the order of the code; `message` is the warning, and `w'`
    -- the world behind the fetches.
    abbrev pub FetchFails : Text → World → Type 0
    FetchFails message w' =
        ((e : Text) × (fetch req.config.started_at w ≡ (err e, w'))
          × (message ≡ codes "fetch(start) failed: " ++ e))
        ⊎ ((start : Sample f) × (w1 : World) × (fetch req.config.started_at w ≡ (ok start, w1))
            × (e : Text) × (fetch req.config.finished_at w1 ≡ (err e, w'))
            × (message ≡ codes "fetch(end) failed: " ++ e))

    execute_fetch_failed :
        (message : Text) (w' : World)
        → is_set req ≡ true
        → FetchFails message w'
        → execute f env req w ≡ (
          ok (warned_summary req message (now w').0),
          (write req.out_path (warned_summary req message (now w').0) (now w').1).1,
        )
    unfolding execute
    execute_fetch_failed message w' set (inl (e, failed, m)) = rw (m, not_zero, failed)
      where
        not_zero : (is_zero req.config.started_at || is_zero req.config.finished_at) ≡ false
        not_zero = ground arith
    execute_fetch_failed message w' set (inr (start, w1, fetched, e, failed, m)) =
        rw (m, not_zero, fetched, failed)
      where
        not_zero : (is_zero req.config.started_at || is_zero req.config.finished_at) ≡ false
        not_zero = ground arith

    pub execute_full :
        (start end : Sample f) (w1 w2 : World)
        → is_set req ≡ true
        → fetch req.config.started_at w ≡ (ok start, w1)
        → fetch req.config.finished_at w1 ≡ (ok end, w2)
        → Writes req (full_summary req start end (now w2).0) (now w2).1 (execute f env req w)
    unfolding execute
    execute_full start end w1 w2 set e1 e2 =
        rw (not_zero, e1, e2, evaluate-map)
          (written-Writes req (full_summary req start end (now w2).0) (now w2).1)
      where
        not_zero : (is_zero req.config.started_at || is_zero req.config.finished_at) ≡ false
        not_zero = ground arith

    -- A run that lacks a time.
    abbrev pub Unset : Outcome → Type 0
    Unset o = (is_set req ≡ false) × (o ≡ (err (codes "StartedAt/FinishedAt must be set"), w))

    -- A run whose first or second fetch fails.
    abbrev pub Warned : Outcome → Type 0
    Warned o =
        (is_set req ≡ true)
        × (message : Text) × (w' : World) × FetchFails message w'
        × (o ≡ (
          ok (warned_summary req message (now w').0),
          (write req.out_path (warned_summary req message (now w').0) (now w').1).1,
        ))

    -- A run that has both snapshots.
    abbrev pub Full : Outcome → Type 0
    Full o =
        (is_set req ≡ true)
        × (start end : Sample f) × (w1 w2 : World) × (fetch req.config.started_at w
            ≡ (ok start, w1))
        × (fetch req.config.finished_at w1 ≡ (ok end, w2))
        × Writes req (full_summary req start end (now w2).0) (now w2).1 o

    answer-cases :
        (r : Result Text (Sample f)) → ((x : Sample f) × (r ≡ ok x)) ⊎ ((e : Text) × (r ≡ err e))
    answer-cases (ok x) = inl (x, refl)
    answer-cases (err e) = inr (e, refl)

    execute-Unset :
        (is_zero req.config.started_at || is_zero req.config.finished_at) ≡ true
        → Unset (execute f env req w)
    unfolding execute
    execute-Unset h = (ground arith, rw h refl)

    execute_set : is_set req ≡ true → Warned (execute f env req w) ⊎ Full (execute f env req w)
    execute_set set =
        let first = fetch req.config.started_at w in
        let second = fetch req.config.finished_at first.1 in
        elim (answer-cases first.0) [
          | inr (e, h) ↦
              let fails = inl (e, ap (λ r. (r, first.1)) h, refl) in
              inl (set, _, first.1, fails, execute_fetch_failed _ first.1 set fails)
          | inl (start, h) ↦
              let began = ap (λ r. (r, first.1)) h in
              elim (answer-cases second.0) [
                | inr (e, k) ↦
                    let fails = inr (start, first.1, began, e, ap (λ r. (r, second.1)) k, refl) in
                    inl (set, _, second.1, fails, execute_fetch_failed _ second.1 set fails)
                | inl (end, k) ↦
                    let ended = ap (λ r. (r, second.1)) k in
                    inr (
                      set,
                      start,
                      end,
                      first.1,
                      second.1,
                      began,
                      ended,
                      execute_full start end first.1 second.1 set began ended,
                    )
              ]
        ]

    -- Every run of `Execute` is one of three. Where a time is not set, it is an error, and nothing
    -- is touched. Where a fetch fails, it is no error, whatever the writer returns: behind that fetch
    -- it writes, once, and returns the summary of the schema slo.v3 at the time of the clock whose
    -- one warning is the fetch's error, and which has no results, however many SLIs were requested.
    -- Where both fetches succeed, it writes once, behind them, the summary with one result for each
    -- requested SLI, in order, and no warnings, and returns that summary, or the writer's error.
    pub execute-cases :
        Unset (execute f env req w) ⊎ (Warned (execute f env req w) ⊎ Full (execute f env req w))
    execute-cases =
        elim (Bool-cases (is_zero req.config.started_at || is_zero req.config.finished_at)) [
          | inl unset ↦ inl (execute-Unset unset)
          | inr set ↦ inr (execute_set (ground arith))
        ]
