-- ===== src/Engine/Keeps.antt =====
-- pkg/slo/engine/engine.go: what a run leaves as it is.
use mathlib.Core.Path.{subst}
use my_operator.Base.{
  true, false, ◌||◌, Option, none, some, ◌≡◌, refl, sym, inl, inr, Bool-cases, Text, Result, ok,
  err,
}
use my_operator.Engine.{
  Env, Sample, ExecuteRequest, not_set, execute, after_start, after_end, fetch_failed,
  evaluate_and_write, written,
}
use my_operator.Float64.{Float64}
use my_operator.Summary.{Time, Summary, is_zero}

module _ (f : Float64) (env : Env f) (P : env.World → Type 0) where
  open env use {World, fetch, write, now}

  -- What the calls of a run that writes to `path` keep.
  abbrev pub KeptByCalls : Text → Type 0
  KeptByCalls path =
      ((t : Time) (w : World) → P w → P (fetch t w).1)
      × ((w : World) → P w → P (now w).1)
      × ((sum : Summary f) (w : World) → P w → P (write path sum w).1)

  written-keeps :
      (sum : Summary f) (o : Option Text) (w : World) → P w → P (written f env sum o w).1
  unfolding written
  written-keeps sum none w p = p
  written-keeps sum (some e) w p = p

  after_end-keeps :
      (req : ExecuteRequest f) (start : Sample f) (end : Result Text (Sample f)) (w : World)
      → KeptByCalls req.out_path
      → P w
      → P (after_end f env req start end w).1
  unfolding after_end fetch_failed evaluate_and_write
  after_end-keeps req start (err e) w (a, b, c) p = c _ _ (b _ p)
  after_end-keeps req start (ok end) w (a, b, c) p = written-keeps _ _ _ (c _ _ (b _ p))

  after_start-keeps :
      (req : ExecuteRequest f) (start : Result Text (Sample f)) (w : World)
      → KeptByCalls req.out_path
      → P w
      → P (after_start f env req start w).1
  unfolding after_start fetch_failed
  after_start-keeps req (err e) w (a, b, c) p = c _ _ (b _ p)
  after_start-keeps req (ok start) w (a, b, c) p =
      after_end-keeps req start (fetch req.config.finished_at w).0 _ (a, b, c) (a _ _ p)

  execute_unset :
      (req : ExecuteRequest f) (w : World)
      → (is_zero req.config.started_at || is_zero req.config.finished_at) ≡ true
      → execute f env req w ≡ (err (not_set f env), w)
  unfolding execute
  execute_unset req w e = rw e refl

  execute_set :
      (req : ExecuteRequest f) (w : World)
      → (is_zero req.config.started_at || is_zero req.config.finished_at) ≡ false
      → execute f env req w
        ≡ after_start f env req (fetch req.config.started_at w).0 (fetch req.config.started_at w).1
  unfolding execute
  execute_set req w e = rw e refl

  -- What each fetch, each reading of the clock and each write to the request's path keeps, a run of
  -- `Execute` keeps: it touches the world in no other way.
  pub execute-keeps :
      (req : ExecuteRequest f) (w : World)
      → KeptByCalls req.out_path
      → P w
      → P (execute f env req w).1
  execute-keeps req w (a, b, c) p =
      elim (Bool-cases (is_zero req.config.started_at || is_zero req.config.finished_at)) [
        | inl e ↦ subst (λ o. P o.1) (sym (execute_unset req w e)) p
        | inr e ↦
            subst (λ o. P o.1) (sym (execute_set req w e))
              (after_start-keeps req (fetch req.config.started_at w).0 _ (a, b, c) (a _ _ p))
      ]
