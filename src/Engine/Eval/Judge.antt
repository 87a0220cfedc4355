-- ===== src/Engine/Eval/Judge.antt =====
-- pkg/slo/engine/engine.go: the verdict of `judge`, and the statuses of `evalSLI`.
use my_operator.Base.{
  Bool, ◌&&◌, Option, none, some, List, [], ◌∷◌, ◌≡◌, refl, ◌∙◌, if◌then◌else◌, Text, inl, inr,
  Bool-cases,
}
use my_operator.Engine.Eval.{compare, fail_reason, warn_reason, judge_end, judge_from, judge}
use my_operator.Float64.{Float64}
use my_operator.Spec.{level_warn, level_fail, Rule}
use my_operator.Summary.{Status, pass, warn, fail}
use my_operator.Text.{equal}

module _ (f : Float64) where
  open f use {F}

  -- The rule is of this level and its comparison holds.
  abbrev pub fires : F → Text → Rule f → Bool
  fires v level r = compare f v r.op r.target && equal r.level level

  abbrev pub first_firing : F → Text → List (Rule f) → Option (Rule f)
  first_firing v level [] = none
  first_firing v level (r ∷ rules) = if fires v level r then some r else first_firing v level rules

  abbrev or_else : Option (Rule f) → Rule f → Rule f
  or_else none r = r
  or_else (some s) r = s

  abbrev pub last_firing : F → Text → List (Rule f) → Option (Rule f)
  last_firing v level [] = none
  last_firing v level (r ∷ rules) =
      if fires v level r
      then some (or_else (last_firing v level rules) r)
      else last_firing v level rules

  -- What `judge` is to return: a failing rule dominates, and among the failing rules the first
  -- decides; without one, the last warning rule does.
  abbrev pub verdict : Option (Rule f) → Option (Rule f) → Status × Text
  verdict (some r) w = (fail, fail_reason f r)
  verdict none (some r) = (warn, warn_reason f r)
  verdict none none = (pass, [])

  abbrev with_warning : Text → Option (Rule f) → Option (Rule f) → Status × Text
  with_warning warning (some r) w = (fail, fail_reason f r)
  with_warning warning none (some r) = (warn, warn_reason f r)
  with_warning warning none none = judge_end f warning

  judge_from-with_warning :
      (v : F) (warning : Text) (rules : List (Rule f))
      → judge_from f v warning rules
        ≡ with_warning warning (first_firing v level_fail rules) (last_firing v level_warn rules)
  unfolding judge_from
  judge_from-with_warning v warning [] = refl
  judge_from-with_warning v warning (r ∷ rules) = elim (Bool-cases (compare f v r.op r.target)) [
    | inl holds ↦ elim (Bool-cases (equal r.level level_fail)) [
      | inl e ↦ rw (holds, e)
      | inr e ↦ elim (Bool-cases (equal r.level level_warn)) [
        | inl g ↦
            rw (holds, e, g)
              (judge_from-with_warning v (warn_reason f r) rules
                ∙ warned _ (first_firing v level_fail rules) (last_firing v level_warn rules))
        | inr g ↦ rw (holds, e, g) (judge_from-with_warning v warning rules)
      ]
    ]
    | inr e ↦ rw e (judge_from-with_warning v warning rules)
  ]
    where
      warned :
          (old : Text) (x w : Option (Rule f))
          → with_warning (warn_reason f r) x w ≡ with_warning old x (some (or_else w r))
      warned old (some s) w = refl
      warned old none (some s) = refl
      warned old none none = refl

  -- For every value and every list of rules, `judge` returns the verdict: fail with the reason of
  -- the first failing rule that fires, else warn with that of the last warning rule that fires,
  -- else pass with no reason.
  pub judge-verdict :
      (v : F) (rules : List (Rule f))
      → judge f v rules ≡ verdict (first_firing v level_fail rules) (last_firing v level_warn rules)
  unfolding judge
  judge-verdict v rules =
      judge_from-with_warning v [] rules
      ∙ no_warning (first_firing v level_fail rules) (last_firing v level_warn rules)
    where
      no_warning : (x w : Option (Rule f)) → with_warning [] x w ≡ verdict x w
      no_warning (some s) w = refl
      no_warning none (some s) = refl
      no_warning none none = refl
