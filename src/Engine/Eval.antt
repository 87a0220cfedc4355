-- ===== src/Engine/Eval.antt =====
-- pkg/slo/engine/engine.go: `evalSLI`, `judge` and `compare`.
pub mod Judge
pub mod Inputs
use my_operator.Base.{
  Bool, true, false, not, ◌&&◌, ◌||◌, Option, none, some, List, [], ◌∷◌, ◌++◌, if◌then◌else◌, Text,
  codes,
}
use my_operator.Float64.{Float64}
use my_operator.GoMap.{GoMap, lookup}
use my_operator.Spec.{
  MetricRef, compute_single, compute_delta, level_warn, level_fail, op_le, op_ge, op_lt, op_gt,
  op_eq, Rule, JudgeSpec, SliSpec,
}
use my_operator.Summary.{Status, pass, warn, fail, skip, SliResult}
use my_operator.Text.{equal}

module _ (f : Float64) where
  open f use {F, zero_float, add, sub, le, lt, eq, show}

  unfoldable pub compare : F → Text → F → Bool
  compare v op target =
      if equal op op_le
      then le v target
      else if equal op op_ge
      then le target v
      else if equal op op_lt
      then lt v target
      else if equal op op_gt
      then lt target v
      else if equal op op_eq
      then eq v target
      else false

  -- `fmt.Sprintf("rule fail: value %s %v", r.Op, r.Target)`, and with "warn".
  abbrev pub fail_reason : Rule f → Text
  fail_reason r = codes "rule fail: value " ++ (r.op ++ (codes " " ++ show r.target))

  abbrev pub warn_reason : Rule f → Text
  warn_reason r = codes "rule warn: value " ++ (r.op ++ (codes " " ++ show r.target))

  -- Behind the loop of `judge`.
  judge_end : Text → Status × Text
  judge_end [] = (pass, [])
  judge_end (c ∷ cs) = (warn, c ∷ cs)

  -- The loop of `judge`; `warning` is the variable `warn`.
  judge_from : F → Text → List (Rule f) → Status × Text
  unfolding judge_end
  judge_from v warning [] = judge_end warning
  judge_from v warning (r ∷ rules) =
      let same = judge_from v warning rules in
      let warned = judge_from v (warn_reason r) rules in
      if not (compare v r.op r.target)
      then same
      else if equal r.level level_fail
      then (fail, fail_reason r)
      else if equal r.level level_warn
      then warned
      else same

  unfoldable pub judge : F → List (Rule f) → Status × Text
  unfolding judge_from
  judge v rules = judge_from v [] rules

  -- The variables of the loop over the inputs.
  pub record Totals : Type 0 where
    pub used : List Text
    pub missing : List Text
    pub val_start : F
    pub val_end : F

  -- One round, on what the two snapshots hold for the input.
  unfoldable pub count_input : Totals → Text → Option F → Option F → Totals
  count_input t key (some a) (some b) = record t {
    used = t.used ++ key ∷ [];
    val_start = add t.val_start a;
    val_end = add t.val_end b;
  }
  count_input t key _ _ = record t { used = t.used ++ key ∷ []; missing = t.missing ++ key ∷ [] }

  unfoldable pub gather : GoMap F → GoMap F → Totals → List MetricRef → Totals
  unfolding count_input
  gather start end t [] = t
  gather start end t (i ∷ inputs) =
      gather start end (count_input t i.key (lookup i.key start) (lookup i.key end)) inputs

  abbrev pub no_totals : Totals
  no_totals = record { used = []; missing = []; val_start = zero_float; val_end = zero_float }

  -- The result with the identity of the definition, in the state that `evalSLI` starts from.
  abbrev pub base_result : SliSpec f → Totals → SliResult f
  base_result s t = record {
    id = s.id;
    title = s.title;
    unit = s.unit;
    kind = s.kind;
    description = s.description;
    value = none;
    fields = [];
    status = pass;
    reason = [];
    inputs_used = t.used;
    inputs_missing = t.missing;
  }

  -- From the computed value on.
  unfoldable pub judged : SliResult f → F → Option (JudgeSpec f) → SliResult f
  judged res value none = record res { value = some value }
  judged res value (some j) = record res {
    value = some value;
    status = (judge value j.rules).0;
    reason = (judge value j.rules).1;
  }

  -- The switch on the compute mode.
  unfoldable pub compute : SliSpec f → SliResult f → Totals → SliResult f
  unfolding judged
  compute s res t =
      if equal s.compute_mode compute_single
      then judged res t.val_start s.judge
      else if equal s.compute_mode compute_delta
      then (if lt (sub t.val_end t.val_start) zero_float
          then record res {
            value = some (sub t.val_end t.val_start);
            status = warn;
            reason = codes "delta < 0 (counter reset suspected)";
          }
          else judged res (sub t.val_end t.val_start) s.judge)
      else record res { status = skip; reason = codes "unknown compute mode" }

  unfoldable pub finish : SliSpec f → Totals → List Text → SliResult f
  unfolding compute
  finish s t (m ∷ ms) = record (base_result s t) {
    status = skip;
    reason = codes "missing input metrics";
  }
  finish s t [] = compute s (base_result s t) t

  unfoldable pub eval_sli : SliSpec f → GoMap F → GoMap F → SliResult f
  unfolding finish gather
  eval_sli s start end = let t = gather start end no_totals s.inputs in finish s t t.missing
