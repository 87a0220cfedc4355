-- ===== src/Spec.antt =====
-- pkg/slo/spec/spec.go: the declarative SLI definitions. The string types of the source (operators,
-- levels, compute modes) are texts here too: a value may be none of the constants.

pub mod Registry
pub mod Ops
use my_operator.Base.{
  Bool, true, false, ◌||◌, Option, none, some, List, [], ◌∷◌, if◌then◌else◌, Text, codes, Result,
  ok, err,
}
use my_operator.Float64.{Float64}
use my_operator.PromKey.{Labels, format}
use my_operator.Text.{equal, trim_space, to_lower}

pub record MetricRef : Type 0 where
  pub key : Text
  pub alias : Text

unfoldable pub unsafe_prom_key : Text → MetricRef
unsafe_prom_key key = record { key = key; alias = [] }

unfoldable pub prom_metric : Text → Labels → MetricRef
prom_metric name labels = record { key = format name labels; alias = [] }

abbrev pub compute_single : Text
compute_single = codes "single"

abbrev pub compute_delta : Text
compute_delta = codes "delta"

abbrev pub level_warn : Text
level_warn = codes "warn"

abbrev pub level_fail : Text
level_fail = codes "fail"

abbrev pub op_le : Text
op_le = codes "<="

abbrev pub op_ge : Text
op_ge = codes ">="

abbrev pub op_lt : Text
op_lt = codes "<"

abbrev pub op_gt : Text
op_gt = codes ">"

abbrev pub op_eq : Text
op_eq = codes "=="

-- The switch of `NormalizeOp`; `none` is `"", false`.
unfoldable pub op_of : Text → Option Text
op_of t =
    if equal t (codes "<=") || equal t (codes "=<")
    then some op_le
    else if equal t (codes ">=") || equal t (codes "=>")
    then some op_ge
    else if equal t (codes "<")
    then some op_lt
    else if equal t (codes ">")
    then some op_gt
    else if equal t (codes "==") || equal t (codes "=")
    then some op_eq
    else if equal t (codes "le") || equal t (codes "lte")
    then some op_le
    else if equal t (codes "ge") || equal t (codes "gte")
    then some op_ge
    else if equal t (codes "lt")
    then some op_lt
    else if equal t (codes "gt")
    then some op_gt
    else if equal t (codes "eq")
    then some op_eq
    else none

unfoldable pub normalize_op : Text → Option Text
unfolding op_of trim_space to_lower
normalize_op s = op_of (trim_space (to_lower s))

-- `UnmarshalText` on an operator `o`: the error quotes the text and leaves `o` as it was.
unmarshal_with : Text → Text → Option Text → Result Text (Unit {0}) × Text
unmarshal_with o text none = (err text, o)
unmarshal_with o text (some op) = (ok tt, op)

unfoldable pub unmarshal_text : Text → Text → Result Text (Unit {0}) × Text
unfolding unmarshal_with
unmarshal_text o text = unmarshal_with o text (normalize_op text)

module _ (f : Float64) where
  pub record Rule : Type 0 where
    pub metric : Text
    pub op : Text
    pub target : f.F
    pub level : Text

  pub record JudgeSpec : Type 0 where
    pub rules : List Rule

  pub record SliSpec : Type 0 where
    pub id : Text
    pub title : Text
    pub unit : Text
    pub kind : Text
    pub description : Text
    pub inputs : List MetricRef
    pub compute_mode : Text
    pub judge : Option JudgeSpec
