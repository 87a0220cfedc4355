-- ===== src/Summary.antt =====
-- pkg/slo/summary/schema.go and schema_v4.go: the summary that a run writes.
pub mod Writer
pub mod Format
use my_operator.Base.{ℕ, Option, none, some, List, [], ◌∷◌, Text, codes, Bool, ◌==◌}
use my_operator.Float64.{Float64}
use my_operator.GoMap.{GoMap, lookup, put}

pub data Status : Type 0 where
  pass warn fail skip : Status

-- A `time.Time`, in nanoseconds since Go's zero time.
abbrev pub Time : Type 0
Time = ℕ

unfoldable pub is_zero : Time → Bool
is_zero t = t == 0

pub record RunMode : Type 0 where
  pub location : Text
  pub trigger : Text

-- `summary.RunConfig`, and `engine.RunConfig`, which has the same fields.
pub record RunConfig : Type 0 where
  pub run_id : Text
  pub started_at : Time
  pub finished_at : Time
  pub mode : RunMode
  pub tags : GoMap Text
  pub format : Text
  pub evidence_paths : GoMap Text

module _ (f : Float64) where
  pub record SliResult : Type 0 where
    pub id : Text
    pub title : Text
    pub unit : Text
    pub kind : Text
    pub description : Text
    pub value : Option f.F
    pub fields : GoMap f.F
    pub status : Status
    pub reason : Text
    pub inputs_used : List Text
    pub inputs_missing : List Text

  pub record Summary : Type 0 where
    pub schema_version : Text
    pub generated_at : Time
    pub config : RunConfig
    pub results : List SliResult
    pub warnings : List Text

-- `EnsureV4Format` on a map whose values `V` hold the text "v4"; `none` is the nil map.
module _ {ℓ} {V : Type ℓ} (of_text : Text → V) where
  or_empty : Option (GoMap V) → GoMap V
  or_empty none = []
  or_empty (some m) = m

  ensure_at : GoMap V → Option V → GoMap V
  ensure_at config (some v) = config
  ensure_at config none = put (codes "format") (of_text (codes "v4")) config

  unfoldable pub ensure_v4_format : Option (GoMap V) → GoMap V
  unfolding or_empty ensure_at
  ensure_v4_format config = ensure_at (or_empty config) (lookup (codes "format") (or_empty config))
